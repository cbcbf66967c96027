-- ===== src/Client/Command/Session.antt =====
-- client.cc: the loops of the client, and the assertion of `run_cmd`.
use hare_mq.Base.{
  ◌≡◌, ◌≢◌, refl, Bool, true, false, List, [], ◌∷◌, ◌++◌, some, Text, codes, text_discrete,
  ℕ_discrete, text_eq, arith, Option-cases, inl, inr,
}
use hare_mq.Split.{Splitter, All}
use hare_mq.Client.Channel.{Channel}
use hare_mq.Client.Command.Args.{flag, parse_args, exchange_type}
use hare_mq.Client.Command.{
  Action, asserts, valid_cmds, publish_loop, bind_cmd, unbind_cmd, delete_exchange_cmd,
  delete_queue_cmd, publish_cmd, subscribe_cmd, declare_queue_with, declare_queue_cmd,
  declare_typed, declare_exchange_with, declare_exchange_cmd, run_cmd,
}
use hare_mq.Proto.{ExchangeType, unknown_type, direct, fanout, topic}

-- `publish_mode` publishes the lines of the input in their order, up to the first line "quit", and
-- leaves the lines behind it.
pub publish_loop-quit :
    (mesgs lines : List Text)
    → All (λ m. m ≢ codes "quit") mesgs
    → publish_loop true (mesgs ++ codes "quit" ∷ lines) ≡ some (mesgs, lines)
unfolding publish_loop text_discrete ℕ_discrete
publish_loop-quit [] lines a = refl
publish_loop-quit (m ∷ mesgs) lines a =
    let differ : text_eq m (codes "quit") ≡ false = ground (arith, a.0) in
    rw (differ, publish_loop) (rw (publish_loop-quit mesgs lines a.1, publish_loop) refl)

unfoldable pub is_assert : Action → Bool
is_assert asserts = true
is_assert _ = false

bind_cmd-goes :
    (ch : Channel) (rid : Text) (ws : List Text) → is_assert (bind_cmd ch rid ws) ≡ false
unfolding is_assert bind_cmd
bind_cmd-goes ch rid [] = refl
bind_cmd-goes ch rid (a ∷ []) = refl
bind_cmd-goes ch rid (a ∷ b ∷ []) = refl
bind_cmd-goes ch rid (a ∷ b ∷ c ∷ []) = refl
bind_cmd-goes ch rid (a ∷ b ∷ c ∷ d ∷ ws) = refl

unbind_cmd-goes :
    (ch : Channel) (rid : Text) (ws : List Text) → is_assert (unbind_cmd ch rid ws) ≡ false
unfolding is_assert unbind_cmd
unbind_cmd-goes ch rid [] = refl
unbind_cmd-goes ch rid (a ∷ []) = refl
unbind_cmd-goes ch rid (a ∷ b ∷ []) = refl
unbind_cmd-goes ch rid (a ∷ b ∷ c ∷ ws) = refl

delete_exchange_cmd-goes :
    (ch : Channel) (rid : Text) (ws : List Text) → is_assert (delete_exchange_cmd ch rid ws) ≡ false
unfolding is_assert delete_exchange_cmd
delete_exchange_cmd-goes ch rid [] = refl
delete_exchange_cmd-goes ch rid (a ∷ []) = refl
delete_exchange_cmd-goes ch rid (a ∷ b ∷ ws) = refl

delete_queue_cmd-goes :
    (ch : Channel) (rid : Text) (ws : List Text) → is_assert (delete_queue_cmd ch rid ws) ≡ false
unfolding is_assert delete_queue_cmd
delete_queue_cmd-goes ch rid [] = refl
delete_queue_cmd-goes ch rid (a ∷ []) = refl
delete_queue_cmd-goes ch rid (a ∷ b ∷ ws) = refl

publish_cmd-goes :
    (repeated : Bool) (uuid : Text) (ws : List Text)
    → is_assert (publish_cmd repeated uuid ws) ≡ false
unfolding is_assert publish_cmd
publish_cmd-goes repeated uuid [] = refl
publish_cmd-goes repeated uuid (a ∷ []) = refl
publish_cmd-goes repeated uuid (a ∷ b ∷ []) = refl
publish_cmd-goes repeated uuid (a ∷ b ∷ c ∷ []) = refl
publish_cmd-goes repeated uuid (a ∷ b ∷ c ∷ d ∷ ws) = refl

subscribe_word-goes : (a b c : Text) → is_assert (subscribe_cmd (a ∷ b ∷ c ∷ [])) ≡ false
unfolding is_assert subscribe_cmd
subscribe_word-goes a b c = elim (Option-cases (flag c)) [
  | inl e ↦ rw (e, subscribe_cmd) refl
  | inr (x, e) ↦ rw (e, subscribe_cmd) refl
]

subscribe_cmd-goes : (ws : List Text) → is_assert (subscribe_cmd ws) ≡ false
unfolding is_assert subscribe_cmd
subscribe_cmd-goes [] = refl
subscribe_cmd-goes (a ∷ []) = refl
subscribe_cmd-goes (a ∷ b ∷ []) = refl
subscribe_cmd-goes (a ∷ b ∷ c ∷ []) = subscribe_word-goes a b c
subscribe_cmd-goes (a ∷ b ∷ c ∷ d ∷ ws) = refl

declare_queue_with-goes :
    (split : Splitter) (ch : Channel) (rid name b c d : Text) (args : List Text)
    → is_assert (declare_queue_with split ch rid name b c d args) ≡ false
unfolding is_assert declare_queue_with
declare_queue_with-goes split ch rid name b c d args = elim (Option-cases (flag b)) [
  | inl e ↦ rw (e, declare_queue_with) refl
  | inr (x, e) ↦
      rw (e, declare_queue_with)
        (elim (Option-cases (flag c)) [
          | inl f ↦ rw (f, declare_queue_with) refl
          | inr (y, f) ↦
              rw (f, declare_queue_with)
                (elim (Option-cases (flag d)) [
                  | inl g ↦ rw (g, declare_queue_with) refl
                  | inr (z, g) ↦
                      rw (g, declare_queue_with)
                        (elim (Option-cases (parse_args split args)) [
                          | inl h ↦ rw (h, declare_queue_with) refl
                          | inr (m, h) ↦ rw (h, declare_queue_with) refl
                        ])
                ])
        ])
]

declare_queue_cmd-goes :
    (split : Splitter) (ch : Channel) (rid : Text) (ws : List Text)
    → is_assert (declare_queue_cmd split ch rid ws) ≡ false
unfolding is_assert declare_queue_cmd
declare_queue_cmd-goes split ch rid [] = refl
declare_queue_cmd-goes split ch rid (a ∷ []) = refl
declare_queue_cmd-goes split ch rid (a ∷ b ∷ []) = refl
declare_queue_cmd-goes split ch rid (a ∷ b ∷ c ∷ []) = refl
declare_queue_cmd-goes split ch rid (a ∷ b ∷ c ∷ d ∷ []) =
    declare_queue_with-goes split ch rid a b c d []
declare_queue_cmd-goes split ch rid (a ∷ b ∷ c ∷ d ∷ e ∷ []) =
    declare_queue_with-goes split ch rid a b c d (e ∷ [])
declare_queue_cmd-goes split ch rid (a ∷ b ∷ c ∷ d ∷ e ∷ f ∷ ws) = refl

declare_typed-goes :
    (split : Splitter) (ch : Channel) (rid name : Text) (t : ExchangeType) (c d : Text)
    (args : List Text)
    → is_assert (declare_typed split ch rid name t c d args) ≡ false
unfolding is_assert declare_typed
declare_typed-goes split ch rid name t c d args = elim (Option-cases (flag c)) [
  | inl f ↦ rw (f, declare_typed) refl
  | inr (y, f) ↦
      rw (f, declare_typed)
        (elim (Option-cases (flag d)) [
          | inl g ↦ rw (g, declare_typed) refl
          | inr (z, g) ↦
              rw (g, declare_typed)
                (elim (Option-cases (parse_args split args)) [
                  | inl h ↦ rw (h, declare_typed) refl
                  | inr (m, h) ↦ rw (h, declare_typed) refl
                ])
        ])
]

declare_exchange_with-goes :
    (split : Splitter) (ch : Channel) (rid name b c d : Text) (args : List Text)
    → is_assert (declare_exchange_with split ch rid name b c d args) ≡ false
unfolding is_assert declare_exchange_with
declare_exchange_with-goes split ch rid name b c d args = go (exchange_type b) refl
  where
    go :
        (t : ExchangeType)
        → exchange_type b ≡ t
        → is_assert (declare_exchange_with split ch rid name b c d args) ≡ false
    go unknown_type e = rw (e, declare_exchange_with) refl
    go direct e =
        rw (e, declare_exchange_with) (declare_typed-goes split ch rid name direct c d args)
    go fanout e =
        rw (e, declare_exchange_with) (declare_typed-goes split ch rid name fanout c d args)
    go topic e = rw (e, declare_exchange_with) (declare_typed-goes split ch rid name topic c d args)

declare_exchange_cmd-goes :
    (split : Splitter) (ch : Channel) (rid : Text) (ws : List Text)
    → is_assert (declare_exchange_cmd split ch rid ws) ≡ false
unfolding is_assert declare_exchange_cmd declare_exchange_with
declare_exchange_cmd-goes split ch rid [] = refl
declare_exchange_cmd-goes split ch rid (a ∷ []) = refl
declare_exchange_cmd-goes split ch rid (a ∷ b ∷ []) = refl
declare_exchange_cmd-goes split ch rid (a ∷ b ∷ c ∷ []) = refl
declare_exchange_cmd-goes split ch rid (a ∷ b ∷ c ∷ d ∷ []) =
    declare_exchange_with-goes split ch rid a b c d []
declare_exchange_cmd-goes split ch rid (a ∷ b ∷ c ∷ d ∷ e ∷ []) =
    declare_exchange_with-goes split ch rid a b c d (e ∷ [])
declare_exchange_cmd-goes split ch rid (a ∷ b ∷ c ∷ d ∷ e ∷ f ∷ ws) = refl

-- A valid command runs into the assertion exactly if it is "exit", which only the loop of `run`
-- takes out before, and `run_config` does not.
pub run_cmd-asserts :
    (split : Splitter) (ch : Channel) (rid uuid : Text) (ws : List Text)
    → All
        (λ cmd. is_assert (run_cmd split ch rid uuid cmd ws) ≡ text_eq cmd (codes "exit"))
        valid_cmds
unfolding run_cmd is_assert text_discrete ℕ_discrete
run_cmd-asserts split ch rid uuid ws = (
  subscribe_cmd-goes ws,
  (
    publish_cmd-goes false uuid ws,
    (
      publish_cmd-goes true uuid ws,
      (
        refl,
        (
          declare_exchange_cmd-goes split ch rid ws,
          (
            declare_queue_cmd-goes split ch rid ws,
            (
              delete_exchange_cmd-goes ch rid ws,
              (
                delete_queue_cmd-goes ch rid ws,
                (
                  bind_cmd-goes ch rid ws,
                  (unbind_cmd-goes ch rid ws, (refl, (refl, (refl, (refl, (refl, tt)))))),
                ),
              ),
            ),
          ),
        ),
      ),
    ),
  ),
)
