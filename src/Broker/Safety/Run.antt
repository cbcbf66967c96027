-- ===== src/Broker/Safety/Run.antt =====
-- broker_server.hpp: whatever events come, the server handles them.
use mathlib.Core.Option.{some-injective}
use hare_mq.Base.{
  ◌++◌, ℕ, ◌≡◌, refl, sym, ◌∙◌, List, [], ◌∷◌, Option, none, some, Text, text_discrete, ℕ_discrete,
  assign, erase, find_cases, Option-cases, inl, inr, subst,
}
use hare_mq.Files.{Files}
use hare_mq.Message.Mapper.{IsCodec}
use hare_mq.VirtualHost.{Env, Host, open_host}
use hare_mq.VirtualHost.Safety.{NamedFiles}
use hare_mq.VirtualHost.Sound.{HostSound, open_host-Sound}
use hare_mq.VirtualHost.Safety.Start.{RecoverableIn}
use hare_mq.Channel
use hare_mq.Channel.{Channel, Shared}
use hare_mq.Broker.{
  Request, Event, connected, disconnected, open_channel, close_channel, request, unknown_message,
  run_task, Channels, Broker, put_channels, open_in, close_in, destroy_each, dispatch, run_first,
  step, start,
}
use hare_mq.Broker.Safety.{SharedAgrees, AdmissibleRequest, handle-Agrees, consume-Agrees}

module _ (env : Env) where
  -- What is published can be stored.
  abbrev pub AdmissibleEvent : Broker env → Event → Type 0
  AdmissibleEvent b (request conn rid cid req) = AdmissibleRequest env b.shared req
  AdmissibleEvent b (connected conn) = Unit
  AdmissibleEvent b (disconnected conn) = Unit
  AdmissibleEvent b (open_channel conn rid cid) = Unit
  AdmissibleEvent b (close_channel conn rid cid) = Unit
  AdmissibleEvent b (unknown_message conn) = Unit
  AdmissibleEvent b run_task = Unit

  -- The events one after the other; `none` if an assertion fails.
  unfoldable pub run : Broker env → List Event → Option (Broker env)
  unfolding step
  run b [] = some b
  run b (ev ∷ evs) = elim (step env b ev) [ none ↦ none | some b' ↦ run b' evs ]

  -- Each event is admissible when its turn comes.
  abbrev pub AllAdmissible : Broker env → List Event → Type 0
  AllAdmissible b [] = Unit
  AllAdmissible b (ev ∷ evs) =
      AdmissibleEvent b ev × ((b' : Broker env) → step env b ev ≡ some b' → AllAdmissible b' evs)

  pub AllAdmissible-append :
      (evs rest : List Event) (b b' : Broker env)
      → AllAdmissible b evs
      → run b evs ≡ some b'
      → AllAdmissible b' rest
      → AllAdmissible b (evs ++ rest)
  unfolding run
  AllAdmissible-append [] rest b b' ok e later =
      subst (λ r. AllAdmissible r rest) (sym (some-injective _ _ e)) later
  AllAdmissible-append (ev ∷ evs) rest b b' (now, ok) e later =
      (now, λ b₁ e₁. AllAdmissible-append evs rest b₁ b' (ok b₁ e₁) (rw (e₁, run) at e) later)

  abbrev pub BrokerAgrees : Broker env → Type 0
  BrokerAgrees b = SharedAgrees env b.shared

  destroy-host : (s : Shared env) (ch : Channel) → (Channel.destroy env s ch).host ≡ s.host
  unfolding Channel.destroy
  destroy-host s ch = elim (Option-cases ch.consumer) [
    | inl e ↦ rw (e, Channel.destroy) refl
    | inr (c, e) ↦ rw (e, Channel.destroy) refl
  ]

  destroy_each-host :
      (s : Shared env) (channels : Channels) → (destroy_each env s channels).host ≡ s.host
  unfolding destroy_each
  destroy_each-host s [] = refl
  destroy_each-host s ((cid, ch) ∷ channels) =
      destroy_each-host (Channel.destroy env s ch) channels ∙ destroy-host s ch

  open_in-host :
      (b : Broker env) (conn : ℕ) (channels : Channels) (rid cid : Text)
      → (open_in env b conn channels rid cid).shared.host ≡ b.shared.host
  unfolding open_in Channel.send
  open_in-host b conn channels rid cid = elim (find_cases text_discrete cid channels) [
    | inl e ↦ rw (e, open_in) refl
    | inr (ch, e) ↦ rw (e, open_in) refl
  ]

  close_in-host :
      (b : Broker env) (conn : ℕ) (channels : Channels) (rid cid : Text)
      → (close_in env b conn channels rid cid).shared.host ≡ b.shared.host
  unfolding close_in Channel.send
  close_in-host b conn channels rid cid = elim (find_cases text_discrete cid channels) [
    | inl e ↦ rw (e, close_in) refl
    | inr (ch, e) ↦ rw (e, close_in) (destroy-host b.shared ch)
  ]

module _ (env : Env) (law : IsCodec env.codec) where
  abbrev Steps : Broker env → Option (Broker env) → Type 0
  Steps b o = (b' : Broker env) × (o ≡ some b') × BrokerAgrees env b'

  same_host :
      (b b' : Broker env)
      → b'.shared.host ≡ b.shared.host
      → BrokerAgrees env b
      → BrokerAgrees env b'
  same_host b b' e a = subst (HostSound env) (sym e) a

  dispatch-Agrees :
      (b : Broker env) (conn : ℕ) (rid cid : Text) (req : Request)
      → BrokerAgrees env b
      → AdmissibleRequest env b.shared req
      → Steps b (dispatch env b conn rid cid req)
  unfolding dispatch
  dispatch-Agrees b conn rid cid req a ok = elim (find_cases ℕ_discrete conn b.conns) [
    | inl f ↦ (record b { shut = conn ∷ b.shut }, rw (f, dispatch) refl, a)
    | inr (channels, f) ↦ elim (find_cases text_discrete cid channels) [
      | inl g ↦ (b, rw (f, dispatch) (rw (g, dispatch) refl), a)
      | inr (ch, g) ↦
          let (s', ch', e, a') = handle-Agrees env law b.shared ch rid cid req a ok in
          (
            put_channels env (record b { shared = s' }) conn
                (assign text_discrete cid ch' channels),
            rw (f, dispatch) (rw (g, dispatch) (rw (e, dispatch) refl)),
            a',
          )
    ]
  ]

  run_first-Agrees :
      (b : Broker env) (tasks : List Text) → BrokerAgrees env b → Steps b (run_first env b tasks)
  unfolding run_first
  run_first-Agrees b [] a = (b, refl, a)
  run_first-Agrees b (qname ∷ tasks) a =
      let (s', e, a') = consume-Agrees env law (record b.shared { tasks = tasks }) qname a in
      (record b { shared = s' }, rw (e, run_first) refl, a')

  -- An event does not stop the server, and the queues agree with their data files afterwards.
  pub step-Agrees :
      (b : Broker env) (ev : Event)
      → BrokerAgrees env b
      → AdmissibleEvent env b ev
      → (b' : Broker env) × (step env b ev ≡ some b') × BrokerAgrees env b'
  unfolding step
  step-Agrees b (connected conn) a ok = (_, refl, a)
  step-Agrees b (unknown_message conn) a ok = (_, refl, a)
  step-Agrees b (request conn rid cid req) a ok = dispatch-Agrees b conn rid cid req a ok
  step-Agrees b run_task a ok = run_first-Agrees b b.shared.tasks a
  step-Agrees b (disconnected conn) a ok = elim (find_cases ℕ_discrete conn b.conns) [
    | inl f ↦ (b, rw (f, step) refl, a)
    | inr (channels, f) ↦
        let b' : Broker env = record b {
          shared = destroy_each env b.shared channels;
          conns = erase ℕ_discrete conn b.conns;
        } in
        (b', rw (f, step) refl, same_host b b' (destroy_each-host env b.shared channels) a)
  ]
  step-Agrees b (open_channel conn rid cid) a ok = elim (find_cases ℕ_discrete conn b.conns) [
    | inl f ↦ (record b { shut = conn ∷ b.shut }, rw (f, step) refl, a)
    | inr (channels, f) ↦
        let b' = open_in env b conn channels rid cid in
        (b', rw (f, step) refl, same_host b b' (open_in-host env b conn channels rid cid) a)
  ]
  step-Agrees b (close_channel conn rid cid) a ok = elim (find_cases ℕ_discrete conn b.conns) [
    | inl f ↦ (record b { shut = conn ∷ b.shut }, rw (f, step) refl, a)
    | inr (channels, f) ↦
        let b' = close_in env b conn channels rid cid in
        (b', rw (f, step) refl, same_host b b' (close_in-host env b conn channels rid cid) a)
  ]

  run-Agrees :
      (b : Broker env) (evs : List Event)
      → BrokerAgrees env b
      → AllAdmissible env b evs
      → Steps b (run env b evs)
  unfolding run
  run-Agrees b [] a ok = (b, refl, a)
  run-Agrees b (ev ∷ evs) a (ok, later) =
      let (b₁, e, a₁) = step-Agrees b ev a ok in
      let (b', e', a') = run-Agrees b₁ evs a₁ (later b₁ e) in (b', rw (e, run) e', a')

  -- For a codec with the documented laws: if every queue of the directory can be recovered from its
  -- data file when the server starts, the names of the queues that are read back or declared can be
  -- names of files, and every message that is published fits into its queues and has an identifier
  -- that is not in use there, no event runs into an assertion, neither that of a collection nor that
  -- of a query: the server handles them all. At the end every queue agrees with its data file, and
  -- every binding stands in the map of its exchange.
  pub run-start :
      (base_dir : Text) (fs : Files) (exchange_db : env.exchange_sql.Db)
      (queue_db : env.queue_sql.Db) (binding_db : env.binding_sql.Db) (h : Host env)
      (evs : List Event)
      → open_host env base_dir fs exchange_db queue_db binding_db ≡ some h
      → NamedFiles env h
      → RecoverableIn env.codec base_dir fs
      → AllAdmissible env (start env h) evs
      → (b : Broker env) × (run env (start env h) evs ≡ some b) × BrokerAgrees env b
  unfolding start
  run-start base_dir fs exchange_db queue_db binding_db h evs opened named recoverable ok =
      run-Agrees (start env h) evs
        (open_host-Sound env law base_dir fs exchange_db queue_db binding_db h opened recoverable)
        ok
