-- ===== src/Broker/Events.antt =====
-- connection.hpp and broker_server.hpp: whatever happens at the server, every channel belongs to
-- the connection that it is found in.
use mathlib.Core.Option.{some-injective}
use hare_mq.Base.{
  ℕ, ◌≡◌, refl, sym, ap, ◌∙◌, List, [], ◌∷◌, Option, none, some, Text, text_discrete, ℕ_discrete,
  arith, Map, find, insert, assign, erase, find-insert, find-erase, insert_present, find_cases, inl,
  inr, subst, ite-eq-some, ite-none-eq-some,
}
use hare_mq.VirtualHost.{Env, ◌>>=◌}
use hare_mq.Channel
use hare_mq.Channel.{Channel, Shared}
use hare_mq.Broker.{
  Request, Event, connected, disconnected, open_channel, close_channel, request, unknown_message,
  run_task, Channels, Broker, put_channels, handle, dispatch, run_first, step,
}
use hare_mq.Broker.Owned.{
  OwnedBy, Owned, handle-SameOwner, put_channels-Owned, assign-OwnedBy, open_in-Owned,
  close_in-Owned,
}

module _ (env : Env) where
  dispatch-Owned :
      (b b' : Broker env) (conn : ℕ) (rid cid : Text) (req : Request)
      → Owned env b
      → dispatch env b conn rid cid req ≡ some b'
      → Owned env b'
  unfolding dispatch
  dispatch-Owned b b' conn rid cid req v e = elim (find_cases ℕ_discrete conn b.conns) [
    | inl f ↦ subst (Owned env) (some-injective _ _ (rw (f, dispatch) at e)) v
    | inr (channels, f) ↦ elim (find_cases text_discrete cid channels) [
      | inl g ↦ subst (Owned env) (some-injective _ _ (rw (f, dispatch, g) at e)) v
      | inr (ch, g) ↦
          handled ch channels (v conn channels f) g (handle env b.shared ch rid cid req) refl
            (rw (f, dispatch, g) at e)
    ]
  ]
    where
      handled :
          (ch : Channel) (channels : Channels)
          → OwnedBy conn channels
          → find text_discrete cid channels ≡ some ch
          → (o : Option (Shared env × Channel)) → handle env b.shared ch rid cid req ≡ o
          → (do
            (shared, ch') ← o
            some (
                put_channels env
                  (record b { shared = shared })
                  conn
                  (assign text_discrete cid ch' channels)))
            ≡ some b'
          → Owned env b'
      handled ch channels own g none h z = absurd (cc)
      handled ch channels own g (some (s', ch')) h z =
          let (p, q) = handle-SameOwner env b.shared s' ch ch' rid cid req h in
          let (p', q') = own cid ch g in
          subst (Owned env) (some-injective _ _ z) (
            put_channels-Owned env (record b { shared = s' }) conn
              (assign text_discrete cid ch' channels)
              (assign-OwnedBy env conn cid ch' channels (p ∙ p') (q ∙ q') own) v)

  run_first-conns :
      (b b' : Broker env) (tasks : List Text) → run_first env b tasks ≡ some b' → b'.conns ≡ b.conns
  unfolding run_first
  run_first-conns b b' [] e = sym (ap (λ (r : Broker env). r.conns) (some-injective _ _ e))
  run_first-conns b b' (qname ∷ tasks) e =
      ran (Channel.consume env (record b.shared { tasks = tasks }) qname) e
    where
      ran :
          (o : Option (Shared env))
          → (do shared ← o; some (record b { shared = shared })) ≡ some b'
          → b'.conns ≡ b.conns
      ran none z = absurd (cc)
      ran (some s') z = sym (ap (λ (r : Broker env). r.conns) (some-injective _ _ z))

  none_owned : {conn : ℕ} → OwnedBy conn []
  unfolding find
  none_owned cid ch z = absurd (cc)

  pub step-Owned :
      (b b' : Broker env) (ev : Event) → Owned env b → step env b ev ≡ some b' → Owned env b'
  unfolding step
  step-Owned b b' (connected conn) v e = subst (Owned env) (some-injective _ _ e) opened
    where
      opened : Owned env (record b { conns = insert ℕ_discrete conn [] b.conns })
      opened conn' channels' f = elim (find_cases ℕ_discrete conn b.conns) [
        | inr (c, g) ↦ v conn' channels' (rw (insert_present ℕ_discrete conn [] c b.conns g) at f)
        | inl g ↦
            elim (ite-eq-some (ℕ_discrete conn conn') [] (find ℕ_discrete conn' b.conns)
              {y = channels'}
              (ground (arith, g, f, find-insert ℕ_discrete conn conn' [] b.conns))) [
                | inl (p, q) ↦ subst (OwnedBy conn') q none_owned
                | inr q ↦ v conn' channels' q
              ]
      ]
  step-Owned b b' (disconnected conn) v e = elim (find_cases ℕ_discrete conn b.conns) [
    | inl f ↦ subst (Owned env) (some-injective _ _ (rw (f, step) at e)) v
    | inr (channels, f) ↦ subst (Owned env) (some-injective _ _ (rw (f, step) at e)) closed
  ]
    where
      closed : Owned env (record b { conns = erase ℕ_discrete conn b.conns })
      closed conn' channels' f = v conn' channels' (
          ite-none-eq-some (ℕ_discrete conn conn') (find ℕ_discrete conn' b.conns)
            (sym (find-erase ℕ_discrete conn conn' b.conns) ∙ f))
  step-Owned b b' (open_channel conn rid cid) v e = elim (find_cases ℕ_discrete conn b.conns) [
    | inl f ↦ subst (Owned env) (some-injective _ _ (rw (f, step) at e)) v
    | inr (channels, f) ↦
        subst (Owned env) (some-injective _ _ (rw (f, step) at e))
          (open_in-Owned env b conn channels rid cid (v conn channels f) v)
  ]
  step-Owned b b' (close_channel conn rid cid) v e = elim (find_cases ℕ_discrete conn b.conns) [
    | inl f ↦ subst (Owned env) (some-injective _ _ (rw (f, step) at e)) v
    | inr (channels, f) ↦
        subst (Owned env) (some-injective _ _ (rw (f, step) at e))
          (close_in-Owned env b conn channels rid cid (v conn channels f) v)
  ]
  step-Owned b b' (request conn rid cid req) v e = dispatch-Owned b b' conn rid cid req v e
  step-Owned b b' (unknown_message conn) v e = subst (Owned env) (some-injective _ _ e) v
  step-Owned b b' run_task v e =
      subst (λ (conns : Map ℕ Channels). Owned env (record b' { conns = conns }))
        (sym (run_first-conns b b' b.shared.tasks e)) v

  -- The events that the server has taken, one after the other.
  pub data Reach (b : Broker env) : Broker env → Type 0 where
    here : Reach b b
    next :
        {b' b'' : Broker env} → Reach b b' → (ev : Event) → step env b' ev ≡ some b'' → Reach b b''

  -- If every channel belongs to the connection that it is found in and has the identifier under
  -- which it is found, this stays so whatever happens at the server, as long as no assertion stops
  -- it: connections come and go, channels are opened and closed, requests and tasks are handled.
  pub Reach-Owned : {b b' : Broker env} → Reach b b' → Owned env b → Owned env b'
  Reach-Owned here v = v
  Reach-Owned (next r ev e) v = step-Owned _ _ ev (Reach-Owned r v) e
