-- ===== src/Broker/Owned.antt =====
-- connection.hpp and broker_server.hpp: every channel belongs to the connection that it is found
-- in, so that its responses go there.
use mathlib.Core.Option.{some-injective}
use hare_mq.Base.{
  ℕ, ◌≡◌, refl, sym, ap, ◌∙◌, Bool, Option, none, some, Text, text_discrete, ℕ_discrete, arith,
  find, insert, assign, erase, find-insert, find-assign, find-erase, find_cases, Bool-cases, inl,
  inr, subst, ite-eq-some, ite-none-eq-some,
}
use hare_mq.VirtualHost
use hare_mq.VirtualHost.{Env, ◌>>=◌}
use hare_mq.Channel
use hare_mq.Channel.{Channel, Shared}
use hare_mq.Broker.{
  Request, declare_exchange, delete_exchange, declare_queue, delete_queue, bind, unbind,
  basic_publish, basic_ack, basic_consume, basic_cancel, basic_query, Channels, Broker,
  put_channels, open_in, close_in, handle,
}

-- The channel keeps its connection and its identifier.
abbrev SameOwner : Channel → Channel → Type 0
SameOwner ch ch' = (ch'.conn ≡ ch.conn) × (ch'.cid ≡ ch.cid)

-- Every channel of the connection belongs to it and has the identifier under which it stands.
abbrev pub OwnedBy : ℕ → Channels → Type 0
OwnedBy conn channels =
    (cid : Text) (ch : Channel)
    → find text_discrete cid channels ≡ some ch
    → (ch.conn ≡ conn) × (ch.cid ≡ cid)

module _ (env : Env) where
  abbrev pub Owned : Broker env → Type 0
  Owned b =
      (conn : ℕ) (channels : Channels)
      → find ℕ_discrete conn b.conns ≡ some channels
      → OwnedBy conn channels

  consume_owner :
      (s : Shared env) (ch : Channel) (rid cid ctag qname : Text) (auto_ack : Bool)
      → SameOwner ch (Channel.basic_consume env s ch rid cid ctag qname auto_ack).1
  unfolding Channel.basic_consume
  consume_owner s ch rid cid ctag qname auto_ack =
      elim (Bool-cases (VirtualHost.exists_queue env s.host qname)) [
        | inl e ↦ rw e (refl, refl)
        | inr e ↦ rw e (refl, refl)
      ]

  same :
      {s s' : Shared env} {ch ch' : Channel}
      → ◌≡◌ {A = Option (Shared env × Channel)} (some (s, ch)) (some (s', ch'))
      → SameOwner ch ch'
  same e =
      let p = some-injective _ _ e in
      (
        ap (λ (r : Shared env × Channel). r.1.conn) (sym p),
        ap (λ (r : Shared env × Channel). r.1.cid) (sym p),
      )

  chained :
      (s s' : Shared env) (ch ch' : Channel) (o : Option (Shared env))
      → (do t ← o; (let r : Shared env × Channel = (t, ch) in some r)) ≡ some (s', ch')
      → SameOwner ch ch'
  chained s s' ch ch' none z = absurd (cc)
  chained s s' ch ch' (some t) z = same z

  pub handle-SameOwner :
      (s s' : Shared env) (ch ch' : Channel) (rid cid : Text) (req : Request)
      → handle env s ch rid cid req ≡ some (s', ch')
      → SameOwner ch ch'
  unfolding handle
  handle-SameOwner s s' ch ch' rid cid (declare_exchange x) e = same e
  handle-SameOwner s s' ch ch' rid cid (delete_exchange x) e = same e
  handle-SameOwner s s' ch ch' rid cid (declare_queue x) e = same e
  handle-SameOwner s s' ch ch' rid cid (delete_queue x) e = same e
  handle-SameOwner s s' ch ch' rid cid (bind x y z) e = same e
  handle-SameOwner s s' ch ch' rid cid (unbind x y) e = same e
  handle-SameOwner s s' ch ch' rid cid (basic_publish x y z) e = same e
  handle-SameOwner s s' ch ch' rid cid (basic_ack qname id) e =
      chained s s' ch ch' (Channel.basic_ack env s ch rid cid qname id) e
  handle-SameOwner s s' ch ch' rid cid (basic_consume ctag qname auto_ack) e =
      let (p, q) = same e in
      let (p', q') = consume_owner s ch rid cid ctag qname auto_ack in (p ∙ p', q ∙ q')
  handle-SameOwner s s' ch ch' rid cid (basic_cancel x y) e = same e
  handle-SameOwner s s' ch ch' rid cid basic_query e =
      chained s s' ch ch' (Channel.basic_query env s ch rid cid) e

  pub put_channels-Owned :
      (b : Broker env) (conn : ℕ) (channels : Channels)
      → OwnedBy conn channels
      → Owned b
      → Owned (put_channels env b conn channels)
  unfolding put_channels assign
  put_channels-Owned b conn channels own v conn' channels' e =
      elim (ite-eq-some (ℕ_discrete conn conn') channels (find ℕ_discrete conn' b.conns)
        (sym (find-assign ℕ_discrete conn conn' channels b.conns) ∙ e)) [
          | inl (p, q) ↦ subst (OwnedBy conn') q (subst (λ k. OwnedBy k channels) p own)
          | inr q ↦ v conn' channels' q
        ]

  pub erase-OwnedBy :
      (conn : ℕ) (cid : Text) (channels : Channels)
      → OwnedBy conn channels
      → OwnedBy conn (erase text_discrete cid channels)
  erase-OwnedBy conn cid channels v cid' ch e = v cid' ch (
      ite-none-eq-some (text_discrete cid cid') (find text_discrete cid' channels)
        (sym (find-erase text_discrete cid cid' channels) ∙ e))

  pub assign-OwnedBy :
      (conn : ℕ) (cid : Text) (ch : Channel) (channels : Channels)
      → ch.conn ≡ conn
      → ch.cid ≡ cid
      → OwnedBy conn channels
      → OwnedBy conn (assign text_discrete cid ch channels)
  assign-OwnedBy conn cid ch channels p q v cid' ch' e =
      elim (ite-eq-some (text_discrete cid cid') ch (find text_discrete cid' channels)
        (sym (find-assign text_discrete cid cid' ch channels) ∙ e)) [
          | inl (same_cid, r) ↦ (
            ap (λ (c : Channel). c.conn) (sym r) ∙ p,
            ap (λ (c : Channel). c.cid) (sym r) ∙ q ∙ same_cid,
          )
          | inr r ↦ v cid' ch' r
        ]

  insert-OwnedBy :
      (conn : ℕ) (cid : Text) (ch : Channel) (channels : Channels)
      → ch.conn ≡ conn
      → ch.cid ≡ cid
      → find text_discrete cid channels ≡ none
      → OwnedBy conn channels
      → OwnedBy conn (insert text_discrete cid ch channels)
  insert-OwnedBy conn cid ch channels p q absent v cid' ch' e =
      assign-OwnedBy conn cid ch channels p q v cid' ch' (
        find-assign text_discrete cid cid' ch channels
        ∙ (ground (arith, absent, find-insert text_discrete cid cid' ch channels) ∙ e))

  pub open_in-Owned :
      (b : Broker env) (conn : ℕ) (channels : Channels) (rid cid : Text)
      → OwnedBy conn channels
      → Owned b
      → Owned (open_in env b conn channels rid cid)
  unfolding open_in Channel.send
  open_in-Owned b conn channels rid cid own v = elim (find_cases text_discrete cid channels) [
    | inl e ↦
        rw (e, open_in)
          (put_channels-Owned b conn
            (insert text_discrete cid (record { cid = cid; consumer = none; conn = conn }) channels)
            (insert-OwnedBy conn cid (record { cid = cid; consumer = none; conn = conn }) channels
              refl refl e own)
            v)
    | inr (ch, e) ↦ rw (e, open_in) v
  ]

  pub close_in-Owned :
      (b : Broker env) (conn : ℕ) (channels : Channels) (rid cid : Text)
      → OwnedBy conn channels
      → Owned b
      → Owned (close_in env b conn channels rid cid)
  unfolding close_in put_channels assign Channel.send
  close_in-Owned b conn channels rid cid own v =
      put_channels-Owned b conn (erase text_discrete cid channels)
        (erase-OwnedBy conn cid channels own) v
