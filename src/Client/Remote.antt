-- ===== src/Client/Remote.antt =====
-- HareMQ/mqclient/channel.hpp, HareMQ/mqserver/channel.hpp and virtual_host.hpp: a client's method
-- does to the server's host what the method of the host does, and returns its result.
use hare_mq.Base.{
  ℕ, ◌≡◌, refl, ap, ◌∙◌, inl, inr, Bool, Bool-cases, none, some, Text, text_discrete, assign, find,
  ◌++◌, ◌∷◌, [], Distinct,
}
use hare_mq.Helper.{convert_map, convert_map-Distinct}
use hare_mq.Exchange.{Exchange}
use hare_mq.Queue.{MsgQueue}
use hare_mq.VirtualHost
use hare_mq.VirtualHost.{Env}
use hare_mq.Channel
use hare_mq.Channel.{Shared, common}
use hare_mq.Broker.{Broker, Request, handle, put_channels}
use hare_mq.Broker.Owned.{Owned}
use hare_mq.Client.Channel as ClientChannel
use hare_mq.Client.Channel.{Method, Outgoing, asks, returns_ok}
use hare_mq.Client.Connection.{Connection, Pointer}
use hare_mq.Base.{set_same}
use hare_mq.Client.Rpc.{Link, Replied, call, exchange-Replied, step-handle}

module _ (env : Env) where
  -- The server after a request that leaves the channel as it is.
  abbrev after :
      {b : Broker env} {conn : ℕ} {c : Connection} {p : Pointer} {ch : ClientChannel.Channel}
      → Link env b conn c p ch
      → Shared env
      → Broker env
  unfolding assign text_discrete
  after {b = b} {conn = conn} {ch = ch} l s' =
      put_channels env (record b { shared = s' }) conn
        (assign text_discrete ch.cid l.server_channel l.channels)

  -- A handler that answers with a bit and leaves the channel as it is.
  call-handled :
      (b : Broker env) (conn : ℕ) (c : Connection) (p : Pointer) (ch : ClientChannel.Channel)
      (rid : Text) (req : Request) (s' : Shared env) (ok : Bool)
      → Owned env b
      → (l : Link env b conn c p ch) → find text_discrete rid ch.basic_resp ≡ none
      → handle env b.shared l.server_channel rid ch.cid req ≡ some (s', l.server_channel)
      → s'.sent ≡ b.shared.sent ++ (l.server_channel.conn, common rid ch.cid ok) ∷ []
      → call env b conn c p (asks rid (Outgoing.request rid ch.cid req) returns_ok)
        ≡ some (after l s', c, ok)
  unfolding assign text_discrete after
  call-handled b conn c p ch rid req s' ok own l fresh e sent =
      let b' = after l s' in
      let replied : Replied env b b' conn rid ch.cid ok =
        sent
        ∙ ap (λ owner. b.shared.sent ++ (owner, common rid ch.cid ok) ∷ [])
            (own conn l.channels l.connected ch.cid l.server_channel l.opened).0 in
      exchange-Replied env b b' conn c p ch rid (Outgoing.request rid ch.cid req) ok returns_ok
        l.registered l.stored fresh (step-handle env b conn c p ch rid req s' l.server_channel l e)
        replied
      ∙ ap (λ heap. some (b', record c { heap = heap }, ok)) (set_same c.heap p ch l.stored)

  declare_queue-answer :
      (s : Shared env) (ch : Channel.Channel) (rid cid : Text) (q : MsgQueue)
      → Distinct text_discrete q.args
      → ((Channel.declare_queue env s ch rid cid (record q { args = convert_map q.args })).host
          ≡ (VirtualHost.declare_queue env s.host q).0)
        × ((Channel.declare_queue env s ch rid cid (record q { args = convert_map q.args })).sent
            ≡ s.sent ++ (ch.conn, common rid cid (VirtualHost.declare_queue env s.host q).1) ∷ [])
  unfolding Channel.declare_queue Channel.basic_response Channel.send
  declare_queue-answer s ch rid cid q d =
      elim (Bool-cases (VirtualHost.declare_queue env s.host q).1) [
        | inl e ↦ rw (convert_map-Distinct q.args d, convert_map-Distinct q.args d, e) (refl, refl)
        | inr e ↦ rw (convert_map-Distinct q.args d, convert_map-Distinct q.args d, e) (refl, refl)
      ]

  declare_exchange-answer :
      (s : Shared env) (ch : Channel.Channel) (rid cid : Text) (x : Exchange)
      → Distinct text_discrete x.args
      → ((Channel.declare_exchange env s ch rid cid (record x { args = convert_map x.args })).host
          ≡ (VirtualHost.declare_exchange env s.host x).0)
        × ((Channel.declare_exchange env s ch rid cid (record x { args = convert_map x.args })).sent
            ≡ s.sent
              ++ (ch.conn, common rid cid (VirtualHost.declare_exchange env s.host x).1) ∷ [])
  unfolding Channel.declare_exchange Channel.basic_response Channel.send
  declare_exchange-answer s ch rid cid x d =
      rw (convert_map-Distinct x.args d, convert_map-Distinct x.args d) (refl, refl)

  -- A client that declares a queue over an open channel changes the server's host as
  -- `virtual_host::declare_queue` does and gets its result, if every channel of the server
  -- belongs to its connection, no other event comes between, the request's identifier is new
  -- and no key of the arguments stands twice.
  pub call-declare_queue :
      (b : Broker env) (conn : ℕ) (c : Connection) (p : Pointer) (ch : ClientChannel.Channel)
      (rid : Text) (q : MsgQueue)
      → Owned env b
      → Link env b conn c p ch
      → find text_discrete rid ch.basic_resp ≡ none
      → Distinct text_discrete q.args
      → (b' : Broker env) × (call env b conn c p (ClientChannel.declare_queue ch rid q)
          ≡ some (b', c, (VirtualHost.declare_queue env b.shared.host q).1))
        × (b'.shared.host ≡ (VirtualHost.declare_queue env b.shared.host q).0)
  unfolding ClientChannel.declare_queue handle after convert_map
  call-declare_queue b conn c p ch rid q own l fresh d =
      let (host, sent) = declare_queue-answer b.shared l.server_channel rid ch.cid q d in
      (
        after l (
            Channel.declare_queue env b.shared l.server_channel rid ch.cid
              (record q { args = convert_map q.args })),
        call-handled b conn c p ch rid
            (Request.declare_queue (record q { args = convert_map q.args }))
            (Channel.declare_queue env b.shared l.server_channel rid ch.cid
              (record q { args = convert_map q.args }))
            _ own l fresh refl sent,
        host,
      )

  pub call-declare_exchange :
      (b : Broker env) (conn : ℕ) (c : Connection) (p : Pointer) (ch : ClientChannel.Channel)
      (rid : Text) (x : Exchange)
      → Owned env b
      → Link env b conn c p ch
      → find text_discrete rid ch.basic_resp ≡ none
      → Distinct text_discrete x.args
      → (b' : Broker env) × (call env b conn c p (ClientChannel.declare_exchange ch rid x)
          ≡ some (b', c, (VirtualHost.declare_exchange env b.shared.host x).1))
        × (b'.shared.host ≡ (VirtualHost.declare_exchange env b.shared.host x).0)
  unfolding ClientChannel.declare_exchange handle after convert_map
  call-declare_exchange b conn c p ch rid x own l fresh d =
      let (host, sent) = declare_exchange-answer b.shared l.server_channel rid ch.cid x d in
      (
        after l (
            Channel.declare_exchange env b.shared l.server_channel rid ch.cid
              (record x { args = convert_map x.args })),
        call-handled b conn c p ch rid
            (Request.declare_exchange (record x { args = convert_map x.args }))
            (Channel.declare_exchange env b.shared l.server_channel rid ch.cid
              (record x { args = convert_map x.args }))
            _ own l fresh refl sent,
        host,
      )

  -- A client that binds a queue over an open channel changes the server's host as
  -- `virtual_host::bind` does and gets its result, if every channel of the server belongs to
  -- its connection, no other event comes between and the request's identifier is new.
  pub call-bind :
      (b : Broker env) (conn : ℕ) (c : Connection) (p : Pointer) (ch : ClientChannel.Channel)
      (rid ename qname key : Text)
      → Owned env b
      → Link env b conn c p ch
      → find text_discrete rid ch.basic_resp ≡ none
      → (b' : Broker env) × (call env b conn c p (ClientChannel.bind ch rid ename qname key)
          ≡ some (b', c, (VirtualHost.bind env b.shared.host ename qname key).1))
        × (b'.shared.host ≡ (VirtualHost.bind env b.shared.host ename qname key).0)
  unfolding ClientChannel.bind handle after Channel.bind Channel.basic_response Channel.send
  call-bind b conn c p ch rid ename qname key own l fresh = (
    _,
    call-handled b conn c p ch rid (Request.bind ename qname key)
        (Channel.bind env b.shared l.server_channel rid ch.cid ename qname key) _ own l fresh refl
        refl,
    refl,
  )
