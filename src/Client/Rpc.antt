-- ===== src/Client/Rpc.antt =====
-- HareMQ/mqclient/channel.hpp and HareMQ/mqserver/channel.hpp: a method of a client's channel and
-- the server that answers it.
use hare_mq.Base.{
  ℕ, ◌≡◌, ◌≢◌, refl, ap, ◌∙◌, ◌⊎◌, inl, inr, Bool, List, [], ◌∷◌, ◌++◌, Option, none, some, Text,
  text_discrete, ℕ_discrete, ite, arith, find, assign, get_elem?, length, drop, drop-append,
}
use hare_mq.VirtualHost
use hare_mq.VirtualHost.{Env, ◌>>=◌}
use hare_mq.Channel.{Channel, Response, Shared, common}
use hare_mq.Broker.{
  dispatch, Broker, Event, Request, Channels, step, dispatch, handle, put_channels, basic_query,
  basic_ack,
}
use hare_mq.Broker.Owned.{Owned}
use hare_mq.Broker.Answers.{handle-Answered}
use hare_mq.Client.Waiting.{common_response-resume}
use hare_mq.Client.Channel as ClientChannel
use hare_mq.Client.Channel.{Method, Outgoing, returns, asks, queries, push_basic_response}
use hare_mq.Client.Connection.{
  Connection, Pointer, put, receive_all, receive, select_channel, resume,
}

-- What the server makes of a message of the connection `conn`.
abbrev pub event : ℕ → Outgoing → Event
event conn (Outgoing.open_channel rid cid) = Event.open_channel conn rid cid
event conn (Outgoing.close_channel rid cid) = Event.close_channel conn rid cid
event conn (Outgoing.request rid cid req) = Event.request conn rid cid req

-- The responses that a connection receives, of those that were sent.
abbrev pub received_by : ℕ → List (ℕ × Response) → List Response
received_by conn [] = []
received_by conn ((conn', r) ∷ sent) =
    let rest = received_by conn sent in ite (ℕ_discrete conn' conn) (r ∷ rest) rest

module _ (env : Env) where
  -- The responses of the server between two of its states, for the connection `conn`.
  abbrev pub responses : Broker env → Broker env → ℕ → List Response
  responses b b' conn = received_by conn (drop (length b.shared.sent) b'.shared.sent)

  -- The request is sent, the server handles it, its responses are received, and the thread of the
  -- method goes on; `none` if an assertion of the server fails, or the thread waits for ever.
  unfoldable pub exchange :
      Broker env
      → ℕ
      → Connection
      → Pointer
      → Method
      → Outgoing
      → Option (Broker env × Connection × Bool)
  unfolding step receive_all resume ℕ_discrete
  exchange b conn c p m out = do
    b' ← step env b (event conn out)
    (c', r) ← resume (receive_all c (responses b b' conn)) p m
    some (b', c', r)

  -- A call of a method of the channel `p` that no other event interrupts.
  unfoldable pub call :
      Broker env → ℕ → Connection → Pointer → Method → Option (Broker env × Connection × Bool)
  unfolding exchange
  call b conn c p (returns r) = some (b, c, r)
  call b conn c p (asks rid out k) = exchange b conn c p (asks rid out k) out
  call b conn c p (queries rid out) = exchange b conn c p (queries rid out) out

  -- One common response was sent between the two states, to the connection `conn`.
  abbrev pub Replied : Broker env → Broker env → ℕ → (rid cid : Text) → Bool → Type 0
  Replied b b' conn rid cid ok = b'.shared.sent ≡ b.shared.sent ++ (conn, common rid cid ok) ∷ []

  -- The request is an acknowledgement on which the assertion of a collection fails.
  abbrev pub Stops : Broker env → Request → Type 0
  Stops b req =
      (qname : Text) × (id : Text) × (req ≡ basic_ack qname id)
      × (VirtualHost.basic_ack env b.shared.host qname id ≡ none)

  -- The channel `ch`, at `p` in the client, is open at both ends of the connection `conn`.
  pub record Link (b : Broker env) (conn : ℕ) (c : Connection) (p : Pointer)
      (ch : ClientChannel.Channel) : Type 0 where
    pub channels : Channels
    pub server_channel : Channel
    pub connected : find ℕ_discrete conn b.conns ≡ some channels
    pub opened : find text_discrete ch.cid channels ≡ some server_channel
    pub registered : select_channel c ch.cid ≡ some p
    pub stored : get_elem? c.heap p ≡ some ch

  responses-Replied :
      (b b' : Broker env) (conn : ℕ) (rid cid : Text) (ok : Bool)
      → Replied b b' conn rid cid ok
      → responses b b' conn ≡ common rid cid ok ∷ []
  responses-Replied b b' conn rid cid ok e =
      rw e (rw (drop-append b.shared.sent ((conn, common rid cid ok) ∷ [])) (ground arith))

  -- A method whose request the server answers by one response goes on with it.
  pub exchange-Replied :
      (b b' : Broker env) (conn : ℕ) (c : Connection) (p : Pointer) (ch : ClientChannel.Channel)
      (rid : Text) (out : Outgoing) (ok : Bool)
      (k : ClientChannel.Channel → Bool → ClientChannel.Channel × Bool)
      → select_channel c ch.cid ≡ some p
      → get_elem? c.heap p ≡ some ch
      → find text_discrete rid ch.basic_resp ≡ none
      → step env b (event conn out) ≡ some b'
      → Replied b b' conn rid ch.cid ok
      → call b conn c p (asks rid out k) ≡ some (b', put c p (k ch ok).0, (k ch ok).1)
  unfolding call exchange receive_all receive
  exchange-Replied b b' conn c p ch rid out ok k registered stored fresh e replied =
      rw (e, call)
        (rw (responses-Replied b b' conn rid ch.cid ok replied)
          (rw (common_response-resume c p ch rid out ok k registered stored fresh) refl))

  -- What the server makes of a request to an open channel.
  pub step-handle :
      (b : Broker env) (conn : ℕ) (c : Connection) (p : Pointer) (ch : ClientChannel.Channel)
      (rid : Text) (req : Request) (s' : Shared env) (sch' : Channel) (l : Link b conn c p ch)
      → handle env b.shared l.server_channel rid ch.cid req ≡ some (s', sch')
      → step env b (Event.request conn rid ch.cid req)
        ≡ some (
            put_channels env
              (record b { shared = s' })
              conn
              (assign text_discrete ch.cid sch' l.channels))
  unfolding step dispatch
  step-handle b conn c p ch rid req s' sch' l e =
      rw (l.connected, dispatch) (rw (l.opened, dispatch) (rw (e, dispatch) refl))

  -- A method of a client's channel that sends a request other than a query gets its response,
  -- when every channel of the server belongs to its connection, the channel is open at both
  -- ends, the request's identifier is new and no other event comes between: it goes on with the
  -- bit of the server's one response, and its channel changes as its continuation says and in
  -- nothing else. The only exception is an acknowledgement on which an assertion of the server
  -- fails.
  pub call-Replied :
      (b : Broker env) (conn : ℕ) (c : Connection) (p : Pointer) (ch : ClientChannel.Channel)
      (rid : Text) (req : Request) (k : ClientChannel.Channel → Bool → ClientChannel.Channel × Bool)
      → Owned env b
      → Link b conn c p ch
      → find text_discrete rid ch.basic_resp ≡ none
      → req ≢ basic_query
      → ((b' : Broker env) × (ok : Bool) × (call b conn c p
              (asks rid (Outgoing.request rid ch.cid req) k)
            ≡ some (b', put c p (k ch ok).0, (k ch ok).1))
          × Replied b b' conn rid ch.cid ok)
        ⊎ Stops b req
  unfolding step
  call-Replied b conn c p ch rid req k own l fresh plain =
      elim (handle-Answered env b.shared l.server_channel rid ch.cid req) [
        | inr (inl stops) ↦ inr stops
        | inr (inr (query, _)) ↦ absurd (plain query)
        | inl (s', ch', e, inr (query, _)) ↦ absurd (plain query)
        | inl (s', ch', e, inl (ok, sent)) ↦
            let b' =
              put_channels env (record b { shared = s' }) conn
                (assign text_discrete ch.cid ch' l.channels) in
            let replied : Replied b b' conn rid ch.cid ok =
              sent
              ∙ ap (λ owner. b.shared.sent ++ (owner, common rid ch.cid ok) ∷ [])
                  (own conn l.channels l.connected ch.cid l.server_channel l.opened).0 in
            inl (
              b',
              ok,
              exchange-Replied b b' conn c p ch rid (Outgoing.request rid ch.cid req) ok k
                  l.registered l.stored fresh (step-handle b conn c p ch rid req s' ch' l e)
                  replied,
              replied,
            )
      ]
