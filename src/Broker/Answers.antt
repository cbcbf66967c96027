-- ===== src/Broker/Answers.antt =====
-- channel.hpp and broker_server.hpp: each request is answered once.
use hare_mq.Base.{
  ℕ, ◌⊎◌, ◌≡◌, refl, ap, Bool, true, false, List, [], ◌∷◌, ◌++◌, Option, none, some, Text,
  Bool-cases, Option-cases, inl, inr,
}
use hare_mq.Helper.{convert_map}
use hare_mq.Proto.{BasicProperties, ExchangeType}
use hare_mq.Binding.{QueueBindings}
use hare_mq.Queue
use hare_mq.Router
use hare_mq.VirtualHost
use hare_mq.VirtualHost.{Env}
use hare_mq.Channel
use hare_mq.Channel.{Channel, Shared, Response, common, deliver, query}
use hare_mq.Broker.{
  Request, declare_exchange, delete_exchange, declare_queue, delete_queue, bind, unbind,
  basic_publish, basic_ack, basic_consume, basic_cancel, basic_query, handle,
}

module _ (env : Env) where
  -- One common response was sent, to the connection of the channel, with the request's identifiers.
  abbrev pub Answered : Shared env → Channel → (rid cid : Text) → Shared env → Type 0
  Answered s ch rid cid s' = (ok : Bool) × (s'.sent ≡ s.sent ++ (ch.conn, common rid cid ok) ∷ [])

  -- One query response was sent, to the connection of the channel.
  abbrev pub AnsweredQuery : Shared env → Channel → (rid : Text) → Shared env → Type 0
  AnsweredQuery s ch rid s' =
      (body : Text) × (s'.sent ≡ s.sent ++ (ch.conn, query rid ch.cid body) ∷ [])

  publish_each-sent :
      (type : ExchangeType) (bp : Option BasicProperties) (body : Text) (qs : QueueBindings)
      (s : Shared env)
      → (Channel.publish_each env type bp body qs s).sent ≡ s.sent
  unfolding Channel.publish_each Channel.publish_to
  publish_each-sent type bp body [] s = refl
  publish_each-sent type bp body ((qname, b) ∷ qs) s =
      elim (Bool-cases
        (Router.route (env.split b'.') type (Channel.routing_key_of env bp) b.binding_key)) [
          | inl e ↦ rw (e, Channel.publish_each) (publish_each-sent type bp body qs _)
          | inr e ↦ rw (e, Channel.publish_each) (publish_each-sent type bp body qs _)
        ]

  cancelled :
      (s : Shared env) (ch : Channel) (rid cid ctag qname : Text)
      → Answered s ch rid cid (Channel.basic_cancel env s ch rid cid ctag qname)
  unfolding Channel.basic_cancel Channel.basic_response Channel.send
  cancelled s ch rid cid ctag qname = (false, refl)

  declared_queue :
      (s : Shared env) (ch : Channel) (rid cid : Text) (q : Queue.MsgQueue)
      → Answered s ch rid cid (Channel.declare_queue env s ch rid cid q)
  unfolding Channel.declare_queue Channel.basic_response Channel.send
  declared_queue s ch rid cid q =
      elim (Bool-cases
        (VirtualHost.declare_queue env s.host (record q { args = convert_map q.args })).1) [
          | inl e ↦ rw e (true, refl)
          | inr e ↦ rw e (false, refl)
        ]

  published :
      (s : Shared env) (ch : Channel) (rid cid ename : Text) (bp : Option BasicProperties)
      (body : Text)
      → Answered s ch rid cid (Channel.basic_publish env s ch rid cid ename bp body)
  unfolding Channel.basic_publish Channel.basic_response Channel.send
  published s ch rid cid ename bp body =
      elim (Option-cases (VirtualHost.select_exchange env s.host ename)) [
        | inl e ↦ rw (e, Channel.basic_publish) (false, refl)
        | inr (x, e) ↦
            rw (e, Channel.basic_publish)
              (
                true,
                ap (λ (sent : List (ℕ × Response)). sent ++ (ch.conn, common rid cid true) ∷ [])
                    (publish_each-sent x.type bp body
                      (VirtualHost.exchange_bindings env s.host ename) s),
              )
      ]

  consumed :
      (s : Shared env) (ch : Channel) (rid cid ctag qname : Text) (auto_ack : Bool)
      → Answered s ch rid cid (Channel.basic_consume env s ch rid cid ctag qname auto_ack).0
  unfolding Channel.basic_consume Channel.basic_response Channel.send
  consumed s ch rid cid ctag qname auto_ack =
      elim (Bool-cases (VirtualHost.exists_queue env s.host qname)) [
        | inl e ↦ rw e (true, refl)
        | inr e ↦ rw e (false, refl)
      ]

  -- The request did not run into an assertion.
  abbrev pub Completes : Shared env → Channel → (rid cid : Text) → Request → Type 0
  Completes s ch rid cid req =
      (s' : Shared env) × (ch' : Channel) × (handle env s ch rid cid req ≡ some (s', ch'))
      × (Answered s ch rid cid s' ⊎ ((req ≡ basic_query) × AnsweredQuery s ch rid s'))

  pub handle-Answered :
      (s : Shared env) (ch : Channel) (rid cid : Text) (req : Request)
      → Completes s ch rid cid req
        ⊎ ((qname : Text) × (id : Text) × (req ≡ basic_ack qname id)
            × (VirtualHost.basic_ack env s.host qname id ≡ none))
        ⊎ ((req ≡ basic_query) × (VirtualHost.Query.basic_query env s.host ≡ none))
  unfolding handle
  handle-Answered s ch rid cid (declare_exchange e) =
      unfold Channel.declare_exchange Channel.basic_response Channel.send in
      inl (_, _, refl, inl (_, refl))
  handle-Answered s ch rid cid (delete_exchange ename) =
      unfold Channel.delete_exchange Channel.basic_response Channel.send in
      inl (_, _, refl, inl (true, refl))
  handle-Answered s ch rid cid (declare_queue q) =
      inl (_, _, refl, inl (declared_queue s ch rid cid q))
  handle-Answered s ch rid cid (delete_queue qname) =
      unfold Channel.delete_queue Channel.basic_response Channel.send in
      inl (_, _, refl, inl (true, refl))
  handle-Answered s ch rid cid (bind ename qname key) =
      unfold Channel.bind Channel.basic_response Channel.send in inl (_, _, refl, inl (_, refl))
  handle-Answered s ch rid cid (unbind ename qname) =
      unfold Channel.unbind Channel.basic_response Channel.send in
      inl (_, _, refl, inl (true, refl))
  handle-Answered s ch rid cid (basic_publish ename bp body) =
      inl (_, _, refl, inl (published s ch rid cid ename bp body))
  handle-Answered s ch rid cid (basic_ack qname id) =
      unfold Channel.basic_ack Channel.basic_response Channel.send in
      elim (Option-cases (VirtualHost.basic_ack env s.host qname id)) [
        | inl e ↦ inr (inl (qname, id, refl, e))
        | inr (host, e) ↦ rw e (inl (_, _, refl, inl (true, refl)))
      ]
  handle-Answered s ch rid cid (basic_consume ctag qname auto_ack) =
      inl (_, _, refl, inl (consumed s ch rid cid ctag qname auto_ack))
  handle-Answered s ch rid cid (basic_cancel ctag qname) =
      inl (_, _, refl, inl (cancelled s ch rid cid ctag qname))
  handle-Answered s ch rid cid basic_query =
      unfold Channel.basic_query Channel.send in
      elim (Option-cases (VirtualHost.Query.basic_query env s.host)) [
        | inl e ↦ inr (inr (refl, e))
        | inr (text, e) ↦ rw e (inl (_, _, refl, inr (refl, (text, refl))))
      ]
