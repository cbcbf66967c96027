-- ===== src/Broker/Safety.antt =====
-- channel.hpp and broker_server.hpp: no event at the server runs into an assertion.
pub mod Run
mod Tests
use hare_mq.Base.{
  ℕ, ◌≡◌, refl, sym, ap, ◌∙◌, Bool, true, false, List, [], ◌∷◌, Option, none, some, Text,
  text_discrete, ℕ_discrete, find, assign, find_cases, Option-cases, Bool-cases, inl, inr,
  if◌then◌else◌,
}
use hare_mq.Helper.{convert_map}
use hare_mq.Proto.{BasicProperties, ExchangeType, Message}
use hare_mq.Exchange
use hare_mq.Exchange.{Exchange}
use hare_mq.Binding.{QueueBindings}
use hare_mq.Consumer
use hare_mq.Message.Mapper.{IsCodec}
use hare_mq.Queue
use hare_mq.Router
use hare_mq.VirtualHost
use hare_mq.VirtualHost.{Env, Host, ◌>>=◌}
use hare_mq.VirtualHost.Safety.{IsFileName, Publishable}
use hare_mq.VirtualHost.Sound.{
  HostSound, declare_exchange-Sound, delete_exchange-Sound, unbind-Sound, declare_queue-Sound,
  delete_queue-Sound, bind-Sound, basic_consume-Sound, basic_publish-Sound, basic_ack-Sound,
}
use hare_mq.VirtualHost.Query.Filed.{basic_query-some}
use hare_mq.Channel
use hare_mq.Channel.{Channel, Shared}
use hare_mq.Broker.{
  Request, declare_exchange, delete_exchange, declare_queue, delete_queue, bind, unbind,
  basic_publish, basic_ack, basic_consume, basic_cancel, basic_query, handle,
}

module _ (env : Env) where
  abbrev pub SharedAgrees : Shared env → Type 0
  SharedAgrees s = HostSound env s.host

  -- The message can be published to each queue whose binding lets it pass, when its turn comes.
  abbrev pub PublishableEach :
      ExchangeType → Option BasicProperties → Text → QueueBindings → Shared env → Type 0
  PublishableEach type bp body [] s = Unit
  PublishableEach type bp body ((qname, b) ∷ bindings) s =
      (Router.route (env.split b'.') type (Channel.routing_key_of env bp) b.binding_key ≡ true
        → Publishable env s.host qname bp body)
      × PublishableEach type bp body bindings (
          if Router.route (env.split b'.') type (Channel.routing_key_of env bp) b.binding_key
          then Channel.publish_to env s bp body qname
          else s)

  -- A request to publish a message to queues that can take it, to declare a queue whose name can
  -- be that of a file, or another request.
  abbrev pub AdmissibleRequest : Shared env → Request → Type 0
  AdmissibleRequest s (basic_publish ename bp body) =
      (e : Exchange)
      → VirtualHost.select_exchange env s.host ename ≡ some e
      → PublishableEach e.type bp body (VirtualHost.exchange_bindings env s.host ename) s
  AdmissibleRequest s (declare_exchange e) = Unit
  AdmissibleRequest s (delete_exchange ename) = Unit
  AdmissibleRequest s (declare_queue q) = IsFileName q.name
  AdmissibleRequest s (delete_queue qname) = Unit
  AdmissibleRequest s (bind ename qname key) = Unit
  AdmissibleRequest s (unbind ename qname) = Unit
  AdmissibleRequest s (basic_ack qname id) = Unit
  AdmissibleRequest s (basic_consume ctag qname auto_ack) = Unit
  AdmissibleRequest s (basic_cancel ctag qname) = Unit
  AdmissibleRequest s basic_query = Unit

module _ (env : Env) (law : IsCodec env.codec) where
  publish_each-Agrees :
      (type : ExchangeType) (bp : Option BasicProperties) (body : Text) (bindings : QueueBindings)
      (s : Shared env)
      → SharedAgrees env s
      → PublishableEach env type bp body bindings s
      → SharedAgrees env (Channel.publish_each env type bp body bindings s)
  unfolding Channel.publish_each Channel.publish_to
  publish_each-Agrees type bp body [] s a ok = a
  publish_each-Agrees type bp body ((qname, b) ∷ bindings) s a (now, later) =
      elim (Bool-cases
        (Router.route (env.split b'.') type (Channel.routing_key_of env bp) b.binding_key)) [
          | inl e ↦
              rw (e, Channel.publish_each)
                (publish_each-Agrees type bp body bindings (Channel.publish_to env s bp body qname)
                  (basic_publish-Sound env law s.host qname bp body a (now e)) (rw e at later))
          | inr e ↦
              rw (e, Channel.publish_each)
                (publish_each-Agrees type bp body bindings s a (rw e at later))
        ]

  published-Agrees :
      (s : Shared env) (ch : Channel) (rid cid ename : Text) (bp : Option BasicProperties)
      (body : Text)
      → SharedAgrees env s
      → AdmissibleRequest env s (basic_publish ename bp body)
      → SharedAgrees env (Channel.basic_publish env s ch rid cid ename bp body)
  unfolding Channel.basic_publish Channel.basic_response Channel.send
  published-Agrees s ch rid cid ename bp body a ok =
      elim (Option-cases (VirtualHost.select_exchange env s.host ename)) [
        | inl e ↦ rw (e, Channel.basic_publish) a
        | inr (x, e) ↦
            rw (e, Channel.basic_publish)
              (publish_each-Agrees x.type bp body (VirtualHost.exchange_bindings env s.host ename) s
                a (ok x e))
      ]

  declared_queue-Agrees :
      (s : Shared env) (ch : Channel) (rid cid : Text) (q : Queue.MsgQueue)
      → SharedAgrees env s
      → SharedAgrees env (Channel.declare_queue env s ch rid cid q)
  unfolding Channel.declare_queue Channel.basic_response Channel.send
  declared_queue-Agrees s ch rid cid q a =
      let q' : Queue.MsgQueue = record q { args = convert_map q.args } in
      let a' = declare_queue-Sound env law s.host q' a in
      elim (Bool-cases (VirtualHost.declare_queue env s.host q').1) [
        | inl e ↦ rw e a'
        | inr e ↦ rw e a'
      ]

  consumed-Agrees :
      (s : Shared env) (ch : Channel) (rid cid ctag qname : Text) (auto_ack : Bool)
      → SharedAgrees env s
      → SharedAgrees env (Channel.basic_consume env s ch rid cid ctag qname auto_ack).0
  unfolding Channel.basic_consume Channel.basic_response Channel.send
  consumed-Agrees s ch rid cid ctag qname auto_ack a =
      elim (Bool-cases (VirtualHost.exists_queue env s.host qname)) [
        | inl e ↦ rw e a
        | inr e ↦ rw e a
      ]

  -- A request is handled, and the queues agree with their data files afterwards.
  pub handle-Agrees :
      (s : Shared env) (ch : Channel) (rid cid : Text) (req : Request)
      → SharedAgrees env s
      → AdmissibleRequest env s req
      → (s' : Shared env) × (ch' : Channel) × (handle env s ch rid cid req ≡ some (s', ch'))
        × SharedAgrees env s'
  unfolding handle
  handle-Agrees s ch rid cid (declare_exchange e) a ok =
      unfold Channel.declare_exchange Channel.basic_response Channel.send in
      (_, _, refl, declare_exchange-Sound env s.host (record e { args = convert_map e.args }) a)
  handle-Agrees s ch rid cid (delete_exchange ename) a ok =
      unfold Channel.delete_exchange Channel.basic_response Channel.send in
      (_, _, refl, delete_exchange-Sound env s.host ename a)
  handle-Agrees s ch rid cid (declare_queue q) a ok =
      (_, _, refl, declared_queue-Agrees s ch rid cid q a)
  handle-Agrees s ch rid cid (delete_queue qname) a ok =
      unfold Channel.delete_queue Channel.basic_response Channel.send in
      (_, _, refl, delete_queue-Sound env law s.host qname a)
  handle-Agrees s ch rid cid (bind ename qname key) a ok =
      unfold Channel.bind Channel.basic_response Channel.send in
      (_, _, refl, bind-Sound env law s.host ename qname key a)
  handle-Agrees s ch rid cid (unbind ename qname) a ok =
      unfold Channel.unbind Channel.basic_response Channel.send in
      (_, _, refl, unbind-Sound env s.host ename qname a)
  handle-Agrees s ch rid cid (basic_publish ename bp body) a ok =
      (_, _, refl, published-Agrees s ch rid cid ename bp body a ok)
  handle-Agrees s ch rid cid (basic_ack qname id) a ok =
      unfold Channel.basic_ack Channel.basic_response Channel.send in
      let (h', e, a') = basic_ack-Sound env law s.host qname id a in
      (Channel.basic_response env (record s { host = h' }) ch true rid cid, ch, rw e refl, a')
  handle-Agrees s ch rid cid (basic_consume ctag qname auto_ack) a ok =
      (_, _, refl, consumed-Agrees s ch rid cid ctag qname auto_ack a)
  handle-Agrees s ch rid cid (basic_cancel ctag qname) a ok =
      unfold Channel.basic_cancel Channel.basic_response Channel.send in (_, _, refl, a)
  handle-Agrees s ch rid cid basic_query a ok =
      unfold Channel.basic_query Channel.send in
      let (text, e) = basic_query-some env s.host a.1 in
      (Channel.send env s ch.conn (Channel.query rid ch.cid text), ch, rw e refl, a)

  -- The task of the pool is run, and the queues agree with their data files afterwards.
  pub consume-Agrees :
      (s : Shared env) (qname : Text)
      → SharedAgrees env s
      → (s' : Shared env) × (Channel.consume env s qname ≡ some s') × SharedAgrees env s'
  unfolding Channel.consume Channel.consume_cb Channel.send
  consume-Agrees s qname a =
      let (host, taken) = VirtualHost.basic_consume env s.host qname in
      let a₁ = basic_consume-Sound env law s.host qname a in
      elim (Option-cases (VirtualHost.basic_consume env s.host qname).1) [
        | inl e ↦ (record s { host = host }, rw (e, Channel.consume) refl, a₁)
        | inr (msg, e) ↦
            let (consumers, chosen) = Consumer.choose s.consumers qname in
            let s₁ : Shared env = record s { host = host; consumers = consumers } in
            elim (Option-cases (Consumer.choose s.consumers qname).1) [
              | inl f ↦ (s₁, rw (e, Channel.consume) (rw (f, Channel.consume) refl), a₁)
              | inr (c, f) ↦
                  let told = Channel.consume_cb env s₁ c msg in
                  let (h', g, a₂) =
                    basic_ack-Sound env law host qname msg.payload.properties.id a₁ in
                  elim (Bool-cases c.auto_ack) [
                    | inl auto ↦ (
                      record told { host = h' },
                      rw (e, Channel.consume)
                          (rw (f, Channel.consume)
                            (rw (auto, Channel.consume) (rw (g, Channel.consume) refl))),
                      a₂,
                    )
                    | inr plain ↦ (
                      told,
                      rw (e, Channel.consume)
                          (rw (f, Channel.consume) (rw (plain, Channel.consume) refl)),
                      a₁,
                    )
                  ]
            ]
      ]
