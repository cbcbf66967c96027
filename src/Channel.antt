-- ===== src/Channel.antt =====
-- HareMQ/mqserver/channel.hpp: `channel`, the handlers of the requests. A handler runs in the event
-- loop, a pushed `consume` in the thread pool; each is one function here.
pub mod Publish
mod Tests
pub mod Delivery
use hare_mq.Base.{
  ℕ, Bool, true, false, List, [], ◌∷◌, ◌++◌, Option, none, some, Text, if◌then◌else◌,
}
use hare_mq.Helper.{convert_map}
use hare_mq.Proto.{BasicProperties, Message, ExchangeType}
use hare_mq.Exchange
use hare_mq.Exchange.{Exchange}
use hare_mq.Queue
use hare_mq.Binding
use hare_mq.Queue.{MsgQueue}
use hare_mq.Binding.{Binding, QueueBindings}
use hare_mq.Consumer
use hare_mq.Consumer.{Consumers}
use hare_mq.Consumer.Queue.{Consumer}
use hare_mq.Router
use hare_mq.VirtualHost
use hare_mq.VirtualHost.{Env, Host, ◌>>=◌}

-- What the server sends: `basicCommonResponse`, `basicConsumeResponse` and `basicQueryResponse`.
pub data Response : Type 0 where
  common : (rid cid : Text) (ok : Bool) → Response
  deliver : (cid consumer_tag body : Text) (properties : BasicProperties) → Response
  query : (rid cid body : Text) → Response

-- The server's side of a channel; `conn` names its connection.
pub record Channel : Type 0 where
  pub cid : Text
  pub consumer : Option Consumer
  pub conn : ℕ

module _ (env : Env) where
  -- What the channels share: the host, the consumers, the tasks of the thread pool, each of them
  -- `consume` of the queue that it names, and what was sent to which connection, oldest first.
  pub record Shared : Type 0 where
    pub host : Host env
    pub consumers : Consumers
    pub tasks : List Text
    pub sent : List (ℕ × Response)

  unfoldable pub send : Shared → ℕ → Response → Shared
  send s conn r = record s { sent = s.sent ++ (conn, r) ∷ [] }

  unfoldable pub basic_response : Shared → Channel → Bool → Text → Text → Shared
  unfolding send
  basic_response s ch ok rid cid = send s ch.conn (common rid cid ok)

  -- `consume_cb`, bound to the channel that made the consumer.
  unfoldable pub consume_cb : Shared → Consumer → Message → Shared
  unfolding send
  consume_cb s c msg = send s c.conn (deliver c.cid c.tag msg.payload.body msg.payload.properties)

  -- The task of the thread pool. `none` is the failed `assert` of a collection.
  unfoldable pub consume : Shared → Text → Option Shared
  unfolding VirtualHost.basic_consume Consumer.choose consume_cb VirtualHost.basic_ack
  consume s qname =
      let (host, taken) = VirtualHost.basic_consume env s.host qname in
      elim taken [
        | none ↦ some (record s { host = host })
        | some msg ↦
            let (consumers, chosen) = Consumer.choose s.consumers qname in
            let s' : Shared = record s { host = host; consumers = consumers } in
            elim chosen [
              | none ↦ some s'
              | some c ↦
                  let told = consume_cb s' c msg in
                  let acked = (do
                    host' ← VirtualHost.basic_ack env told.host qname msg.payload.properties.id
                    some (record told { host = host' })) in
                  if c.auto_ack then acked else some told
            ]
      ]

  unfoldable pub declare_exchange : Shared → Channel → (rid cid : Text) → Exchange → Shared
  unfolding VirtualHost.declare_exchange basic_response convert_map
  declare_exchange s ch rid cid e =
      let (host, done) =
        VirtualHost.declare_exchange env s.host (record e { args = convert_map e.args }) in
      basic_response (record s { host = host }) ch done rid cid

  unfoldable pub delete_exchange : Shared → Channel → (rid cid ename : Text) → Shared
  unfolding VirtualHost.delete_exchange basic_response
  delete_exchange s ch rid cid ename =
      basic_response (record s { host = VirtualHost.delete_exchange env s.host ename }) ch true rid
        cid

  unfoldable pub declare_queue : Shared → Channel → (rid cid : Text) → MsgQueue → Shared
  unfolding VirtualHost.declare_queue Consumer.init_queue_consumer basic_response convert_map
  declare_queue s ch rid cid q =
      let (host, done) =
        VirtualHost.declare_queue env s.host (record q { args = convert_map q.args }) in
      if done
      then basic_response
          (record s { host = host; consumers = Consumer.init_queue_consumer s.consumers q.name }) ch
          true rid cid
      else basic_response (record s { host = host }) ch false rid cid

  unfoldable pub delete_queue : Shared → Channel → (rid cid qname : Text) → Shared
  unfolding VirtualHost.delete_queue Consumer.destroy_queue_consumer basic_response
  delete_queue s ch rid cid qname =
      basic_response
        (record s {
          consumers = Consumer.destroy_queue_consumer s.consumers qname;
          host = VirtualHost.delete_queue env s.host qname;
        })
        ch true rid cid

  unfoldable pub bind : Shared → Channel → (rid cid ename qname key : Text) → Shared
  unfolding VirtualHost.bind basic_response
  bind s ch rid cid ename qname key =
      let (host, done) = VirtualHost.bind env s.host ename qname key in
      basic_response (record s { host = host }) ch done rid cid

  unfoldable pub unbind : Shared → Channel → (rid cid ename qname : Text) → Shared
  unfolding VirtualHost.unbind basic_response
  unbind s ch rid cid ename qname =
      basic_response (record s { host = VirtualHost.unbind env s.host ename qname }) ch true rid cid

  -- One round of the loop of `basic_publish`: the message goes to the queue, whatever comes of it
  -- there, and a task goes to the pool.
  unfoldable pub publish_to : Shared → Option BasicProperties → Text → Text → Shared
  unfolding VirtualHost.basic_publish
  publish_to s bp body qname = record s {
    host = (VirtualHost.basic_publish env s.host qname bp body).0;
    tasks = s.tasks ++ qname ∷ [];
  }

  -- The routing key of a message without properties is empty.
  unfoldable pub routing_key_of : Option BasicProperties → Text
  routing_key_of none = []
  routing_key_of (some bp) = bp.routing_key

  -- The loop of `basic_publish` over the bindings of the exchange.
  unfoldable pub publish_each :
      ExchangeType → Option BasicProperties → Text → QueueBindings → Shared → Shared
  unfolding publish_to Router.route routing_key_of
  publish_each type bp body [] s = s
  publish_each type bp body ((qname, b) ∷ bindings) s = publish_each type bp body bindings (
      if Router.route (env.split b'.') type (routing_key_of bp) b.binding_key
      then publish_to s bp body qname
      else s)

  unfoldable pub basic_publish :
      Shared → Channel → (rid cid ename : Text) → Option BasicProperties → Text → Shared
  unfolding Exchange.select_exchange Binding.get_exchange_bindings publish_each basic_response
  basic_publish s ch rid cid ename bp body = elim (VirtualHost.select_exchange env s.host ename) [
    | none ↦ basic_response s ch false rid cid
    | some e ↦
        basic_response
          (publish_each e.type bp body (VirtualHost.exchange_bindings env s.host ename) s) ch true
          rid cid
  ]

  unfoldable pub basic_ack : Shared → Channel → (rid cid qname id : Text) → Option Shared
  unfolding VirtualHost.basic_ack basic_response
  basic_ack s ch rid cid qname id = do
    host ← VirtualHost.basic_ack env s.host qname id
    some (basic_response (record s { host = host }) ch true rid cid)

  -- The result of `create`, null or not, becomes the consumer of the channel.
  unfoldable pub basic_consume :
      Shared → Channel → (rid cid ctag qname : Text) → Bool → Shared × Channel
  unfolding Queue.exists Consumer.create basic_response
  basic_consume s ch rid cid ctag qname auto_ack =
      let c : Consumer = record {
        tag = ctag;
        qname = qname;
        auto_ack = auto_ack;
        conn = ch.conn;
        cid = ch.cid;
      } in
      let (consumers, made) = Consumer.create s.consumers c in
      if VirtualHost.exists_queue env s.host qname
      then (
        basic_response (record s { consumers = consumers }) ch true rid cid,
        record ch { consumer = made },
      )
      else (basic_response s ch false rid cid, ch)

  -- The response says false, also after a cancellation.
  unfoldable pub basic_cancel : Shared → Channel → (rid cid ctag qname : Text) → Shared
  unfolding Consumer.remove basic_response
  basic_cancel s ch rid cid ctag qname =
      basic_response (record s { consumers = Consumer.remove s.consumers ctag qname }) ch false rid
        cid

  -- `none` is the failed `assert` of the query.
  unfoldable pub basic_query : Shared → Channel → (rid cid : Text) → Option Shared
  unfolding VirtualHost.Query.basic_query send
  basic_query s ch rid cid = do
    text ← VirtualHost.Query.basic_query env s.host
    some (send s ch.conn (query rid ch.cid text))

  -- The destructor: the consumer of the channel leaves its queue.
  unfoldable pub destroy : Shared → Channel → Shared
  unfolding Consumer.remove
  destroy s ch = elim ch.consumer [
    | none ↦ s
    | some c ↦ record s { consumers = Consumer.remove s.consumers c.tag c.qname }
  ]
