-- ===== src/Broker.antt =====
-- HareMQ/mqserver/connection.hpp and broker_server.hpp, and `channel_manager` of channel.hpp: the
-- connections with their channels, and the dispatch of the requests to the channels.
pub mod Owned
pub mod Events
mod Tests
pub mod Answers
pub mod Safety
use hare_mq.Base.{
  ℕ, ◌≡◌, Bool, true, false, List, [], ◌∷◌, ◌++◌, Option, none, some, Text, text_discrete,
  ℕ_discrete, if◌then◌else◌, Map, find, insert, assign, erase,
}
use hare_mq.Proto.{BasicProperties}
use hare_mq.Exchange.{Exchange}
use hare_mq.Queue.{MsgQueue}
use hare_mq.Consumer
use hare_mq.VirtualHost
use hare_mq.VirtualHost.{Env, Host, ◌>>=◌}
use hare_mq.Channel
use hare_mq.Channel.{Channel, Shared, common}

-- The requests of HareMQ/mqcommon/protocol.proto that name a channel, without their `rid` and `cid`.
pub data Request : Type 0 where
  declare_exchange : Exchange → Request
  delete_exchange : (ename : Text) → Request
  declare_queue : MsgQueue → Request
  delete_queue : (qname : Text) → Request
  bind : (ename qname key : Text) → Request
  unbind : (ename qname : Text) → Request
  basic_publish : (ename : Text) → Option BasicProperties → (body : Text) → Request
  basic_ack : (qname id : Text) → Request
  basic_consume : (ctag qname : Text) → Bool → Request
  basic_cancel : (ctag qname : Text) → Request
  basic_query : Request

-- The state of `channel_manager`, and of `connection`: its channels by their names.
abbrev pub Channels : Type 0
Channels = Map Text Channel

-- What happens at the server, by connection: requests, connecting and disconnecting, a message of
-- no known type, and the thread pool taking up its next task.
pub data Event : Type 0 where
  connected : (conn : ℕ) → Event
  disconnected : (conn : ℕ) → Event
  open_channel : (conn : ℕ) (rid cid : Text) → Event
  close_channel : (conn : ℕ) (rid cid : Text) → Event
  request : (conn : ℕ) (rid cid : Text) → Request → Event
  unknown_message : (conn : ℕ) → Event
  run_task : Event

module _ (env : Env) where
  -- `shut` lists the connections that the server has shut down.
  pub record Broker : Type 0 where
    pub shared : Shared env
    pub conns : Map ℕ Channels
    pub shut : List ℕ

  abbrev pub respond : Broker → ℕ → Text → Text → Bool → Broker
  unfolding Channel.send
  respond b conn rid cid ok = record b {
    shared = Channel.send env b.shared conn (common rid cid ok);
  }

  abbrev pub put_channels : Broker → ℕ → Channels → Broker
  unfolding assign
  put_channels b conn channels = record b { conns = assign ℕ_discrete conn channels b.conns }

  -- `connection::open_channel`: a name that is taken is refused.
  unfoldable pub open_in : Broker → ℕ → Channels → (rid cid : Text) → Broker
  unfolding find insert assign Channel.send text_discrete
  open_in b conn channels rid cid = elim (find text_discrete cid channels) [
    | some _ ↦ respond b conn rid cid false
    | none ↦
        let ch : Channel = record { cid = cid; consumer = none; conn = conn } in
        respond (put_channels b conn (insert text_discrete cid ch channels)) conn rid cid true
  ]

  -- `connection::close_channel`: the channel is destroyed if it is there.
  unfoldable pub close_in : Broker → ℕ → Channels → (rid cid : Text) → Broker
  unfolding find erase assign Channel.send Channel.destroy text_discrete
  close_in b conn channels rid cid =
      let shared = elim (find text_discrete cid channels) as (λ _. Shared env) [
        | none ↦ b.shared
        | some ch ↦ Channel.destroy env b.shared ch
      ] in
      respond (put_channels (record b { shared = shared }) conn (erase text_discrete cid channels))
        conn rid cid true

  -- The handlers of the channel. `none` is the failed `assert` of a collection or of a query.
  unfoldable pub handle :
      Shared env → Channel → (rid cid : Text) → Request → Option (Shared env × Channel)
  unfolding Channel.declare_exchange Channel.delete_exchange Channel.declare_queue
      Channel.delete_queue Channel.bind Channel.unbind Channel.basic_publish Channel.basic_ack
      Channel.basic_consume Channel.basic_cancel Channel.basic_query
  handle s ch rid cid (declare_exchange e) = some (Channel.declare_exchange env s ch rid cid e, ch)
  handle s ch rid cid (delete_exchange ename) =
      some (Channel.delete_exchange env s ch rid cid ename, ch)
  handle s ch rid cid (declare_queue q) = some (Channel.declare_queue env s ch rid cid q, ch)
  handle s ch rid cid (delete_queue qname) = some (Channel.delete_queue env s ch rid cid qname, ch)
  handle s ch rid cid (bind ename qname key) =
      some (Channel.bind env s ch rid cid ename qname key, ch)
  handle s ch rid cid (unbind ename qname) = some (Channel.unbind env s ch rid cid ename qname, ch)
  handle s ch rid cid (basic_publish ename bp body) =
      some (Channel.basic_publish env s ch rid cid ename bp body, ch)
  handle s ch rid cid (basic_ack qname id) = do
    s' ← Channel.basic_ack env s ch rid cid qname id
    some (s', ch)
  handle s ch rid cid (basic_consume ctag qname auto_ack) =
      some (Channel.basic_consume env s ch rid cid ctag qname auto_ack)
  handle s ch rid cid (basic_cancel ctag qname) =
      some (Channel.basic_cancel env s ch rid cid ctag qname, ch)
  handle s ch rid cid basic_query = do s' ← Channel.basic_query env s ch rid cid; some (s', ch)

  -- The common part of the `on_...` functions: the connection and the channel are looked up.
  unfoldable pub dispatch : Broker → ℕ → (rid cid : Text) → Request → Option Broker
  unfolding find assign handle text_discrete
  dispatch b conn rid cid req = elim (find ℕ_discrete conn b.conns) [
    | none ↦ some (record b { shut = conn ∷ b.shut })
    | some channels ↦ elim (find text_discrete cid channels) [
      | none ↦ some b
      | some ch ↦ do
        (shared, ch') ← handle b.shared ch rid cid req
        some (
            put_channels (record b { shared = shared }) conn
              (assign text_discrete cid ch' channels))
    ]
  ]

  -- `channel_manager` goes with its connection, and each channel with it.
  unfoldable pub destroy_each : Shared env → Channels → Shared env
  unfolding Channel.destroy
  destroy_each s [] = s
  destroy_each s ((cid, ch) ∷ channels) = destroy_each (Channel.destroy env s ch) channels

  -- The first task of the pool is run.
  unfoldable pub run_first : Broker → List Text → Option Broker
  unfolding Channel.consume
  run_first b [] = some b
  run_first b (qname ∷ tasks) = do
    shared ← Channel.consume env (record b.shared { tasks = tasks }) qname
    some (record b { shared = shared })

  unfoldable pub step : Broker → Event → Option Broker
  unfolding find insert erase open_in close_in dispatch destroy_each run_first ℕ_discrete
  step b (connected conn) = some (record b { conns = insert ℕ_discrete conn [] b.conns })
  step b (disconnected conn) = elim (find ℕ_discrete conn b.conns) [
    | none ↦ some b
    | some channels ↦ some (record b {
      shared = destroy_each b.shared channels;
      conns = erase ℕ_discrete conn b.conns;
    })
  ]
  step b (open_channel conn rid cid) = elim (find ℕ_discrete conn b.conns) [
    | none ↦ some (record b { shut = conn ∷ b.shut })
    | some channels ↦ some (open_in b conn channels rid cid)
  ]
  step b (close_channel conn rid cid) = elim (find ℕ_discrete conn b.conns) [
    | none ↦ some (record b { shut = conn ∷ b.shut })
    | some channels ↦ some (close_in b conn channels rid cid)
  ]
  step b (request conn rid cid req) = dispatch b conn rid cid req
  step b (unknown_message conn) = some (record b { shut = conn ∷ b.shut })
  step b run_task = run_first b b.shared.tasks

  -- The constructor of `BrokerServer`: every queue that was read back gets its consumers.
  unfoldable pub init_consumers : Map Text MsgQueue → Consumer.Consumers → Consumer.Consumers
  unfolding Consumer.init_queue_consumer
  init_consumers [] m = m
  init_consumers ((qname, q) ∷ qs) m = init_consumers qs (Consumer.init_queue_consumer m qname)

  unfoldable pub start : Host env → Broker
  unfolding init_consumers
  start host = record {
    shared = record {
      host = host;
      consumers = init_consumers (VirtualHost.all_queues env host) [];
      tasks = [];
      sent = [];
    };
    conns = [];
    shut = [];
  }
