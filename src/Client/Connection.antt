-- ===== src/Client/Connection.antt =====
-- HareMQ/mqclient/connection.hpp and async_worker.hpp, and `channel_manager` of channel.hpp: the
-- channels of a client and the callbacks of its event loop. Channels are shared: a pointer is an
-- index into `heap`, and `channels` maps the identifiers of the managed ones to their pointers.
use hare_mq.Base.{
  ℕ, Bool, List, [], ◌∷◌, ◌++◌, Option, none, some, Text, text_discrete, Map, find, insert, erase,
  get_elem?, set, length, if◌then◌else◌,
}
use hare_mq.Proto.{BasicProperties}
use hare_mq.Channel.{Response, common, deliver, query}
use hare_mq.Client.Channel
use hare_mq.Client.Channel.{Channel, Method, push_basic_response, push_query_response}

abbrev pub Pointer : Type 0
Pointer = ℕ

-- A task of the pool of `async_worker`: `ch->consume(message)`. The pointer is null if the channel
-- was not found.
pub record Task : Type 0 where
  pub target : Option Pointer
  pub consumer_tag : Text
  pub properties : BasicProperties
  pub body : Text

-- `received` lists what was handed to the callbacks of the consumers, oldest first.
pub record Connection : Type 0 where
  pub heap : List Channel
  pub channels : Map Text Pointer
  pub tasks : List Task
  pub received : List (Text × BasicProperties × Text)

abbrev pub new : Connection
new = record { heap = []; channels = []; tasks = []; received = [] }

-- The object behind a pointer is replaced.
abbrev pub put : Connection → Pointer → Channel → Connection
put c p ch = record c { heap = set c.heap p ch }

-- `create_channel`: the identifier is a new `uuid()`.
unfoldable pub create_channel : Connection → Text → Connection × Pointer
unfolding Channel.new insert
create_channel c uuid = (
  record c {
    heap = c.heap ++ Channel.new uuid ∷ [];
    channels = insert text_discrete uuid (length c.heap) c.channels;
  },
  length c.heap,
)

unfoldable pub remove_channel : Connection → Text → Connection
unfolding erase
remove_channel c cid = record c { channels = erase text_discrete cid c.channels }

unfoldable pub select_channel : Connection → Text → Option Pointer
unfolding find
select_channel c cid = find text_discrete cid c.channels

-- `openChannel`: the channel is made and registered, then the server is asked to open it.
unfoldable pub open_channel : Connection → (uuid rid : Text) → Connection × Pointer × Method
unfolding create_channel Channel.new Channel.open_server_channel
open_channel c uuid rid =
    let (c', p) = create_channel c uuid in
    (c', p, Channel.open_server_channel (Channel.new uuid) rid)

-- What `openChannel` returns after that; a channel that is refused stays registered.
unfoldable pub opened : Pointer → Bool → Option Pointer
opened p ok = if ok then some p else none

-- `closeChannel`: the server is asked, and after that the channel is taken out.
unfoldable pub close_channel : Connection → Channel → (rid : Text) → Method × Connection
unfolding remove_channel Channel.close_server_channel
close_channel c ch rid = (Channel.close_server_channel ch rid, remove_channel c ch.cid)

-- An update of the channel with the identifier `cid`; without such a channel nothing happens.
unfoldable pub on_channel : Connection → Text → (Channel → Channel) → Connection
unfolding select_channel
on_channel c cid f = elim (select_channel c cid) [
  | none ↦ c
  | some p ↦ elim (get_elem? c.heap p) [ none ↦ c | some ch ↦ put c p (f ch) ]
]

-- `commonResponse`.
unfoldable pub common_response : Connection → (rid cid : Text) → Bool → Connection
unfolding on_channel push_basic_response
common_response c rid cid ok = on_channel c cid (λ ch. push_basic_response ch rid ok)

-- `queryRespone`.
unfoldable pub query_response : Connection → (rid cid body : Text) → Connection
unfolding on_channel push_query_response
query_response c rid cid body = on_channel c cid (λ ch. push_query_response ch rid body)

-- `consumeResponse`: the channel is not tested for null.
unfoldable pub consume_response :
    Connection → (cid consumer_tag body : Text) → BasicProperties → Connection
unfolding select_channel
consume_response c cid consumer_tag body properties = record c {
  tasks =
      c.tasks
      ++ (record {
        target = select_channel c cid;
        consumer_tag = consumer_tag;
        properties = properties;
        body = body;
      })
        ∷ [];
}

-- The dispatch of a message from the server.
unfoldable pub receive : Connection → Response → Connection
unfolding common_response query_response consume_response
receive c (common rid cid ok) = common_response c rid cid ok
receive c (deliver cid consumer_tag body properties) =
    consume_response c cid consumer_tag body properties
receive c (query rid cid body) = query_response c rid cid body

unfoldable pub receive_all : Connection → List Response → Connection
unfolding receive
receive_all c [] = c
receive_all c (r ∷ rs) = receive_all (receive c r) rs

-- The pool runs its first task. `none` is the call through a null pointer.
unfoldable pub run_task : Connection → Option Connection
unfolding Channel.consume
run_task c = elim c.tasks [
  | [] ↦ some c
  | t ∷ ts ↦ elim t.target [
    | none ↦ none
    | some p ↦ elim (get_elem? c.heap p) [
      | none ↦ none
      | some ch ↦ some (record c {
        tasks = ts;
        received =
            if Channel.consume ch t.consumer_tag
            then c.received ++ (t.consumer_tag, t.properties, t.body) ∷ []
            else c.received;
      })
    ]
  ]
]

-- A thread inside a method of the channel `p` looks whether it can go on; `none` if it waits.
unfoldable pub resume : Connection → Pointer → Method → Option (Connection × Bool)
unfolding Channel.resume
resume c p m = elim (get_elem? c.heap p) [
  | none ↦ none
  | some ch ↦ elim (Channel.resume ch m) [ none ↦ none | some (ch', r) ↦ some (put c p ch', r) ]
]
