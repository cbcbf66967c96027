-- ===== src/Client/Channel.antt =====
-- HareMQ/mqclient/channel.hpp and consumer.hpp: the client's side of a channel. A method builds a
-- request, sends it and blocks until the response is there: it is a `Method`, which says what is
-- sent and what the method does with the channel and the response once it is woken.
use hare_mq.Base.{
  Bool, true, false, [], Option, none, some, Text, text_discrete, text_eq, if◌then◌else◌, Map, find,
  insert, erase,
}
use hare_mq.Proto.{BasicProperties}
use hare_mq.Exchange.{Exchange}
use hare_mq.Queue.{MsgQueue}
use hare_mq.Helper.{convert_map}
use hare_mq.Broker.{Request}

-- The callback is the application's; here a delivery tells whether it is called.
pub record Consumer : Type 0 where
  pub tag : Text
  pub qname : Text
  pub auto_ack : Bool

-- Of a common response only `ok` is read, of a query response only the body.
pub record Channel : Type 0 where
  pub cid : Text
  pub consumer : Option Consumer
  pub basic_resp : Map Text Bool
  pub basic_query_resp : Map Text Text

unfoldable pub new : Text → Channel
new uuid = record { cid = uuid; consumer = none; basic_resp = []; basic_query_resp = [] }

-- What a client sends, with `rid` and `cid`.
pub data Outgoing : Type 0 where
  open_channel : (rid cid : Text) → Outgoing
  close_channel : (rid cid : Text) → Outgoing
  request : (rid cid : Text) → Request → Outgoing

-- A method returns at once, or sends and waits for the response to `rid`: a common one, or that of
-- a query. A method without a result returns true.
pub data Method : Type 0 where
  returns : Bool → Method
  asks : (rid : Text) → Outgoing → (Channel → Bool → Channel × Bool) → Method
  queries : (rid : Text) → Outgoing → Method

-- `return resp->ok()`, and a method without a result.
abbrev pub returns_ok : Channel → Bool → Channel × Bool
returns_ok ch ok = (ch, ok)

abbrev pub returns_nothing : Channel → Bool → Channel × Bool
returns_nothing ch ok = (ch, true)

unfoldable pub open_server_channel : Channel → Text → Method
open_server_channel ch rid = asks rid (open_channel rid ch.cid) returns_ok

unfoldable pub close_server_channel : Channel → Text → Method
close_server_channel ch rid = asks rid (close_channel rid ch.cid) returns_nothing

unfoldable pub declare_exchange : Channel → Text → Exchange → Method
unfolding convert_map
declare_exchange ch rid e =
    asks rid
      (request rid ch.cid (Request.declare_exchange (record e { args = convert_map e.args })))
      returns_ok

unfoldable pub delete_exchange : Channel → Text → Text → Method
delete_exchange ch rid name =
    asks rid (request rid ch.cid (Request.delete_exchange name)) returns_nothing

unfoldable pub declare_queue : Channel → Text → MsgQueue → Method
unfolding convert_map
declare_queue ch rid q =
    asks rid (request rid ch.cid (Request.declare_queue (record q { args = convert_map q.args })))
      returns_ok

unfoldable pub delete_queue : Channel → Text → Text → Method
delete_queue ch rid name = asks rid (request rid ch.cid (Request.delete_queue name)) returns_nothing

unfoldable pub bind : Channel → Text → (ename qname key : Text) → Method
bind ch rid ename qname key =
    asks rid (request rid ch.cid (Request.bind ename qname key)) returns_ok

unfoldable pub unbind : Channel → Text → (ename qname : Text) → Method
unbind ch rid ename qname =
    asks rid (request rid ch.cid (Request.unbind ename qname)) returns_nothing

unfoldable pub basic_publish : Channel → Text → Text → Option BasicProperties → Text → Method
basic_publish ch rid ename bp body =
    asks rid (request rid ch.cid (Request.basic_publish ename bp body)) returns_nothing

-- Without a consumer there is nothing to acknowledge.
unfoldable pub basic_ack : Channel → Text → Text → Method
basic_ack ch rid msgid = elim ch.consumer [
  | none ↦ returns true
  | some c ↦ asks rid (request rid ch.cid (Request.basic_ack c.qname msgid)) returns_nothing
]

-- A channel has one consumer at most.
unfoldable pub basic_consume : Channel → Text → (consumer_tag queue_name : Text) → Bool → Method
basic_consume ch rid consumer_tag queue_name auto_ack = elim ch.consumer [
  | some c ↦ returns false
  | none ↦
      asks rid (request rid ch.cid (Request.basic_consume consumer_tag queue_name auto_ack))
        (λ ch' ok.
          if ok
          then (
            record ch' {
              consumer =
                  some (record { tag = consumer_tag; qname = queue_name; auto_ack = auto_ack });
            },
            true,
          )
          else (ch', false))
]

unfoldable pub basic_cancel : Channel → Text → Method
basic_cancel ch rid = elim ch.consumer [
  | none ↦ returns true
  | some c ↦
      asks rid (request rid ch.cid (Request.basic_cancel c.tag c.qname))
        (λ ch' ok. (record ch' { consumer = none }, true))
]

-- `~channel`: the destructor waits for the response, too.
unfoldable pub destroy : Channel → Text → Method
unfolding basic_cancel
destroy ch rid = basic_cancel ch rid

unfoldable pub basic_query : Channel → Text → Method
basic_query ch rid = queries rid (request rid ch.cid Request.basic_query)

-- The two `push_basic_response`: a response that is there already stays.
unfoldable pub push_basic_response : Channel → (rid : Text) → Bool → Channel
unfolding insert
push_basic_response ch rid ok = record ch { basic_resp = insert text_discrete rid ok ch.basic_resp }

unfoldable pub push_query_response : Channel → (rid body : Text) → Channel
unfolding insert
push_query_response ch rid body = record ch {
  basic_query_resp = insert text_discrete rid body ch.basic_query_resp;
}

-- Whether a delivery is handed to the callback of the consumer.
unfoldable pub consume : Channel → (consumer_tag : Text) → Bool
consume ch consumer_tag = elim ch.consumer [ none ↦ false | some c ↦ text_eq c.tag consumer_tag ]

-- One look of a waiting thread: `none` if it waits on, else the response, which it takes away.
unfoldable pub wait_response : Channel → Text → Option (Channel × Bool)
unfolding find erase
wait_response ch rid = elim (find text_discrete rid ch.basic_resp) [
  | none ↦ none
  | some ok ↦ some (record ch { basic_resp = erase text_discrete rid ch.basic_resp }, ok)
]

unfoldable pub wait_query_response : Channel → Text → Option (Channel × Text)
unfolding find erase
wait_query_response ch rid = elim (find text_discrete rid ch.basic_query_resp) [
  | none ↦ none
  | some body ↦
      some (record ch { basic_query_resp = erase text_discrete rid ch.basic_query_resp }, body)
]

-- A thread inside a method that looks whether it can go on; `none` if it waits.
unfoldable pub resume : Channel → Method → Option (Channel × Bool)
unfolding wait_response wait_query_response
resume ch (returns r) = some (ch, r)
resume ch (asks rid out k) = elim (wait_response ch rid) [
  | none ↦ none
  | some (ch', ok) ↦ some (k ch' ok)
]
resume ch (queries rid out) = elim (wait_query_response ch rid) [
  | none ↦ none
  | some (ch', body) ↦ some (ch', true)
]
