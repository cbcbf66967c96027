-- ===== src/Message/Queue.antt =====
-- HareMQ/mqserver/message.hpp: `queue_message`. The containers of C++ share their messages through
-- `shared_ptr`: here a pointer is an index into `heap`, and an update through one pointer is seen
-- through all. The files of the disk are passed along. A method runs under the mutex.
pub mod Recovery
pub mod Durability
pub mod Sound
pub mod Untouched
pub mod Fifo
mod Tests
use hare_mq.Base.{
  ℕ, zero, suc, ◌+◌, ◌-◌, ◌*◌, ◌%◌, ◌^◌, Bool, true, false, not, ◌&&◌, List, [], ◌∷◌, ◌++◌, Option,
  none, some, Text, codes, text_discrete, ltb, ◌==◌, if◌then◌else◌, length, get_elem?, set, Map,
  find, insert, erase,
}
use hare_mq.Proto.{
  DeliveryMode, unknown_mode, undurable, durable, BasicProperties, Payload, Message,
}
use hare_mq.Files
use hare_mq.Files.{Files}
use hare_mq.Message.Mapper.{Codec, Paths, with_valid}
use hare_mq.Message.Mapper

abbrev pub Pointer : Type 0
Pointer = ℕ

pub record QueueMessage : Type 0 where
  pub valid_count : ℕ
  pub total_count : ℕ
  pub mapper : Paths
  pub heap : List Message
  pub msgs : List Pointer
  pub durable_msgs : Map Text Pointer
  pub wait_ack_msgs : Map Text Pointer

-- `size_t` arithmetic.
abbrev pub size_mod : ℕ
size_mod = 2 ^ 64

abbrev pub is_durable : DeliveryMode → Bool
is_durable durable = true
is_durable undurable = false
is_durable unknown_mode = false

abbrev pub msg_id : Message → Text
msg_id msg = msg.payload.properties.id

-- The constructor; the mapper makes the data file.
unfoldable pub new : Files → Text → Text → Files × QueueMessage
unfolding Mapper.create_msg_file Mapper.paths
new fs base_dir qname = (
  Mapper.create_msg_file fs (Mapper.paths base_dir qname),
  record {
    valid_count = 0;
    total_count = 0;
    mapper = Mapper.paths base_dir qname;
    heap = [];
    msgs = [];
    durable_msgs = [];
    wait_ack_msgs = [];
  },
)

-- The properties of a new message. `uuid` is the identifier that `uuid_helper::uuid()` returns.
unfoldable pub new_properties : Option BasicProperties → Bool → Text → BasicProperties
new_properties (some bp) queue_durable uuid = record {
  id = bp.id;
  delivery_mode = if queue_durable then bp.delivery_mode else undurable;
  routing_key = bp.routing_key;
}
new_properties none queue_durable uuid = record {
  id = uuid;
  delivery_mode = if queue_durable then durable else undurable;
  routing_key = [];
}

unfoldable pub new_message : Option BasicProperties → Text → Bool → Text → Message
unfolding new_properties
new_message bp body queue_durable uuid = record {
  payload = record { properties = new_properties bp queue_durable uuid; body = body; valid = [] };
  offset = 0;
  length = 0;
}

-- The object behind a new pointer, and `__msgs.push_back`.
unfoldable pub push_back : QueueMessage → Message → QueueMessage
push_back q msg = record q { heap = q.heap ++ msg ∷ []; msgs = q.msgs ++ length q.heap ∷ [] }

-- `__durable_msgs.insert({ id, msg })` for the object that the next pointer names.
unfoldable pub note_durable : QueueMessage → Message → QueueMessage
unfolding insert
note_durable q msg = record q {
  durable_msgs = insert text_discrete (msg_id msg) (length q.heap) q.durable_msgs;
}

module _ (c : Codec) where
  unfoldable pub insert_msg : Files → QueueMessage → Message → Files × QueueMessage × Bool
  unfolding push_back note_durable Mapper.insert
  insert_msg fs q msg =
      if is_durable msg.payload.properties.delivery_mode
      then (let marked : Message = record msg { payload = with_valid msg.payload (codes "1") } in
          let (fs', stored, wrote) = Mapper.insert c fs q.mapper marked in
          if wrote
          then (
            fs',
            push_back
                (note_durable
                  (record q {
                    valid_count = (q.valid_count + 1) % size_mod;
                    total_count = (q.total_count + 1) % size_mod;
                  })
                  stored)
                stored,
            true,
          )
          else (fs', q, false))
      else (fs, push_back q msg, true)

  -- `insert(bp, body, queue_durable)`.
  unfoldable pub insert_body :
      Files
      → QueueMessage
      → Option BasicProperties
      → Text
      → Bool
      → Text
      → Files × QueueMessage × Bool
  unfolding new_message insert_msg
  insert_body fs q bp body queue_durable uuid =
      insert_msg fs q (new_message bp body queue_durable uuid)

  -- `recovery()`.
  recover_each : QueueMessage → List Message → QueueMessage
  unfolding note_durable push_back
  recover_each q [] = q
  recover_each q (msg ∷ lst) = recover_each (push_back (note_durable q msg) msg) lst

  unfoldable pub recovery : Files → QueueMessage → Files × QueueMessage
  unfolding recover_each Mapper.gc
  recovery fs q =
      let (fs', lst) = Mapper.gc c fs q.mapper in
      (
        fs',
        record (recover_each (record q { msgs = [] }) lst) {
          valid_count = length lst % size_mod;
          total_count = length lst % size_mod;
        },
      )

  -- `__total_count > 2000 && __valid_count * 1.0 / __total_count < 0.5`: the quotient of two
  -- integers that a double holds is below one half exactly when this holds.
  unfoldable pub gc_check : QueueMessage → Bool
  gc_check q = ltb 2000 q.total_count && ltb (2 * q.valid_count) q.total_count

  -- The loop of `gc`: a message that is known gets its new place, another is taken in.
  unfoldable pub relocate : QueueMessage → List Message → QueueMessage
  unfolding find note_durable push_back
  relocate q [] = q
  relocate q (m ∷ lst) =
      relocate
        (elim (find text_discrete (msg_id m) q.durable_msgs) [
          | none ↦ push_back (note_durable q m) m
          | some p ↦ elim (get_elem? q.heap p) [
            | none ↦ q
            | some old ↦ record q {
              heap = set q.heap p (record old { offset = m.offset; length = m.length });
            }
          ]
        ])
        lst

  -- `gc()`; `none` is the failed `assert`.
  unfoldable pub gc : Files → QueueMessage → Option (Files × QueueMessage)
  unfolding gc_check relocate Mapper.gc
  gc fs q =
      if not (gc_check q)
      then some (fs, q)
      else (let (fs', lst) = Mapper.gc c fs q.mapper in
          if length lst == q.valid_count
          then some (
            fs',
            record (relocate q lst) {
              valid_count = length lst % size_mod;
              total_count = length lst % size_mod;
            },
          )
          else none)

  -- The part of `remove` for a durable message, behind the pointer `p`.
  unfoldable pub remove_durable :
      Files → QueueMessage → Text → Pointer → Message → Option (Files × QueueMessage)
  unfolding erase Mapper.remove gc
  remove_durable fs q id p msg =
      let (fs', msg', _) = Mapper.remove c fs q.mapper msg in
      gc fs' (record q {
        heap = set q.heap p msg';
        durable_msgs = erase text_discrete id q.durable_msgs;
        valid_count = (q.valid_count + size_mod - 1) % size_mod;
      })

  -- The last step of `remove`.
  abbrev pub forget : Text → Option (Files × QueueMessage) → Option (Files × QueueMessage)
  unfolding erase
  forget id none = none
  forget id (some (fs, q)) =
      some (fs, record q { wait_ack_msgs = erase text_discrete id q.wait_ack_msgs })

  -- `remove(msg_id)`, which always returns true. `none` is the failed `assert` of `gc`, or a
  -- pointer to no object.
  unfoldable pub remove : Files → QueueMessage → Text → Option (Files × QueueMessage)
  unfolding find remove_durable
  remove fs q id = elim (find text_discrete id q.wait_ack_msgs) [
    | none ↦ some (fs, q)
    | some p ↦ elim (get_elem? q.heap p) [
      | none ↦ none
      | some msg ↦ forget id (
          if is_durable msg.payload.properties.delivery_mode
          then remove_durable fs q id p msg
          else some (fs, q))
    ]
  ]

-- `front()`: the pointer, which also waits for its acknowledgement.
unfoldable pub front : QueueMessage → QueueMessage × Option Pointer
unfolding insert
front q = elim q.msgs [
  | [] ↦ (q, none)
  | p ∷ rest ↦ (
    record q {
      msgs = rest;
      wait_ack_msgs = elim (get_elem? q.heap p) [
        | none ↦ q.wait_ack_msgs
        | some msg ↦ insert text_discrete (msg_id msg) p q.wait_ack_msgs
      ];
    },
    some p,
  )
]

abbrev pub getable_count : QueueMessage → ℕ
getable_count q = length q.msgs

abbrev pub durable_count : QueueMessage → ℕ
durable_count q = length q.durable_msgs

abbrev pub wait_ack_count : QueueMessage → ℕ
wait_ack_count q = length q.wait_ack_msgs

-- `clear()`: the data file is removed and not made again.
unfoldable pub clear : Files → QueueMessage → Files × QueueMessage
unfolding Mapper.remove_msg_file
clear fs q = (
  Mapper.remove_msg_file fs q.mapper,
  record q { valid_count = 0; total_count = 0; msgs = []; durable_msgs = []; wait_ack_msgs = [] },
)
