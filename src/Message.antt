-- ===== src/Message.antt =====
-- HareMQ/mqserver/message.hpp: `message_manager`, the message stores of all queues. Looking a queue
-- up and working on it are two critical sections in C++; a call is one function here.
mod Tests
pub mod SampleCodec
pub mod Mapper
pub mod Queue
pub mod Agreement
use hare_mq.Base.{
  ℕ, Bool, true, false, List, [], ◌∷◌, Option, none, some, Text, text_discrete, get_elem?, Map,
  find, insert, assign, erase,
}
use hare_mq.Proto.{BasicProperties, Message}
use hare_mq.Files.{Files}
use Mapper.{Codec}
use Queue.{QueueMessage}

pub record Manager : Type 0 where
  pub base_dir : Text
  pub queue_msgs : Map Text QueueMessage

abbrev pub new : Text → Manager
new base_dir = record { base_dir = base_dir; queue_msgs = [] }

abbrev pub put : Manager → Text → QueueMessage → Manager
unfolding assign
put m qname q = record m { queue_msgs = assign text_discrete qname q m.queue_msgs }

module _ (c : Codec) where
  unfoldable pub init_queue_msg : Files → Manager → Text → Files × Manager
  unfolding find insert Queue.new Queue.recovery
  init_queue_msg fs m qname = elim (find text_discrete qname m.queue_msgs) [
    | some _ ↦ (fs, m)
    | none ↦
        let (fs₁, made) = Queue.new fs m.base_dir qname in
        let (fs₂, q) = Queue.recovery c fs₁ made in
        (fs₂, record m { queue_msgs = insert text_discrete qname q m.queue_msgs })
  ]

  unfoldable pub insert_body :
      Files → Manager → Text → Option BasicProperties → Text → Bool → Text → Files × Manager × Bool
  unfolding find assign Queue.insert_body
  insert_body fs m qname bp body queue_durable uuid = elim (find text_discrete qname m.queue_msgs) [
    | none ↦ (fs, m, false)
    | some q ↦
        let (fs', q', done) = Queue.insert_body c fs q bp body queue_durable uuid in
        (fs', put m qname q', done)
  ]

  -- `none` is the failed `assert` of the collection.
  unfoldable pub ack : Files → Manager → Text → Text → Option (Files × Manager)
  unfolding find assign Queue.remove
  ack fs m qname id = elim (find text_discrete qname m.queue_msgs) [
    | none ↦ some (fs, m)
    | some q ↦ elim (Queue.remove c fs q id) [
      | none ↦ none
      | some (fs', q') ↦ some (fs', put m qname q')
    ]
  ]

unfoldable pub destroy_queue_msg : Files → Manager → Text → Files × Manager
unfolding find erase Queue.clear
destroy_queue_msg fs m qname = elim (find text_discrete qname m.queue_msgs) [
  | none ↦ (fs, m)
  | some q ↦
      ((Queue.clear fs q).0, record m { queue_msgs = erase text_discrete qname m.queue_msgs })
]

-- The message behind the pointer that the queue hands out.
unfoldable pub front : Manager → Text → Manager × Option Message
unfolding find assign Queue.front
front m qname = elim (find text_discrete qname m.queue_msgs) [
  | none ↦ (m, none)
  | some q ↦
      let (q', p) = Queue.front q in
      (put m qname q', elim p [ none ↦ none | some i ↦ get_elem? q'.heap i ])
]

-- The four counters: 0 for a queue that is not there.
abbrev pub count_of : (QueueMessage → ℕ) → Manager → Text → ℕ
unfolding find
count_of count m qname = elim (find text_discrete qname m.queue_msgs) [
  | none ↦ 0
  | some q ↦ count q
]

abbrev pub getable_count : Manager → Text → ℕ
getable_count = count_of Queue.getable_count

abbrev pub total_count : Manager → Text → ℕ
total_count = count_of (λ q. q.total_count)

abbrev pub durable_count : Manager → Text → ℕ
durable_count = count_of Queue.durable_count

abbrev pub wait_ack_count : Manager → Text → ℕ
wait_ack_count = count_of Queue.wait_ack_count

-- `clear()`: every queue is emptied and stays in the map.
unfoldable pub clear_each : Files → Map Text QueueMessage → Files × Map Text QueueMessage
unfolding Queue.clear
clear_each fs [] = (fs, [])
clear_each fs ((qname, q) ∷ m) =
    let (fs₁, q') = Queue.clear fs q in let (fs₂, m') = clear_each fs₁ m in (fs₂, (qname, q') ∷ m')

unfoldable pub clear : Files → Manager → Files × Manager
unfolding clear_each
clear fs m = let (fs', qs) = clear_each fs m.queue_msgs in (fs', record m { queue_msgs = qs })
