-- ===== src/Consumer.antt =====
-- HareMQ/mqserver/consumer.hpp: `consumer_manager`. A method runs under the mutex of its object:
-- one call is one function.
mod Tests
pub mod Queue
use hare_mq.Base.{
  Bool, true, false, List, [], ◌∷◌, Option, none, some, Text, text_discrete, Map, find, insert,
  assign, erase,
}
use Queue.{Consumer, QueueConsumer}

-- The state of `consumer_manager`.
abbrev pub Consumers : Type 0
Consumers = Map Text QueueConsumer

unfoldable pub init_queue_consumer : Consumers → Text → Consumers
unfolding insert
init_queue_consumer m qname = insert text_discrete qname (Queue.new qname) m

unfoldable pub destroy_queue_consumer : Consumers → Text → Consumers
unfolding erase
destroy_queue_consumer m qname = erase text_discrete qname m

unfoldable pub create : Consumers → Consumer → Consumers × Option Consumer
unfolding find assign Queue.create
create m c = elim (find text_discrete c.qname m) [
  | none ↦ (m, none)
  | some qc ↦ let (qc', made) = Queue.create qc c in (assign text_discrete c.qname qc' m, made)
]

unfoldable pub remove : Consumers → Text → Text → Consumers
unfolding find assign Queue.remove
remove m ctag qname = elim (find text_discrete qname m) [
  | none ↦ m
  | some qc ↦ assign text_discrete qname (Queue.remove qc ctag) m
]

unfoldable pub choose : Consumers → Text → Consumers × Option Consumer
unfolding find assign Queue.rr_choose
choose m qname = elim (find text_discrete qname m) [
  | none ↦ (m, none)
  | some qc ↦ let (qc', chosen) = Queue.rr_choose qc in (assign text_discrete qname qc' m, chosen)
]

-- Without the queue the answer is false.
unfoldable pub empty : Consumers → Text → Bool
unfolding find
empty m qname = elim (find text_discrete qname m) [ none ↦ false | some qc ↦ Queue.empty qc ]

unfoldable pub exists : Consumers → Text → Text → Bool
unfolding find Queue.has_tag
exists m ctag qname = elim (find text_discrete qname m) [
  | none ↦ false
  | some qc ↦ Queue.exists qc ctag
]

abbrev pub clear : Consumers → Consumers
clear m = []
