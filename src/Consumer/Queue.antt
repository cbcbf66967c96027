-- ===== src/Consumer/Queue.antt =====
-- HareMQ/mqserver/consumer.hpp: `consumer` and `queue_consumer`, the consumers of one queue.
pub mod Turns
pub mod Unique
use hare_mq.Base.{
  ℕ, suc, ◌+◌, ◌%◌, ◌^◌, Bool, true, false, List, [], ◌∷◌, ◌++◌, Option, none, some, Text,
  text_discrete, text_eq, ◌==◌, if◌then◌else◌, length, get_elem?,
}

-- The callback is `consume_cb` of the channel that made the consumer: it sends to the connection
-- `conn`, for the channel `cid`.
pub record Consumer : Type 0 where
  pub tag : Text
  pub qname : Text
  pub auto_ack : Bool
  pub conn : ℕ
  pub cid : Text

pub record QueueConsumer : Type 0 where
  pub qname : Text
  pub rr_seq : ℕ
  pub consumers : List Consumer

abbrev pub new : Text → QueueConsumer
new qname = record { qname = qname; rr_seq = 0; consumers = [] }

-- The loop over the tags, in `create` and `exists`.
unfoldable pub has_tag : Text → List Consumer → Bool
unfolding text_discrete
has_tag ctag [] = false
has_tag ctag (c ∷ cs) = if text_eq c.tag ctag then true else has_tag ctag cs

unfoldable pub create : QueueConsumer → Consumer → QueueConsumer × Option Consumer
unfolding has_tag
create qc c =
    if has_tag c.tag qc.consumers
    then (qc, none)
    else (record qc { consumers = qc.consumers ++ c ∷ [] }, some c)

-- The loop of `remove`: the first consumer with the tag goes.
unfoldable pub erase_tag : Text → List Consumer → List Consumer
unfolding text_discrete
erase_tag ctag [] = []
erase_tag ctag (c ∷ cs) = if text_eq c.tag ctag then cs else c ∷ erase_tag ctag cs

unfoldable pub remove : QueueConsumer → Text → QueueConsumer
unfolding erase_tag
remove qc ctag = record qc { consumers = erase_tag ctag qc.consumers }

-- `int idx = __rr_seq % size` and `++__rr_seq` on a `uint64_t`.
unfoldable pub rr_choose : QueueConsumer → QueueConsumer × Option Consumer
rr_choose qc = if length qc.consumers == 0 then (qc, none) else (
  record qc { rr_seq = (qc.rr_seq + 1) % 2 ^ 64 },
  get_elem? qc.consumers (qc.rr_seq % length qc.consumers),
)

abbrev pub empty : QueueConsumer → Bool
empty qc = length qc.consumers == 0

unfoldable pub exists : QueueConsumer → Text → Bool
unfolding has_tag
exists qc ctag = has_tag ctag qc.consumers

abbrev pub clear : QueueConsumer → QueueConsumer
clear qc = record qc { rr_seq = 0; consumers = [] }
