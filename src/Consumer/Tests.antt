-- ===== src/Consumer/Tests.antt =====
-- Three consumers, of which the second one comes next.
use hare_mq.Base.{
  ◌≡◌, refl, ◌⊎◌, true, false, [], ◌∷◌, ◌++◌, map, none, some, Text, codes, text_discrete,
  ℕ_discrete, length, arith,
}
use hare_mq.Consumer.Queue.{Consumer, QueueConsumer, has_tag, create}
use hare_mq.Consumer.Queue.Turns.{choices, rr_choose-rotation}
use hare_mq.Consumer.Queue.Unique.{UniqueTags, create-UniqueTags}

abbrev consumer : Text → Consumer
consumer tag = record { tag = tag; qname = codes "q"; auto_ack = true; conn = 1; cid = codes "c" }

abbrev a : Consumer
a = consumer (codes "a")

abbrev b : Consumer
b = consumer (codes "b")

abbrev c : Consumer
c = consumer (codes "c")

abbrev three : QueueConsumer
three = record { qname = codes "q"; rr_seq = 4; consumers = a ∷ b ∷ c ∷ [] }

three-UniqueTags : UniqueTags three.consumers
unfolding has_tag text_discrete ℕ_discrete
three-UniqueTags = (refl, (refl, (refl, tt)))

rr_choose-rotation_example :
    choices (length three.consumers) three ≡ map some ((b ∷ c ∷ []) ++ a ∷ [])
rr_choose-rotation_example = rr_choose-rotation three (a ∷ []) (c ∷ []) b refl refl (omega arith)

create-UniqueTags_example :
    UniqueTags (create three b).0.consumers
    × (((has_tag b.tag three.consumers ≡ true) × (create three b ≡ (three, none)))
        ⊎ ((has_tag b.tag three.consumers ≡ false)
            × (create three b ≡ (record three { consumers = three.consumers ++ b ∷ [] }, some b))))
create-UniqueTags_example = create-UniqueTags three b three-UniqueTags
