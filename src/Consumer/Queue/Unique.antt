-- ===== src/Consumer/Queue/Unique.antt =====
-- consumer.hpp: no two consumers of a queue have the same tag.
use hare_mq.Base.{
  ◌≡◌, refl, true, false, List, [], ◌∷◌, ◌++◌, ◌⊎◌, none, some, Text, text_eq, if◌then◌else◌, arith,
  Bool-cases, inl, inr,
}
use hare_mq.Consumer.Queue.{Consumer, QueueConsumer, has_tag, erase_tag, create, remove}

abbrev pub UniqueTags : List Consumer → Type 0
UniqueTags [] = Unit
UniqueTags (c ∷ cs) = (has_tag c.tag cs ≡ false) × UniqueTags cs

has_tag-append :
    (ctag : Text) (cs : List Consumer) (c : Consumer)
    → has_tag ctag (cs ++ c ∷ []) ≡ (if has_tag ctag cs then true else text_eq c.tag ctag)
unfolding has_tag
has_tag-append ctag [] c = ground arith
has_tag-append ctag (d ∷ cs) c = ground (arith, has_tag-append ctag cs c)

append-UniqueTags :
    (cs : List Consumer) (c : Consumer)
    → UniqueTags cs
    → has_tag c.tag cs ≡ false
    → UniqueTags (cs ++ c ∷ [])
unfolding has_tag
append-UniqueTags [] c u n = (refl, tt)
append-UniqueTags (d ∷ cs) c u n =
    (ground (arith, has_tag-append d.tag cs c), append-UniqueTags cs c u.1 (ground arith))

has_tag-erase_tag :
    (ctag other : Text) (cs : List Consumer)
    → has_tag other cs ≡ false
    → has_tag other (erase_tag ctag cs) ≡ false
unfolding has_tag erase_tag
has_tag-erase_tag ctag other [] n = refl
has_tag-erase_tag ctag other (c ∷ cs) n = ground (arith, has_tag-erase_tag ctag other cs)

erase_tag-UniqueTags :
    (ctag : Text) (cs : List Consumer)
    → UniqueTags cs
    → UniqueTags (erase_tag ctag cs) × (has_tag ctag (erase_tag ctag cs) ≡ false)
unfolding has_tag erase_tag
erase_tag-UniqueTags ctag [] u = (tt, refl)
erase_tag-UniqueTags ctag (c ∷ cs) u = elim (Bool-cases (text_eq c.tag ctag)) [
  | inl e ↦ rw e (u.1, ground (arith, u.0, e))
  | inr e ↦
      let (unique, gone) = erase_tag-UniqueTags ctag cs u.1 in
      rw e ((has_tag-erase_tag ctag c.tag cs u.0, unique), rw e gone)
]

-- If no two consumers have the same tag, this stays so when a consumer is made, and a consumer is
-- returned exactly if its tag was free; it then stands at the end, and else nothing changes.
pub create-UniqueTags :
    (qc : QueueConsumer) (c : Consumer)
    → UniqueTags qc.consumers
    → UniqueTags (create qc c).0.consumers
      × (((has_tag c.tag qc.consumers ≡ true) × (create qc c ≡ (qc, none)))
          ⊎ ((has_tag c.tag qc.consumers ≡ false)
              × (create qc c ≡ (record qc { consumers = qc.consumers ++ c ∷ [] }, some c))))
unfolding create
create-UniqueTags qc c u = elim (Bool-cases (has_tag c.tag qc.consumers)) [
  | inl e ↦ rw e (u, inl (refl, refl))
  | inr e ↦ rw e (append-UniqueTags qc.consumers c u e, inr (refl, refl))
]

-- If no two consumers have the same tag, this stays so when one is removed, and its tag is free
-- then.
pub remove-UniqueTags :
    (qc : QueueConsumer) (ctag : Text)
    → UniqueTags qc.consumers
    → UniqueTags (remove qc ctag).consumers × (has_tag ctag (remove qc ctag).consumers ≡ false)
unfolding remove
remove-UniqueTags qc ctag u = erase_tag-UniqueTags ctag qc.consumers u
