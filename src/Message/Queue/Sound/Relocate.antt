-- ===== src/Message/Queue/Sound/Relocate.antt =====
-- message.hpp, `gc` of `queue_message`: every known message gets its new place.
use mathlib.Core.Option.{some-injective}
use hare_mq.Base.{
  ℕ, zero, suc, ◌<◌, ◌≡◌, ◌≢◌, refl, sym, ap, ◌∙◌, List, [], ◌∷◌, some, Text, text_discrete,
  ℕ_discrete, arith, length, get_elem?, set, length-set, get_elem?-set_self, get_elem?-set_ne, find,
  Map, subst,
}
use hare_mq.Proto.{Message}
use hare_mq.Split.{All}
use hare_mq.Message.Mapper.{Codec}
use hare_mq.Message.Queue.{Pointer, QueueMessage, msg_id, relocate}
use hare_mq.Base.{get_elem?-bound}
use hare_mq.Message.Queue.Sound.Records.{All-map, All-get}

-- Every collected message is known, with an object.
abbrev pub Found : Map Text Pointer → List Message → List Message → Type 0
Found d heap =
    All (λ m. (p : Pointer) × (find text_discrete (msg_id m) d ≡ some p) × (p < length heap))

-- `old` in the place of `m`.
abbrev pub moved : Message → Message → Message
moved old m = record old { offset = m.offset; length = m.length }

abbrev pub UniqueMessages : List Message → Type 0
UniqueMessages [] = Unit
UniqueMessages (m ∷ ms) = All (λ x. msg_id x ≢ msg_id m) ms × UniqueMessages ms

get_elem?-some {ℓ} :
    {A : Type ℓ} (xs : List A) (i : ℕ) → i < length xs → (x : A) × (get_elem? xs i ≡ some x)
get_elem?-some [] i h = absurd (omega arith)
get_elem?-some (x ∷ xs) zero h = (x, refl)
get_elem?-some (x ∷ xs) (suc i) h = get_elem?-some xs i (omega arith)

module _ (c : Codec) where
  -- One round of the loop.
  relocate-step :
      (q : QueueMessage) (m : Message) (lst : List Message) (p : Pointer) (old : Message)
      → find text_discrete (msg_id m) q.durable_msgs ≡ some p
      → get_elem? q.heap p ≡ some old
      → relocate c q (m ∷ lst) ≡ relocate c (record q { heap = set q.heap p (moved old m) }) lst
  unfolding relocate
  relocate-step q m lst p old known at = rw (known, relocate) (rw (at, relocate) refl)

  Found-set :
      (d : Map Text Pointer) (heap : List Message) (lst : List Message) (p : Pointer) (v : Message)
      → Found d heap lst
      → Found d (set heap p v) lst
  Found-set d heap lst p v =
      All-map lst (λ m (k, e, h). (k, e, omega (arith, h, length-set heap p v)))

  -- Only the heap changes.
  pub relocate-rest :
      (q : QueueMessage) (lst : List Message)
      → Found q.durable_msgs q.heap lst
      → relocate c q lst ≡ record q { heap = (relocate c q lst).heap }
  unfolding relocate
  relocate-rest q [] f = refl
  relocate-rest q (m ∷ lst) f =
      let (p, known, h) = f.0 in
      let (old, at) = get_elem?-some q.heap p h in
      let q' : QueueMessage = record q { heap = set q.heap p (moved old m) } in
      rw (relocate-step q m lst p old known at)
        (relocate-rest q' lst (Found-set q.durable_msgs q.heap lst p (moved old m) f.1))

  -- An object keeps its payload.
  pub relocate-payload :
      (q : QueueMessage) (lst : List Message) (p : Pointer) (old : Message)
      → Found q.durable_msgs q.heap lst
      → get_elem? q.heap p ≡ some old
      → (m : Message) × (get_elem? (relocate c q lst).heap p ≡ some m) × (m.payload ≡ old.payload)
  unfolding relocate
  relocate-payload q [] p old f at = (old, at, refl)
  relocate-payload q (m ∷ lst) p old f at =
      let (p₀, known, h) = f.0 in
      let (old₀, at₀) = get_elem?-some q.heap p₀ h in
      let q' : QueueMessage = record q { heap = set q.heap p₀ (moved old₀ m) } in
      let rest = Found-set q.durable_msgs q.heap lst p₀ (moved old₀ m) f.1 in
      rw (relocate-step q m lst p₀ old₀ known at₀) (elim (ℕ_discrete p₀ p) [
        | yes same ↦
            let (m', at', kept) = relocate-payload q' lst p (moved old₀ m) rest (
              subst (λ k. get_elem? (set q.heap p₀ (moved old₀ m)) k ≡ some (moved old₀ m)) same
                (get_elem?-set_self q.heap p₀ (moved old₀ m) h)) in
            (
              m',
              at',
              kept
                  ∙ ap (λ (x : Message). x.payload)
                      (some-injective _ _
                        (sym at₀ ∙ (subst (λ k. get_elem? q.heap k ≡ some old) (sym same) at))),
            )
        | no differ ↦
            relocate-payload q' lst p old rest
              (get_elem?-set_ne q.heap p₀ p (moved old₀ m) differ ∙ at)
      ])

  -- An object that no collected message names stays as it is.
  relocate-other :
      (q : QueueMessage) (lst : List Message) (p : Pointer)
      → Found q.durable_msgs q.heap lst
      → All (λ m. find text_discrete (msg_id m) q.durable_msgs ≢ some p) lst
      → get_elem? (relocate c q lst).heap p ≡ get_elem? q.heap p
  unfolding relocate
  relocate-other q [] p f others = refl
  relocate-other q (m ∷ lst) p f others =
      let (p₀, known, h) = f.0 in
      let (old₀, at₀) = get_elem?-some q.heap p₀ h in
      let q' : QueueMessage = record q { heap = set q.heap p₀ (moved old₀ m) } in
      let rest = Found-set q.durable_msgs q.heap lst p₀ (moved old₀ m) f.1 in
      rw (relocate-step q m lst p₀ old₀ known at₀) (
        relocate-other q' lst p rest others.1
        ∙ get_elem?-set_ne q.heap p₀ p (moved old₀ m) (λ same. others.0 (known ∙ ap some same)))

  -- The object of a collected message gets its place.
  pub relocate-placed :
      (q : QueueMessage) (lst : List Message) (j : ℕ) (m : Message) (p : Pointer) (old : Message)
      → Found q.durable_msgs q.heap lst
      → UniqueMessages lst
      → ((a b : Text)
          → find text_discrete a q.durable_msgs ≡ some p
          → find text_discrete b q.durable_msgs ≡ some p
          → a ≡ b)
      → get_elem? lst j ≡ some m
      → find text_discrete (msg_id m) q.durable_msgs ≡ some p
      → get_elem? q.heap p ≡ some old
      → get_elem? (relocate c q lst).heap p ≡ some (moved old m)
  unfolding relocate
  relocate-placed q [] j m p old f u one e known at = absurd (cc)
  relocate-placed q (m₀ ∷ lst) zero m p old f u one e known at =
      let same : m₀ ≡ m = some-injective _ _ e in
      let known₀ : find text_discrete (msg_id m₀) q.durable_msgs ≡ some p =
        ap (λ (x : Message). find text_discrete (msg_id x) q.durable_msgs) same ∙ known in
      let bound = get_elem?-bound q.heap p old at in
      let q' : QueueMessage = record q { heap = set q.heap p (moved old m₀) } in
      rw (relocate-step q m₀ lst p old known₀ at) (
        relocate-other q' lst p (Found-set q.durable_msgs q.heap lst p (moved old m₀) f.1)
          (All-map lst (λ x differ found. differ (one (msg_id x) (msg_id m₀) found known₀)) u.0)
        ∙ get_elem?-set_self q.heap p (moved old m₀) bound
        ∙ ap (λ (x : Message). some (moved old x)) same)
  relocate-placed q (m₀ ∷ lst) (suc j) m p old f u one e known at =
      let (p₀, known₀, h) = f.0 in
      let (old₀, at₀) = get_elem?-some q.heap p₀ h in
      let q' : QueueMessage = record q { heap = set q.heap p₀ (moved old₀ m₀) } in
      let differ : p₀ ≢ p = λ same.
        All-get (λ x. msg_id x ≢ msg_id m₀) lst j m e u.0
          (one (msg_id m) (msg_id m₀) known (known₀ ∙ ap some same)) in
      rw (relocate-step q m₀ lst p₀ old₀ known₀ at₀) (
        relocate-placed q' lst j m p old
          (Found-set q.durable_msgs q.heap lst p₀ (moved old₀ m₀) f.1) u.1 one e known
          (get_elem?-set_ne q.heap p₀ p (moved old₀ m₀) differ ∙ at))
