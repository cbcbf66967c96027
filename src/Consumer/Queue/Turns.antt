-- ===== src/Consumer/Queue/Turns.antt =====
-- consumer.hpp, `rr_choose`: the consumers of a queue take turns.
use mathlib.Core.List.{append_assoc, map-append, append-nil}
use native.Mathlib.Nat.{suc-mod, mod-eq_of_lt, mod-add-mod, mod_self}
use hare_mq.Base.{
  ℕ, zero, suc, ◌+◌, ◌%◌, ◌^◌, ◌<◌, ◌≡◌, ◌≢◌, refl, sym, ap, ◌∙◌, List, [], ◌∷◌, ◌++◌, map, Option,
  some, arith, length, length-append, get_elem?, subst,
}
use hare_mq.Consumer.Queue.{Consumer, QueueConsumer, rr_choose}

-- What `k` calls of `rr_choose` return, one after the other.
unfoldable pub choices : ℕ → QueueConsumer → List (Option Consumer)
unfolding rr_choose
choices zero qc = []
choices (suc k) qc = let (qc', c) = rr_choose qc in c ∷ choices k qc'

-- The same by the numbers of the calls alone.
picks : ℕ → List Consumer → ℕ → List (Option Consumer)
picks zero cs s = []
picks (suc k) cs s = get_elem? cs (s % length cs) ∷ picks k cs (suc s)

choices-picks :
    (k : ℕ) (qc : QueueConsumer)
    → length qc.consumers ≢ 0
    → qc.rr_seq + k < 2 ^ 64
    → choices k qc ≡ picks k qc.consumers qc.rr_seq
unfolding choices picks rr_choose
choices-picks zero qc n h = refl
choices-picks (suc k) qc n h =
    ground (arith, choices-picks k (record qc { rr_seq = suc qc.rr_seq }) n (omega arith))

picks-add :
    (a b : ℕ) (cs : List Consumer) (s : ℕ) → picks (a + b) cs s ≡ picks a cs s ++ picks b cs (s + a)
unfolding picks
picks-add zero b cs s = ap (λ k. picks k cs s) (omega arith) ∙ ap (λ k. picks b cs k) (omega arith)
picks-add (suc a) b cs s =
    subst (λ k. picks k cs s ≡ picks (suc a) cs s ++ picks b cs (s + suc a)) {x = suc (a + b)}
      (omega arith)
      (ap (◌∷◌ (get_elem? cs (s % length cs)))
        (picks-add a b cs (suc s) ∙ ap (λ k. picks a cs (suc s) ++ picks b cs k) (omega arith)))

get_elem?-middle :
    (pre post : List Consumer) (x : Consumer) → get_elem? (pre ++ x ∷ post) (length pre) ≡ some x
get_elem?-middle [] post x = refl
get_elem?-middle (y ∷ pre) post x = get_elem?-middle pre post x

picks-middle :
    (pre mid post cs : List Consumer) (s : ℕ)
    → cs ≡ pre ++ (mid ++ post)
    → s % length cs ≡ length pre
    → picks (length mid) cs s ≡ map some mid
unfolding picks
picks-middle pre [] post cs s e at = refl
picks-middle pre (x ∷ []) post cs s e at =
    ap (λ o. o ∷ []) (rw (at, e) (get_elem?-middle pre post x))
picks-middle pre (x ∷ y ∷ mid) post cs s e at =
    rw
      (
        at,
        picks-middle (pre ++ x ∷ []) (y ∷ mid) post cs (suc s)
            (e ∙ sym (append_assoc pre (x ∷ []) ((y ∷ mid) ++ post))) next,
      )
      (ap (λ o. o ∷ map some (y ∷ mid)) (rw e (get_elem?-middle pre (y ∷ mid ++ post) x)))
  where
    next : suc s % length cs ≡ length (pre ++ x ∷ [])
    next =
        suc-mod s (length cs)
        ∙ ap (λ k. suc k % length cs) at
        ∙ mod-eq_of_lt (omega (arith, ap length e, length-append pre (x ∷ y ∷ mid ++ post)))
        ∙ omega (arith, length-append pre (x ∷ []))

-- If the counter stays below 2 ^ 64 and points at the consumer behind `pre`, as many choices as
-- there are consumers return each consumer of the queue once: first this one and those behind it
-- in their order, then those of `pre`.
pub rr_choose-rotation :
    (qc : QueueConsumer) (pre post : List Consumer) (c : Consumer)
    → qc.consumers ≡ pre ++ c ∷ post
    → qc.rr_seq % length qc.consumers ≡ length pre
    → qc.rr_seq + length qc.consumers < 2 ^ 64
    → choices (length qc.consumers) qc ≡ map some ((c ∷ post) ++ pre)
rr_choose-rotation qc pre post c e at small =
    choices-picks (length qc.consumers) qc (λ z. omega (arith, count)) small
    ∙ ap (λ k. picks k qc.consumers qc.rr_seq) (omega (arith, count))
    ∙ picks-add (length (c ∷ post)) (length pre) qc.consumers qc.rr_seq
    ∙ rw
        (
          picks-middle pre (c ∷ post) [] qc.consumers qc.rr_seq
              (e ∙ ap (λ (r : List Consumer). pre ++ r) (sym (append-nil (c ∷ post)))) at,
          picks-middle [] pre (c ∷ post) qc.consumers (qc.rr_seq + length (c ∷ post)) e turned,
        )
        (sym (map-append some (c ∷ post) pre))
  where
    count : length qc.consumers ≡ length pre + length (c ∷ post)
    count = ap length e ∙ length-append pre (c ∷ post)

    turned : (qc.rr_seq + length (c ∷ post)) % length qc.consumers ≡ 0
    turned =
        sym (mod-add-mod qc.rr_seq (length qc.consumers) (length (c ∷ post)))
        ∙ ap (λ k. k % length qc.consumers) (omega (arith, at, count))
        ∙ mod_self (length qc.consumers)
