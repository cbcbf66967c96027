-- ===== src/Router/Table.antt =====
-- The table of `__dp_matching` holds the recurrence.
use native.Mathlib.Numerals.{sub-one}
use hare_mq.Base.{
  ℕ, zero, suc, ◌+◌, ◌-◌, ◌≤◌, ◌<◌, Bool, true, false, ◌&&◌, ◌≡◌, refl, ap, ◌∙◌, sym,
  length-replicate, not, List, [], ◌∷◌, Text, text_eq, ltb, ◌==◌, arith, dec_lt, if◌then◌else◌,
  length, replicate,
}
use hare_mq.Router.{hash, Cells, cell, set_cell, mark_hashes, dp_matching}
use hare_mq.Router.Words.{match_words, prefix_rev}
use hare_mq.Router.Fill.{
  cell-set_cell, set_cell-IsGrid, grid, filled, IsGrid, rows-Inv, Inv, get_or-replicate,
}

-- Column 0 after the first marks: what `mark_hashes` leaves from row `i` on.
abbrev hashes : List Text → ℕ → Bool
hashes [] i = false
hashes (b ∷ bs) zero = text_eq b hash
hashes (b ∷ bs) (suc i) = text_eq b hash && hashes bs i

module _ {n m : ℕ} where
  mark_hashes-IsGrid :
      (bs : List Text) (i : ℕ) (dp : Cells)
      → i + length bs ≤ n
      → IsGrid n m dp
      → IsGrid n m (mark_hashes bs i dp)
  unfolding mark_hashes
  mark_hashes-IsGrid [] i dp h g = g
  mark_hashes-IsGrid (b ∷ bs) i dp h g =
      ground
        (arith, set_cell-IsGrid dp i 0 true g, mark_hashes-IsGrid bs (suc i) (set_cell dp i 0 true))

  mark_hashes-cell :
      (bs : List Text) (i a b : ℕ) (dp : Cells)
      → i + length bs ≤ n
      → 0 < m
      → IsGrid n m dp
      → cell (mark_hashes bs i dp) a b
        ≡ (if b == 0 && not (ltb a i) && hashes bs (a - i) then true else cell dp a b)
  unfolding mark_hashes
  mark_hashes-cell [] i a b dp h p g = ground arith
  mark_hashes-cell (w ∷ bs) i a b dp h p g = elim (dec_lt i a) [
    | yes below ↦
        let e : a - i ≡ suc (a - suc i) = omega arith in
        rw e (
          ground (
            arith,
            cell-set_cell dp i 0 a b true g,
            mark_hashes-cell bs (suc i) a b (set_cell dp i 0 true),
            set_cell-IsGrid dp i 0 true g,
          ))
    | no above ↦
        let e : a - i ≡ 0 = omega arith in
        rw e (
          ground (
            arith,
            cell-set_cell dp i 0 a b true g,
            mark_hashes-cell bs (suc i) a b (set_cell dp i 0 true),
            set_cell-IsGrid dp i 0 true g,
          ))
  ]

grid-cons :
    (b : Text) (bs : List Text) (i : ℕ)
    → match_words (prefix_rev (b ∷ bs) (suc i)) []
      ≡ (text_eq b hash && match_words (prefix_rev bs i) [])
unfolding match_words prefix_rev
grid-cons b bs zero = refl
grid-cons b bs (suc i) = ground (arith, grid-cons b bs i)

hashes-grid :
    (bs : List Text) (i : ℕ) → i < length bs → hashes bs i ≡ match_words (prefix_rev bs (suc i)) []
hashes-grid [] i h = absurd (omega arith)
hashes-grid (b ∷ bs) zero h = unfold match_words prefix_rev in ground arith
hashes-grid (b ∷ bs) (suc i) h =
    ap (λ (t : Bool). text_eq b hash && t) (hashes-grid bs i (omega arith))
    ∙ sym (grid-cons b bs (suc i))

abbrev empty : ℕ → ℕ → Cells
empty n m = replicate {A = List Bool} n (replicate m false)

empty-IsGrid : (n m : ℕ) → IsGrid n m (empty n m)
empty-IsGrid n m = record {
  rows = length-replicate n _;
  columns = λ i h.
      rw (get_or-replicate n i (replicate {A = Bool} m false) [] h) (length-replicate m false);
}

empty-cell : (n m i j : ℕ) → i < n → j < m → cell (empty n m) i j ≡ false
empty-cell n m i j h k =
    rw (get_or-replicate n i (replicate {A = Bool} m false) [] h)
      (get_or-replicate m j false false k)

module _ (bs rs : List Text) where
  abbrev started : Cells
  started = mark_hashes bs 1 (set_cell (empty (length bs + 1) (length rs + 1)) 0 0 true)

  first-IsGrid :
      IsGrid
        (length bs + 1)
        (length rs + 1)
        (set_cell (empty (length bs + 1) (length rs + 1)) 0 0 true)
  first-IsGrid = set_cell-IsGrid _ 0 0 true (empty-IsGrid _ _) (omega arith)

  started-marks :
      (i j : ℕ)
      → i < length bs + 1
      → j < length rs + 1
      → cell started i j ≡ (
          if j == 0 && not (ltb i 1) && hashes bs (i - 1)
          then true
          else if 0 == i && 0 == j
          then true
          else false)
  started-marks i j hi hj = rw (
    mark_hashes-cell bs 1 i j _ (omega arith) (omega arith) first-IsGrid,
    cell-set_cell (empty (length bs + 1) (length rs + 1)) 0 0 i j true (empty-IsGrid _ _)
        (omega arith) (omega arith),
    empty-cell _ _ i j hi hj,
  )

  started-cell :
      (i j : ℕ)
      → i < length bs + 1
      → j < length rs + 1
      → cell started i j ≡ (if filled bs rs 1 1 i j then grid bs rs i j else false)
  started-cell zero zero hi hj = unfold match_words prefix_rev in ground (arith, started-marks 0 0)
  started-cell zero (suc j) hi hj =
      unfold match_words prefix_rev in ground (arith, started-marks 0 (suc j))
  started-cell (suc i) zero hi hj =
      unfold match_words prefix_rev in
      rw (started-marks (suc i) 0 hi hj, sub-one) (ground (arith, hashes-grid bs i))
  started-cell (suc i) (suc j) hi hj = ground (arith, started-marks (suc i) (suc j))

  started-Inv : Inv bs rs 1 1 started
  started-Inv = record {
    shape = mark_hashes-IsGrid bs 1 _ (omega arith) first-IsGrid;
    cells = started-cell;
  }

  pub dp_matching-match_words :
      dp_matching bs rs ≡ match_words (prefix_rev bs (length bs)) (prefix_rev rs (length rs))
  unfolding dp_matching
  dp_matching-match_words = ground (
    arith,
    (rows-Inv bs rs (length bs) 0 started (omega arith) started-Inv).cells (length bs) (length rs)
        (omega arith) (omega arith),
  )
