-- ===== src/Router/Fill.antt =====
-- The loops of `__dp_matching` fill the table by the recurrence.
use native.Mathlib.Numerals.{sub-one}
use hare_mq.Base.{
  ℕ, zero, suc, ◌+◌, ◌-◌, ◌<◌, Bool, false, ◌&&◌, ◌||◌, ◌≡◌, refl, ◌∙◌, subst, List, [], ◌∷◌, Text,
  ltb, ◌==◌, arith, if◌then◌else◌, length, get_or, set, replicate, length-set,
}
use hare_mq.Router.{Cells, cell, set_cell, for_from, fill_cell, fill_row}
use hare_mq.Router.Words.{match_words, prefix_rev}

-- `n` rows of `m` cells.
pub record IsGrid (n m : ℕ) (dp : Cells) : Type 0 where
  pub rows : length dp ≡ n
  pub columns : (i : ℕ) → i < n → length (get_or dp i []) ≡ m

module _ {ℓ} {A : Type ℓ} where
  get_or-set :
      (xs : List A) (i j : ℕ) (v d : A)
      → i < length xs
      → get_or (set xs i v) j d ≡ (if i == j then v else get_or xs j d)
  get_or-set [] i j v d h = absurd (omega arith)
  get_or-set (x ∷ xs) zero zero v d h = ground arith
  get_or-set (x ∷ xs) zero (suc j) v d h = ground arith
  get_or-set (x ∷ xs) (suc i) zero v d h = ground arith
  get_or-set (x ∷ xs) (suc i) (suc j) v d h = ground (arith, get_or-set xs i j v d)

  pub get_or-replicate : (n i : ℕ) (x d : A) → i < n → get_or (replicate n x) i d ≡ x
  get_or-replicate zero i x d h = absurd (omega arith)
  get_or-replicate (suc n) zero x d h = refl
  get_or-replicate (suc n) (suc i) x d h = get_or-replicate n i x d (omega arith)

module _ {n m : ℕ} where
  pub cell-set_cell :
      (dp : Cells) (i j a b : ℕ) (v : Bool)
      → IsGrid n m dp
      → i < n
      → j < m
      → cell (set_cell dp i j v) a b ≡ (if i == a && j == b then v else cell dp a b)
  cell-set_cell dp i j a b v g hi hj =
      rw (get_or-set dp i a (set (get_or dp i []) j v) [] (omega arith))
        (ground (arith, get_or-set (get_or dp i []) j b v false, g.columns i))

  pub set_cell-IsGrid :
      (dp : Cells) (i j : ℕ) (v : Bool) → IsGrid n m dp → i < n → IsGrid n m (set_cell dp i j v)
  set_cell-IsGrid dp i j v g hi = record {
    rows = length-set dp i _ ∙ g.rows;
    columns = λ a ha.
        rw (get_or-set dp i a (set (get_or dp i []) j v) [] (omega arith))
          (ground (arith, length-set (get_or dp i []) j v, g.columns i, g.columns a));
  }

module _ (bs rs : List Text) where
  -- The recurrence at row `i`, column `j`: on the first `i` and the first `j` words.
  abbrev pub grid : ℕ → ℕ → Bool
  grid i j = match_words (prefix_rev bs i) (prefix_rev rs j)

  -- Which cells are final when row `k` is filled up to column `l`.
  abbrev pub filled : ℕ → ℕ → ℕ → ℕ → Bool
  filled k l i j = ltb i k || j == 0 || (i == k && ltb j l)

  pub record Inv (k l : ℕ) (dp : Cells) : Type 0 where
    pub shape : IsGrid (length bs + 1) (length rs + 1) dp
    pub cells :
        (i j : ℕ)
        → i < length bs + 1
        → j < length rs + 1
        → cell dp i j ≡ (if filled k l i j then grid i j else false)

  fill_cell-cell :
      (k l i j : ℕ) (dp : Cells)
      → k < length bs
      → l < length rs
      → Inv (suc k) (suc l) dp
      → cell (fill_cell bs rs (suc k) (suc l) dp) i j
        ≡ (if suc k == i && suc l == j then grid (suc k) (suc l) else cell dp i j)
  unfolding fill_cell match_words prefix_rev
  fill_cell-cell k l i j dp hk hl v = simp sub-one (
      ground (
        arith,
        cell-set_cell dp (suc k) (suc l) i j (cell dp k l) v.shape,
        cell-set_cell dp (suc k) (suc l) i j (cell dp k l || cell dp (suc k) l || cell dp k (suc l))
            v.shape,
        v.cells k l,
        v.cells (suc k) l,
        v.cells k (suc l),
        v.cells (suc k) (suc l),
      ))

  fill_cell-IsGrid :
      (i j : ℕ) (dp : Cells)
      → i < length bs + 1
      → IsGrid (length bs + 1) (length rs + 1) dp
      → IsGrid (length bs + 1) (length rs + 1) (fill_cell bs rs i j dp)
  unfolding fill_cell
  fill_cell-IsGrid i j dp hi g = ground (
    arith,
    set_cell-IsGrid dp i j (cell dp (i - 1) (j - 1)) g,
    set_cell-IsGrid dp i j (cell dp (i - 1) (j - 1) || cell dp i (j - 1) || cell dp (i - 1) j) g,
  )

  fill_cell-Inv :
      (k l : ℕ) (dp : Cells)
      → k < length bs
      → l < length rs
      → Inv (suc k) (suc l) dp
      → Inv (suc k) (suc (suc l)) (fill_cell bs rs (suc k) (suc l) dp)
  fill_cell-Inv k l dp hk hl v = record {
    shape = fill_cell-IsGrid (suc k) (suc l) dp (omega arith) v.shape;
    cells = λ i j hi hj. ground (arith, fill_cell-cell k l i j dp hk hl v, v.cells i j hi hj);
  }

  -- The inner loop, `rounds` rounds before its end.
  fill_row-Inv :
      (k rounds l : ℕ) (dp : Cells)
      → k < length bs
      → l + rounds ≡ length rs
      → Inv (suc k) (suc l) dp
      → Inv (suc k) (length rs + 1) (for_from rounds (suc l) (fill_cell bs rs (suc k)) dp)
  unfolding for_from
  fill_row-Inv k zero l dp hk e v = subst (λ n. Inv (suc k) n dp) (omega arith) v
  fill_row-Inv k (suc rounds) l dp hk e v =
      fill_row-Inv k rounds (suc l) _ hk (omega arith) (fill_cell-Inv k l dp hk (omega arith) v)

  -- A full row is the start of the next.
  Inv-next : (k : ℕ) (dp : Cells) → Inv k (length rs + 1) dp → Inv (suc k) 1 dp
  Inv-next k dp v = record {
    shape = v.shape;
    cells = λ i j hi hj. ground (arith, v.cells i j hi hj);
  }

  pub rows-Inv :
      (rounds k : ℕ) (dp : Cells)
      → k + rounds ≡ length bs
      → Inv (suc k) 1 dp
      → Inv (suc (length bs)) 1 (for_from rounds (suc k) (fill_row bs rs) dp)
  unfolding for_from fill_row
  rows-Inv zero k dp e v = subst (λ n. Inv (suc n) 1 dp) (omega arith) v
  rows-Inv (suc rounds) k dp e v =
      rows-Inv rounds (suc k) _ (omega arith)
        (Inv-next (suc k) _ (fill_row-Inv k (length rs) 0 dp (omega arith) (omega arith) v))
