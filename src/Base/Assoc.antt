-- ===== src/Base/Assoc.antt =====
-- `std::unordered_map` as an association list over keys with a decidable equality. The order of
-- the list stands for the order of iteration, which C++ leaves open.
use mathlib.Core.Path.{◌≡◌, refl, sym, ◌∙◌}
use mathlib.Core.Logic.{ite, ◌≢◌, ◌⊎◌, inl, inr}
use mathlib.Core.List.{List, [], ◌∷◌, ◌++◌, append-nil, append_assoc}
use mathlib.Core.Option.{Option, none, some}
use native.Mathlib.Omega.{arith}
use hare_mq.Base.Tests.{Option-cases}

abbrev pub Map {ℓ} : Type ℓ → Type ℓ → Type ℓ
Map K V = List (K × V)

module _ {ℓ} {K V : Type ℓ} (dec : Discrete K) where
  -- `find`; `none` is `end()`.
  unfoldable pub find : K → Map K V → Option V
  find k [] = none
  find k ((j, v) ∷ m) = ite (dec j k) (some v) (find k m)

  -- `insert({k, v})`: an entry that is there stays as it is.
  unfoldable pub insert : K → V → Map K V → Map K V
  insert k v [] = (k, v) ∷ []
  insert k v ((j, w) ∷ m) = ite (dec j k) ((j, w) ∷ m) ((j, w) ∷ insert k v m)

  -- `m[k] = v`.
  unfoldable pub assign : K → V → Map K V → Map K V
  assign k v [] = (k, v) ∷ []
  assign k v ((j, w) ∷ m) = ite (dec j k) ((j, v) ∷ m) ((j, w) ∷ assign k v m)

  -- `erase(k)`.
  unfoldable pub erase : K → Map K V → Map K V
  erase k [] = []
  erase k ((j, w) ∷ m) = ite (dec j k) (erase k m) ((j, w) ∷ erase k m)

  pub find-insert :
      (k j : K) (v : V) (m : Map K V)
      → find j (insert k v m)
        ≡ ite (dec k j) (elim (find k m) [ none ↦ some v | some w ↦ some w ]) (find j m)
  unfolding find insert
  find-insert k j v [] = ground arith
  find-insert k j v ((i, w) ∷ m) = ground (arith, find-insert k j v m)

  pub find-assign :
      (k j : K) (v : V) (m : Map K V) → find j (assign k v m) ≡ ite (dec k j) (some v) (find j m)
  unfolding find assign
  find-assign k j v [] = refl
  find-assign k j v ((i, w) ∷ m) = ground (arith, find-assign k j v m)

  pub find-erase : (k j : K) (m : Map K V) → find j (erase k m) ≡ ite (dec k j) none (find j m)
  unfolding find erase
  find-erase k j [] = ground arith
  find-erase k j ((i, w) ∷ m) = ground (arith, find-erase k j m)

  -- A new key goes to the end of the list.
  pub insert_absent :
      (k : K) (v : V) (m : Map K V) → find k m ≡ none → insert k v m ≡ m ++ (k, v) ∷ []
  unfolding find insert
  insert_absent k v [] h = refl
  insert_absent k v ((j, w) ∷ m) h = ground (arith, insert_absent k v m)

  pub insert_present : (k : K) (v w : V) (m : Map K V) → find k m ≡ some w → insert k v m ≡ m
  unfolding find insert
  insert_present k v w [] h = cc
  insert_present k v w ((j, u) ∷ m) h = ground (arith, insert_present k v w m)

  pub erase_absent : (k : K) (m : Map K V) → find k m ≡ none → erase k m ≡ m
  unfolding find erase
  erase_absent k [] h = refl
  erase_absent k ((j, w) ∷ m) h = ground (arith, erase_absent k m)

  pub find_cases : (k : K) (m : Map K V) → (find k m ≡ none) ⊎ ((v : V) × (find k m ≡ some v))
  find_cases k m = Option-cases (find k m)

  -- A loop of `insert`.
  unfoldable pub insert_all : Map K V → Map K V → Map K V
  unfolding insert
  insert_all [] m = m
  insert_all ((k, v) ∷ n) m = insert_all n (insert k v m)

  -- No key twice.
  abbrev pub Distinct : Map K V → Type ℓ
  Distinct [] = Unit
  Distinct ((k, v) ∷ m) = (find k m ≡ none) × Distinct m

  pub insert_all-append : (n o m : Map K V) → insert_all (n ++ o) m ≡ insert_all o (insert_all n m)
  unfolding insert_all
  insert_all-append [] o m = refl
  insert_all-append ((k, v) ∷ n) o m = insert_all-append n o (insert k v m)

  find-append_right :
      (k j : K) (v : V) (m n : Map K V)
      → find k (m ++ (j, v) ∷ n) ≡ none
      → find j (m ++ (j, v) ∷ n) ≢ none × (find k m ≡ none)
  unfolding find
  find-append_right k j v [] n h = (ground arith, refl)
  find-append_right k j v ((i, w) ∷ m) n h = ground (arith, find-append_right k j v m n)

  pub Distinct-middle :
      (m n : Map K V) (k : K) (v : V) → Distinct (m ++ (k, v) ∷ n) → find k m ≡ none
  unfolding find
  Distinct-middle [] n k v d = refl
  Distinct-middle ((j, w) ∷ m) n k v d =
      ground (arith, Distinct-middle m n k v, find-append_right j k v m n)

  insert_all_disjoint : (n m : Map K V) → Distinct (m ++ n) → insert_all n m ≡ m ++ n
  unfolding insert_all
  insert_all_disjoint [] m d = sym (append-nil m)
  insert_all_disjoint ((k, v) ∷ n) m d = rw (insert_absent k v m (Distinct-middle m n k v d)) (
      insert_all_disjoint n (m ++ (k, v) ∷ []) (rw append_assoc d) ∙ append_assoc m ((k, v) ∷ []) n)

  pub insert_all-Distinct : (m : Map K V) → Distinct m → insert_all m [] ≡ m
  insert_all-Distinct m d = insert_all_disjoint m [] d

  find-append_none :
      (k : K) (m n : Map K V)
      → find k (m ++ n) ≡ (elim (find k m) [ none ↦ find k n | some v ↦ some v ])
  unfolding find
  find-append_none k [] n = refl
  find-append_none k ((j, v) ∷ m) n = ground (arith, find-append_none k m n)

  Distinct-snoc :
      (k : K) (v : V) (m : Map K V) → find k m ≡ none → Distinct m → Distinct (m ++ (k, v) ∷ [])
  unfolding find
  Distinct-snoc k v [] h d = (refl, d)
  Distinct-snoc k v ((j, w) ∷ m) h d =
      ground (arith, Distinct-snoc k v m, find-append_none j m ((k, v) ∷ []))

  pub insert-Distinct : (k : K) (v : V) (m : Map K V) → Distinct m → Distinct (insert k v m)
  insert-Distinct k v m d = elim (find_cases k m) [
    | inl e ↦ rw (insert_absent k v m e) (Distinct-snoc k v m e d)
    | inr (w, e) ↦ rw (insert_present k v w m e) d
  ]

  pub erase-Distinct : (k : K) (m : Map K V) → Distinct m → Distinct (erase k m)
  unfolding erase
  erase-Distinct k [] d = d
  erase-Distinct k ((j, w) ∷ m) d = ground (arith, erase-Distinct k m, find-erase k j m)
