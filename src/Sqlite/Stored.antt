-- ===== src/Sqlite/Stored.antt =====
-- The part of a map in memory that a table has to hold: the rows of its durable entries.
use hare_mq.Base.{
  Bool, true, false, ◌≡◌, refl, List, [], ◌∷◌, ◌++◌, none, some, Text, text_discrete, text_eq,
  arith, if◌then◌else◌, Map, find, erase, erase_absent, Distinct,
}
use hare_mq.Sqlite.{keep_unless}

-- The primary key.
abbrev pub has_name {ℓ} : {Row : Type ℓ} → (Row → Text) → Text → List Row → Bool
has_name name n [] = false
has_name name n (r ∷ rs) = if text_eq (name r) n then true else has_name name n rs

module _ {V Row : Type 0} (is_durable : V → Bool) (row : V → Row) (name : Row → Text) where
  abbrev pub stored : Map Text V → List Row
  stored [] = []
  stored ((k, v) ∷ m) = if is_durable v then row v ∷ stored m else stored m

  -- Each entry stands under its own name.
  abbrev pub IsNamed : Map Text V → Type 0
  IsNamed [] = Unit
  IsNamed ((k, v) ∷ m) = (name (row v) ≡ k) × IsNamed m

  pub stored-append :
      (m : Map Text V) (k : Text) (v : V)
      → stored (m ++ (k, v) ∷ []) ≡ (if is_durable v then stored m ++ row v ∷ [] else stored m)
  stored-append [] k v = ground arith
  stored-append ((j, w) ∷ m) k v = ground (arith, stored-append m k v)

  pub stored-has_name :
      (m : Map Text V) (k : Text)
      → IsNamed m
      → find text_discrete k m ≡ none
      → has_name name k (stored m) ≡ false
  unfolding find
  stored-has_name [] k n h = refl
  stored-has_name ((j, w) ∷ m) k n h = ground (arith, stored-has_name m k)

  pub stored-erase :
      (m : Map Text V) (k : Text)
      → IsNamed m
      → stored (erase text_discrete k m) ≡ keep_unless (λ r. text_eq (name r) k) (stored m)
  unfolding erase
  stored-erase [] k n = refl
  stored-erase ((j, w) ∷ m) k n = ground (arith, stored-erase m k)

  pub stored-erase_undurable :
      (m : Map Text V) (k : Text) (v : V)
      → find text_discrete k m ≡ some v
      → is_durable v ≡ false
      → Distinct text_discrete m
      → stored (erase text_discrete k m) ≡ stored m
  unfolding find erase
  stored-erase_undurable [] k v h d n = refl
  stored-erase_undurable ((j, w) ∷ m) k v h d n =
      ground (arith, stored-erase_undurable m k v, erase_absent text_discrete j m)

  pub IsNamed-append :
      (m : Map Text V) (k : Text) (v : V)
      → IsNamed m
      → name (row v) ≡ k
      → IsNamed (m ++ (k, v) ∷ [])
  IsNamed-append [] k v n h = (h, tt)
  IsNamed-append ((j, w) ∷ m) k v n h = (n.0, IsNamed-append m k v n.1 h)

  pub IsNamed-erase : (m : Map Text V) (k : Text) → IsNamed m → IsNamed (erase text_discrete k m)
  unfolding erase
  IsNamed-erase [] k n = tt
  IsNamed-erase ((j, w) ∷ m) k n = ground (arith, IsNamed-erase m k)
