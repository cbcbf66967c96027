-- ===== src/Sqlite/Kept.antt =====
-- A map in memory and the table that holds its durable entries, as the mappers of exchanges and
-- queues keep them.
use hare_mq.Base.{
  Bool, ◌≡◌, refl, sym, ◌∙◌, inl, inr, List, [], ◌∷◌, ◌++◌, Option, none, some, Text, text_discrete,
  text_eq, arith, if◌then◌else◌, Map, find, insert, erase, Bool-cases, if_true, if_false,
  insert_absent, Distinct, insert-Distinct, erase-Distinct, find-insert, ap,
}
use hare_mq.Sqlite.{keep_unless}
use hare_mq.Sqlite.Stored.{
  stored, IsNamed, stored-append, stored-erase, stored-erase_undurable, IsNamed-append,
  IsNamed-erase,
}

module _ {V Row : Type 0} (is_durable : V → Bool) (row : V → Row) (name : Row → Text) where
  -- The table holds the rows of the durable entries, and each entry stands under its name, once.
  pub record Kept (t : Option (List Row)) (m : Map Text V) : Type 0 where
    pub tabled : t ≡ some (stored is_durable row name m)
    pub named : IsNamed is_durable row name m
    pub distinct : Distinct text_discrete m

  pub insert-Kept :
      (t t' : Option (List Row)) (m : Map Text V) (k : Text) (v : V)
      → Kept t m
      → find text_discrete k m ≡ none
      → name (row v) ≡ k
      → t'
        ≡ some (
            if is_durable v
            then stored is_durable row name m ++ row v ∷ []
            else stored is_durable row name m)
      → Kept t' (insert text_discrete k v m)
  insert-Kept t t' m k v kept e n is = rw (insert_absent text_discrete k v m e) (record {
    tabled = rw (stored-append is_durable row name m k v) is;
    named = IsNamed-append is_durable row name m k v kept.named n;
    distinct =
        rw (← insert_absent text_discrete k v m e)
          (insert-Distinct text_discrete k v m kept.distinct);
  })

  pub erase-Kept :
      (t t' : Option (List Row)) (m : Map Text V) (k : Text) (v : V)
      → Kept t m
      → find text_discrete k m ≡ some v
      → t'
        ≡ some (
            if is_durable v
            then keep_unless (λ r. text_eq (name r) k) (stored is_durable row name m)
            else stored is_durable row name m)
      → Kept t' (erase text_discrete k m)
  erase-Kept t t' m k v kept e is = record {
    tabled =
        is
        ∙ ap some (elim (Bool-cases (is_durable v)) [
          | inl d ↦
              if_true (is_durable v) _ _ d ∙ sym (stored-erase is_durable row name m k kept.named)
          | inr d ↦
              if_false (is_durable v) _ _ d
              ∙ sym (stored-erase_undurable is_durable row name m k v e d kept.distinct)
        ]);
    named = IsNamed-erase is_durable row name m k kept.named;
    distinct = erase-Distinct text_discrete k m kept.distinct;
  }

  module _ (of_row : Row → V) where
    -- What a restart makes of an entry: nothing, unless it is durable.
    abbrev pub survives : Option V → Option V
    survives none = none
    survives (some v) = if is_durable v then some (of_row (row v)) else none

    -- The rows as the callbacks put them into a map: the first of a name stays.
    unfoldable pub read_rows : List Row → Map Text V → Map Text V
    read_rows [] acc = acc
    read_rows (r ∷ rs) acc = read_rows rs (insert text_discrete (name r) (of_row r) acc)

    find_row : Text → List Row → Option V
    find_row k [] = none
    find_row k (r ∷ rs) = if text_eq (name r) k then some (of_row r) else find_row k rs

    find-read_rows :
        (k : Text) (rs : List Row) (acc : Map Text V)
        → find text_discrete k (read_rows rs acc)
          ≡ (elim (find text_discrete k acc) [ some v ↦ some v | none ↦ find_row k rs ])
    unfolding read_rows find_row
    find-read_rows k [] acc = ground arith
    find-read_rows k (r ∷ rs) acc = ground (
      arith,
      find-read_rows k rs (insert text_discrete (name r) (of_row r) acc),
      find-insert text_discrete (name r) k (of_row r) acc,
    )

    find_row-stored :
        (k : Text) (m : Map Text V)
        → IsNamed is_durable row name m
        → Distinct text_discrete m
        → find_row k (stored is_durable row name m) ≡ survives (find text_discrete k m)
    unfolding find_row find
    find_row-stored k [] n d = refl
    find_row-stored k ((j, v) ∷ m) n d = ground (arith, find_row-stored k m n.1 d.1)

    -- Reading the table back gives the durable entries, each as it is read from its row.
    pub find-reread :
        (t : Option (List Row)) (m : Map Text V) (k : Text)
        → Kept t m
        → find text_discrete k (read_rows (stored is_durable row name m) [])
          ≡ survives (find text_discrete k m)
    unfolding find
    find-reread t m k kept =
        find-read_rows k (stored is_durable row name m) []
        ∙ find_row-stored k m kept.named kept.distinct
