-- ===== src/Sqlite/Memory.antt =====
-- A table kept in memory that behaves as documented, for the instances of the theorems.
use hare_mq.Base.{
  Text, Bool, true, false, ◌≡◌, refl, List, [], ◌∷◌, ◌++◌, Option, none, some, if◌then◌else◌,
}
use hare_mq.Sqlite.{
  Stmt, create_table, drop_table, insert_into, delete_from, select_all, Sqlite, IsTable,
  keep_unless,
}

module _ {Row Cond : Type 0} (holds : Cond → Row → Bool) (clash : List Row → Row → Bool) where
  unfoldable pub run : Option (List Row) → Stmt Row Cond → Option (List Row) × Bool
  run none create_table = (some [], true)
  run (some rs) create_table = (some rs, true)
  run t drop_table = (none, true)
  run none (insert_into r) = (none, false)
  run (some rs) (insert_into r) =
      if clash rs r then (some rs, false) else (some (rs ++ r ∷ []), true)
  run none (delete_from c) = (none, false)
  run (some rs) (delete_from c) = (some (keep_unless (holds c) rs), true)
  run none select_all = (none, false)
  run (some rs) select_all = (some rs, true)

  unfoldable pub rows : Option (List Row) → List Row
  rows none = []
  rows (some rs) = rs

  abbrev pub memory : Sqlite Row Cond
  memory = record { Db = Option (List Row); exec = run; query = λ t s. rows t }

  unfoldable pub memory-IsTable :
      (texts : Row → List Text) (cond_texts : Cond → List Text)
      → IsTable memory texts cond_texts holds clash
  unfolding run rows
  memory-IsTable texts cond_texts = record {
    table = λ t. t;
    create_new = λ db e. rw e (refl, refl);
    create_again = λ db rs e. rw e (refl, refl);
    drop = drops;
    insert_new = λ db rs r e c p. rw (e, run, c) (refl, refl);
    insert_missing = λ db r e p. rw e (refl, refl);
    delete = λ db rs c e p. rw e refl;
    select = λ db rs e. rw e refl;
  }
    where
      drops :
          (db : Option (List Row)) → ((run db drop_table).1 ≡ true) × ((run db drop_table).0 ≡ none)
      drops none = (refl, refl)
      drops (some rs) = (refl, refl)
