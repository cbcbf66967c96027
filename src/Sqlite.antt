-- ===== src/Sqlite.antt =====
-- `sqlite_helper` of HareMQ/mqcommon/helper.hpp, as the mappers use it. SQLite is no part of the
-- repository: a connection is a parameter, and `IsTable` states what its documentation says of
-- the statements that the mappers send. The statements are the SQL macros of the mappers with
-- their arguments. The text is what `sprintf` makes of both, in a buffer of 4096 characters and
-- without quoting: what it does is known only where no argument ends the quotes or the buffer
-- (`Printable`), and the laws speak of such statements only.
pub mod Stored
pub mod Kept
pub mod Memory
pub mod Connection
use hare_mq.Split.{All, AllChars}
use hare_mq.Base.{
  ℕ, ◌+◌, ◌≤◌, ◌&&◌, ◌==◌, Text, length, Bool, true, false, not, ◌≡◌, List, [], ◌∷◌, ◌++◌, Option,
  none, some, if◌then◌else◌,
}

-- `Cond` is what stands behind `where` in a `delete`.
pub data Stmt (Row Cond : Type 0) : Type 0 where
  create_table : Stmt Row Cond
  drop_table : Stmt Row Cond
  insert_into : Row → Stmt Row Cond
  delete_from : Cond → Stmt Row Cond
  select_all : Stmt Row Cond

-- `exec` gives the new contents of the file, and whether the call returned true. `query` gives the
-- rows that are handed to the callback of a `select`.
pub record Sqlite (Row Cond : Type 0) : Type 1 where
  pub Db : Type 0
  pub exec : Db → Stmt Row Cond → Db × Bool
  pub query : Db → Stmt Row Cond → List Row

abbrev pub keep_unless {ℓ} : {A : Type ℓ} → (A → Bool) → List A → List A
keep_unless p [] = []
keep_unless p (x ∷ xs) = if p x then keep_unless p xs else x ∷ keep_unless p xs

abbrev total_length : List Text → ℕ
total_length [] = 0
total_length (t ∷ ts) = length t + total_length ts

-- The texts that are printed into a statement hold no quotation mark and no NUL, and leave room for
-- the words of the statement and its numbers.
abbrev pub Printable : List Text → Type 0
Printable ts =
    All (AllChars (λ c. not (c == 39) && not (c == 0))) ts × (total_length ts + 256 ≤ 4096)

-- `texts r` and `cond_texts c` are printed into the statements of a row and of a condition.
-- `holds c r`: the row satisfies the condition. `clash rs r`: the primary key of the row is taken.
-- `table` is the content of the table, `none` if there is no such table.
pub record IsTable {Row Cond : Type 0} (s : Sqlite Row Cond) (texts : Row → List Text)
    (cond_texts : Cond → List Text) (holds : Cond → Row → Bool) (clash : List Row → Row → Bool)
    : Type 0 where
  pub table : s.Db → Option (List Row)
  pub create_new :
      (db : s.Db)
      → table db ≡ none
      → ((s.exec db create_table).1 ≡ true) × (table (s.exec db create_table).0 ≡ some [])
  pub create_again :
      (db : s.Db) (rs : List Row)
      → table db ≡ some rs
      → ((s.exec db create_table).1 ≡ true) × (table (s.exec db create_table).0 ≡ some rs)
  pub drop :
      (db : s.Db) → ((s.exec db drop_table).1 ≡ true) × (table (s.exec db drop_table).0 ≡ none)
  pub insert_new :
      (db : s.Db) (rs : List Row) (r : Row)
      → table db ≡ some rs
      → clash rs r ≡ false
      → Printable (texts r)
      → ((s.exec db (insert_into r)).1 ≡ true)
        × (table (s.exec db (insert_into r)).0 ≡ some (rs ++ r ∷ []))
  pub insert_missing :
      (db : s.Db) (r : Row)
      → table db ≡ none
      → Printable (texts r)
      → ((s.exec db (insert_into r)).1 ≡ false) × (table (s.exec db (insert_into r)).0 ≡ none)
  pub delete :
      (db : s.Db) (rs : List Row) (c : Cond)
      → table db ≡ some rs
      → Printable (cond_texts c)
      → table (s.exec db (delete_from c)).0 ≡ some (keep_unless (holds c) rs)
  pub select : (db : s.Db) (rs : List Row) → table db ≡ some rs → s.query db select_all ≡ rs
