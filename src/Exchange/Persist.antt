-- ===== src/Exchange/Persist.antt =====
-- The table of exchange.hpp holds the durable exchanges, so that a restart brings them back.
use hare_mq.Base.{
  Distinct, if◌then◌else◌, Bool, true, ◌≡◌, refl, sym, ap, ◌∙◌, inl, inr, List, [], ◌∷◌, ◌++◌,
  Option, none, some, Text, text_discrete, text_eq, Map, find, insert, find_cases, Bool-cases,
  if_true, if_false,
}
use hare_mq.Split.{Splitter, SplitsJoined}
use hare_mq.Args.Roundtrip.{IsPlain, set_args-get_args}
use hare_mq.Sqlite.{create_table, Sqlite, IsTable, Printable}
use hare_mq.Split.{All}
use hare_mq.Sqlite.Stored.{stored, has_name, stored-has_name}
use hare_mq.Sqlite.Kept.{Kept, insert-Kept, erase-Kept, survives, read_rows, find-reread}
use hare_mq.Args.{set_args, get_args}
use hare_mq.Proto.{ExchangeType, unknown_type, direct, fanout, topic}
use hare_mq.Queue.Rows.{code_flag-flag_code}
use hare_mq.Exchange.{
  type_code, code_type, Exchange, ExchangeRow, ExchangeCond, by_name, to_row, of_row, select_rows,
  Manager, open_manager, declare_exchange, delete_exchange, select_exchange, mapper_create,
  mapper_insert, mapper_remove, mapper_all,
}

abbrev pub row_name : ExchangeRow → Text
row_name r = r.name

-- The rows that a `delete` takes away, and the primary key of `exchange_table`.
abbrev pub holds : ExchangeCond → ExchangeRow → Bool
holds (by_name n) r = text_eq r.name n

-- The texts in the statements.
abbrev pub texts : ExchangeRow → List Text
texts r = r.name ∷ elim r.args [ none ↦ [] | some args ↦ args ∷ [] ]

abbrev pub cond_texts : ExchangeCond → List Text
cond_texts (by_name n) = n ∷ []

abbrev pub clash : List ExchangeRow → ExchangeRow → Bool
clash rs r = has_name row_name r.name rs

abbrev pub is_durable : Exchange → Bool
is_durable e = e.durable

code_type-type_code : (t : ExchangeType) → code_type (type_code t) ≡ t
code_type-type_code unknown_type = refl
code_type-type_code direct = refl
code_type-type_code fanout = refl
code_type-type_code topic = refl

-- A durable exchange with plain arguments is the same but for an argument with the empty key.
abbrev pub plainly : Exchange → Exchange
plainly x = record x { args = insert text_discrete [] [] x.args }

module _ (split : Splitter) where
  -- What a restart makes of the exchange under a name: nothing, unless it is durable. Only the
  -- arguments change: they are written out and read back.
  abbrev pub exchange_survives : Option Exchange → Option Exchange
  exchange_survives none = none
  exchange_survives (some x) =
      if x.durable then some (record x { args = set_args split (get_args x.args) [] }) else none

  of_row-to_row :
      (x : Exchange)
      → of_row split (to_row x) ≡ record x { args = set_args split (get_args x.args) [] }
  unfolding of_row to_row
  of_row-to_row x =
      rw
        (
          code_type-type_code x.type,
          code_flag-flag_code x.durable,
          code_flag-flag_code x.auto_delete,
        )
        refl

  survives-rows :
      (o : Option Exchange)
      → survives is_durable to_row row_name (of_row split) o ≡ exchange_survives o
  survives-rows none = refl
  survives-rows (some x) = ap (λ r. if x.durable then some r else none) (of_row-to_row x)

  pub survives-plainly :
      (x : Exchange)
      → SplitsJoined split
      → x.durable ≡ true
      → IsPlain x.args
      → Distinct text_discrete x.args
      → exchange_survives (some x) ≡ some (plainly x)
  survives-plainly x law durable p d =
      if_true x.durable _ _ durable
      ∙ ap (λ args. some (record x { args = args })) (set_args-get_args split x.args law p d)

  select_rows-read_rows :
      (rs : List ExchangeRow) (acc : Map Text Exchange)
      → select_rows split rs acc ≡ read_rows is_durable to_row row_name (of_row split) rs acc
  unfolding select_rows read_rows
  select_rows-read_rows [] acc = refl
  select_rows-read_rows (r ∷ rs) acc =
      select_rows-read_rows rs (insert text_discrete r.name (of_row split r) acc)

module _ (split : Splitter) (sql : Sqlite ExchangeRow ExchangeCond)
    (law : IsTable sql texts cond_texts holds clash) where
  abbrev pub Inv : Manager split sql → Type 0
  Inv m = Kept is_durable to_row row_name (law.table m.db) m.exchanges

  -- The result of the `insert` is true: no statement of the manager violates the primary key.
  insert_tabled :
      (m : Manager split sql) (x : Exchange)
      → Inv m
      → find text_discrete x.name m.exchanges ≡ none
      → Printable (texts (to_row x))
      → ((mapper_insert split sql m.db x).1 ≡ true)
        × (law.table (mapper_insert split sql m.db x).0
            ≡ some (stored is_durable to_row row_name m.exchanges ++ to_row x ∷ []))
  unfolding mapper_insert
  insert_tabled m x v e p =
      law.insert_new m.db _ (to_row x) v.tabled
        (unfold to_row in stored-has_name is_durable to_row row_name m.exchanges x.name v.named e) p

  pub declare_exchange-Inv :
      (m : Manager split sql) (x : Exchange)
      → Inv m
      → Printable (texts (to_row x))
      → Inv (declare_exchange split sql m x).0
  unfolding declare_exchange
  declare_exchange-Inv m x v p = elim (find_cases text_discrete x.name m.exchanges) [
    | inr (y, e) ↦ rw (e, declare_exchange) v
    | inl e ↦
        rw (e, declare_exchange)
          (insert-Kept is_durable to_row row_name (law.table m.db) _ m.exchanges x.name x v e
            (unfold to_row in refl)
            (elim (Bool-cases x.durable) [
              | inl d ↦
                  ap law.table (if_true x.durable _ _ d)
                  ∙ (insert_tabled m x v e p).1
                  ∙ ap some (sym (if_true x.durable _ _ d))
              | inr d ↦
                  ap law.table (if_false x.durable _ _ d)
                  ∙ v.tabled
                  ∙ ap some (sym (if_false x.durable _ _ d))
            ]))
  ]

  pub delete_exchange-Inv :
      (m : Manager split sql) (name : Text)
      → Inv m
      → Printable (name ∷ [])
      → Inv (delete_exchange split sql m name)
  unfolding delete_exchange
  delete_exchange-Inv m name v p = elim (find_cases text_discrete name m.exchanges) [
    | inl e ↦ rw (e, delete_exchange) v
    | inr (x, e) ↦
        rw (e, delete_exchange)
          (erase-Kept is_durable to_row row_name (law.table m.db) _ m.exchanges name x v e
            (elim (Bool-cases x.durable) [
              | inl d ↦ rw d (unfold mapper_remove in law.delete m.db _ (by_name name) v.tabled p)
              | inr d ↦ rw d v.tabled
            ]))
  ]

  -- Declarations and deletions, in any order.
  pub data Call : Type 0 where
    declares : Exchange → Call
    deletes : Text → Call

  pub run : Manager split sql → List Call → Manager split sql
  run m [] = m
  run m (declares x ∷ calls) = run (declare_exchange split sql m x).0 calls
  run m (deletes name ∷ calls) = run (delete_exchange split sql m name) calls

  abbrev pub PrintableCall : Call → Type 0
  PrintableCall (declares x) = Printable (texts (to_row x))
  PrintableCall (deletes name) = Printable (name ∷ [])

  run-Inv :
      (m : Manager split sql) (calls : List Call)
      → Inv m
      → All PrintableCall calls
      → Inv (run m calls)
  unfolding run
  run-Inv m [] v ok = v
  run-Inv m (declares x ∷ calls) v ok =
      run-Inv (declare_exchange split sql m x).0 calls (declare_exchange-Inv m x v ok.0) ok.1
  run-Inv m (deletes name ∷ calls) v ok =
      run-Inv (delete_exchange split sql m name) calls (delete_exchange-Inv m name v ok.0) ok.1

  -- A manager that is opened on a table with no rows, or on no table.
  open_manager-Inv :
      (db : sql.Db)
      → law.table db ≡ none
      → (m : Manager split sql) × (open_manager split sql db ≡ some m) × Inv m
  unfolding open_manager mapper_create mapper_all select_rows
  open_manager-Inv db e =
      let (done, t) = law.create_new db e in
      (
        record { db = (sql.exec db create_table).0; exchanges = [] },
        simp (done, law.select _ [] t) refl,
        record { tabled = t; named = tt; distinct = tt },
      )

  -- Opening the file again gives each durable exchange, read back, and no other.
  pub reopen :
      (m : Manager split sql)
      → Inv m
      → (m' : Manager split sql) × (open_manager split sql m.db ≡ some m')
        × ((name : Text)
            → select_exchange split sql m' name
              ≡ exchange_survives split (select_exchange split sql m name))
  unfolding open_manager mapper_create mapper_all select_exchange
  reopen m v =
      let (done, t) = law.create_again m.db _ v.tabled in
      (
        record {
          db = (sql.exec m.db create_table).0;
          exchanges = select_rows split (stored is_durable to_row row_name m.exchanges) [];
        },
        simp (done, law.select _ _ t) refl,
        λ name.
            ap (find text_discrete name) (select_rows-read_rows split _ [])
            ∙ find-reread is_durable to_row row_name (of_row split) (law.table m.db) m.exchanges
                name v
            ∙ survives-rows split (find text_discrete name m.exchanges),
      )

  -- For a table with the documented laws: after any declarations and deletions on a new file whose
  -- texts can be printed into the statements, opening the file again succeeds and gives exactly the
  -- durable exchanges, the same but for arguments that were written out and read back.
  pub reopen_exchanges-run :
      (db : sql.Db) (calls : List Call)
      → law.table db ≡ none
      → All PrintableCall calls
      → (m : Manager split sql) × (open_manager split sql db ≡ some m)
        × (m' : Manager split sql) × (open_manager split sql (run m calls).db ≡ some m')
        × ((name : Text)
            → select_exchange split sql m' name
              ≡ exchange_survives split (select_exchange split sql (run m calls) name))
  reopen_exchanges-run db calls e ok =
      let (m, opened, v) = open_manager-Inv db e in
      let (m', again, same) = reopen (run m calls) (run-Inv m calls v ok) in
      (m, opened, m', again, same)
