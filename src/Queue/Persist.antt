-- ===== src/Queue/Persist.antt =====
-- The table of queue.hpp holds the durable queues, so that a restart brings them back.
use hare_mq.Base.{
  Distinct, true, ◌≡◌, refl, sym, ap, ◌∙◌, inl, inr, List, [], ◌∷◌, ◌++◌, none, some, Text,
  text_discrete, if◌then◌else◌, find, insert, find_cases, Bool-cases, if_true, if_false,
}
use hare_mq.Split.{Splitter, SplitsJoined}
use hare_mq.Args.Roundtrip.{IsPlain}
use hare_mq.Sqlite.{create_table, Sqlite, IsTable, Printable}
use hare_mq.Split.{All}
use hare_mq.Sqlite.Stored.{stored, stored-has_name}
use hare_mq.Queue.{
  MsgQueue, QueueRow, QueueCond, by_name, to_row, of_row, select_rows, Manager, open_manager,
  add_queue, declare_queue, delete_queue, select_queue, mapper_create, mapper_insert, mapper_remove,
  mapper_all,
}
use hare_mq.Queue.Rows.{
  texts, cond_texts, survives-rows, plainly, survives-plainly, row_name, holds, clash, is_durable,
  survives, select_rows-read_rows,
}
use hare_mq.Sqlite.Kept.{Kept, insert-Kept, erase-Kept, find-reread}

module _ (split : Splitter) (sql : Sqlite QueueRow QueueCond)
    (law : IsTable sql texts cond_texts holds clash) where
  abbrev pub Inv : Manager split sql → Type 0
  Inv m = Kept is_durable to_row row_name (law.table m.db) m.queues

  insert_tabled :
      (m : Manager split sql) (q : MsgQueue)
      → Inv m
      → find text_discrete q.name m.queues ≡ none
      → Printable (texts (to_row q))
      → ((mapper_insert split sql m.db q).1 ≡ true)
        × (law.table (mapper_insert split sql m.db q).0
            ≡ some (stored is_durable to_row row_name m.queues ++ to_row q ∷ []))
  unfolding mapper_insert
  insert_tabled m q v e p =
      law.insert_new m.db _ (to_row q) v.tabled
        (unfold to_row in stored-has_name is_durable to_row row_name m.queues q.name v.named e) p

  add_queue-Inv :
      (m : Manager split sql) (q : MsgQueue) (db : sql.Db)
      → Inv m
      → find text_discrete q.name m.queues ≡ none
      → law.table db
        ≡ some (
            if q.durable
            then stored is_durable to_row row_name m.queues ++ to_row q ∷ []
            else stored is_durable to_row row_name m.queues)
      → Inv (add_queue split sql (record m { db = db }) q)
  unfolding add_queue
  add_queue-Inv m q db v e t =
      insert-Kept is_durable to_row row_name (law.table m.db) (law.table db) m.queues q.name q v e
        (unfold to_row in refl) t

  -- A new queue is always accepted, and the invariant is kept.
  declare_queue_new :
      (m : Manager split sql) (q : MsgQueue)
      → Inv m
      → find text_discrete q.name m.queues ≡ none
      → Printable (texts (to_row q))
      → Inv (declare_queue split sql m q).0
        × ((declare_queue split sql m q).1 ≡ true)
        × ((declare_queue split sql m q).0.queues ≡ insert text_discrete q.name q m.queues)
  unfolding declare_queue
  declare_queue_new m q v e p = elim (Bool-cases q.durable) [
    | inl d ↦
        rw (e, declare_queue)
          (simp (d, (insert_tabled m q v e p).0)
            (
              add_queue-Inv m q _ v e
                  ((insert_tabled m q v e p).1 ∙ ap some (sym (if_true q.durable _ _ d))),
              refl,
              unfold add_queue in refl,
            ))
    | inr d ↦
        rw (e, declare_queue)
          (simp d (
            add_queue-Inv m q m.db v e (v.tabled ∙ ap some (sym (if_false q.durable _ _ d))),
            refl,
            unfold add_queue in refl,
          ))
  ]

  pub declare_queue-Inv :
      (m : Manager split sql) (q : MsgQueue)
      → Inv m
      → Printable (texts (to_row q))
      → Inv (declare_queue split sql m q).0
  declare_queue-Inv m q v p = elim (find_cases text_discrete q.name m.queues) [
    | inl e ↦ (declare_queue_new m q v e p).0
    | inr (_, e) ↦ unfold declare_queue in rw (e, declare_queue) v
  ]

  pub delete_queue-Inv :
      (m : Manager split sql) (name : Text)
      → Inv m
      → Printable (name ∷ [])
      → Inv (delete_queue split sql m name)
  unfolding delete_queue
  delete_queue-Inv m name v p = elim (find_cases text_discrete name m.queues) [
    | inl e ↦ rw (e, delete_queue) v
    | inr (q, e) ↦
        rw (e, delete_queue)
          (erase-Kept is_durable to_row row_name (law.table m.db) _ m.queues name q v e
            (elim (Bool-cases q.durable) [
              | inl d ↦ rw d (unfold mapper_remove in law.delete m.db _ (by_name name) v.tabled p)
              | inr d ↦ rw d v.tabled
            ]))
  ]

  -- Declarations and deletions, in any order.
  pub data Call : Type 0 where
    declares : MsgQueue → Call
    deletes : Text → Call

  pub run : Manager split sql → List Call → Manager split sql
  run m [] = m
  run m (declares q ∷ calls) = run (declare_queue split sql m q).0 calls
  run m (deletes name ∷ calls) = run (delete_queue split sql m name) calls

  abbrev pub PrintableCall : Call → Type 0
  PrintableCall (declares q) = Printable (texts (to_row q))
  PrintableCall (deletes name) = Printable (name ∷ [])

  run-Inv :
      (m : Manager split sql) (calls : List Call)
      → Inv m
      → All PrintableCall calls
      → Inv (run m calls)
  unfolding run
  run-Inv m [] v ok = v
  run-Inv m (declares q ∷ calls) v ok =
      run-Inv (declare_queue split sql m q).0 calls (declare_queue-Inv m q v ok.0) ok.1
  run-Inv m (deletes name ∷ calls) v ok =
      run-Inv (delete_queue split sql m name) calls (delete_queue-Inv m name v ok.0) ok.1

  -- A manager that is opened on a table with no rows, or on no table.
  open_manager-Inv :
      (db : sql.Db)
      → law.table db ≡ none
      → (m : Manager split sql) × (open_manager split sql db ≡ some m) × Inv m
  unfolding open_manager mapper_create mapper_all select_rows
  open_manager-Inv db e =
      let (done, t) = law.create_new db e in
      (
        record { db = (sql.exec db create_table).0; queues = [] },
        simp (done, law.select _ [] t) refl,
        record { tabled = t; named = tt; distinct = tt },
      )

  -- Opening the file again gives each durable queue, read back, and no other.
  pub reopen :
      (m : Manager split sql)
      → Inv m
      → (m' : Manager split sql) × (open_manager split sql m.db ≡ some m')
        × ((name : Text)
            → select_queue split sql m' name ≡ survives split (select_queue split sql m name))
  unfolding open_manager mapper_create mapper_all select_queue
  reopen m v =
      let (done, t) = law.create_again m.db _ v.tabled in
      (
        record {
          db = (sql.exec m.db create_table).0;
          queues = select_rows split (stored is_durable to_row row_name m.queues) [];
        },
        simp (done, law.select _ _ t) refl,
        λ name.
            ap (find text_discrete name) (select_rows-read_rows split _ [])
            ∙ find-reread is_durable to_row row_name (of_row split) (law.table m.db) m.queues name v
            ∙ survives-rows split (find text_discrete name m.queues),
      )

  -- For a table and a splitter with the documented laws: after any declarations and deletions on a
  -- new file whose texts can be printed into the statements, opening the file again succeeds and
  -- gives exactly the durable queues, the same but for arguments that were written out and read
  -- back. A durable queue whose arguments are plain, and have no key twice, is the same but for an
  -- extra argument with the empty key, unless that is there.
  pub reopen-run :
      (db : sql.Db) (calls : List Call)
      → law.table db ≡ none
      → All PrintableCall calls
      → SplitsJoined split
      → (m : Manager split sql) × (open_manager split sql db ≡ some m)
        × (m' : Manager split sql) × (open_manager split sql (run m calls).db ≡ some m')
        × ((name : Text)
            → select_queue split sql m' name
              ≡ survives split (select_queue split sql (run m calls) name))
        × ((name : Text) (q : MsgQueue)
            → select_queue split sql (run m calls) name ≡ some q
            → q.durable ≡ true
            → IsPlain q.args
            → Distinct text_discrete q.args
            → select_queue split sql m' name ≡ some (plainly q))
  reopen-run db calls e ok joined =
      let (m, opened, v) = open_manager-Inv db e in
      let (m', again, same) = reopen (run m calls) (run-Inv m calls v ok) in
      (
        m,
        opened,
        m',
        again,
        same,
        λ name q known durable p d.
            same name ∙ ap (survives split) known ∙ survives-plainly split q joined durable p d,
      )
