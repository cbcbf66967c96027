-- ===== src/Queue.antt =====
-- HareMQ/mqserver/queue.hpp: `msg_queue`, `msg_queue_mapper` and `msg_queue_manager`. A method of
-- the manager runs under its mutex: one call is one function. `abort()` is `none`.
pub mod Rows
pub mod Persist
mod Tests
use mathlib.Core.Option
use hare_mq.Base.{
  ℕ, Bool, true, false, not, List, [], ◌∷◌, Option, none, some, Text, text_discrete, ◌==◌,
  if◌then◌else◌, length, Map, find, insert, erase,
}
use hare_mq.Split.{Splitter}
use hare_mq.Args.{set_args, get_args}
use hare_mq.Sqlite.{Stmt, create_table, drop_table, insert_into, delete_from, select_all, Sqlite}

pub record MsgQueue : Type 0 where
  pub name : Text
  pub durable : Bool
  pub exclusive : Bool
  pub auto_delete : Bool
  pub args : Map Text Text

-- A row of `queue_table`; `args` may be null.
pub record QueueRow : Type 0 where
  pub name : Text
  pub durable : ℕ
  pub exclusive : ℕ
  pub auto_delete : ℕ
  pub args : Option Text

-- `where name='%s'`.
pub data QueueCond : Type 0 where
  by_name : Text → QueueCond

-- `flag == true ? 1 : 0`.
abbrev pub flag_code : Bool → ℕ
flag_code true = 1
flag_code false = 0

-- `(bool)std::stoi(field)`.
abbrev pub code_flag : ℕ → Bool
code_flag n = not (n == 0)

-- The arguments of `QUEUE_INSERT_SQL`.
unfoldable pub to_row : MsgQueue → QueueRow
unfolding get_args
to_row q = record {
  name = q.name;
  durable = flag_code q.durable;
  exclusive = flag_code q.exclusive;
  auto_delete = flag_code q.auto_delete;
  args = some (get_args q.args);
}

module _ (split : Splitter) where
  read_args : Option Text → Map Text Text
  unfolding set_args
  read_args none = []
  read_args (some text) = set_args split text []

  -- The queue that `select_callback` makes of a row.
  unfoldable pub of_row : QueueRow → MsgQueue
  unfolding read_args
  of_row row = record {
    name = row.name;
    durable = code_flag row.durable;
    exclusive = code_flag row.exclusive;
    auto_delete = code_flag row.auto_delete;
    args = read_args row.args;
  }

  -- `select_callback`, once for each row.
  unfoldable pub select_rows : List QueueRow → Map Text MsgQueue → Map Text MsgQueue
  unfolding of_row insert
  select_rows [] result = result
  select_rows (row ∷ rows) result =
      select_rows rows (insert text_discrete row.name (of_row row) result)

module _ (split : Splitter) (sql : Sqlite QueueRow QueueCond) where
  -- `create_table` and `remove_table` abort when the statement fails.
  unfoldable pub mapper_create : sql.Db → Option sql.Db
  mapper_create db = let (db', done) = sql.exec db create_table in if done then some db' else none

  unfoldable pub mapper_remove_table : sql.Db → Option sql.Db
  mapper_remove_table db =
      let (db', done) = sql.exec db drop_table in if done then some db' else none

  -- The text of the statement is a function of the row; `exec` stands for printing and executing it.
  unfoldable pub mapper_insert : sql.Db → MsgQueue → sql.Db × Bool
  unfolding to_row
  mapper_insert db q = sql.exec db (insert_into (to_row q))

  unfoldable pub mapper_remove : sql.Db → Text → sql.Db
  mapper_remove db name = (sql.exec db (delete_from (by_name name))).0

  unfoldable pub mapper_all : sql.Db → Map Text MsgQueue
  unfolding select_rows
  mapper_all db = select_rows split (sql.query db select_all) []

  pub record Manager : Type 0 where
    pub db : sql.Db
    pub queues : Map Text MsgQueue

  -- The constructor: the table is made if it is missing, and the queues are read back.
  unfoldable pub open_manager : sql.Db → Option Manager
  unfolding mapper_create mapper_all
  open_manager db =
      Option.map (λ db'. record { db = db'; queues = mapper_all db' }) (mapper_create db)

  unfoldable pub add_queue : Manager → MsgQueue → Manager
  unfolding insert
  add_queue m q = record m { queues = insert text_discrete q.name q m.queues }

  unfoldable pub declare_queue : Manager → MsgQueue → Manager × Bool
  unfolding find mapper_insert add_queue
  declare_queue m q = elim (find text_discrete q.name m.queues) [
    | some _ ↦ (m, true)
    | none ↦
        if q.durable
        then (let (db', done) = mapper_insert m.db q in
            if done
            then (add_queue (record m { db = db' }) q, true)
            else (record m { db = db' }, false))
        else (add_queue m q, true)
  ]

  unfoldable pub delete_queue : Manager → Text → Manager
  unfolding find erase mapper_remove
  delete_queue m name = elim (find text_discrete name m.queues) [
    | none ↦ m
    | some q ↦
        let db' = (if q.durable then mapper_remove m.db name else m.db) in
        record { db = db'; queues = erase text_discrete name m.queues }
  ]

  unfoldable pub select_queue : Manager → Text → Option MsgQueue
  unfolding find
  select_queue m name = find text_discrete name m.queues

  unfoldable pub exists : Manager → Text → Bool
  unfolding find
  exists m name = elim (find text_discrete name m.queues) [ none ↦ false | some _ ↦ true ]

  abbrev pub size : Manager → ℕ
  size m = length m.queues

  unfoldable pub clear_queues : Manager → Option Manager
  unfolding mapper_remove_table
  clear_queues m = Option.map (λ db'. record { db = db'; queues = [] }) (mapper_remove_table m.db)
