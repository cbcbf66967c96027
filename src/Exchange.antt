-- ===== src/Exchange.antt =====
-- HareMQ/mqserver/exchange.hpp: `exchange`, `exchange_mapper` and `exchange_manager`. A method of
-- the manager runs under its mutex: one call is one function. `abort()` is `none`.
pub mod Persist
use mathlib.Core.Option
use hare_mq.Base.{
  ℕ, Bool, true, false, List, [], ◌∷◌, Option, none, some, Text, text_discrete, ◌==◌, if◌then◌else◌,
  length, Map, find, insert, erase,
}
use hare_mq.Split.{Splitter}
use hare_mq.Args.{set_args, get_args}
use hare_mq.Proto.{ExchangeType, unknown_type, direct, fanout, topic}
use hare_mq.Queue.{flag_code, code_flag}
use hare_mq.Sqlite.{create_table, drop_table, insert_into, delete_from, select_all, Sqlite}

pub record Exchange : Type 0 where
  pub name : Text
  pub type : ExchangeType
  pub durable : Bool
  pub auto_delete : Bool
  pub args : Map Text Text

-- A row of `exchange_table`; `args` may be null.
pub record ExchangeRow : Type 0 where
  pub name : Text
  pub type : ℕ
  pub durable : ℕ
  pub auto_delete : ℕ
  pub args : Option Text

-- `where name='%s'`.
pub data ExchangeCond : Type 0 where
  by_name : Text → ExchangeCond

-- The number of an enumerator, as `%d` prints it.
abbrev pub type_code : ExchangeType → ℕ
type_code unknown_type = 0
type_code direct = 1
type_code fanout = 2
type_code topic = 3

-- The cast `(ExchangeType)n`; a number that no enumerator has is never written to the table.
abbrev pub code_type : ℕ → ExchangeType
code_type n =
    if n == 1 then direct else if n == 2 then fanout else if n == 3 then topic else unknown_type

-- The arguments of `EXCHANGE_INSERT_SQL`.
unfoldable pub to_row : Exchange → ExchangeRow
unfolding get_args
to_row e = record {
  name = e.name;
  type = type_code e.type;
  durable = flag_code e.durable;
  auto_delete = flag_code e.auto_delete;
  args = some (get_args e.args);
}

module _ (split : Splitter) where
  read_args : Option Text → Map Text Text
  unfolding set_args
  read_args none = []
  read_args (some text) = set_args split text []

  -- The exchange that `select_callback` makes of a row.
  unfoldable pub of_row : ExchangeRow → Exchange
  unfolding read_args
  of_row row = record {
    name = row.name;
    type = code_type row.type;
    durable = code_flag row.durable;
    auto_delete = code_flag row.auto_delete;
    args = read_args row.args;
  }

  -- `select_callback`, once for each row.
  unfoldable pub select_rows : List ExchangeRow → Map Text Exchange → Map Text Exchange
  unfolding of_row insert
  select_rows [] result = result
  select_rows (row ∷ rows) result =
      select_rows rows (insert text_discrete row.name (of_row row) result)

module _ (split : Splitter) (sql : Sqlite ExchangeRow ExchangeCond) where
  -- `create_table` and `remove_table` abort when the statement fails.
  unfoldable pub mapper_create : sql.Db → Option sql.Db
  mapper_create db = let (db', done) = sql.exec db create_table in if done then some db' else none

  unfoldable pub mapper_remove_table : sql.Db → Option sql.Db
  mapper_remove_table db =
      let (db', done) = sql.exec db drop_table in if done then some db' else none

  -- The text of the statement is a function of the row; `exec` stands for printing and executing it.
  unfoldable pub mapper_insert : sql.Db → Exchange → sql.Db × Bool
  unfolding to_row
  mapper_insert db e = sql.exec db (insert_into (to_row e))

  unfoldable pub mapper_remove : sql.Db → Text → sql.Db
  mapper_remove db name = (sql.exec db (delete_from (by_name name))).0

  unfoldable pub mapper_all : sql.Db → Map Text Exchange
  unfolding select_rows
  mapper_all db = select_rows split (sql.query db select_all) []

  pub record Manager : Type 0 where
    pub db : sql.Db
    pub exchanges : Map Text Exchange

  -- The constructor: the table is made if it is missing, and the exchanges are read back.
  unfoldable pub open_manager : sql.Db → Option Manager
  unfolding mapper_create mapper_all
  open_manager db =
      Option.map (λ db'. record { db = db'; exchanges = mapper_all db' }) (mapper_create db)

  -- The result of the mapper's `insert` is not looked at.
  unfoldable pub declare_exchange : Manager → Exchange → Manager × Bool
  unfolding find insert mapper_insert
  declare_exchange m e = elim (find text_discrete e.name m.exchanges) [
    | some _ ↦ (m, true)
    | none ↦
        let db' = (if e.durable then (mapper_insert m.db e).0 else m.db) in
        (record { db = db'; exchanges = insert text_discrete e.name e m.exchanges }, true)
  ]

  unfoldable pub delete_exchange : Manager → Text → Manager
  unfolding find erase mapper_remove
  delete_exchange m name = elim (find text_discrete name m.exchanges) [
    | none ↦ m
    | some e ↦
        let db' = (if e.durable then mapper_remove m.db name else m.db) in
        record { db = db'; exchanges = erase text_discrete name m.exchanges }
  ]

  unfoldable pub select_exchange : Manager → Text → Option Exchange
  unfolding find
  select_exchange m name = find text_discrete name m.exchanges

  unfoldable pub exists : Manager → Text → Bool
  unfolding find
  exists m name = elim (find text_discrete name m.exchanges) [ none ↦ false | some _ ↦ true ]

  abbrev pub size : Manager → ℕ
  size m = length m.exchanges

  unfoldable pub clear_exchange : Manager → Option Manager
  unfolding mapper_remove_table
  clear_exchange m =
      Option.map (λ db'. record { db = db'; exchanges = [] }) (mapper_remove_table m.db)
