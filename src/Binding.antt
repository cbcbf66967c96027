-- ===== src/Binding.antt =====
-- HareMQ/mqserver/binding.hpp: `binding`, `binding_mapper` and `binding_manager`. A method of the
-- manager runs under its mutex: one call is one function. `abort()` is `none`.
pub mod Removal
pub mod Persist
pub mod Restart
use mathlib.Core.Option
use hare_mq.Base.{
  ℕ, ◌+◌, Bool, true, false, not, List, [], ◌∷◌, map, Option, none, some, Text, text_discrete,
  if◌then◌else◌, length, Map, find, insert, assign, erase,
}
use hare_mq.Sqlite.{Stmt, create_table, drop_table, insert_into, delete_from, select_all, Sqlite}

-- Also a row of `binding_table`.
pub record Binding : Type 0 where
  pub exchange_name : Text
  pub msg_queue_name : Text
  pub binding_key : Text

-- What stands behind `where` in the three `delete` statements.
pub data BindingCond : Type 0 where
  by_both : Text → Text → BindingCond
  by_exchange : Text → BindingCond
  by_queue : Text → BindingCond

-- `msg_queue_binding_map` and `binding_map`.
abbrev pub QueueBindings : Type 0
QueueBindings = Map Text Binding

abbrev pub Bindings : Type 0
Bindings = Map Text QueueBindings

-- The entry that `m[ename]` refers to, which it makes if it is missing.
unfoldable pub bindings_of : Text → Bindings → QueueBindings
unfolding find
bindings_of ename m = elim (find text_discrete ename m) [ none ↦ [] | some qs ↦ qs ]

-- `m[b.exchange_name].insert({ b.msg_queue_name, b })`.
unfoldable pub add_binding : Binding → Bindings → Bindings
unfolding bindings_of assign insert
add_binding b m =
    assign text_discrete b.exchange_name
      (insert text_discrete b.msg_queue_name b (bindings_of b.exchange_name m)) m

-- `select_callback`, once for each row.
unfoldable pub select_rows : List Binding → Bindings → Bindings
unfolding add_binding
select_rows [] result = result
select_rows (row ∷ rows) result = select_rows rows (add_binding row result)

-- The loop of `unbind_queue`.
unfoldable pub erase_everywhere : Text → Bindings → Bindings
unfolding erase
erase_everywhere qname [] = []
erase_everywhere qname ((ename, qs) ∷ m) =
    (ename, erase text_discrete qname qs) ∷ erase_everywhere qname m

-- The loop of `size`.
unfoldable pub total_size : Bindings → ℕ
total_size [] = 0
total_size ((ename, qs) ∷ m) = length qs + total_size m

-- The test that `bind`, `unbind` and `exists` make.
unfoldable pub find_binding : Text → Text → Bindings → Option Binding
unfolding find
find_binding ename qname m = elim (find text_discrete ename m) [
  | none ↦ none
  | some qs ↦ find text_discrete qname qs
]

module _ (sql : Sqlite Binding BindingCond) where
  -- `create_table` and `remove_table` abort when the statement fails.
  unfoldable pub mapper_create : sql.Db → Option sql.Db
  mapper_create db = let (db', done) = sql.exec db create_table in if done then some db' else none

  unfoldable pub mapper_remove_table : sql.Db → Option sql.Db
  mapper_remove_table db =
      let (db', done) = sql.exec db drop_table in if done then some db' else none

  -- The text of the statement is a function of the row; `exec` stands for printing and executing it.
  unfoldable pub mapper_insert : sql.Db → Binding → sql.Db × Bool
  mapper_insert db b = sql.exec db (insert_into b)

  unfoldable pub mapper_remove : sql.Db → Text → Text → sql.Db
  mapper_remove db ename qname = (sql.exec db (delete_from (by_both ename qname))).0

  unfoldable pub mapper_remove_exchange : sql.Db → Text → sql.Db
  mapper_remove_exchange db ename = (sql.exec db (delete_from (by_exchange ename))).0

  unfoldable pub mapper_remove_queue : sql.Db → Text → sql.Db
  mapper_remove_queue db qname = (sql.exec db (delete_from (by_queue qname))).0

  unfoldable pub mapper_all : sql.Db → Bindings
  unfolding select_rows
  mapper_all db = select_rows (sql.query db select_all) []

  pub record Manager : Type 0 where
    pub db : sql.Db
    pub bindings : Bindings

  -- The constructor: the table is made if it is missing, and the bindings are read back.
  unfoldable pub open_manager : sql.Db → Option Manager
  unfolding mapper_create mapper_all
  open_manager db =
      Option.map (λ db'. record { db = db'; bindings = mapper_all db' }) (mapper_create db)

  unfoldable pub bind : Manager → Text → Text → Text → Bool → Manager × Bool
  unfolding find_binding mapper_insert add_binding
  bind m ename qname key durable =
      let b : Binding = record {
        exchange_name = ename;
        msg_queue_name = qname;
        binding_key = key;
      } in
      elim (find_binding ename qname m.bindings) [
        | some _ ↦ (m, true)
        | none ↦
            if durable
            then (let (db', done) = mapper_insert m.db b in
                if done
                then (record { db = db'; bindings = add_binding b m.bindings }, true)
                else (record m { db = db' }, false))
            else (record m { bindings = add_binding b m.bindings }, true)
      ]

  unfoldable pub unbind : Manager → Text → Text → Manager
  unfolding find_binding mapper_remove bindings_of assign erase
  unbind m ename qname = elim (find_binding ename qname m.bindings) [
    | none ↦ m
    | some _ ↦ record {
      db = mapper_remove m.db ename qname;
      bindings =
          assign text_discrete ename (erase text_discrete qname (bindings_of ename m.bindings))
            m.bindings;
    }
  ]

  unfoldable pub unbind_exchange : Manager → Text → Manager
  unfolding mapper_remove_exchange erase
  unbind_exchange m ename = record {
    db = mapper_remove_exchange m.db ename;
    bindings = erase text_discrete ename m.bindings;
  }

  unfoldable pub unbind_queue : Manager → Text → Manager
  unfolding mapper_remove_queue erase_everywhere
  unbind_queue m qname = record {
    db = mapper_remove_queue m.db qname;
    bindings = erase_everywhere qname m.bindings;
  }

  unfoldable pub get_exchange_bindings : Manager → Text → QueueBindings
  unfolding bindings_of
  get_exchange_bindings m ename = bindings_of ename m.bindings

  unfoldable pub get_binding : Manager → Text → Text → Option Binding
  unfolding find_binding
  get_binding m ename qname = find_binding ename qname m.bindings

  unfoldable pub exists : Manager → Text → Text → Bool
  unfolding find_binding
  exists m ename qname = elim (find_binding ename qname m.bindings) [ none ↦ false | some _ ↦ true ]

  unfoldable pub size : Manager → ℕ
  unfolding total_size
  size m = total_size m.bindings

  unfoldable pub clear_bindings : Manager → Option Manager
  unfolding mapper_remove_table
  clear_bindings m =
      Option.map (λ db'. record { db = db'; bindings = [] }) (mapper_remove_table m.db)
