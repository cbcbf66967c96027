-- ===== src/Sqlite/Connection.antt =====
-- `sqlite_helper` of HareMQ/mqcommon/helper.hpp. The C interface of SQLite is a parameter.
use hare_mq.Base.{ℕ, Bool, false, Option, none, some, Text}

-- `ok` of a call is whether it returned `SQLITE_OK`. `open_v2` also sets the handler; its flags are
-- `SQLITE_OPEN_READWRITE | SQLITE_OPEN_CREATE` and the level that it is given.
pub record Api : Type 1 where
  pub State : Type 0
  pub Handler : Type 0
  pub Callback : Type 0
  pub open_v2 : State → Text → (level : ℕ) → State × Option Handler × Bool
  pub exec : State → Option Handler → Text → Callback → State × Bool
  pub close_v2 : State → Handler → State × Bool

module _ (api : Api) where
  open api use {State, Handler, Callback}

  pub record SqliteHelper : Type 0 where
    pub handler : Option Handler
    pub db_file : Text

  abbrev pub new : Text → SqliteHelper
  new db_file = record { handler = none; db_file = db_file }

  unfoldable pub open_db : State → SqliteHelper → ℕ → State × SqliteHelper × Bool
  open_db s h safe_level =
      let (s', handler, done) = api.open_v2 s h.db_file safe_level in
      (s', record h { handler = handler }, done)

  unfoldable pub exec : State → SqliteHelper → Text → Callback → State × Bool
  exec s h sql cb = api.exec s h.handler sql cb

  -- The handler stays as it was.
  unfoldable pub close : State → SqliteHelper → State × Bool
  close s h = elim h.handler [ none ↦ (s, false) | some handler ↦ api.close_v2 s handler ]
