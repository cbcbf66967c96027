-- ===== src/Queue/Rows.antt =====
-- queue.hpp: the rows of `queue_table` and the queues that are read from them.
use hare_mq.Base.{
  if_true, ◌∙◌, false, ap, none, some, if◌then◌else◌, Option, true, List, [], ◌∷◌, Bool, ◌≡◌, refl,
  Text, text_discrete, text_eq, arith, Map, insert, Distinct,
}
use hare_mq.Split.{Splitter, SplitsJoined}
use hare_mq.Args.Roundtrip.{IsPlain, set_args-get_args}
use hare_mq.Sqlite.Stored.{has_name}
use hare_mq.Sqlite.Kept
use hare_mq.Sqlite.Kept.{read_rows}
use hare_mq.Args.{set_args, get_args}
use hare_mq.Queue.{
  flag_code, code_flag, MsgQueue, QueueRow, QueueCond, by_name, to_row, of_row, select_rows,
}

abbrev pub row_name : QueueRow → Text
row_name r = r.name

-- The rows that a `delete` takes away, and the primary key of `queue_table`.
abbrev pub holds : QueueCond → QueueRow → Bool
holds (by_name n) r = text_eq r.name n

-- The texts in the statements.
abbrev pub texts : QueueRow → List Text
texts r = r.name ∷ elim r.args [ none ↦ [] | some args ↦ args ∷ [] ]

abbrev pub cond_texts : QueueCond → List Text
cond_texts (by_name n) = n ∷ []

pub code_flag-flag_code : (b : Bool) → code_flag (flag_code b) ≡ b
code_flag-flag_code true = refl
code_flag-flag_code false = refl

abbrev pub clash : List QueueRow → QueueRow → Bool
clash rs r = has_name row_name r.name rs

abbrev pub is_durable : MsgQueue → Bool
is_durable q = q.durable

-- A durable queue with plain arguments is the same but for an argument with the empty key.
abbrev pub plainly : MsgQueue → MsgQueue
plainly q = record q { args = insert text_discrete [] [] q.args }

module _ (split : Splitter) where
  -- What a restart makes of the queue under a name: nothing, unless it is durable. Only the
  -- arguments change: they are written out and read back.
  abbrev pub survives : Option MsgQueue → Option MsgQueue
  survives none = none
  survives (some q) =
      if q.durable then some (record q { args = set_args split (get_args q.args) [] }) else none

  of_row-to_row_args :
      (q : MsgQueue)
      → of_row split (to_row q) ≡ record q { args = set_args split (get_args q.args) [] }
  unfolding of_row to_row
  of_row-to_row_args q =
      rw
        (
          code_flag-flag_code q.durable,
          code_flag-flag_code q.exclusive,
          code_flag-flag_code q.auto_delete,
        )
        refl

  pub survives-rows :
      (o : Option MsgQueue) → Kept.survives is_durable to_row row_name (of_row split) o ≡ survives o
  survives-rows none = refl
  survives-rows (some q) = ap (λ r. if q.durable then some r else none) (of_row-to_row_args q)

  pub survives-plainly :
      (q : MsgQueue)
      → SplitsJoined split
      → q.durable ≡ true
      → IsPlain q.args
      → Distinct text_discrete q.args
      → survives (some q) ≡ some (plainly q)
  survives-plainly q law durable p d =
      if_true q.durable _ _ durable
      ∙ ap (λ args. some (record q { args = args })) (set_args-get_args split q.args law p d)

  pub select_rows-read_rows :
      (rs : List QueueRow) (acc : Map Text MsgQueue)
      → select_rows split rs acc ≡ read_rows is_durable to_row row_name (of_row split) rs acc
  unfolding select_rows read_rows
  select_rows-read_rows [] acc = refl
  select_rows-read_rows (r ∷ rs) acc =
      select_rows-read_rows rs (insert text_discrete r.name (of_row split r) acc)

  -- For a splitter with the documented law: if no key of the arguments holds `=` or `&`, no
  -- value holds `&` and no key stands twice, a queue that is read from its row is the same, but
  -- for an extra argument with the empty key, unless that is there.
  pub of_row-to_row :
      (q : MsgQueue)
      → SplitsJoined split
      → IsPlain q.args
      → Distinct text_discrete q.args
      → of_row split (to_row q) ≡ record q { args = insert text_discrete [] [] q.args }
  unfolding of_row to_row
  of_row-to_row q law p d = ground (arith, set_args-get_args split q.args law p d)
