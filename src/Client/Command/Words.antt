-- ===== src/Client/Command/Words.antt =====
-- client.cc, `run_cmd`: a declaration that is written out as words is the declaration that is made.
use hare_mq.Base.{
  ◌≡◌, ◌≢◌, refl, ap, ◌∙◌, Bool, true, false, List, [], ◌∷◌, ◌++◌, map, some, Text, codes,
  text_discrete, ℕ_discrete, ◌==◌, arith, Map, insert, insert_all, insert_all-Distinct, Distinct,
}
use hare_mq.Split.{Splitter, All}
use hare_mq.Queue.{MsgQueue}
use hare_mq.Client.Channel
use hare_mq.Client.Channel.{Channel}
use hare_mq.Client.Command.Args.{flag, cut, add_args, parse_args}
use hare_mq.Client.Command.{calls, declare_queue_cmd, declare_queue_with, run_cmd}

abbrev pub flag_word : Bool → Text
flag_word true = codes "true"
flag_word false = codes "false"

-- `k=v`.
abbrev pub arg_word : Text × Text → Text
arg_word (k, v) = k ++ b'=' ∷ v

-- `k1=v1&k2=v2&k3=v3`.
unfoldable pub args_word : Map Text Text → Text
args_word [] = []
args_word (kv ∷ []) = arg_word kv
args_word (kv ∷ kv' ∷ m) = arg_word kv ++ b'&' ∷ args_word (kv' ∷ m)

-- The words of the arguments are found again.
abbrev pub SplitsArgs : Splitter → Map Text Text → Type 0
SplitsArgs split m = split b'&' (args_word m) ≡ map arg_word m

-- No key holds '='.
abbrev pub PlainKeys : Map Text Text → Type 0
PlainKeys = All (λ (kv : Text × Text). All (λ c. c ≢ b'=') kv.0)

flag-flag_word : (b : Bool) → flag (flag_word b) ≡ some b
unfolding flag text_discrete ℕ_discrete
flag-flag_word true = refl
flag-flag_word false = refl

cut-arg_word : (k v : Text) → All (λ c. c ≢ b'=') k → cut (arg_word (k, v)) ≡ some (k, v)
unfolding cut
cut-arg_word [] v a = refl
cut-arg_word (c ∷ k) v a =
    let differ : (c == b'=') ≡ false = ground (arith, a.0) in rw (differ, cut-arg_word k v a.1) refl

add_args-words :
    (m acc : Map Text Text)
    → PlainKeys m
    → add_args (map arg_word m) acc ≡ some (insert_all text_discrete m acc)
unfolding add_args insert_all
add_args-words [] acc a = refl
add_args-words ((k, v) ∷ m) acc a =
    rw (cut-arg_word k v a.0, add_args) (add_args-words m (insert text_discrete k v acc) a.1)

args_word-cons : (kv : Text × Text) (m : Map Text Text) → args_word (kv ∷ m) ≢ []
unfolding args_word
args_word-cons ([], v) [] e = cc
args_word-cons (c ∷ k, v) [] e = cc
args_word-cons ([], v) (kv' ∷ m) e = cc
args_word-cons (c ∷ k, v) (kv' ∷ m) e = cc

parse_args-cons :
    (split : Splitter) (w : Text) → w ≢ [] → parse_args split (w ∷ []) ≡ add_args (split b'&' w) []
unfolding parse_args
parse_args-cons split [] differ = absurd (differ refl)
parse_args-cons split (c ∷ w) differ = refl

-- The arguments that are written out are read back.
parse_args-args_word :
    (split : Splitter) (m : Map Text Text)
    → SplitsArgs split m
    → PlainKeys m
    → Distinct text_discrete m
    → parse_args split (args_word m ∷ []) ≡ some m
unfolding parse_args args_word
parse_args-args_word split [] splits plain distinct = refl
parse_args-args_word split (kv ∷ m) splits plain distinct =
    parse_args-cons split (args_word (kv ∷ m)) (args_word-cons kv m)
    ∙ ap (λ ws. add_args ws []) splits
    ∙ add_args-words (kv ∷ m) [] plain
    ∙ ap some (insert_all-Distinct text_discrete (kv ∷ m) distinct)

unfoldable pub queue_words : MsgQueue → List Text
unfolding args_word
queue_words q =
    q.name
    ∷ flag_word q.durable
    ∷ flag_word q.exclusive
    ∷ flag_word q.auto_delete
    ∷ args_word q.args
    ∷ []

declared :
    (split : Splitter) (ch : Channel) (rid : Text) (q : MsgQueue)
    → parse_args split (args_word q.args ∷ []) ≡ some q.args
    → declare_queue_with split ch rid q.name
        (flag_word q.durable)
        (flag_word q.exclusive)
        (flag_word q.auto_delete)
        (args_word q.args ∷ [])
      ≡ calls (Channel.declare_queue ch rid q)
unfolding declare_queue_with
declared split ch rid q parsed =
    rw (flag-flag_word q.durable, declare_queue_with)
      (rw (flag-flag_word q.exclusive, declare_queue_with)
        (rw (flag-flag_word q.auto_delete, declare_queue_with)
          (rw (parsed, declare_queue_with) refl)))

-- A queue that is written out as the words of a `declare_queue` command is the queue that the
-- command declares, if the text of its arguments is split into them, no key holds `=`, and no key
-- stands twice.
pub run_cmd-queue_words :
    (split : Splitter) (ch : Channel) (rid uuid : Text) (q : MsgQueue)
    → SplitsArgs split q.args
    → PlainKeys q.args
    → Distinct text_discrete q.args
    → run_cmd split ch rid uuid (codes "declare_queue") (queue_words q)
      ≡ calls (Channel.declare_queue ch rid q)
unfolding run_cmd declare_queue_cmd queue_words text_discrete ℕ_discrete
run_cmd-queue_words split ch rid uuid q splits plain distinct =
    declared split ch rid q (parse_args-args_word split q.args splits plain distinct)
