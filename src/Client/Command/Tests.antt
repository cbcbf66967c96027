-- ===== src/Client/Command/Tests.antt =====
-- The commands of the client at concrete words and lines.
use hare_mq.Base.{
  ◌≡◌, refl, true, false, Bool, [], ◌∷◌, ◌++◌, ◌+◌, some, none, Option, List, Text, codes, arith,
  text_discrete, ℕ_discrete, text_eq, ℕ, get_or, ap, find, Distinct,
}
use hare_mq.Split.{split_on, split_on-SplitsSome, All}
use hare_mq.Queue.{MsgQueue}
use hare_mq.Client.Channel
use hare_mq.Client.Channel.{Channel}
use hare_mq.Client.Command.{calls, run_cmd, publish_loop, valid_cmds, run_config, is_valid_cmd}
use hare_mq.Client.Command.Words.{PlainKeys, queue_words, args_word, run_cmd-queue_words}
use hare_mq.Client.Command.Session.{is_assert, publish_loop-quit, run_cmd-asserts}
use hare_mq.Client.Command.Config.{Ran, run_config-Ran}

abbrev channel : Channel
channel = record { cid = codes "c"; consumer = none; basic_resp = []; basic_query_resp = [] }

abbrev jobs : MsgQueue
jobs = record {
  name = codes "jobs";
  durable = true;
  exclusive = false;
  auto_delete = false;
  args = (codes "a", codes "1") ∷ (codes "b", codes "2") ∷ [];
}

jobs_plain : PlainKeys jobs.args
jobs_plain = ((λ e. omega (arith, e), tt), ((λ e. omega (arith, e), tt), tt))

jobs-Distinct : Distinct text_discrete jobs.args
unfolding find text_discrete ℕ_discrete
jobs-Distinct = (refl, (refl, tt))

run_cmd-queue_words_example :
    run_cmd split_on channel (codes "r") (codes "u") (codes "declare_queue") (queue_words jobs)
    ≡ calls (Channel.declare_queue channel (codes "r") jobs)
unfolding args_word split_on text_discrete ℕ_discrete
run_cmd-queue_words_example =
    run_cmd-queue_words split_on channel (codes "r") (codes "u") jobs refl jobs_plain jobs-Distinct

publish_loop-quit_example :
    publish_loop true ((codes "hi" ∷ []) ++ codes "quit" ∷ codes "exit" ∷ [])
    ≡ some (codes "hi" ∷ [], codes "exit" ∷ [])
publish_loop-quit_example =
    publish_loop-quit (codes "hi" ∷ []) (codes "exit" ∷ [])
      ((λ e. omega (arith, ap (λ (t : Text). get_or t 0 0) e)), tt)

run_cmd-asserts_example :
    All
      (λ cmd.
        is_assert (run_cmd split_on channel (codes "r") (codes "u") cmd (codes "q" ∷ []))
        ≡ text_eq cmd (codes "exit"))
      valid_cmds
run_cmd-asserts_example = run_cmd-asserts split_on channel (codes "r") (codes "u") (codes "q" ∷ [])

-- Each command counts itself and succeeds.
abbrev counting : ℕ → Text → List Text → Option (ℕ × Bool)
counting n cmd ws = some (n + 1, true)

run_config-Ran_example : Ran split_on counting (codes "logo" ∷ codes "cid" ∷ []) 0 2
unfolding run_config is_valid_cmd split_on text_discrete ℕ_discrete
run_config-Ran_example =
    run_config-Ran split_on counting 0 2 (codes "logo" ∷ codes "cid" ∷ []) split_on-SplitsSome refl
