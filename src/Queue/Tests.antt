-- ===== src/Queue/Tests.antt =====
-- The queues of a file that was new: one durable queue and one that is not.
use hare_mq.Base.{◌≡◌, refl, Bool, true, false, List, [], ◌∷◌, none, some, Text, codes}
use hare_mq.Split.{split_on, split_on-SplitsJoined}
use hare_mq.Args.Roundtrip.{IsPlain}
use hare_mq.Queue.Rows.{plainly}
use hare_mq.Base.{Distinct, text_discrete}
use hare_mq.Sqlite.Memory.{memory, memory-IsTable}
use hare_mq.Queue.{MsgQueue, Manager, open_manager, select_queue}
use hare_mq.Queue.Rows.{texts, cond_texts, holds, clash, survives}
use hare_mq.Split.{All}
use hare_mq.Args.{get_args}
use hare_mq.Base.{arith}
use hare_mq.Queue.{to_row}
use hare_mq.Queue.Persist.{PrintableCall, Call, declares, deletes, run, reopen-run}

abbrev queue : Text → Bool → MsgQueue
queue name durable = record {
  name = name;
  durable = durable;
  exclusive = false;
  auto_delete = true;
  args = [];
}

abbrev calls :
    List (Call split_on (memory holds clash) (memory-IsTable holds clash texts cond_texts))
calls =
    declares (queue (codes "a") true)
    ∷ declares (queue (codes "b") false)
    ∷ declares (queue (codes "c") true)
    ∷ deletes (codes "c")
    ∷ []

calls-Printable :
    All
      (PrintableCall split_on (memory holds clash) (memory-IsTable holds clash texts cond_texts))
      calls
unfolding to_row get_args
calls-Printable = (
  (((refl, tt), (tt, tt)), omega arith),
  (
    (((refl, tt), (tt, tt)), omega arith),
    ((((refl, tt), (tt, tt)), omega arith), ((((refl, tt), tt), omega arith), tt)),
  ),
)

reopen-run_example :
    (m : Manager split_on (memory holds clash)) × (open_manager split_on (memory holds clash) none
      ≡ some m)
    × (m' : Manager split_on (memory holds clash)) × (open_manager split_on
          (memory holds clash)
          (run split_on
            (memory holds clash)
            (memory-IsTable holds clash texts cond_texts)
            m
            calls).db
        ≡ some m')
    × ((name : Text)
        → select_queue split_on (memory holds clash) m' name
          ≡ survives split_on (
              select_queue split_on
                (memory holds clash)
                (run split_on
                  (memory holds clash)
                  (memory-IsTable holds clash texts cond_texts)
                  m
                  calls)
                name))
    × ((name : Text) (q : MsgQueue)
        → select_queue split_on
            (memory holds clash)
            (run split_on
              (memory holds clash)
              (memory-IsTable holds clash texts cond_texts)
              m
              calls)
            name
          ≡ some q
        → q.durable ≡ true
        → IsPlain q.args
        → Distinct text_discrete q.args
        → select_queue split_on (memory holds clash) m' name ≡ some (plainly q))
unfolding memory-IsTable
reopen-run_example =
    reopen-run split_on (memory holds clash) (memory-IsTable holds clash texts cond_texts) none
      calls refl calls-Printable split_on-SplitsJoined
