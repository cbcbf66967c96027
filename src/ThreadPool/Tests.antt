-- ===== src/ThreadPool/Tests.antt =====
-- Two tasks: the first one is in the batch, the second one in the queue. Then two workers of which
-- the first one runs a task before the pool is stopped.
use mathlib.Core.List.{Perm}
use hare_mq.Base.{ℕ, true, false, [], ◌∷◌, ◌++◌, ◌≡◌, refl, inr}
use hare_mq.ThreadPool.{
  Worker, Pool, new, started, push, enter, swap, run_next, leave, stop, Step, pushes, enters, swaps,
  runs, leaves, stops, Reach, start, next,
}
use hare_mq.ThreadPool.Accounts.{pushed, batches}
use hare_mq.ThreadPool.Order.{done-batch-queue}
use hare_mq.ThreadPool.Stopped.{Joined, Joined-perm}

abbrev in_loop : Worker ℕ
in_loop = record { waiting = true; batch = []; finished = false }

abbrev waiting : Pool ℕ
waiting = push (enter (new 1) 0 started) 7

taken : Reach 1 (push (swap waiting 0 in_loop) 8)
unfolding push enter swap
taken =
    next
      (next
        (next (next start (enters (new 1) 0 started refl refl refl refl refl))
          (pushes (enter (new 1) 0 started) 7))
        (swaps waiting 0 in_loop refl refl (inr (λ e. cc))))
      (pushes (swap waiting 0 in_loop) 8)

done-batch-queue_example :
    let p = push (swap waiting 0 in_loop) 8 in
    p.done ++ (batches p.workers ++ p.task_queue) ≡ pushed taken
done-batch-queue_example = done-batch-queue taken

abbrev left : Worker ℕ
left = record { waiting = false; batch = []; finished = true }

-- Worker 0 has left the loop with the batch that it ran, worker 1 did not begin its first round.
abbrev ready : Pool ℕ
ready = swap (push (enter (new 2) 0 started) 7) 0 in_loop

abbrev holding : Worker ℕ
holding = record { waiting = false; batch = 7 ∷ []; finished = false }

abbrev ran : Pool ℕ
ran = stop (push (run_next ready 0 holding 7 []) 8)

abbrev ended : Pool ℕ
ended = leave (leave ran 0 started) 1 started

stopped : Reach 2 ended
unfolding push enter swap run_next leave stop
stopped =
    next
      (next
        (next
          (next
            (next
              (next
                (next (next start (enters (new 2) 0 started refl refl refl refl refl))
                  (pushes (enter (new 2) 0 started) 7))
                (swaps (push (enter (new 2) 0 started) 7) 0 in_loop refl refl (inr (λ e. cc))))
              (runs ready 0 holding 7 [] refl refl))
            (pushes (run_next ready 0 holding 7 []) 8))
          (stops (push (run_next ready 0 holding 7 []) 8)))
        (leaves ran 0 started refl refl refl refl))
      (leaves (leave ran 0 started) 1 started refl refl refl refl)

ended-Joined : Joined ended
unfolding push enter swap run_next leave stop
ended-Joined = (refl, (refl, tt))

Joined-perm_example :
    Perm (ended.done ++ ended.task_queue) (pushed stopped)
    × ((q : Pool ℕ) → Step ended q → q.done ≡ ended.done)
Joined-perm_example = Joined-perm stopped ended-Joined
