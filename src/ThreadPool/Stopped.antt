-- ===== src/ThreadPool/Stopped.antt =====
-- thread_pool.hpp, `stop`: what holds when all workers have been joined.
use mathlib.Core.List.{Perm}
use hare_mq.Base.{ℕ, true, List, [], ◌∷◌, ◌++◌, ◌≡◌, refl}
use hare_mq.Split.{All}
use hare_mq.ThreadPool.{
  Worker, Pool, push, enter, swap, run_next, leave, stop, Step, pushes, enters, swaps, runs, leaves,
  stops, Reach,
}
use hare_mq.ThreadPool.Accounts.{pushed, batches, IsIdle, All-at, workers-IsIdle, accounted-perm}

module _ {Task : Type 0} where
  -- The loop over `join` in `stop` has ended.
  abbrev pub Joined : Pool Task → Type 0
  Joined p = All (λ w. w.finished ≡ true) p.workers

  no_batches :
      (ws : List (Worker Task)) → All IsIdle ws → All (λ w. w.finished ≡ true) ws → batches ws ≡ []
  no_batches [] idle done = refl
  no_batches (w ∷ ws) (idle, rest) (done, others) = rw ((idle.1 done).0) (no_batches ws rest others)

  nothing_runs : {p q : Pool Task} → All IsIdle p.workers → Joined p → Step p q → q.done ≡ p.done
  unfolding push enter swap run_next leave stop
  nothing_runs idle joined (pushes p t) = refl
  nothing_runs idle joined (enters p i w at h k l m) = refl
  nothing_runs idle joined (swaps p i w at h k) = refl
  nothing_runs idle joined (leaves p i w at h k l) = refl
  nothing_runs idle joined (stops p) = refl
  nothing_runs idle joined (runs p i w t rest at e) =
      let (_, empty) = All-at IsIdle p.workers i w at idle in
      absurd (cc ((empty (All-at (λ v. v.finished ≡ true) p.workers i w at joined)).0, e))

  -- When all workers have been joined, each task that was pushed was run once or stays in the queue,
  -- and no step runs another one.
  pub Joined-perm :
      {n : ℕ} {p : Pool Task} (r : Reach n p)
      → Joined p
      → Perm (p.done ++ p.task_queue) (pushed r) × ((q : Pool Task) → Step p q → q.done ≡ p.done)
  Joined-perm {n} {p} r joined = (
    rw (no_batches p.workers (workers-IsIdle r) joined) at (accounted-perm r),
    λ q st. nothing_runs (workers-IsIdle r) joined st,
  )
