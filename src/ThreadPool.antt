-- ===== src/ThreadPool.antt =====
-- HareMQ/mqcommon/thread_pool.hpp. The pushing threads, the workers and `stop` interleave: a step is
-- what one of them does under the lock, or one task that is run. A worker that waits for the
-- condition is woken when it holds.
mod Tests
pub mod Accounts
pub mod Order
pub mod Stopped
use hare_mq.Base.{
  ℕ, Bool, true, false, List, [], ◌∷◌, ◌++◌, some, ◌≡◌, ◌≢◌, ◌⊎◌, get_elem?, set, replicate,
}

-- `waiting`: the worker is inside the loop body and has not swapped the queues yet. `batch` is its
-- local `tmp`; `finished`: it has left the loop.
pub record Worker (Task : Type 0) : Type 0 where
  pub waiting : Bool
  pub batch : List Task
  pub finished : Bool

-- `done` lists the tasks that were run, oldest first.
pub record Pool (Task : Type 0) : Type 0 where
  pub stop_signal : Bool
  pub workers : List (Worker Task)
  pub task_queue : List Task
  pub done : List Task

module _ {Task : Type 0} where
  abbrev pub started : Worker Task
  started = record { waiting = false; batch = []; finished = false }

  -- The constructor with its `thread_count`, which is 1 by default.
  abbrev pub new : ℕ → Pool Task
  new thread_count = record {
    stop_signal = false;
    workers = replicate thread_count started;
    task_queue = [];
    done = [];
  }

  -- `push`.
  unfoldable pub push : Pool Task → Task → Pool Task
  push p t = record p { task_queue = p.task_queue ++ t ∷ [] }

  -- The test of `while`, passed.
  unfoldable pub enter : Pool Task → ℕ → Worker Task → Pool Task
  enter p i w = record p { workers = set p.workers i (record w { waiting = true }) }

  -- The end of `wait` and the swap of the queues.
  unfoldable pub swap : Pool Task → ℕ → Worker Task → Pool Task
  swap p i w = record p {
    workers = set p.workers i (record w { waiting = false; batch = p.task_queue });
    task_queue = [];
  }

  -- One round of the loop over the batch.
  unfoldable pub run_next : Pool Task → ℕ → Worker Task → Task → List Task → Pool Task
  run_next p i w t rest = record p {
    workers = set p.workers i (record w { batch = rest });
    done = p.done ++ t ∷ [];
  }

  -- The test of `while`, failed.
  unfoldable pub leave : Pool Task → ℕ → Worker Task → Pool Task
  leave p i w = record p { workers = set p.workers i (record w { finished = true }) }

  -- `stop`, up to the loop over `join`.
  unfoldable pub stop : Pool Task → Pool Task
  stop p = record p { stop_signal = true }

  -- `entry` of each worker and the callers of `push` and `stop`.
  pub data Step : Pool Task → Pool Task → Type 0 where
    pushes : (p : Pool Task) (t : Task) → Step p (push p t)
    enters :
        (p : Pool Task) (i : ℕ) (w : Worker Task)
        → get_elem? p.workers i ≡ some w
        → p.stop_signal ≡ false
        → w.waiting ≡ false
        → w.batch ≡ []
        → w.finished ≡ false
        → Step p (enter p i w)
    swaps :
        (p : Pool Task) (i : ℕ) (w : Worker Task)
        → get_elem? p.workers i ≡ some w
        → w.waiting ≡ true
        → (p.stop_signal ≡ true) ⊎ (p.task_queue ≢ [])
        → Step p (swap p i w)
    runs :
        (p : Pool Task) (i : ℕ) (w : Worker Task) (t : Task) (rest : List Task)
        → get_elem? p.workers i ≡ some w
        → w.batch ≡ t ∷ rest
        → Step p (run_next p i w t rest)
    leaves :
        (p : Pool Task) (i : ℕ) (w : Worker Task)
        → get_elem? p.workers i ≡ some w
        → p.stop_signal ≡ true
        → w.waiting ≡ false
        → w.batch ≡ []
        → Step p (leave p i w)
    stops : (p : Pool Task) → Step p (stop p)

  pub data Reach (thread_count : ℕ) : Pool Task → Type 0 where
    start : Reach thread_count (new thread_count)
    next : {p q : Pool Task} → Reach thread_count p → Step p q → Reach thread_count q
