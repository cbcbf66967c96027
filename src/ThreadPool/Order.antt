-- ===== src/ThreadPool/Order.antt =====
-- thread_pool.hpp with its default of one worker: the tasks run in the order in which they were
-- pushed.
use mathlib.Core.List.{append_assoc, append-nil}
use mathlib.Core.Option.{some-injective}
use hare_mq.Base.{
  true, false, ℕ, zero, suc, List, [], ◌∷◌, ◌++◌, some, ◌≡◌, refl, sym, ap, ◌∙◌, get_elem?, set,
}
use hare_mq.ThreadPool.{
  Worker, Pool, push, enter, swap, run_next, leave, stop, pushes, enters, swaps, runs, leaves,
  stops, Reach, start, next,
}
use hare_mq.ThreadPool.Accounts.{pushed, batches, IsIdle, All-at, workers-IsIdle}

module _ {Task : Type 0} where
  -- The only worker.
  set-single :
      (ws : List (Worker Task)) (v w : Worker Task) (i : ℕ) (x : Worker Task)
      → ws ≡ v ∷ []
      → get_elem? ws i ≡ some w
      → (ws ≡ w ∷ []) × (set ws i x ≡ x ∷ [])
  set-single ws v w zero x e at =
      (e ∙ ap (λ u. u ∷ []) (some-injective _ _ (rw e at at)), rw e refl)
  set-single ws v w (suc i) x e at = absurd (cc (rw e at at))

  single : {p : Pool Task} → Reach 1 p → (w : Worker Task) × (p.workers ≡ w ∷ [])
  unfolding push enter swap run_next leave stop
  single start = (_, refl)
  single (next r (pushes p t)) = single r
  single (next r (stops p)) = single r
  single (next r (enters p i w at h k l m)) =
      let (v, e) = single r in (_, (set-single p.workers v w i _ e at).1)
  single (next r (leaves p i w at h k l)) =
      let (v, e) = single r in (_, (set-single p.workers v w i _ e at).1)
  single (next r (swaps p i w at h k)) =
      let (v, e) = single r in (_, (set-single p.workers v w i _ e at).1)
  single (next r (runs p i w t rest at f)) =
      let (v, e) = single r in (_, (set-single p.workers v w i _ e at).1)

  -- If there is one worker, the tasks that were run, those of its batch and those of the queue are,
  -- in this order, all the tasks that were pushed.
  pub done-batch-queue :
      {p : Pool Task} (r : Reach 1 p) → p.done ++ (batches p.workers ++ p.task_queue) ≡ pushed r
  unfolding push enter swap run_next leave stop
  done-batch-queue start = refl
  done-batch-queue (next r (pushes p t)) = rw (← done-batch-queue r) (simp append_assoc refl)
  done-batch-queue (next r (stops p)) = done-batch-queue r ∙ sym (append-nil _)
  done-batch-queue (next r (enters p i w at h k l m)) =
      let (v, e) = single r in
      let (was, is) = set-single p.workers v w i (record w { waiting = true }) e at in
      rw (is, ← done-batch-queue r, was) (simp append-nil refl)
  done-batch-queue (next r (leaves p i w at h k l)) =
      let (v, e) = single r in
      let (was, is) = set-single p.workers v w i (record w { finished = true }) e at in
      rw (is, ← done-batch-queue r, was) (simp append-nil refl)
  done-batch-queue (next r (swaps p i w at h k)) =
      let (v, e) = single r in
      let (was, is) =
        set-single p.workers v w i (record w { waiting = false; batch = p.task_queue }) e at in
      let empty = (All-at IsIdle p.workers i w at (workers-IsIdle r)).0 h in
      rw (is, ← done-batch-queue r, was, empty) (simp append-nil refl)
  done-batch-queue (next r (runs p i w t rest at f)) =
      let (v, e) = single r in
      let (was, is) = set-single p.workers v w i (record w { batch = rest }) e at in
      rw (is, ← done-batch-queue r, was, f) (simp (append-nil, append_assoc) refl)
