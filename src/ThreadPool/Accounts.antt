-- ===== src/ThreadPool/Accounts.antt =====
-- thread_pool.hpp: no task is lost or run twice, whatever the number of workers.
use mathlib.Core.List.{append_assoc, append-nil, Perm, perm_append_comm, perm_middle}
use mathlib.Core.List.Perm
use mathlib.Core.Option.{some-injective}
use hare_mq.Base.{
  ℕ, zero, suc, true, false, List, [], ◌∷◌, ◌++◌, some, ◌≡◌, refl, sym, ap, ◌∙◌, get_elem?, set,
  take, drop, replicate, subst,
}
use hare_mq.Message.Queue.Sound.Records.{get_elem?-take_drop, set-take_drop}
use hare_mq.Split.{All}
use hare_mq.ThreadPool.{
  Worker, Pool, started, push, enter, swap, run_next, leave, stop, Step, pushes, enters, swaps,
  runs, leaves, stops, Reach, start, next,
}

module _ {Task : Type 0} where
  -- The task that a step pushes.
  abbrev pub pushed_by : {p q : Pool Task} → Step p q → List Task
  pushed_by (pushes p t) = t ∷ []
  pushed_by (enters p i w at h k l m) = []
  pushed_by (swaps p i w at h k) = []
  pushed_by (runs p i w t rest at e) = []
  pushed_by (leaves p i w at h k l) = []
  pushed_by (stops p) = []

  -- All tasks that were pushed, oldest first.
  abbrev pub pushed : {n : ℕ} {p : Pool Task} → Reach n p → List Task
  pushed start = []
  pushed (next r st) = pushed r ++ pushed_by st

  -- The tasks that workers have taken and not run yet.
  abbrev pub batches : List (Worker Task) → List Task
  batches [] = []
  batches (w ∷ ws) = w.batch ++ batches ws

  batches-append : (ws vs : List (Worker Task)) → batches (ws ++ vs) ≡ batches ws ++ batches vs
  batches-append [] vs = refl
  batches-append (w ∷ ws) vs =
      ap (λ ts. w.batch ++ ts) (batches-append ws vs)
      ∙ sym (append_assoc w.batch (batches ws) (batches vs))

  -- The batches before and behind those of a worker.
  pub batches-at :
      (ws : List (Worker Task)) (i : ℕ) (w : Worker Task)
      → get_elem? ws i ≡ some w
      → batches ws ≡ batches (take i ws) ++ (w.batch ++ batches (drop (suc i) ws))
  batches-at ws i w at =
      ap batches (get_elem?-take_drop ws i w at) ∙ batches-append (take i ws) (w ∷ drop (suc i) ws)

  pub batches-set :
      (ws : List (Worker Task)) (i : ℕ) (w v : Worker Task)
      → get_elem? ws i ≡ some w
      → batches (set ws i v) ≡ batches (take i ws) ++ (v.batch ++ batches (drop (suc i) ws))
  batches-set ws i w v at =
      ap batches (set-take_drop ws i w v at) ∙ batches-append (take i ws) (v ∷ drop (suc i) ws)

  -- A worker waits with an empty batch, and leaves the loop with an empty one.
  abbrev pub IsIdle : Worker Task → Type 0
  IsIdle w =
      (w.waiting ≡ true → w.batch ≡ []) × (w.finished ≡ true → (w.batch ≡ []) × (w.waiting ≡ false))

  All-set :
      (P : Worker Task → Type 0) (ws : List (Worker Task)) (i : ℕ) (v : Worker Task)
      → P v
      → All P ws
      → All P (set ws i v)
  All-set P [] i v h a = tt
  All-set P (w ∷ ws) zero v h a = (h, a.1)
  All-set P (w ∷ ws) (suc i) v h a = (a.0, All-set P ws i v h a.1)

  All-replicate : (P : Worker Task → Type 0) (n : ℕ) (v : Worker Task) → P v → All P (replicate n v)
  All-replicate P zero v h = tt
  All-replicate P (suc n) v h = (h, All-replicate P n v h)

  pub All-at :
      (P : Worker Task → Type 0) (ws : List (Worker Task)) (i : ℕ) (w : Worker Task)
      → get_elem? ws i ≡ some w
      → All P ws
      → P w
  All-at P [] i w at a = absurd (cc)
  All-at P (v ∷ ws) zero w at a = subst P (some-injective _ _ at) a.0
  All-at P (v ∷ ws) (suc i) w at a = All-at P ws i w at a.1

  pub workers-IsIdle : {n : ℕ} {p : Pool Task} → Reach n p → All IsIdle p.workers
  unfolding push enter swap run_next leave stop
  workers-IsIdle {n} start = All-replicate IsIdle n started ((λ e. refl), (λ e. absurd (cc)))
  workers-IsIdle (next r (pushes p t)) = workers-IsIdle r
  workers-IsIdle (next r (stops p)) = workers-IsIdle r
  workers-IsIdle (next r (enters p i w at h k l m)) =
      All-set IsIdle p.workers i _ ((λ e. l), (λ e. absurd (cc))) (workers-IsIdle r)
  workers-IsIdle (next r (swaps p i w at h k)) =
      let (_, done) = All-at IsIdle p.workers i w at (workers-IsIdle r) in
      All-set IsIdle p.workers i _ ((λ e. absurd (cc)), (λ e. absurd (cc (h, (done e).1))))
        (workers-IsIdle r)
  workers-IsIdle (next r (runs p i w t rest at e)) =
      let (idle, done) = All-at IsIdle p.workers i w at (workers-IsIdle r) in
      All-set IsIdle p.workers i _
        ((λ f. absurd (cc (idle f, e))), (λ f. absurd (cc ((done f).0, e)))) (workers-IsIdle r)
  workers-IsIdle (next r (leaves p i w at h k l)) =
      All-set IsIdle p.workers i _ ((λ e. l), (λ e. (l, k))) (workers-IsIdle r)

  -- The tasks that were run, those that workers have taken and those of the queue.
  abbrev pub accounted : Pool Task → List Task
  accounted p = p.done ++ (batches p.workers ++ p.task_queue)

  push-accounted :
      (d b q : List Task) (t : Task) → d ++ (b ++ (q ++ t ∷ [])) ≡ (d ++ (b ++ q)) ++ t ∷ []
  push-accounted d b q t = simp append_assoc refl

  swap-perm :
      (d a b q : List Task) → Perm (d ++ ((a ++ ([] ++ b)) ++ q)) (d ++ ((a ++ (q ++ b)) ++ []))
  swap-perm d a b q =
      rw (append-nil (a ++ (q ++ b)), append_assoc a b q)
        (Perm.append_left d (Perm.append_left a (perm_append_comm b q)))

  run_next-perm :
      (d a b q rest : List Task) (t : Task)
      → Perm (d ++ ((a ++ ((t ∷ rest) ++ b)) ++ q)) ((d ++ t ∷ []) ++ ((a ++ (rest ++ b)) ++ q))
  run_next-perm d a b q rest t =
      rw
        (
          append_assoc d (t ∷ []) ((a ++ (rest ++ b)) ++ q),
          append_assoc a (t ∷ (rest ++ b)) q,
          append_assoc a (rest ++ b) q,
        )
        (Perm.append_left d (perm_middle a ((rest ++ b) ++ q)))

  -- A worker whose batch stays does not change the batches.
  batches_same :
      (ws : List (Worker Task)) (i : ℕ) (w v : Worker Task)
      → get_elem? ws i ≡ some w
      → v.batch ≡ w.batch
      → batches (set ws i v) ≡ batches ws
  batches_same ws i w v at same =
      batches-set ws i w v at
      ∙ ap (λ b. batches (take i ws) ++ (b ++ batches (drop (suc i) ws))) same
      ∙ sym (batches-at ws i w at)

  -- Whatever the number of workers: the tasks that were run, those that workers have taken and
  -- those of the queue are together all the tasks that were pushed, in some order.
  pub accounted-perm : {n : ℕ} {p : Pool Task} (r : Reach n p) → Perm (accounted p) (pushed r)
  unfolding push enter swap run_next leave stop
  accounted-perm {n} start = rw (nothing n) (Perm.refl [])
    where
      nothing : (k : ℕ) → batches (replicate k started) ++ [] ≡ []
      nothing zero = refl
      nothing (suc k) = nothing k
  accounted-perm (next r (pushes p t)) =
      rw (push-accounted p.done (batches p.workers) p.task_queue t)
        (Perm.append_right (t ∷ []) (accounted-perm r))
  accounted-perm (next r (stops p)) = rw (append-nil (pushed r)) (accounted-perm r)
  accounted-perm (next r (enters p i w at h k l m)) =
      rw (append-nil (pushed r), batches_same p.workers i w (record w { waiting = true }) at refl)
        (accounted-perm r)
  accounted-perm (next r (leaves p i w at h k l)) =
      rw (append-nil (pushed r), batches_same p.workers i w (record w { finished = true }) at refl)
        (accounted-perm r)
  accounted-perm (next r (swaps p i w at h k)) =
      let empty = (All-at IsIdle p.workers i w at (workers-IsIdle r)).0 h in
      let a = batches (take i p.workers) in
      let b = batches (drop (suc i) p.workers) in
      let before : batches p.workers ≡ a ++ ([] ++ b) =
        batches-at p.workers i w at ∙ ap (λ c. a ++ (c ++ b)) empty in
      rw
        (
          append-nil (pushed r),
          batches-set p.workers i w (record w { waiting = false; batch = p.task_queue }) at,
        )
        (Perm.trans (Perm.symm (swap-perm p.done a b p.task_queue))
          (rw before at (accounted-perm r)))
  accounted-perm (next r (runs p i w t rest at e)) =
      let a = batches (take i p.workers) in
      let b = batches (drop (suc i) p.workers) in
      let before : batches p.workers ≡ a ++ ((t ∷ rest) ++ b) =
        batches-at p.workers i w at ∙ ap (λ c. a ++ (c ++ b)) e in
      rw (append-nil (pushed r), batches-set p.workers i w (record w { batch = rest }) at)
        (Perm.trans (Perm.symm (run_next-perm p.done a b p.task_queue rest t))
          (rw before at (accounted-perm r)))
