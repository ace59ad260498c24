-- ===== src/Queues/Termination.antt =====
-- Runs of calls that work on jobs.
use guardtrak_api.Prelude.{ℕ, suc, ◌+◌, ◌≤◌, ◌≡◌, arith}
use guardtrak_api.Queues.{Queue, Step, runs, succeeds, throws}
use guardtrak_api.Queues.Invariant.{Inv, Step-Inv}
use guardtrak_api.Queues.Progress.{Works, work, work_decreases}

-- A job that waits has a callback scheduled, so working on it is a step of the event loop.
Works-Step : {q q' : Queue} → Works q q' → Inv q → Step q q'
Works-Step {q} (Works.takes {job} {jobs} d j e) v = let n = v.not_stuck d in runs (ground arith) e
Works-Step {q} (Works.succeeds p e) v = succeeds p e
Works-Step {q} (Works.throws p e) v = throws p e

-- A run of `n` calls that work on jobs.
pub data Working (q : Queue) : ℕ → Queue → Type 0 where
  idle : {n : ℕ} → n ≡ 0 → Working q n q
  more : {n m : ℕ} {q' q'' : Queue} → Working q n q' → Works q' q'' → m ≡ suc n → Working q m q''

Working-Inv : {q q' : Queue} {n : ℕ} → Working q n q' → Inv q → Inv q'
Working-Inv (idle e) v = v
Working-Inv (more r w e) v = let u = Working-Inv r v in Step-Inv (Works-Step w u) u

Working-work : {q q' : Queue} {n : ℕ} → Working q n q' → Inv q → n + work q' ≤ work q
Working-work (idle e) v = omega arith
Working-work (more r w e) v = omega (arith, Working-work r v, work_decreases w (Working-Inv r v))

-- From a queue that satisfies its invariant, a run of calls that work on jobs, whichever jobs
-- return or throw and in whatever order, is no longer than the work of the queue at its start.
pub work_bounded : (q q' : Queue) (n : ℕ) → Inv q → Working q n q' → n ≤ work q
work_bounded q q' n v r = omega (arith, Working-work r v)
