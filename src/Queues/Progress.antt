-- ===== src/Queues/Progress.antt =====
-- The calls that work on a job, the number of jobs of a queue, and the work left in it.
use guardtrak_api.Prelude.{
  ℕ, ◌+◌, ◌-◌, ◌*◌, ◌<◌, false, ◌≡◌, refl, arith, List, [], ◌∷◌, ◌++◌, length, length-append, total,
}
use guardtrak_api.Queues.{Job, Queue, process_next, settle_ok, settle_error, Picked, first, later}
use guardtrak_api.Queues.Invariant.{Inv, CanRun, Picked-length, Picked-All}

-- A call that works on a job: a callback that finds one, or a processor that returns or throws.
pub data Works (q : Queue) (q' : Queue) : Type 0 where
  takes :
      {job : Job} {jobs : List Job}
      → q.destroyed ≡ false
      → q.jobs ≡ job ∷ jobs
      → q' ≡ process_next q
      → Works q q'
  succeeds :
      {job : Job} {rest : List Job}
      → Picked job q.in_flight rest
      → q' ≡ settle_ok rest q
      → Works q q'
  throws :
      {job : Job} {rest : List Job}
      → Picked job q.in_flight rest
      → q' ≡ settle_error job rest q
      → Works q q'

abbrev pub jobs_of : Queue → ℕ
jobs_of q = length q.jobs + length q.in_flight + q.completed + q.failed

-- Working on a job moves it between waiting, running, completed and failed, and loses none: their sum
-- stays the number of jobs that were enqueued.
pub work_conserves : {q q' : Queue} → Works q q' → jobs_of q' ≡ jobs_of q
unfolding process_next settle_ok settle_error
work_conserves {q} (takes {job} {jobs} d j e) = ground arith
work_conserves {q} (succeeds {rest} p e) = ground (arith, Picked-length p)
work_conserves {q} (throws {job} {rest} p e) =
    let n = Picked-length p in
    ground (arith, length-append q.jobs (record job { attempts = job.attempts + 1 } ∷ []))

-- The attempts left to a waiting job count twice, and once less while the job runs.
left : Job → ℕ
left j = (j.max_attempts - j.attempts) * 2

unfoldable pub work : Queue → ℕ
unfolding left total
work q = total left q.jobs + total (λ j. left j - 1) q.in_flight

total-append : (f : Job → ℕ) (xs : List Job) (j : Job) → total f (xs ++ j ∷ []) ≡ total f xs + f j
unfolding total
total-append f [] j = omega arith
total-append f (x ∷ xs) j = omega (arith, total-append f xs j)

Picked-total :
    (f : Job → ℕ) {job : Job} {js ks : List Job}
    → Picked job js ks
    → total f js ≡ f job + total f ks
unfolding total
Picked-total f first = refl
Picked-total f (later p) = omega (arith, Picked-total f p)

-- Every call that works on a job uses up work.
pub work_decreases : {q q' : Queue} → Works q q' → Inv q → work q' < work q
unfolding work process_next settle_ok settle_error
work_decreases {q} (takes {job} {jobs} d j e) v = ground arith
work_decreases {q} (succeeds {job} {rest} p e) v =
    let c = Picked-All CanRun p v.flying_can_run in ground (arith, Picked-total (λ j. left j - 1) p)
work_decreases {q} (throws {job} {rest} p e) v =
    let c = Picked-All CanRun p v.flying_can_run in
    ground (
      arith,
      Picked-total (λ j. left j - 1) p,
      total-append left q.jobs (record job { attempts = job.attempts + 1 }),
    )
