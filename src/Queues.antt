-- ===== src/Queues.antt =====
-- infrastructure/queues/in-memory-queue.service.ts, one queue of it: the maps of the service are keyed
-- by the queue's name, and the entries of two names do not touch. `dead_letter` is the part of
-- `deadLetterQueue` with this name. A call of `processNext` that waits for `setImmediate` is counted in
-- `scheduled`; one that waits for the job's processor keeps its job in `in_flight`.
pub mod Invariant
pub mod Progress
pub mod Termination
pub mod Settling
use guardtrak_api.Prelude.{
  ℕ, ◌+◌, ◌-◌, ◌<◌, ◌≡◌, Bool, true, false, List, [], ◌∷◌, ◌++◌, ltb, length, if◌then◌else◌,
}

pub record Job : Type 0 where
  pub id : ℕ
  pub job_name : ℕ
  pub payload : ℕ
  pub attempts : ℕ
  pub max_attempts : ℕ

pub record Queue : Type 0 where
  pub jobs : List Job
  pub waiting : ℕ
  pub active : ℕ
  pub completed : ℕ
  pub failed : ℕ
  pub dead_letter : List Job
  pub scheduled : ℕ
  pub in_flight : List Job
  pub destroyed : Bool

unfoldable pub new : Queue
new = record {
  jobs = [];
  waiting = 0;
  active = 0;
  completed = 0;
  failed = 0;
  dead_letter = [];
  scheduled = 0;
  in_flight = [];
  destroyed = false;
}

unfoldable pub stop : Queue → Queue
stop q = record q { destroyed = true }

-- `bumpStat(…, 1)` is `+ 1`; `bumpStat(…, -1)`, which stops at 0, is the `-` of the naturals.
unfoldable pub enqueue : ℕ → ℕ → ℕ → Queue → Queue
enqueue id job_name payload q = record q {
  jobs = q.jobs ++ fresh ∷ [];
  waiting = q.waiting + 1;
  scheduled = q.scheduled + 1;
}
  where
    fresh : Job
    fresh = record {
      id = id;
      job_name = job_name;
      payload = payload;
      attempts = 0;
      max_attempts = 3;
    }

shift : List Job → Queue → Queue
shift [] q = q
shift (job ∷ rest) q = record q {
  jobs = rest;
  waiting = q.waiting - 1;
  active = q.active + 1;
  in_flight = job ∷ q.in_flight;
}

-- A scheduled `processNext`, up to the call of the processor.
unfoldable pub process_next : Queue → Queue
unfolding shift
process_next q =
    let ran = record q { scheduled = q.scheduled - 1 } in
    if q.destroyed then ran else shift q.jobs ran

-- The last lines of `processNext`: `if (queue.length > 0) setImmediate(…)`.
unfoldable pub reschedule : Queue → Queue
reschedule q = if ltb 0 (length q.jobs) then record q { scheduled = q.scheduled + 1 } else q

-- `processNext` after the processor has returned; `rest` are the other jobs in flight.
unfoldable pub settle_ok : List Job → Queue → Queue
unfolding reschedule
settle_ok rest q =
    reschedule (record q { active = q.active - 1; completed = q.completed + 1; in_flight = rest })

-- The `catch` block, for the job that has failed.
unfoldable pub settle_error : Job → List Job → Queue → Queue
unfolding reschedule
settle_error job rest q =
    let tried = record job { attempts = job.attempts + 1 } in
    if ltb tried.attempts tried.max_attempts
    then record q {
      active = q.active - 1;
      jobs = q.jobs ++ tried ∷ [];
      waiting = q.waiting + 1;
      scheduled = q.scheduled + 1;
      in_flight = rest;
    }
    else reschedule (record q {
      active = q.active - 1;
      failed = q.failed + 1;
      dead_letter = q.dead_letter ++ tried ∷ [];
      in_flight = rest;
    })

-- A job in flight, and the others.
pub data Picked (job : Job) : List Job → List Job → Type 0 where
  first : {js : List Job} → Picked job (job ∷ js) js
  later : {j : Job} {js ks : List Job} → Picked job js ks → Picked job (j ∷ js) (j ∷ ks)

-- What the event loop does with the queue: a caller enqueues, a callback runs, a processor returns or
-- throws, the service is stopped.
pub data Step (q : Queue) : Queue → Type 0 where
  enqueues : (id job_name payload : ℕ) {q' : Queue} → q' ≡ enqueue id job_name payload q → Step q q'
  runs : {q' : Queue} → 0 < q.scheduled → q' ≡ process_next q → Step q q'
  succeeds :
      {job : Job} {rest : List Job} {q' : Queue}
      → Picked job q.in_flight rest
      → q' ≡ settle_ok rest q
      → Step q q'
  throws :
      {job : Job} {rest : List Job} {q' : Queue}
      → Picked job q.in_flight rest
      → q' ≡ settle_error job rest q
      → Step q q'
  stops : {q' : Queue} → q' ≡ stop q → Step q q'
