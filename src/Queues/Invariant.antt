-- ===== src/Queues/Invariant.antt =====
-- The invariant of a queue, and the steps of the event loop.
use guardtrak_api.Prelude.{
  ℕ, suc, ◌+◌, ◌-◌, ◌≤◌, ◌<◌, true, false, ◌≡◌, refl, arith, List, [], ◌∷◌, ◌++◌, length,
  length-append, All, ltb, Bool-cases, inl, inr, if_both,
}
use guardtrak_api.Queues.{
  Job, Queue, new, stop, enqueue, process_next, shift, reschedule, settle_ok, settle_error, Picked,
  first, later, Step, enqueues, runs, succeeds, throws, stops,
}

abbrev pub CanRun : Job → Type 0
CanRun j = j.attempts < j.max_attempts

abbrev pub IsSpent : Job → Type 0
IsSpent j = j.attempts ≡ j.max_attempts

-- The counters are those of the lists, every waiting job has a callback scheduled for it until the
-- service stops, a job that waits or runs has an attempt left, and a dead letter has none.
pub record Inv (q : Queue) : Type 0 where
  pub waits : q.waiting ≡ length q.jobs
  pub runs_now : q.active ≡ length q.in_flight
  pub dead : q.failed ≡ length q.dead_letter
  pub not_stuck : q.destroyed ≡ false → length q.jobs ≤ q.scheduled
  pub jobs_can_run : All CanRun q.jobs
  pub flying_can_run : All CanRun q.in_flight
  pub dead_spent : All IsSpent q.dead_letter

All-append : (P : Job → Type 0) (xs : List Job) (j : Job) → All P xs → P j → All P (xs ++ j ∷ [])
All-append P [] j h p = (p, tt)
All-append P (x ∷ xs) j h p = (h.0, All-append P xs j h.1 p)

pub Picked-length : {job : Job} {js ks : List Job} → Picked job js ks → length js ≡ suc (length ks)
Picked-length first = refl
Picked-length (later p) = omega (arith, Picked-length p)

pub Picked-All :
    (P : Job → Type 0) {job : Job} {js ks : List Job}
    → Picked job js ks
    → All P js
    → P job × All P ks
Picked-All P first h = (h.0, h.1)
Picked-All P (later p) h = let (a, b) = Picked-All P p h.1 in (a, (h.0, b))

pub new-Inv : Inv new
unfolding new
new-Inv = omega arith

enqueue-Inv : (id name payload : ℕ) (q : Queue) → Inv q → Inv (enqueue id name payload q)
unfolding enqueue
enqueue-Inv id name payload q v = record {
  waits = omega (arith, v.waits, length-append {0} q.jobs _);
  runs_now = v.runs_now;
  dead = v.dead;
  not_stuck = λ d. omega (arith, v.not_stuck d, length-append {0} q.jobs _);
  jobs_can_run = All-append CanRun q.jobs _ v.jobs_can_run (omega arith);
  flying_can_run = v.flying_can_run;
  dead_spent = v.dead_spent;
}

shift-Inv :
    (jobs : List Job) (q : Queue)
    → q.jobs ≡ jobs
    → 0 < q.scheduled
    → Inv q
    → Inv (shift jobs (record q { scheduled = q.scheduled - 1 }))
unfolding shift
shift-Inv [] q e h v = ground arith
shift-Inv (j ∷ jobs) q e h v = ground arith

stopped_run-Inv :
    (q : Queue) → q.destroyed ≡ true → Inv q → Inv (record q { scheduled = q.scheduled - 1 })
stopped_run-Inv q d v = record {
  waits = v.waits;
  runs_now = v.runs_now;
  dead = v.dead;
  not_stuck = λ e. absurd (ground arith);
  jobs_can_run = v.jobs_can_run;
  flying_can_run = v.flying_can_run;
  dead_spent = v.dead_spent;
}

process_next-Inv : (q : Queue) → 0 < q.scheduled → Inv q → Inv (process_next q)
unfolding process_next
process_next-Inv q h v =
    if_both Inv q.destroyed (λ d. stopped_run-Inv q d v) (λ d. shift-Inv q.jobs q refl h v)

reschedule-Inv : (q : Queue) → Inv q → Inv (reschedule q)
unfolding reschedule
reschedule-Inv q v = ground arith

settle_ok-Inv :
    {job : Job} (rest : List Job) (q : Queue)
    → Picked job q.in_flight rest
    → Inv q
    → Inv (settle_ok rest q)
unfolding settle_ok
settle_ok-Inv rest q p v =
    let f = Picked-All CanRun p v.flying_can_run in
    reschedule-Inv
      (record q { active = q.active - 1; completed = q.completed + 1; in_flight = rest })
      (record {
        waits = v.waits;
        runs_now = omega (arith, v.runs_now, Picked-length p);
        dead = v.dead;
        not_stuck = v.not_stuck;
        jobs_can_run = v.jobs_can_run;
        flying_can_run = f.1;
        dead_spent = v.dead_spent;
      })

settle_error-Inv :
    (job : Job) (rest : List Job) (q : Queue)
    → Picked job q.in_flight rest
    → Inv q
    → Inv (settle_error job rest q)
unfolding settle_error
settle_error-Inv job rest q p v =
    let f = Picked-All CanRun p v.flying_can_run in
    let tried = record job { attempts = job.attempts + 1 } in
    elim (Bool-cases (ltb tried.attempts tried.max_attempts)) [
      | inl again ↦ rw again (record {
        waits = omega (arith, v.waits, length-append {0} q.jobs _);
        runs_now = omega (arith, v.runs_now, Picked-length p);
        dead = v.dead;
        not_stuck = λ d. omega (arith, v.not_stuck d, length-append {0} q.jobs _);
        jobs_can_run = All-append CanRun q.jobs _ v.jobs_can_run (ground arith);
        flying_can_run = f.1;
        dead_spent = v.dead_spent;
      })
      | inr last ↦ rw last (
          reschedule-Inv _ (record {
            waits = v.waits;
            runs_now = omega (arith, v.runs_now, Picked-length p);
            dead = omega (arith, v.dead, length-append {0} q.dead_letter _);
            not_stuck = v.not_stuck;
            jobs_can_run = v.jobs_can_run;
            flying_can_run = f.1;
            dead_spent = All-append IsSpent q.dead_letter _ v.dead_spent (ground arith);
          }))
    ]

stop-Inv : (q : Queue) → Inv q → Inv (stop q)
unfolding stop
stop-Inv q v = record {
  waits = v.waits;
  runs_now = v.runs_now;
  dead = v.dead;
  not_stuck = λ e. absurd (ground arith);
  jobs_can_run = v.jobs_can_run;
  flying_can_run = v.flying_can_run;
  dead_spent = v.dead_spent;
}

-- Every step of the event loop keeps the invariant of a queue: the counters are those of the lists,
-- every waiting job has a callback scheduled for it until the service stops, a job that waits or
-- runs has an attempt left, and a dead letter has none.
pub Step-Inv : {q q' : Queue} → Step q q' → Inv q → Inv q'
Step-Inv {q} (enqueues id job_name payload e) v = rw e (enqueue-Inv id job_name payload q v)
Step-Inv {q} (runs h e) v = rw e (process_next-Inv q h v)
Step-Inv {q} (succeeds {rest} p e) v = rw e (settle_ok-Inv rest q p v)
Step-Inv {q} (throws {job} {rest} p e) v = rw e (settle_error-Inv job rest q p v)
Step-Inv {q} (stops e) v = rw e (stop-Inv q v)
