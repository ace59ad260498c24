-- ===== src/Queues/Settling.antt =====
-- The event loop left to itself: callbacks run, also where they find no job, and processors return or
-- throw.
use guardtrak_api.Prelude.{
  ℕ, zero, suc, ◌+◌, ◌-◌, ◌*◌, ◌≤◌, ◌<◌, false, ◌≡◌, refl, ◌∙◌, arith, List, [], ◌∷◌, length, inl,
  inr, ◌⊎◌,
}
use guardtrak_api.Queues.{
  Job, Queue, process_next, settle_ok, settle_error, shift, reschedule, Picked, first, Step,
}
use guardtrak_api.Queues.Invariant.{Inv, Step-Inv}
use guardtrak_api.Queues.Progress.{Works, jobs_of, work, work_conserves, work_decreases}

-- A step of the event loop in which nobody enqueues and nobody stops the service.
pub data Drains (q : Queue) : Queue → Type 0 where
  runs : {q' : Queue} → 0 < q.scheduled → q' ≡ process_next q → Drains q q'
  succeeds :
      {job : Job} {rest : List Job} {q' : Queue}
      → Picked job q.in_flight rest
      → q' ≡ settle_ok rest q
      → Drains q q'
  throws :
      {job : Job} {rest : List Job} {q' : Queue}
      → Picked job q.in_flight rest
      → q' ≡ settle_error job rest q
      → Drains q q'

-- So many of these steps, one after the other.
pub data Draining (q : Queue) : ℕ → Queue → Type 0 where
  start : Draining q 0 q
  and_then : {n : ℕ} {q' q'' : Queue} → Draining q n q' → Drains q' q'' → Draining q (suc n) q''

Drains-Step : {q q' : Queue} → Drains q q' → Step q q'
Drains-Step (runs h e) = Step.runs h e
Drains-Step (succeeds p e) = Step.succeeds p e
Drains-Step (throws p e) = Step.throws p e

-- A callback that may find no job.
run_kind :
    (jobs : List Job) (q : Queue)
    → q.jobs ≡ jobs
    → q.destroyed ≡ false
    → Works q (process_next q) ⊎ (process_next q ≡ record q { scheduled = q.scheduled - 1 })
unfolding process_next shift
run_kind [] q e d = inr (rw (process_next, d, e, shift) refl)
run_kind (j ∷ jobs) q e d = inl (Works.takes d e refl)

Drains-kind :
    {q q' : Queue}
    → Drains q q'
    → q.destroyed ≡ false
    → Works q q' ⊎ ((0 < q.scheduled) × (q' ≡ record q { scheduled = q.scheduled - 1 }))
Drains-kind {q} (runs h e) d = elim (run_kind q.jobs q refl d) [
  | inl w ↦ inl (rw e w)
  | inr f ↦ inr (h, rw e f)
]
Drains-kind (succeeds p e) d = inl (Works.succeeds p e)
Drains-kind (throws p e) d = inl (Works.throws p e)

Works-schedules : {q q' : Queue} → Works q q' → q'.scheduled ≤ q.scheduled + 1
unfolding process_next shift settle_ok settle_error reschedule
Works-schedules {q} (Works.takes d j e) = ground arith
Works-schedules {q} (Works.succeeds p e) = ground arith
Works-schedules {q} (Works.throws p e) = ground arith

Works-goes_on : {q q' : Queue} → Works q q' → q'.destroyed ≡ q.destroyed
unfolding process_next shift settle_ok settle_error reschedule
Works-goes_on {q} (Works.takes d j e) = ground arith
Works-goes_on {q} (Works.succeeds p e) = ground arith
Works-goes_on {q} (Works.throws p e) = ground arith

-- Twice the work left, and the callbacks scheduled.
unfoldable pub steps_left : Queue → ℕ
steps_left q = 2 * work q + q.scheduled

Drains-steps_left :
    {q q' : Queue}
    → Drains q q'
    → Inv q
    → q.destroyed ≡ false
    → (q'.destroyed ≡ false) × (jobs_of q' ≡ jobs_of q) × (steps_left q' < steps_left q)
unfolding steps_left work
Drains-steps_left {q} s v d = elim (Drains-kind s d) [
  | inl w ↦
      (Works-goes_on w ∙ d, work_conserves w, omega (arith, work_decreases w v, Works-schedules w))
  | inr (h, e) ↦ rw e (d, refl, omega arith)
]

Draining-Inv :
    {q q' : Queue} {n : ℕ}
    → Draining q n q'
    → Inv q
    → q.destroyed ≡ false
    → Inv q'
      × (q'.destroyed ≡ false)
      × (jobs_of q' ≡ jobs_of q)
      × (n + steps_left q' ≤ steps_left q)
Draining-Inv start v d = (v, d, refl, omega arith)
Draining-Inv (and_then r s) v d =
    let (u, e, j, b) = Draining-Inv r v d in
    let (e', j', b') = Drains-steps_left s u e in
    (Step-Inv (Drains-Step s) u, e', j' ∙ j, omega arith)

nothing_runs :
    (jobs : List Job) (q : Queue)
    → q.in_flight ≡ jobs
    → ((q' : Queue) → ¬ Drains q q')
    → length jobs ≡ 0
nothing_runs [] q e stuck = refl
nothing_runs (j ∷ jobs) q e stuck =
    let p : Picked j q.in_flight jobs = rw e first in
    absurd (stuck (settle_ok jobs q) (succeeds p refl))

nothing_scheduled : (n : ℕ) (q : Queue) → q.scheduled ≡ n → ((q' : Queue) → ¬ Drains q q') → n ≡ 0
nothing_scheduled zero q e stuck = refl
nothing_scheduled (suc n) q e stuck = absurd (stuck (process_next q) (runs (omega arith) refl))

-- From a queue that satisfies its invariant and is not stopped, the event loop left to itself,
-- whichever processors return or throw and in whatever order, takes no more steps than twice the
-- work left and the callbacks scheduled. When no step is possible any more, no job waits or runs,
-- and the jobs completed and the dead letters are together as many as the jobs that waited, ran,
-- were completed or had failed at the start.
pub all_jobs_settle :
    (q q' : Queue) (n : ℕ)
    → Inv q
    → q.destroyed ≡ false
    → Draining q n q'
    → ((q'' : Queue) → ¬ Drains q' q'')
    → (n ≤ steps_left q)
      × (length q'.jobs ≡ 0)
      × (length q'.in_flight ≡ 0)
      × (q'.completed + length q'.dead_letter ≡ jobs_of q)
all_jobs_settle q q' n v d r stuck =
    let (u, e, j, b) = Draining-Inv r v d in
    let none = nothing_scheduled q'.scheduled q' refl stuck in
    let idle = nothing_runs q'.in_flight q' refl stuck in
    let waits = u.not_stuck e in let dead = u.dead in (omega arith, omega arith, idle, omega arith)
