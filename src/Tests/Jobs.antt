-- ===== src/Tests/Jobs.antt =====
-- One job that is completed, and one that fails at every attempt.
use guardtrak_api.Prelude.{ℕ, suc, length, arith, ◌+◌, ◌≤◌, ◌≡◌, ◌≢◌, refl, false, List, [], ◌∷◌}
use guardtrak_api.Queues.{
  Job, Queue, new, enqueue, process_next, settle_ok, settle_error, reschedule, Picked, first, later,
  enqueues,
}
use guardtrak_api.Queues.Invariant.{Inv, new-Inv, Step-Inv}
use guardtrak_api.Queues.Progress.{takes, succeeds, jobs_of, work}
use guardtrak_api.Queues.Termination.{Working, idle, more, work_bounded}
use guardtrak_api.Queues.Settling.{Drains, Draining, start, and_then, steps_left, all_jobs_settle}

abbrev job : Job
job = record { id = 1; job_name = 2; payload = 3; attempts = 0; max_attempts = 3 }

abbrev with_job : Queue
with_job = record {
  jobs = job ∷ [];
  waiting = 1;
  active = 0;
  completed = 0;
  failed = 0;
  dead_letter = [];
  scheduled = 1;
  in_flight = [];
  destroyed = false;
}

abbrev with_job_running : Queue
with_job_running = record with_job {
  jobs = [];
  waiting = 0;
  active = 1;
  scheduled = 0;
  in_flight = job ∷ [];
}

abbrev with_job_done : Queue
with_job_done = record with_job { jobs = []; waiting = 0; scheduled = 0; completed = 1 }

enqueued : with_job ≡ enqueue 1 2 3 new
unfolding enqueue new
enqueued = refl

Step-Inv_example : Inv with_job
Step-Inv_example = Step-Inv (enqueues 1 2 3 enqueued) new-Inv

taken : with_job_running ≡ process_next with_job
unfolding process_next
taken = refl

done : with_job_done ≡ settle_ok [] with_job_running
unfolding settle_ok reschedule
done = refl

run : Working with_job 2 with_job_done
run = more (more (idle refl) (takes refl refl taken) refl) (succeeds first done) refl

work_bounded_example : 2 ≤ work with_job
work_bounded_example = work_bounded with_job with_job_done 2 Step-Inv_example run

-- The job after so many failed attempts, waiting, running and given up.
abbrev tried : ℕ → Job
tried n = record job { attempts = n }

abbrev waits : ℕ → Queue
waits n = record with_job { jobs = tried n ∷ [] }

abbrev runs_now : ℕ → Queue
runs_now n = record with_job_running { in_flight = tried n ∷ [] }

abbrev given_up : Queue
given_up = record with_job_done { completed = 0; failed = 1; dead_letter = tried 3 ∷ [] }

taken_again :
    (runs_now 0 ≡ process_next (waits 0))
    × (runs_now 1 ≡ process_next (waits 1))
    × (runs_now 2 ≡ process_next (waits 2))
unfolding process_next
taken_again = (refl, refl, refl)

thrown :
    (waits 1 ≡ settle_error (tried 0) [] (runs_now 0))
    × (waits 2 ≡ settle_error (tried 1) [] (runs_now 1))
    × (given_up ≡ settle_error (tried 2) [] (runs_now 2))
unfolding settle_error reschedule
thrown = (refl, refl, refl)

one_round-Draining :
    {n m : ℕ} {q : Queue}
    → Draining with_job n (waits m)
    → runs_now m ≡ process_next (waits m)
    → q ≡ settle_error (tried m) [] (runs_now m)
    → Draining with_job (suc (suc n)) q
one_round-Draining d e f =
    and_then (and_then d (Drains.runs (omega arith) e)) (Drains.throws first f)

three_failures-Draining : Draining with_job 6 given_up
three_failures-Draining =
    one_round-Draining
      (one_round-Draining (one_round-Draining start taken_again.0 thrown.0) taken_again.1 thrown.1)
      taken_again.2 thrown.2

Picked-none : {j : Job} {ks js : List Job} → Picked j js ks → js ≢ []
Picked-none first e = cc
Picked-none (later p) e = cc

at_rest : (q : Queue) → ¬ Drains given_up q
at_rest q (Drains.runs h e) = omega arith
at_rest q (Drains.succeeds p e) = Picked-none p refl
at_rest q (Drains.throws p e) = Picked-none p refl

all_jobs_settle_example :
    (6 ≤ steps_left with_job)
    × (length given_up.jobs ≡ 0)
    × (length given_up.in_flight ≡ 0)
    × (given_up.completed + length given_up.dead_letter ≡ jobs_of with_job)
all_jobs_settle_example =
    all_jobs_settle with_job given_up 6 Step-Inv_example refl three_failures-Draining at_rest
