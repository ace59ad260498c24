-- ===== src/Patrols/Progress.antt =====
-- modules/patrols/patrol-progress.service.ts. `percent completed total` is
-- `Math.round((completed / total) * 100)`, which is floating point and a parameter here.
pub mod Laws
pub mod Next
use guardtrak_api.Prelude.{
  ℕ, ◌+◌, ◌-◌, Bool, true, false, ◌&&◌, Option, none, some, List, [], ◌∷◌, min, ltb, leb, ◌==◌,
  length, if◌then◌else◌,
}

pub data CheckpointStatus : Type 0 where
  pending available completed missed skipped outside_geofence requires_review : CheckpointStatus

-- A checkpoint of the assignment, with its place in the order.
pub record Checkpoint : Type 0 where
  pub id : ℕ
  pub sequence : ℕ

pub record Visit : Type 0 where
  pub assignment_checkpoint_id : Option ℕ
  pub status : CheckpointStatus

pub record PatrolProgressResult : Type 0 where
  pub total_checkpoints : ℕ
  pub completed_checkpoints : ℕ
  pub pending_checkpoints : ℕ
  pub missed_checkpoints : ℕ
  pub skipped_checkpoints : ℕ
  pub review_required_checkpoints : ℕ
  pub completion_percentage : ℕ
  pub next_checkpoint : Option Checkpoint
  pub all_required_complete : Bool

-- `sort((a, b) => a.sequence - b.sequence)`, which is stable: by insertion.
insert : Checkpoint → List Checkpoint → List Checkpoint
insert c [] = c ∷ []
insert c (d ∷ ds) =
    let rest = insert c ds in if leb c.sequence d.sequence then c ∷ d ∷ ds else d ∷ rest

unfoldable pub sort : List Checkpoint → List Checkpoint
unfolding insert
sort [] = []
sort (c ∷ cs) = insert c (sort cs)

abbrev is_of : ℕ → Option ℕ → Bool
is_of id none = false
is_of id (some i) = i == id

-- `visitBySnap.get(id)`: of several visits of one checkpoint, the map keeps the last.
unfoldable pub visit_by_snap : List Visit → ℕ → Option CheckpointStatus
visit_by_snap [] id = none
visit_by_snap (v ∷ visits) id = elim (visit_by_snap visits id) [
  | some status ↦ some status
  | none ↦ if is_of id v.assignment_checkpoint_id then some v.status else none
]

-- The variables of the loop.
pub record Counts : Type 0 where
  pub completed : ℕ
  pub missed : ℕ
  pub skipped : ℕ
  pub review : ℕ
  pub next : Option Checkpoint

-- `if (!next) next = snap`
abbrev or_snap : Option Checkpoint → Checkpoint → Option Checkpoint
or_snap none snap = some snap
or_snap (some c) snap = some c

-- The body of the loop.
unfoldable pub count : Counts → Checkpoint → Option CheckpointStatus → Counts
count k snap (some completed) = record k { completed = k.completed + 1 }
count k snap (some missed) = record k { missed = k.missed + 1 }
count k snap (some skipped) = record k { skipped = k.skipped + 1 }
count k snap (some requires_review) = record k { review = k.review + 1; next = or_snap k.next snap }
count k snap (some outside_geofence) = record k {
  review = k.review + 1;
  next = or_snap k.next snap;
}
count k snap _ = record k { next = or_snap k.next snap }

unfoldable pub count_all : (ℕ → Option CheckpointStatus) → List Checkpoint → Counts → Counts
unfolding count
count_all visits [] k = k
count_all visits (snap ∷ snaps) k = count_all visits snaps (count k snap (visits snap.id))

abbrev pub no_counts : Counts
no_counts = record { completed = 0; missed = 0; skipped = 0; review = 0; next = none }

unfoldable pub calculate : (ℕ → ℕ → ℕ) → List Checkpoint → List Visit → PatrolProgressResult
unfolding sort visit_by_snap count_all
calculate percent snapshots visits =
    let ordered = sort snapshots in
    let k = count_all (visit_by_snap visits) ordered no_counts in
    let total = length ordered in
    record {
      total_checkpoints = total;
      completed_checkpoints = k.completed;
      pending_checkpoints = total - k.completed - k.missed - k.skipped;
      missed_checkpoints = k.missed;
      skipped_checkpoints = k.skipped;
      review_required_checkpoints = k.review;
      completion_percentage = if total == 0 then 0 else min 100 (percent k.completed total);
      next_checkpoint = k.next;
      all_required_complete = ltb 0 total && (k.completed == total);
    }
