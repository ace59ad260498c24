-- ===== src/Patrols/Progress/Laws.antt =====
-- What the counts of a patrol add up to.
use guardtrak_api.Prelude.{
  ℕ, ◌+◌, Bool, true, false, ◌≡◌, refl, arith, Option, some, List, [], ◌∷◌, length, if◌then◌else◌,
}
use guardtrak_api.Patrols.Progress.{
  CheckpointStatus, completed, missed, skipped, Checkpoint, Visit, Counts, insert, sort,
  visit_by_snap, count, count_all, no_counts, calculate,
}

length-insert : (c : Checkpoint) (cs : List Checkpoint) → length (insert c cs) ≡ length cs + 1
unfolding insert
length-insert c [] = refl
length-insert c (d ∷ ds) = ground (arith, length-insert c ds)

length-sort : (cs : List Checkpoint) → length (sort cs) ≡ length cs
unfolding sort
length-sort [] = refl
length-sort (c ∷ cs) = omega (arith, length-insert c (sort cs), length-sort cs)

-- A checkpoint that is neither completed, missed nor skipped.
abbrev pub is_open : Option CheckpointStatus → Bool
is_open (some completed) = false
is_open (some missed) = false
is_open (some skipped) = false
is_open _ = true

-- The number of checkpoints that are open.
unfoldable pub open_checkpoints : (ℕ → Option CheckpointStatus) → List Checkpoint → ℕ
open_checkpoints visits [] = 0
open_checkpoints visits (c ∷ cs) =
    open_checkpoints visits cs + (if is_open (visits c.id) then 1 else 0)

settled : Counts → ℕ
settled k = k.completed + k.missed + k.skipped

count_settles :
    (k : Counts) (c : Checkpoint) (s : Option CheckpointStatus)
    → settled (count k c s) + (if is_open s then 1 else 0) ≡ settled k + 1
unfolding settled count
count_settles k c s = ground arith

count_all_settles :
    (visits : ℕ → Option CheckpointStatus) (cs : List Checkpoint) (k : Counts)
    → settled (count_all visits cs k) + open_checkpoints visits cs ≡ settled k + length cs
unfolding count_all open_checkpoints
count_all_settles visits [] k = omega arith
count_all_settles visits (c ∷ cs) k =
    omega (
      arith,
      count_all_settles visits cs (count k c (visits c.id)),
      count_settles k c (visits c.id),
    )

-- Every checkpoint of the assignment is counted as completed, missed, skipped or pending, and the
-- pending ones are those whose last visit, if any, has none of the other three statuses.
pub calculate_partitions :
    (percent : ℕ → ℕ → ℕ) (snapshots : List Checkpoint) (visits : List Visit)
    → let r = calculate percent snapshots visits in
      (r.total_checkpoints ≡ length snapshots)
      × (r.completed_checkpoints + r.missed_checkpoints + r.skipped_checkpoints
            + r.pending_checkpoints
          ≡ r.total_checkpoints)
      × (r.pending_checkpoints ≡ open_checkpoints (visit_by_snap visits) (sort snapshots))
unfolding calculate settled
calculate_partitions percent snapshots visits =
    let s = count_all_settles (visit_by_snap visits) (sort snapshots) no_counts in
    (length-sort snapshots, omega (arith, s), omega (arith, s))
