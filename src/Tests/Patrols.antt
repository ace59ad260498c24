-- ===== src/Tests/Patrols.antt =====
-- A patrol of three checkpoints, of which one is visited.
use guardtrak_api.Prelude.{◌+◌, ◌≡◌, refl, true, none, some, List, [], ◌∷◌, length, All}
use guardtrak_api.Patrols.Progress.{
  CheckpointStatus, Checkpoint, Visit, sort, visit_by_snap, count, count_all, calculate,
}
use guardtrak_api.Patrols.Progress.Laws.{is_open, open_checkpoints, calculate_partitions}
use guardtrak_api.Patrols.Progress.Next.{IsNotBefore, next_checkpoint-least}

abbrev second : Checkpoint
second = record { id = 2; sequence = 20 }

abbrev route : List Checkpoint
route = record { id = 3; sequence = 30 } ∷ record { id = 1; sequence = 10 } ∷ second ∷ []

abbrev visited : List Visit
visited =
    record { assignment_checkpoint_id = some 1; status = CheckpointStatus.completed }
    ∷ record { assignment_checkpoint_id = none; status = CheckpointStatus.missed }
    ∷ []

calculate_partitions_example :
    ((calculate (λ c t. 33) route visited).total_checkpoints ≡ length route)
    × ((calculate (λ c t. 33) route visited).completed_checkpoints
          + (calculate (λ c t. 33) route visited).missed_checkpoints
          + (calculate (λ c t. 33) route visited).skipped_checkpoints
          + (calculate (λ c t. 33) route visited).pending_checkpoints
        ≡ (calculate (λ c t. 33) route visited).total_checkpoints)
    × ((calculate (λ c t. 33) route visited).pending_checkpoints
        ≡ open_checkpoints (visit_by_snap visited) (sort route))
calculate_partitions_example = calculate_partitions (λ c t. 33) route visited

second_is_next : (calculate (λ c t. 33) route visited).next_checkpoint ≡ some second
unfolding calculate sort visit_by_snap count_all count
second_is_next = refl

next_checkpoint-least_example :
    (is_open (visit_by_snap visited 2) ≡ true)
    × All (IsNotBefore (visit_by_snap visited) second) route
next_checkpoint-least_example =
    next_checkpoint-least (λ c t. 33) route visited second second_is_next
