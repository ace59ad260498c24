-- ===== src/Patrols/Progress/Next.antt =====
-- The checkpoint that is shown as the next one.
use guardtrak_api.Prelude.{
  ℕ, ◌≤◌, true, false, ◌≡◌, ◌⊎◌, inl, inr, sym, ◌∙◌, arith, Option, none, some, List, [], ◌∷◌, leb,
  if◌then◌else◌, All, All-weaken, Bool-cases,
}
use guardtrak_api.Patrols.Progress.{
  CheckpointStatus, Checkpoint, Visit, Counts, insert, sort, visit_by_snap, count, count_all,
  no_counts, calculate,
}
use guardtrak_api.Patrols.Progress.Laws.{is_open}

abbrev pub After : ℕ → Checkpoint → Type 0
After n c = n ≤ c.sequence

Sorted : List Checkpoint → Type 0
Sorted [] = Unit {0}
Sorted (c ∷ cs) = All (After c.sequence) cs × Sorted cs

All-insert :
    (P : Checkpoint → Type 0) (c : Checkpoint) (cs : List Checkpoint)
    → P c
    → All P cs
    → All P (insert c cs)
unfolding insert
All-insert P c [] p h = (p, tt)
All-insert P c (d ∷ ds) p h = elim (Bool-cases (leb c.sequence d.sequence)) [
  | inl e ↦ rw e (p, h)
  | inr e ↦ rw e (h.0, All-insert P c ds p h.1)
]

All-of_insert :
    (P : Checkpoint → Type 0) (c : Checkpoint) (cs : List Checkpoint)
    → All P (insert c cs)
    → P c × All P cs
unfolding insert
All-of_insert P c [] h = h
All-of_insert P c (d ∷ ds) h = elim (Bool-cases (leb c.sequence d.sequence)) [
  | inl e ↦ rw e at h
  | inr e ↦
      let (first, rest) = rw e at h in let (p, q) = All-of_insert P c ds rest in (p, (first, q))
]

All-of_sort : (P : Checkpoint → Type 0) (cs : List Checkpoint) → All P (sort cs) → All P cs
unfolding sort
All-of_sort P [] h = h
All-of_sort P (c ∷ cs) h = let (p, q) = All-of_insert P c (sort cs) h in (p, All-of_sort P cs q)

insert-Sorted : (c : Checkpoint) (cs : List Checkpoint) → Sorted cs → Sorted (insert c cs)
unfolding insert Sorted
insert-Sorted c [] s = (tt, tt)
insert-Sorted c (d ∷ ds) s = elim (Bool-cases (leb c.sequence d.sequence)) [
  | inl e ↦ rw e (
    (ground arith, All-weaken (After d.sequence) (After c.sequence) (λ x h. ground arith) ds s.0),
    s,
  )
  | inr e ↦ rw e (All-insert (After d.sequence) c ds (ground arith) s.0, insert-Sorted c ds s.1)
]

sort-Sorted : (cs : List Checkpoint) → Sorted (sort cs)
unfolding sort Sorted
sort-Sorted [] = tt
sort-Sorted (c ∷ cs) = insert-Sorted c (sort cs) (sort-Sorted cs)

module _ (visits : ℕ → Option CheckpointStatus) where
  first_open : List Checkpoint → Option Checkpoint
  first_open [] = none
  first_open (c ∷ cs) = if is_open (visits c.id) then some c else first_open cs

  abbrev or_first : Option Checkpoint → Option Checkpoint → Option Checkpoint
  or_first none later = later
  or_first (some c) later = some c

  count_all-next :
      (cs : List Checkpoint) (k : Counts)
      → (count_all visits cs k).next ≡ or_first k.next (first_open cs)
  unfolding count_all count first_open
  count_all-next [] k = ground arith
  count_all-next (c ∷ cs) k = ground (arith, count_all-next cs (count k c (visits c.id)))

  -- Closed, or not before `n`.
  abbrev pub IsNotBefore : Checkpoint → Checkpoint → Type 0
  IsNotBefore n c = (is_open (visits c.id) ≡ false) ⊎ (n.sequence ≤ c.sequence)

  first_open-least :
      (cs : List Checkpoint) (n : Checkpoint)
      → Sorted cs
      → first_open cs ≡ some n
      → (is_open (visits n.id) ≡ true) × All (IsNotBefore n) cs
  unfolding first_open Sorted
  first_open-least [] n s e = cc
  first_open-least (c ∷ cs) n s e = elim (Bool-cases (is_open (visits c.id))) [
    | inl o ↦
        let same : c ≡ n = ground arith in
        (
          rw (← same) o,
          (
            inr (rw (← same) (omega arith)),
            All-weaken (After c.sequence) (IsNotBefore n) (λ x h. inr (rw (← same) h)) cs s.0,
          ),
        )
    | inr o ↦ let (p, q) = first_open-least cs n s.1 (rw o at e) in (p, (inl o, q))
  ]

-- The next checkpoint, where there is one, is open, which is neither completed, missed nor skipped,
-- and no open checkpoint of the assignment has a smaller sequence number.
pub next_checkpoint-least :
    (percent : ℕ → ℕ → ℕ) (snapshots : List Checkpoint) (visits : List Visit) (n : Checkpoint)
    → (calculate percent snapshots visits).next_checkpoint ≡ some n
    → (is_open (visit_by_snap visits n.id) ≡ true)
      × All (IsNotBefore (visit_by_snap visits) n) snapshots
unfolding calculate
next_checkpoint-least percent snapshots visits n h =
    let v = visit_by_snap visits in
    let e = count_all-next v (sort snapshots) no_counts in
    let (p, q) = first_open-least v (sort snapshots) n (sort-Sorted snapshots) (sym e ∙ h) in
    (p, All-of_sort (IsNotBefore v n) snapshots q)
