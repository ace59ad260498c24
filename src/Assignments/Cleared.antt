-- ===== src/Assignments/Cleared.antt =====
-- What the checks of Assignments/Checks leave of the tables when they succeed.
use guardtrak_api.Prelude.{
  ℕ, ◌≤◌, Bool, true, false, not, ◌≡◌, refl, arith, Option, none, some, ◌==◌, is_some, total,
  indicator, find_first, find_first-widen, All, All-weaken, find_first-none-All, Option-cases, inl,
  inr, if◌then◌else◌,
}
use guardtrak_api.Errors.{
  ok, ensure, HttpStatus, ErrorCode, throw, ok_eq, conflict_409, shift_site_inactive,
  assignment_shift_invalid,
}
use guardtrak_api.Timezone.{Intl}
use guardtrak_api.Database.{Db, Assignment, Shift}
use guardtrak_api.Attendance.Presence.{site_by_id}
use guardtrak_api.Assignments.Checks.{
  is_assignable, is_open_site, is_shift_of, load_assignable_shift, assert_no_duplicate,
  assert_no_overlap, is_active_for, conflicts, is_ignored, shifts_overlap,
}
use guardtrak_api.Assignments.Invariant.{double_booked, shift_row}

-- The shift of a new assignment, and that nothing stands in its way.
pub record Cleared (intl : Intl) (db : Db) (organisation_id shift_id officer_id : ℕ) (late : Bool)
    (ignored : Option ℕ) : Type 0 where
  pub shift : Shift
  pub found : find_first (is_shift_of organisation_id shift_id) db.shifts ≡ some shift
  pub assignable : is_assignable late shift.status ≡ true
  pub site_open : is_open_site (site_by_id db shift.site_id) ≡ true
  pub no_duplicate :
      find_first (is_active_for organisation_id shift_id officer_id) db.assignments ≡ none
  pub no_conflict :
      find_first (conflicts intl db organisation_id officer_id shift ignored) db.assignments ≡ none

none_found {ℓ} :
    {A : Type ℓ} (o : Option A) (s : HttpStatus) (c : ErrorCode)
    → ensure (not (is_some o)) s c ≡ ok tt
    → o ≡ none
none_found none s c h = refl
none_found (some a) s c h = cc

if_ok_ok :
    (a b : Bool) {shift found : Shift}
    → (if a
        then (if b then ok found else throw conflict_409 shift_site_inactive)
        else throw conflict_409 assignment_shift_invalid)
      ≡ ok shift
    → (a ≡ true) × (b ≡ true) × (found ≡ shift)
if_ok_ok true true h = (refl, refl, ok_eq h)
if_ok_ok true false h = cc
if_ok_ok false b h = cc

load-found :
    (db : Db) (o id : ℕ) (late : Bool) (shift : Shift)
    → load_assignable_shift db o id late ≡ ok shift
    → (find_first (is_shift_of o id) db.shifts ≡ some shift)
      × (is_assignable late shift.status ≡ true)
      × (is_open_site (site_by_id db shift.site_id) ≡ true)
unfolding load_assignable_shift
load-found db o id late shift h = elim (Option-cases (find_first (is_shift_of o id) db.shifts)) [
  | inl e ↦ let f = (rw (e, load_assignable_shift) at h) in cc
  | inr (s, e) ↦
      let g =
        if_ok_ok (is_assignable late s.status) (is_open_site (site_by_id db s.site_id))
          (rw (e, load_assignable_shift) at h) in
      rw (← g.2) (e, g.0, g.1)
]

pub Cleared-of :
    (intl : Intl) (db : Db) (o id f : ℕ) (late : Bool) (ignored : Option ℕ) (shift : Shift)
    → load_assignable_shift db o id late ≡ ok shift
    → assert_no_duplicate db o id f ≡ ok tt
    → assert_no_overlap intl db o f shift ignored ≡ ok tt
    → Cleared intl db o id f late ignored
unfolding assert_no_duplicate assert_no_overlap
Cleared-of intl db o id f late ignored shift loaded single apart =
    let l = load-found db o id late shift loaded in
    record {
      shift = shift;
      found = l.0;
      assignable = l.1;
      site_open = l.2;
      no_duplicate = none_found _ _ _ single;
      no_conflict = none_found _ _ _ apart;
    }

apart_of_one :
    (intl : Intl) (db : Db) (o f : ℕ) (shift : Shift) (ignored : Option ℕ) (created a : Assignment)
    → shift_row db.shifts created.shift_id ≡ some shift
    → created.organisation_id ≡ o
    → created.officer_id ≡ f
    → is_ignored ignored a ≡ false
    → conflicts intl db o f shift ignored a ≡ false
    → double_booked db.shifts created a ≡ false
unfolding double_booked conflicts shifts_overlap
apart_of_one intl db o f shift ignored created a row e e' i h =
    elim (Option-cases (shift_row db.shifts a.shift_id)) [
      | inl n ↦ rw (row, n, e, e') (ground arith)
      | inr (other, n) ↦ let h' = (rw (n) at h) in rw (row, n, e, e') (ground arith)
    ]

-- No assignment that the check takes in books the officer of a new one twice.
pub Cleared-apart :
    (intl : Intl) (db : Db) (o id f : ℕ) (late : Bool) (ignored : Option ℕ) (created : Assignment)
    → ((i : ℕ) → total (indicator (λ (s : Shift). s.id == i)) db.shifts ≤ 1)
    → Cleared intl db o id f late ignored
    → created.shift_id ≡ id
    → created.organisation_id ≡ o
    → created.officer_id ≡ f
    → All
        (λ a. is_ignored ignored a ≡ false → double_booked db.shifts created a ≡ false)
        db.assignments
Cleared-apart intl db o id f late ignored created u c sid e e' =
    let row : shift_row db.shifts created.shift_id ≡ some c.shift = rw (sid) (
      find_first-widen (is_shift_of o id) (λ s. s.id == id) (λ s h. ground arith) db.shifts c.shift
        (u id) c.found) in
    All-weaken (λ a. conflicts intl db o f c.shift ignored a ≡ false)
      (λ a. is_ignored ignored a ≡ false → double_booked db.shifts created a ≡ false)
      (λ a h i. apart_of_one intl db o f c.shift ignored created a row e e' i h) db.assignments
      (find_first-none-All _ db.assignments c.no_conflict)
