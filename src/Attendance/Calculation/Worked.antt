-- ===== src/Attendance/Calculation/Worked.antt =====
-- Worked time and its sums.
use guardtrak_api.Prelude.{ℕ, ◌+◌, ◌-◌, ◌≡◌, refl, arith, some, List, [], ◌∷◌, ◌++◌}
use guardtrak_api.Prelude.Int.{JsNumber}
use guardtrak_api.Attendance.Calculation.{
  WorkedTimeInput, calculate_worked_seconds, normalise_break_seconds, contribution, sum_from,
  sum_seconds,
}

sum_from-add : (n : ℕ) (xs : List JsNumber) → sum_from n xs ≡ n + sum_from 0 xs
unfolding sum_from
sum_from-add n [] = omega arith
sum_from-add n (x ∷ xs) =
    omega (arith, sum_from-add (n + contribution x) xs, sum_from-add (0 + contribution x) xs)

sum_from-append :
    (n : ℕ) (xs ys : List JsNumber) → sum_from n (xs ++ ys) ≡ sum_from (sum_from n xs) ys
unfolding sum_from
sum_from-append n [] ys = refl
sum_from-append n (x ∷ xs) ys = sum_from-append (n + contribution x) xs ys

-- The total over two groups of values is the sum of the two totals.
pub sum_seconds-append :
    (xs ys : List JsNumber) → sum_seconds (xs ++ ys) ≡ sum_seconds xs + sum_seconds ys
unfolding sum_seconds
sum_seconds-append xs ys = omega (arith, sum_from-append 0 xs ys, sum_from-add (sum_from 0 xs) ys)

-- With both dates present, worked time is the time between them less the break, and zero where that
-- would be negative.
pub worked_accounts :
    (input : WorkedTimeInput) (a b : ℕ)
    → input.clock_in_server_at ≡ some a
    → input.clock_out_server_at ≡ some b
    → calculate_worked_seconds input ≡ b - a - normalise_break_seconds input
unfolding calculate_worked_seconds
worked_accounts input a b p q = ground arith
