-- ===== src/Common/Pagination/Laws.antt =====
-- The bounds of a page, and when a next page is announced.
use native.Mathlib.Nat.{le-div_iff_mul-le}
use guardtrak_api.Prelude.{
  ℕ, zero, suc, ◌+◌, ◌-◌, ◌*◌, ◌/◌, ◌≤◌, ◌<◌, true, ◌≡◌, ◌↔◌, Option, none, some, arith,
}
use guardtrak_api.Prelude.Int.{JsNumber, pos, negsuc, fin, non_finite}
use guardtrak_api.Common.Pagination.{
  max_page_limit, positive_or, normalise_pagination, build_pagination_meta,
}

positive_or_pos : (d : ℕ) (v : Option JsNumber) → 0 < d → 0 < positive_or d v
unfolding positive_or
positive_or_pos d none h = h
positive_or_pos d (some non_finite) h = h
positive_or_pos d (some (fin (negsuc n))) h = h
positive_or_pos d (some (fin (pos zero))) h = h
positive_or_pos d (some (fin (pos (suc n)))) h = omega arith

skip_eq : (p l : ℕ) → 0 < p → (p - 1) * l + l ≡ p * l
skip_eq zero l h = absurd (omega arith)
skip_eq (suc p) l h = grind arith

-- Whatever page and limit a request names, the page is at least 1, the limit lies between 1 and
-- 100, and as many rows are skipped as the pages before hold.
pub pagination_bounds :
    (page limit : Option JsNumber)
    → let p = normalise_pagination page limit in
      (1 ≤ p.page)
      × (1 ≤ p.limit)
      × (p.limit ≤ max_page_limit)
      × (p.skip + p.limit ≡ p.page * p.limit)
unfolding normalise_pagination
pagination_bounds page limit =
    let a = positive_or_pos 1 page (omega arith) in
    let b = positive_or_pos 20 limit (omega arith) in (a, omega arith, omega arith, skip_eq _ _ a)

suc_row : (a d : ℕ) → suc a * d ≡ a * d + d
suc_row a d = grind arith

lt_ceil_iff : (a d total : ℕ) → 0 < d → (a < (total + d - 1) / d) ↔ (a * d < total)
lt_ceil_iff a d total h =
    let (to, from) = le-div_iff_mul-le {k = d} {x = suc a} {y = total + d - 1} h in
    (λ p. let q = to p in omega (arith, suc_row a d), λ p. from (omega (arith, suc_row a d)))

-- For a limit that is not zero, a next page is announced exactly if some row lies behind the page.
pub next_page_iff :
    (page limit total : ℕ)
    → 0 < limit
    → ((build_pagination_meta page limit total).has_next_page ≡ true) ↔ (page * limit < total)
unfolding build_pagination_meta
next_page_iff page limit total h =
    let (to, from) = lt_ceil_iff page limit total h in
    (λ e. to (ground arith), λ p. let q = from p in ground arith)
