-- ===== src/Common/Pagination.antt =====
-- common/utils/pagination.util.ts (`normalisePagination`) and common/dto/pagination-meta.dto.ts. The
-- page and the limit of a request are integers.
pub mod Laws
use guardtrak_api.Prelude.{
  ℕ, suc, ◌+◌, ◌-◌, ◌*◌, ◌/◌, Bool, ◌&&◌, Option, none, some, min, ltb, if◌then◌else◌,
}
use guardtrak_api.Prelude.Int.{pos, JsNumber, fin}

abbrev pub default_page : ℕ
default_page = 1

abbrev pub default_page_limit : ℕ
default_page_limit = 20

abbrev pub max_page_limit : ℕ
max_page_limit = 100

pub record Pagination : Type 0 where
  pub page : ℕ
  pub limit : ℕ
  pub skip : ℕ

-- `value && Number.isFinite(value) && value > 0 ? Math.floor(value) : fallback`
positive_or : ℕ → Option JsNumber → ℕ
positive_or fallback (some (fin (pos (suc n)))) = suc n
positive_or fallback _ = fallback

unfoldable pub normalise_pagination : Option JsNumber → Option JsNumber → Pagination
unfolding positive_or
normalise_pagination page limit =
    let safe_page = positive_or default_page page in
    let safe_limit = min (positive_or default_page_limit limit) max_page_limit in
    record { page = safe_page; limit = safe_limit; skip = (safe_page - 1) * safe_limit }

pub record PaginationMeta : Type 0 where
  pub page : ℕ
  pub limit : ℕ
  pub total : ℕ
  pub total_pages : ℕ
  pub has_next_page : Bool
  pub has_previous_page : Bool

-- `Math.ceil(total / limit)` is the floor of `(total + limit - 1) / limit`.
unfoldable pub build_pagination_meta : ℕ → ℕ → ℕ → PaginationMeta
build_pagination_meta page limit total =
    let total_pages = if ltb 0 limit then (total + limit - 1) / limit else 0 in
    record {
      page = page;
      limit = limit;
      total = total;
      total_pages = total_pages;
      has_next_page = ltb page total_pages;
      has_previous_page = ltb 1 page && ltb 0 total_pages;
    }
