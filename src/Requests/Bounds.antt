-- ===== src/Requests/Bounds.antt =====
-- The pages that a request can ask for: server/src/utils/pagination.ts.
use expense_management_syste.Base.{ℕ, ◌-◌, ◌*◌, ◌≤◌, ◌<◌, ◌≡◌, arith, Option, some, String}
use expense_management_syste.Errors.{ok}
use expense_management_syste.Requests.Query.{QueryValue, parse_positive_integer}
use expense_management_syste.Requests.Pagination.{
  Page, parse_pagination, max_page, max_page_size, limit_offset, or_default,
}

parse_positive_integer_pos :
    (value : QueryValue) (field : String) (fallback : ℕ) {o : Option ℕ}
    → parse_positive_integer value field ≡ ok o
    → 0 < fallback
    → 0 < or_default o fallback
unfolding parse_positive_integer
parse_positive_integer_pos QueryValue.undefined field fallback h pos = ground arith
parse_positive_integer_pos (QueryValue.text raw) field fallback h pos = ground arith
parse_positive_integer_pos _ field fallback h pos = cc

record InLimits (p : Page) : Type 0 where
  page_pos : 1 ≤ p.page
  page_capped : p.page ≤ max_page
  size_pos : 1 ≤ p.page_size
  size_capped : p.page_size ≤ max_page_size

parse_pagination-InLimits :
    (page size : QueryValue) {p : Page} → parse_pagination page size ≡ ok p → InLimits p
unfolding parse_pagination
parse_pagination-InLimits page size {p} h =
    grind (
      arith,
      parse_positive_integer_pos page "page" 1,
      parse_positive_integer_pos size "pageSize" 20,
    )

offset-le : (page size : ℕ) → page ≤ 100000 → size ≤ 100 → (page - 1) * size ≤ 9999900
offset-le page size h k = grind arith

-- A page that `parsePagination` lets through is one of 1 to 100,000 with 1 to 100 rows, the models'
-- own defaults change nothing of it, and the OFFSET is at most 9,999,900.
pub parse_pagination_limits :
    (page size : QueryValue) {p : Page}
    → parse_pagination page size ≡ ok p
    → (1 ≤ p.page)
      × (p.page ≤ 100000)
      × (1 ≤ p.page_size)
      × (p.page_size ≤ 100)
      × (limit_offset (some p.page) (some p.page_size) ≡ (p.page_size, (p.page - 1) * p.page_size))
      × ((p.page - 1) * p.page_size ≤ 9999900)
unfolding limit_offset
parse_pagination_limits page size {p} h =
    let l = parse_pagination-InLimits page size h in
    (
      l.page_pos,
      l.page_capped,
      l.size_pos,
      l.size_capped,
      ground arith,
      offset-le p.page p.page_size l.page_capped l.size_capped,
    )
