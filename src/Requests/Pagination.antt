-- ===== src/Requests/Pagination.antt =====
-- server/src/utils/pagination.ts and the limits of server/src/utils/constants.ts.
use expense_management_syste.Base.{ℕ, ◌-◌, ◌*◌, Option, none, some, if◌then◌else◌, min}
use expense_management_syste.Errors.{Result, ok, ◌>>=◌}
use expense_management_syste.Requests.Query.{QueryValue, parse_positive_integer, is_positive_safe}

abbrev pub default_page : ℕ
default_page = 1

abbrev pub default_page_size : ℕ
default_page_size = 20

abbrev pub max_page_size : ℕ
max_page_size = 100

abbrev pub max_page : ℕ
max_page = 100000

abbrev pub export_max_rows : ℕ
export_max_rows = 5000

pub record Page : Type 0 where
  pub page : ℕ
  pub page_size : ℕ

-- `x ?? fallback`
abbrev pub or_default : Option ℕ → ℕ → ℕ
or_default none fallback = fallback
or_default (some n) fallback = n

-- `parsePagination`
unfoldable pub parse_pagination : QueryValue → QueryValue → Result Page
parse_pagination page page_size = do
  requested_page ← parse_positive_integer page "page"
  requested_page_size ← parse_positive_integer page_size "pageSize"
  ok (record {
    page = min (or_default requested_page default_page) max_page;
    page_size = min (or_default requested_page_size default_page_size) max_page_size;
  })

-- `normalizePositiveInteger` of the models
unfoldable pub normalize_positive_integer : Option ℕ → ℕ → ℕ
normalize_positive_integer none fallback = fallback
normalize_positive_integer (some n) fallback = if is_positive_safe n then n else fallback

-- The LIMIT and OFFSET that `findByUserId`, `findAll` and the others compute.
unfoldable pub limit_offset : Option ℕ → Option ℕ → ℕ × ℕ
unfolding normalize_positive_integer
limit_offset page page_size =
    let size = min (normalize_positive_integer page_size default_page_size) max_page_size in
    (size, (normalize_positive_integer page default_page - 1) * size)
