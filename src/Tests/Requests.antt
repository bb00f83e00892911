-- ===== src/Tests/Requests.antt =====
-- Requests read at concrete inputs.
use expense_management_syste.Base.{
  All, length, ◌-◌, ◌*◌, ◌≤◌, ◌<◌, true, none, some, List, [], ◌∷◌, Text, String, codes, ◌≡◌, refl,
  arith, ◌⊎◌, any, text_eq,
}
use expense_management_syste.Errors.{ok}
use expense_management_syste.Requests.{
  QueryValue, parse_positive_id, parse_positive_integer, positive_integer, get_single_query_value,
  parse_pagination, limit_offset, Column, Direction, ResolvedSort, own_column, column_of,
  inherited_keys, resolve_sort,
}
use expense_management_syste.Requests.Numbers.{
  print, decimal, parse_positive_id-print, parse_positive_id_sound,
}
use expense_management_syste.Requests.Bounds.{parse_pagination_limits}
use expense_management_syste.Requests.Columns.{resolve_sort-column}

parse_positive_id-print_example :
    parse_positive_id (QueryValue.text (print 42)) "expense ID" ≡ ok 42
parse_positive_id-print_example =
    parse_positive_id-print 42 "expense ID" (omega arith) (omega arith)

parse_positive_id_sound_example :
    (raw : Text) × (QueryValue.text (codes "007") ≡ QueryValue.text raw)
    × (1 ≤ length raw)
    × All (λ c. (48 ≤ c) × (c ≤ 57)) raw
    × (decimal raw ≡ 7)
    × (0 < 7)
    × (7 < 9007199254740992)
unfolding parse_positive_id parse_positive_integer positive_integer get_single_query_value
parse_positive_id_sound_example =
    parse_positive_id_sound (QueryValue.text (codes "007")) "expense ID" refl

parse_pagination_limits_example :
    (1 ≤ 3)
    × (3 ≤ 100000)
    × (1 ≤ 100)
    × (100 ≤ 100)
    × (limit_offset (some 3) (some 100) ≡ (100, (3 - 1) * 100))
    × ((3 - 1) * 100 ≤ 9999900)
unfolding parse_pagination parse_positive_integer positive_integer get_single_query_value
parse_pagination_limits_example =
    parse_pagination_limits (QueryValue.text (codes "3")) (QueryValue.text (codes "999")) refl

abbrev columns : List (Text × String)
columns = (codes "amount", "e.amount") ∷ []

abbrev by_date : ResolvedSort
by_date = record { column_sql = Column.sql "e.created_at"; direction = Direction.desc }

resolve_sort-column_example :
    (Column.sql "e.amount" ≡ Column.sql "e.created_at")
    ⊎ ((c : String) × (own_column (codes "amount") columns ≡ some c)
        × (Column.sql "e.amount" ≡ Column.sql c))
    ⊎ ((own_column (codes "amount") columns ≡ none)
        × (any (text_eq (codes "amount")) inherited_keys ≡ true)
        × (Column.sql "e.amount" ≡ Column.inherited (codes "amount")))
unfolding resolve_sort column_of get_single_query_value
resolve_sort-column_example =
    resolve_sort-column (codes "amount") (QueryValue.text (codes "ASC")) columns by_date
      {r = record { column_sql = Column.sql "e.amount"; direction = Direction.asc }} refl
