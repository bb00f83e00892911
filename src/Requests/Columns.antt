-- ===== src/Requests/Columns.antt =====
-- What can reach ORDER BY through server/src/utils/sorting.ts.
use expense_management_syste.Base.{
  ◌≡◌, ◌⊎◌, inl, inr, true, arith, none, some, List, String, Text, any, text_eq, Bool-cases,
  Option-cases,
}
use expense_management_syste.Errors.{ok}
use expense_management_syste.Requests.Query.{QueryValue, is_empty}
use expense_management_syste.Requests.Sorting.{
  Column, ResolvedSort, inherited_keys, own_column, resolve_sort,
}

-- The column of an accepted sort is the fallback, or the one that the table has for the requested key,
-- or, where the table has none, the member that every object inherits under that key.
pub resolve_sort-column :
    (key : Text) (order : QueryValue) (allowed : List (Text × String)) (fallback : ResolvedSort)
    {r : ResolvedSort}
    → resolve_sort (QueryValue.text key) order allowed fallback ≡ ok r
    → (r.column_sql ≡ fallback.column_sql)
      ⊎ ((c : String) × (own_column key allowed ≡ some c) × (r.column_sql ≡ Column.sql c))
      ⊎ ((own_column key allowed ≡ none)
          × (any (text_eq key) inherited_keys ≡ true)
          × (r.column_sql ≡ Column.inherited key))
unfolding resolve_sort
resolve_sort-column key order allowed fallback {r} h = elim (Bool-cases (is_empty key)) [
  | inl empty ↦ inl (ground arith)
  | inr full ↦ elim (Option-cases (own_column key allowed)) [
    | inl missing ↦ elim (Bool-cases (any (text_eq key) inherited_keys)) [
      | inl member ↦ inr (inr (missing, member, ground arith))
      | inr other ↦ absurd (ground arith)
    ]
    | inr (c, found) ↦ inr (inl (c, found, ground arith))
  ]
]
