-- ===== src/Requests/Sorting.antt =====
-- server/src/utils/sorting.ts. The table of columns is an object, so a key may also name a member that
-- every object inherits.
use expense_management_syste.Base.{
  ◌+◌, ◌&&◌, Option, none, some, List, [], ◌∷◌, String, Text, codes, text_eq, any, map, leb,
  if◌then◌else◌,
}
use expense_management_syste.Errors.{Result, ok, err, ◌>>=◌, bad_request}
use expense_management_syste.Requests.Query.{QueryValue, get_single_query_value, is_empty}

pub data Direction : Type 0 where
  asc desc : Direction

-- What is put into ORDER BY: a column of the table, or the text of an inherited member.
pub data Column : Type 0 where
  sql : String → Column
  inherited : Text → Column

pub record ResolvedSort : Type 0 where
  pub column_sql : Column
  pub direction : Direction

-- The members of `Object.prototype`.
abbrev pub inherited_keys : List Text
inherited_keys =
    codes "constructor"
    ∷ codes "__defineGetter__"
    ∷ codes "__defineSetter__"
    ∷ codes "hasOwnProperty"
    ∷ codes "__lookupGetter__"
    ∷ codes "__lookupSetter__"
    ∷ codes "isPrototypeOf"
    ∷ codes "propertyIsEnumerable"
    ∷ codes "toString"
    ∷ codes "valueOf"
    ∷ codes "__proto__"
    ∷ codes "toLocaleString"
    ∷ []

abbrev pub own_column : Text → List (Text × String) → Option String
own_column key [] = none
own_column key ((k, column) ∷ rest) = if text_eq k key then some column else own_column key rest

-- `allowed[sort]`
unfoldable pub column_of : Text → List (Text × String) → Option Column
column_of key allowed = elim (own_column key allowed) [
  | some column ↦ some (Column.sql column)
  | none ↦ if any (text_eq key) inherited_keys then some (Column.inherited key) else none
]

-- `toLowerCase()`; no text outside ASCII becomes `asc` or `desc` by it.
abbrev pub to_lower : Text → Text
to_lower = map (λ c. if leb b'A' c && leb c b'Z' then c + 32 else c)

abbrev sort_column : Option Text → List (Text × String) → Column → Result Column
sort_column none allowed fallback = ok fallback
sort_column (some key) allowed fallback =
    if is_empty key then ok fallback else elim (column_of key allowed) [
      | none ↦ err (bad_request "Invalid sort field")
      | some column ↦ ok column
    ]

abbrev sort_direction : Option Text → Direction → Result Direction
sort_direction none fallback = ok fallback
sort_direction (some order) fallback =
    if is_empty order
    then ok fallback
    else if text_eq (to_lower order) (codes "asc")
    then ok Direction.asc
    else if text_eq (to_lower order) (codes "desc")
    then ok Direction.desc
    else err (bad_request "Invalid sort order. Allowed: asc, desc")

-- `resolveSort`
unfoldable pub resolve_sort :
    QueryValue → QueryValue → List (Text × String) → ResolvedSort → Result ResolvedSort
unfolding get_single_query_value column_of
resolve_sort sort_raw order_raw allowed fallback = do
  sort ← get_single_query_value sort_raw "sort"
  order ← get_single_query_value order_raw "order"
  column ← sort_column sort allowed fallback.column_sql
  direction ← sort_direction order fallback.direction
  ok (record { column_sql = column; direction = direction })
