-- ===== src/Requests/Query.antt =====
-- server/src/utils/requestParsing.ts.
use Prim.Native.String.{◌++◌}
use mathlib.Core.List.{reverse}
use expense_management_syste.Base.{
  ℕ, ◌+◌, ◌*◌, ◌%◌, ◌-◌, Bool, true, false, not, ◌&&◌, ◌||◌, Option, none, some, List, [], ◌∷◌,
  String, Text, text_eq, all, any, length, ltb, leb, ◌==◌, if◌then◌else◌,
}
use expense_management_syste.Errors.{Result, ok, err, ◌>>=◌, ◌>>◌, require, bad_request}

-- A value of `req.query`: undefined, one string, a repeated parameter, or a nested object.
pub data QueryValue : Type 0 where
  undefined : QueryValue
  text : Text → QueryValue
  repeated : QueryValue
  nested : QueryValue

-- `getSingleQueryValue`
unfoldable pub get_single_query_value : QueryValue → String → Result (Option Text)
get_single_query_value QueryValue.undefined field = ok none
get_single_query_value QueryValue.repeated field =
    err (bad_request (field ++ " must be provided only once"))
get_single_query_value QueryValue.nested field = err (bad_request (field ++ " must be a string"))
get_single_query_value (QueryValue.text raw) field = ok (some raw)

abbrev pub is_digit : ℕ → Bool
is_digit c = leb b'0' c && leb c b'9'

abbrev pub is_empty : Text → Bool
is_empty [] = true
is_empty (_ ∷ _) = false

-- `/^\d+$/`
abbrev pub is_digits : Text → Bool
is_digits s = not (is_empty s) && all is_digit s

abbrev pub digits_from : ℕ → Text → ℕ
digits_from acc [] = acc
digits_from acc (c ∷ s) = digits_from (acc * 10 + (c - b'0')) s

-- `Number(s)` of a text of digits. A value past 2^53 is rounded there, to one that is not safe either.
abbrev pub number_of : Text → ℕ
number_of s = digits_from 0 s

-- `Number.MAX_SAFE_INTEGER`
abbrev pub max_safe_integer : ℕ
max_safe_integer = 9007199254740991

-- `Number.isSafeInteger(n) && n > 0`
abbrev pub is_positive_safe : ℕ → Bool
is_positive_safe n = leb n max_safe_integer && ltb 0 n

-- `parsePositiveInteger`, once the value is there
unfoldable pub positive_integer : Text → String → Result ℕ
positive_integer raw field = do
  require (is_digits raw) (bad_request (field ++ " must be a positive integer"))
  require (is_positive_safe (number_of raw)) (bad_request (field ++ " must be a positive integer"))
  ok (number_of raw)

unfoldable pub parse_positive_integer : QueryValue → String → Result (Option ℕ)
unfolding get_single_query_value positive_integer
parse_positive_integer value field = do
  raw ← get_single_query_value value field
  elim raw [ none ↦ ok none | some s ↦ positive_integer s field >>= λ n. ok (some n) ]

-- `parsePositiveId`
unfoldable pub parse_positive_id : QueryValue → String → Result ℕ
parse_positive_id (QueryValue.text raw) field = do
  require (is_digits raw) (bad_request ("Invalid " ++ field))
  require (is_positive_safe (number_of raw)) (bad_request ("Invalid " ++ field))
  ok (number_of raw)
parse_positive_id _ field = err (bad_request ("Invalid " ++ field))

-- `parseEnumQuery`; the message names the allowed values too.
unfoldable pub parse_enum_query : QueryValue → String → List Text → Result (Option Text)
unfolding get_single_query_value
parse_enum_query value field allowed = do
  raw ← get_single_query_value value field
  elim raw [
    | none ↦ ok none
    | some s ↦
        if any (text_eq s) allowed then ok (some s) else err (bad_request ("Invalid " ++ field))
  ]

-- WhiteSpace and LineTerminator, which `trim` and `\s` take.
abbrev pub is_space : ℕ → Bool
is_space c =
    (leb 9 c && leb c 13)
    || (c == 32)
    || (c == 160)
    || (c == 5760)
    || (leb 8192 c && leb c 8202)
    || (c == 8232)
    || (c == 8233)
    || (c == 8239)
    || (c == 8287)
    || (c == 12288)
    || (c == 65279)

abbrev pub trim_start : Text → Text
trim_start [] = []
trim_start (c ∷ s) = if is_space c then trim_start s else c ∷ s

unfoldable pub trim : Text → Text
trim s = reverse (trim_start (reverse (trim_start s)))

-- `parseStringQuery` with a `maxLength`
unfoldable pub parse_string_query : QueryValue → String → ℕ → Result (Option Text)
unfolding get_single_query_value trim
parse_string_query value field max_length = do
  raw ← get_single_query_value value field
  elim raw [
    | none ↦ ok none
    | some s ↦
        let parsed : Text = trim s in
        if is_empty parsed
        then ok none
        else if ltb max_length (length parsed)
        then err (bad_request (field ++ " is too long"))
        else ok (some parsed)
  ]

abbrev pub is_leap : ℕ → Bool
is_leap y = (y % 4 == 0) && (not (y % 100 == 0) || (y % 400 == 0))

abbrev pub days_in_month : ℕ → ℕ → ℕ
days_in_month y m =
    if m == 2
    then (if is_leap y then 29 else 28)
    else (if (m == 4) || (m == 6) || (m == 9) || (m == 11) then 30 else 31)

-- `isStrictDate`: the pattern, and that the date is read back as it was written, which holds of the
-- days of the calendar.
unfoldable pub is_strict_date : Text → Bool
is_strict_date (y1 ∷ y2 ∷ y3 ∷ y4 ∷ d1 ∷ m1 ∷ m2 ∷ d2 ∷ a1 ∷ a2 ∷ []) =
    let y = number_of (y1 ∷ y2 ∷ y3 ∷ y4 ∷ []) in
    let m = number_of (m1 ∷ m2 ∷ []) in
    let day = number_of (a1 ∷ a2 ∷ []) in
    all is_digit (y1 ∷ y2 ∷ y3 ∷ y4 ∷ m1 ∷ m2 ∷ a1 ∷ a2 ∷ [])
    && (d1 == b'-')
    && (d2 == b'-')
    && (leb 1 m && leb m 12)
    && (leb 1 day && leb day (days_in_month y m))
is_strict_date _ = false

-- `parseDateQuery`
unfoldable pub parse_date_query : QueryValue → String → Result (Option Text)
unfolding get_single_query_value is_strict_date
parse_date_query value field = do
  raw ← get_single_query_value value field
  elim raw [
    | none ↦ ok none
    | some s ↦ if is_strict_date s then ok (some s) else err (bad_request ("Invalid " ++ field))
  ]
