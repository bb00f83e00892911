-- ===== src/Csv.antt =====
-- server/src/utils/csv.ts: CSV with quoted fields and a guard against formulas.
pub mod Reader
pub mod Safe
use expense_management_syste.Base.{
  ℕ, Bool, ◌||◌, ◌&&◌, List, [], ◌∷◌, ◌++◌, map, Text, any, leb, ◌==◌, if◌then◌else◌,
}

-- A field is the text that `String(value)` or `toISOString()` gives; null and undefined are empty.

-- `\s` of a regular expression
abbrev pub is_blank : ℕ → Bool
is_blank c =
    leb 9 c && leb c 13
    || (c == 32)
    || (c == 160)
    || (c == 5760)
    || leb 8192 c && leb c 8202
    || (c == 8232)
    || (c == 8233)
    || (c == 8239)
    || (c == 8287)
    || (c == 12288)
    || (c == 65279)

-- The first character of `/^[\s=+\-@\x00-\x1F]/`
abbrev pub is_lead_in : ℕ → Bool
is_lead_in c = is_blank c || (c == b'=') || (c == b'+') || (c == b'-') || (c == b'@') || leb c 31

abbrev pub guarded : Text → Text
guarded [] = []
guarded (c ∷ s) = if is_lead_in c then 39 ∷ c ∷ s else c ∷ s

-- `/[",\n\r]/`
abbrev pub needs_quotes : ℕ → Bool
needs_quotes c = (c == 34) || (c == 44) || (c == 10) || (c == 13)

-- `s.replace(/"/g, '""')`
abbrev pub doubled : Text → Text
doubled [] = []
doubled (c ∷ s) = if c == 34 then 34 ∷ 34 ∷ doubled s else c ∷ doubled s

abbrev pub quoted : Text → Text
quoted s = if any needs_quotes s then 34 ∷ (doubled s ++ 34 ∷ []) else s

-- `escapeField`
unfoldable pub escape_field : Text → Text
escape_field s = quoted (guarded s)

-- `.join(',')`
abbrev pub join_commas : List Text → Text
join_commas [] = []
join_commas (f ∷ []) = f
join_commas (f ∷ g ∷ fs) = f ++ 44 ∷ join_commas (g ∷ fs)

-- A line: `row.map(escapeField).join(',')`
unfoldable pub line : List Text → Text
unfolding escape_field
line row = join_commas (map escape_field row)

-- `lines.join('\r\n')` with the trailing line end
abbrev pub join_lines : List Text → Text
join_lines [] = []
join_lines (l ∷ ls) = l ++ 13 ∷ 10 ∷ join_lines ls

-- `toCsv`
unfoldable pub to_csv : List Text → List (List Text) → Text
unfolding line
to_csv headers rows = join_lines (line headers ∷ map line rows)
