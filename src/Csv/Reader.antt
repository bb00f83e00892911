-- ===== src/Csv/Reader.antt =====
-- A reader of CSV, written from the format (fields between commas, lines that end in CRLF, quoted fields
-- with doubled quotes), and what it gives back of server/src/utils/csv.ts.
use mathlib.Core.List.{append_assoc, append-nil}
use expense_management_syste.Base.{
  Bool, true, false, List, [], ◌∷◌, ◌++◌, map, ◌≡◌, refl, ap, ◌∙◌, arith, Text, any, all, ◌==◌,
  if◌then◌else◌, Bool-cases, inl, inr,
}
use expense_management_syste.Csv.{
  guarded, needs_quotes, doubled, quoted, escape_field, line, join_lines, to_csv,
}

-- Where the reader is: at the start of a field, in an unquoted one, between quotes, or after a quote
-- that may close the field.
pub data Mode : Type 0 where
  start plain inside closing : Mode

-- The lines of a text, read in a mode, with the field and the row so far.
unfoldable pub read : Mode → Text → List Text → Text → List (List Text)
read mode field row [] = []
read Mode.inside field row (c ∷ t) =
    let closes = read Mode.closing field row t in
    let goes_on = read Mode.inside (field ++ c ∷ []) row t in if c == 34 then closes else goes_on
read Mode.closing field row (c ∷ t) =
    let again = read Mode.inside (field ++ 34 ∷ []) row t in
    let ended = read Mode.start [] (row ++ field ∷ []) t in
    let lined = (row ++ field ∷ []) ∷ read Mode.start [] [] t in
    let skipped = read Mode.closing field row t in
    if c == 34 then again else if c == 44 then ended else if c == 10 then lined else skipped
read Mode.start field row (c ∷ t) =
    let opens = read Mode.inside [] row t in
    let ended = read Mode.start [] (row ++ field ∷ []) t in
    let lined = (row ++ field ∷ []) ∷ read Mode.start [] [] t in
    let skipped = read Mode.plain field row t in
    let goes_on = read Mode.plain (field ++ c ∷ []) row t in
    if c == 34
    then opens
    else if c == 44
    then ended
    else if c == 10
    then lined
    else if c == 13
    then skipped
    else goes_on
read Mode.plain field row (c ∷ t) =
    let ended = read Mode.start [] (row ++ field ∷ []) t in
    let lined = (row ++ field ∷ []) ∷ read Mode.start [] [] t in
    let skipped = read Mode.plain field row t in
    let goes_on = read Mode.plain (field ++ c ∷ []) row t in
    if c == 44 then ended else if c == 10 then lined else if c == 13 then skipped else goes_on

-- What ends a field: a comma, or the end of the line.
pub data Stop : Type 0 where
  comma line_end : Stop

abbrev stop_text : Stop → Text → Text
stop_text Stop.comma t = 44 ∷ t
stop_text Stop.line_end t = 13 ∷ 10 ∷ t

abbrev after_stop : Stop → List Text → Text → List (List Text)
after_stop Stop.comma row t = read Mode.start [] row t
after_stop Stop.line_end row t = row ∷ read Mode.start [] [] t

read-plain :
    (s : Text) (field : Text) (row : List Text) (stop : Stop) (t : Text)
    → any needs_quotes s ≡ false
    → read Mode.plain field row (s ++ stop_text stop t)
      ≡ after_stop stop (row ++ (field ++ s) ∷ []) t
unfolding read
read-plain [] field row Stop.comma t h = rw (append-nil field)
read-plain [] field row Stop.line_end t h = rw (append-nil field)
read-plain (c ∷ s) field row stop t h =
    let rest = read-plain s (field ++ c ∷ []) row stop t (ground (arith, h)) in
    let same = append_assoc field (c ∷ []) s in ground (arith, h, rest, same)

read-inside :
    (s : Text) (field : Text) (row : List Text) (stop : Stop) (t : Text)
    → read Mode.inside field row (doubled s ++ 34 ∷ stop_text stop t)
      ≡ after_stop stop (row ++ (field ++ s) ∷ []) t
unfolding read
read-inside [] field row Stop.comma t = rw (append-nil field)
read-inside [] field row Stop.line_end t = rw (append-nil field)
read-inside (c ∷ s) field row stop t =
    let rest = read-inside s (field ++ c ∷ []) row stop t in
    let same = append_assoc field (c ∷ []) s in
    elim (Bool-cases (c == 34)) [
      | inl is_quote ↦
          let at : c ≡ 34 = ground (arith, is_quote) in
          let quote_rest = read-inside s (field ++ 34 ∷ []) row stop t in
          let quote_same = append_assoc field (34 ∷ []) s in
          ground (arith, is_quote, quote_rest, quote_same, at)
      | inr other ↦ ground (arith, other, rest, same)
    ]

read-start :
    (s : Text) (row : List Text) (stop : Stop) (t : Text)
    → any needs_quotes s ≡ false
    → read Mode.start [] row (s ++ stop_text stop t) ≡ after_stop stop (row ++ s ∷ []) t
unfolding read
read-start [] row Stop.comma t h = refl
read-start [] row Stop.line_end t h = refl
read-start (c ∷ s) row stop t h =
    let rest = read-plain s (c ∷ []) row stop t (ground (arith, h)) in ground (arith, h, rest)

-- A written field, up to what ends it, is read as the guarded text.
read-quoted :
    (s : Text) (row : List Text) (stop : Stop) (t : Text)
    → read Mode.start [] row (quoted s ++ stop_text stop t) ≡ after_stop stop (row ++ s ∷ []) t
unfolding read
read-quoted s row stop t = elim (Bool-cases (any needs_quotes s)) [
  | inl quotes ↦
      let inner = read-inside s [] row stop t in
      let same = append_assoc (doubled s) (34 ∷ []) (stop_text stop t) in
      ground (arith, quotes, inner, same)
  | inr bare ↦ let rest = read-start s row stop t bare in ground (arith, bare, rest)
]

abbrev pub nonempty : List Text → Bool
nonempty [] = false
nonempty (_ ∷ _) = true

read-line :
    (f : Text) (fs : List Text) (row : List Text) (t : Text)
    → read Mode.start [] row (line (f ∷ fs) ++ 13 ∷ 10 ∷ t)
      ≡ (row ++ map guarded (f ∷ fs)) ∷ read Mode.start [] [] t
unfolding line escape_field
read-line f [] row t = read-quoted (guarded f) row Stop.line_end t
read-line f (g ∷ fs) row t =
    let rest = line (g ∷ fs) in
    ap (read Mode.start [] row) (append_assoc (quoted (guarded f)) (44 ∷ rest) (13 ∷ 10 ∷ t))
    ∙ read-quoted (guarded f) row Stop.comma (rest ++ 13 ∷ 10 ∷ t)
    ∙ read-line g fs (row ++ guarded f ∷ []) t
    ∙ ap (λ r. r ∷ read Mode.start [] [] t)
        (append_assoc row (guarded f ∷ []) (map guarded (g ∷ fs)))

read-lines :
    (rows : List (List Text))
    → all nonempty rows ≡ true
    → read Mode.start [] [] (join_lines (map line rows)) ≡ map (map guarded) rows
unfolding read
read-lines [] h = refl
read-lines ([] ∷ rows) h = cc
read-lines ((f ∷ fs) ∷ rows) h =
    read-line f fs [] (join_lines (map line rows))
    ∙ ap (λ r. map guarded (f ∷ fs) ∷ r) (read-lines rows h)

-- A reader of CSV gets back from `toCsv` just the fields of the header and of the rows, each as the guard
-- against formulas leaves it, whatever commas, quotes and line ends they contain, when the header and
-- every row have a field.
pub to_csv-read :
    (headers : List Text) (rows : List (List Text))
    → all nonempty (headers ∷ rows) ≡ true
    → read Mode.start [] [] (to_csv headers rows) ≡ map (map guarded) (headers ∷ rows)
unfolding to_csv
to_csv-read headers rows h = read-lines (headers ∷ rows) h
