-- ===== src/Listings/Like.antt =====
-- `escapeLike` of server/src/models/expense.ts, and the pattern matching of MySQL that it is written
-- for: `LIKE ? ESCAPE '\\'`, character by character under the collation of the column.
use expense_management_syste.Base.{
  ℕ, Bool, true, false, ◌&&◌, ◌||◌, List, [], ◌∷◌, ◌++◌, ◌≡◌, refl, ap, sym, ◌∙◌, ◌↔◌, inl, inr,
  arith, Text, ◌==◌, if◌then◌else◌, Bool-cases,
}

-- `[\\%_]`
abbrev pub is_wildcard : ℕ → Bool
is_wildcard c = (c == b'\\') || (c == b'%') || (c == b'_')

-- `escapeLike`
unfoldable pub escape_like : Text → Text
escape_like [] = []
escape_like (c ∷ s) =
    let rest = escape_like s in if is_wildcard c then b'\\' ∷ c ∷ rest else c ∷ rest

-- `%${escapeLike(search)}%`
unfoldable pub containing : Text → Text
unfolding escape_like
containing search = b'%' ∷ (escape_like search ++ b'%' ∷ [])

-- A pattern, read: any run of characters, any one character, or this character.
pub data Piece : Type 0 where
  run one : Piece
  this : ℕ → Piece

-- An escape at the end stands for itself.
read_pattern : Text → List Piece
read_pattern [] = []
read_pattern (c ∷ []) =
    (if c == b'%' then Piece.run else if c == b'_' then Piece.one else Piece.this c) ∷ []
read_pattern (c ∷ d ∷ p) =
    let after = read_pattern p in
    let rest = read_pattern (d ∷ p) in
    if c == b'\\'
    then Piece.this d ∷ after
    else if c == b'%'
    then Piece.run ∷ rest
    else if c == b'_'
    then Piece.one ∷ rest
    else Piece.this c ∷ rest

-- Whether some rest of a text, the text itself included, is taken.
some_rest : (Text → Bool) → Text → Bool
some_rest p [] = p []
some_rest p (c ∷ t) = p (c ∷ t) || some_rest p t

module _ (same : ℕ → ℕ → Bool) where
  matches : List Piece → Text → Bool
  matches [] [] = true
  matches [] (_ ∷ _) = false
  matches (Piece.run ∷ p) t = some_rest (matches p) t
  matches (Piece.one ∷ p) [] = false
  matches (Piece.one ∷ p) (_ ∷ t) = matches p t
  matches (Piece.this c ∷ p) [] = false
  matches (Piece.this c ∷ p) (d ∷ t) = same c d && matches p t

  -- `t LIKE p ESCAPE '\\'`, where `same` is equality of characters in the collation
  unfoldable pub like : Text → Text → Bool
  unfolding matches some_rest read_pattern
  like p t = matches (read_pattern p) t

  -- Character by character the same.
  abbrev pub SameText : Text → Text → Type 0
  SameText [] [] = Unit
  SameText [] (_ ∷ _) = ⊥
  SameText (_ ∷ _) [] = ⊥
  SameText (c ∷ s) (d ∷ t) = (same c d ≡ true) × SameText s t

  -- A part of the text is the same as the search.
  abbrev pub Contains : Text → Text → Type 0
  Contains search t = (u m v : Text) × (t ≡ u ++ (m ++ v)) × SameText search m

plain : Text → List Piece
plain [] = Piece.run ∷ []
plain (c ∷ s) = Piece.this c ∷ plain s

read_plain :
    (c : ℕ) (q : Text)
    → is_wildcard c ≡ false
    → read_pattern (c ∷ (q ++ b'%' ∷ [])) ≡ Piece.this c ∷ read_pattern (q ++ b'%' ∷ [])
unfolding read_pattern
read_plain c [] h = ground (arith, h)
read_plain c (d ∷ q) h = ground (arith, h)

-- What is read of an escaped search.
read_escaped : (s : Text) → read_pattern (escape_like s ++ b'%' ∷ []) ≡ plain s
unfolding read_pattern escape_like plain
read_escaped [] = refl
read_escaped (c ∷ s) =
    let rest = ap (Piece.this c ∷◌) (read_escaped s) in
    elim (Bool-cases (is_wildcard c)) [
      | inl wild ↦ ground (arith, rest, wild)
      | inr tame ↦ ground (arith, rest, tame, read_plain c (escape_like s) tame)
    ]

module _ (same : ℕ → ℕ → Bool) where
  -- The text begins with a part that is the same as the search.
  abbrev Begins : Text → Text → Type 0
  Begins s t = (m v : Text) × (t ≡ m ++ v) × SameText same s m

  any_rest : (t : Text) → matches same (Piece.run ∷ []) t ≡ true
  unfolding matches some_rest
  any_rest [] = refl
  any_rest (c ∷ t) = any_rest t

  Begins-cons : (c d : ℕ) (s t : Text) → Begins (c ∷ s) (d ∷ t) → (same c d ≡ true) × Begins s t
  Begins-cons c d s t ([], v, e, h) = absurd h
  Begins-cons c d s t (d' ∷ m, v, e, (h, hs)) = (cc, (m, v, cc, hs))

  matches-plain : (s t : Text) → (matches same (plain s) t ≡ true) ↔ Begins s t
  unfolding matches plain
  matches-plain [] t = (λ h. ([], t, refl, tt), λ b. any_rest t)
  matches-plain (c ∷ s) [] = (λ h. cc, no_text)
    where
      no_text : Begins (c ∷ s) [] → false ≡ true
      no_text ([], v, e, h) = absurd h
      no_text (d ∷ m, v, e, h) = cc
  matches-plain (c ∷ s) (d ∷ t) =
      let rest = matches-plain s t in
      (
        λ h.
            let parts : (same c d ≡ true) × (matches same (plain s) t ≡ true) = ground (arith, h) in
            longer parts.0 (rest.0 parts.1),
        λ b.
            let parts = Begins-cons c d s t b in
            let tail = rest.1 parts.1 in let head = parts.0 in ground (arith, head, tail),
      )
    where
      longer : same c d ≡ true → Begins s t → Begins (c ∷ s) (d ∷ t)
      longer h (m, v, e, hs) = (d ∷ m, v, cc, (h, hs))

  some_rest_sound :
      (p : Text → Bool) (t : Text)
      → some_rest p t ≡ true
      → (u v : Text) × (t ≡ u ++ v) × (p v ≡ true)
  unfolding some_rest
  some_rest_sound p [] h = ([], [], refl, h)
  some_rest_sound p (c ∷ t) h = elim (Bool-cases (p (c ∷ t))) [
    | inl here ↦ ([], c ∷ t, refl, here)
    | inr other ↦
        let (u, v, e, hv) = some_rest_sound p t (ground (arith, h, other)) in (c ∷ u, v, cc, hv)
  ]

  some_rest_complete :
      (p : Text → Bool) (u v t : Text) → t ≡ u ++ v → p v ≡ true → some_rest p t ≡ true
  unfolding some_rest
  some_rest_complete p [] [] [] e h = h
  some_rest_complete p [] (d ∷ v) [] e h = cc
  some_rest_complete p (d ∷ u) v [] e h = cc
  some_rest_complete p [] v (c ∷ t) e h = let here : p (c ∷ t) ≡ true = cc in ground (arith, here)
  some_rest_complete p (d ∷ u) v (c ∷ t) e h =
      let rest = some_rest_complete p u v t cc h in ground (arith, rest)

  run_first :
      (q : Text)
      → read_pattern (b'%' ∷ (q ++ b'%' ∷ [])) ≡ Piece.run ∷ read_pattern (q ++ b'%' ∷ [])
  unfolding read_pattern
  run_first [] = refl
  run_first (d ∷ q) = refl

  like-containing_rest :
      (search t : Text)
      → like same (containing search) t ≡ some_rest (matches same (plain search)) t
  unfolding like containing matches
  like-containing_rest search t =
      let e = run_first (escape_like search) ∙ ap (Piece.run ∷◌) (read_escaped search) in
      ap (λ p. matches same p t) e

  -- The pattern that a search becomes takes exactly the texts that contain the search, whatever
  -- wildcards and escapes the search has, and whatever characters the collation takes to be the same.
  pub like-containing :
      (search t : Text) → (like same (containing search) t ≡ true) ↔ Contains same search t
  like-containing search t =
      let e = like-containing_rest search t in
      (
        λ h.
            let (u, r, eq, hr) = some_rest_sound (matches same (plain search)) t (sym e ∙ h) in
            let (m, v, eq', hm) = (matches-plain search r).0 hr in (u, m, v, cc, hm),
        λ c.
            let (u, m, v, eq, hm) = c in
            let begins = (matches-plain search (m ++ v)).1 (m, v, refl, hm) in
            e ∙ some_rest_complete (matches same (plain search)) u (m ++ v) t eq begins,
      )
