-- ===== src/Csv/Safe.antt =====
-- The guard against formulas of server/src/utils/csv.ts.
use expense_management_syste.Base.{
  ℕ, Bool, false, leb, ◌||◌, ◌&&◌, ◌==◌, [], ◌∷◌, ◌≡◌, refl, arith, Text, ◌⊎◌, inl, inr, Bool-cases,
}
use expense_management_syste.Csv.{is_lead_in, guarded}

-- The control characters and the blank of ASCII (0 to 32), and + - = @.
abbrev pub opens_formula : ℕ → Bool
opens_formula c = leb c 32 || (c == 43) || (c == 45) || (c == 61) || (c == 64)

-- The blanks beyond ASCII.
abbrev pub is_wide_blank : ℕ → Bool
is_wide_blank c =
    (c == 160)
    || (c == 5760)
    || leb 8192 c && leb c 8202
    || (c == 8232)
    || (c == 8233)
    || (c == 8239)
    || (c == 8287)
    || (c == 12288)
    || (c == 65279)

-- Whether a spreadsheet may evaluate the cell or strip its first character, by the code of that one.
abbrev pub is_live_cell : Text → Bool
is_live_cell [] = false
is_live_cell (c ∷ _) = opens_formula c || is_wide_blank c

plain-opens_formula : (c : ℕ) → is_lead_in c ≡ false → opens_formula c ≡ false
plain-opens_formula c h = ground (arith, h)

plain-is_wide_blank : (c : ℕ) → is_lead_in c ≡ false → is_wide_blank c ≡ false
plain-is_wide_blank c h = ground (arith, h)

-- The guard of `escapeField` leaves no cell that begins with a formula character, a blank or a control
-- character, and it changes nothing but for one apostrophe in front.
pub guarded-is_live_cell :
    (s : Text) → (is_live_cell (guarded s) ≡ false) × ((guarded s ≡ s) ⊎ (guarded s ≡ 39 ∷ s))
guarded-is_live_cell [] = (refl, inl refl)
guarded-is_live_cell (c ∷ s) = elim (Bool-cases (is_lead_in c)) [
  | inl live ↦ rw (live) (refl, inr refl)
  | inr plain ↦
      let ascii = plain-opens_formula c plain in
      let wide = plain-is_wide_blank c plain in rw (plain, ascii, wide) (refl, inl refl)
]
