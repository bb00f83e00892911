-- ===== src/Uploads/Names.antt =====
-- Download names of server/src/utils/receiptFiles.ts, which go into a response header.
use mathlib.Core.List.{reverse, reverse_aux}
use expense_management_syste.Base.{
  ℕ, Bool, true, false, [], ◌∷◌, ◌++◌, map, Text, codes, all, if◌then◌else◌, ◌≡◌, refl, arith,
  Bool-cases, inl, inr, All, ◌≤◌, ◌⊎◌,
}
use expense_management_syste.Requests.{trim, trim_start}
use expense_management_syste.Uploads.{
  is_safe, is_dot, named_or_receipt, sanitize_receipt_download_name,
}

all-append : (p : ℕ → Bool) (s t : Text) → all p s ≡ true → all p t ≡ true → all p (s ++ t) ≡ true
all-append p [] t h k = k
all-append p (c ∷ s) t h k =
    let rest = all-append p s t (ground (arith, h)) k in ground (arith, h, rest)

all-reverse_aux :
    (p : ℕ → Bool) (s t : Text) → all p s ≡ true → all p t ≡ true → all p (reverse_aux s t) ≡ true
all-reverse_aux p [] t h k = k
all-reverse_aux p (c ∷ s) t h k =
    all-reverse_aux p s (c ∷ t) (ground (arith, h)) (ground (arith, h, k))

all-reverse : (p : ℕ → Bool) (s : Text) → all p s ≡ true → all p (reverse s) ≡ true
all-reverse p s h = all-reverse_aux p s [] h refl

all-trim_start : (p : ℕ → Bool) (s : Text) → all p s ≡ true → all p (trim_start s) ≡ true
all-trim_start p [] h = refl
all-trim_start p (c ∷ s) h =
    let rest = all-trim_start p s (ground (arith, h)) in ground (arith, h, rest)

all-trim : (p : ℕ → Bool) (s : Text) → all p s ≡ true → all p (trim s) ≡ true
unfolding trim
all-trim p s h = all-reverse p (trim_start (reverse (trim_start s))) (
    all-trim_start p (reverse (trim_start s)) (all-reverse p (trim_start s) (all-trim_start p s h)))

all-map : (s : Text) → all is_safe (map (λ c. if is_safe c then c else b'_') s) ≡ true
all-map [] = refl
all-map (c ∷ s) =
    let rest = all-map s in
    elim (Bool-cases (is_safe c)) [
      | inl safe ↦ ground (arith, rest, safe)
      | inr unsafe ↦ ground (arith, rest, unsafe)
    ]

named_or_receipt_safe :
    (s : Text)
    → all is_safe s ≡ true
    → (all is_safe (named_or_receipt s) ≡ true) × (all is_dot (named_or_receipt s) ≡ false)
named_or_receipt_safe [] h = (refl, refl)
named_or_receipt_safe (c ∷ s) h = by_dots (all is_dot (c ∷ s)) refl
  where
    by_dots :
        (b : Bool)
        → all is_dot (c ∷ s) ≡ b
        → (all is_safe (if b then codes "receipt" else c ∷ s) ≡ true)
          × (all is_dot (if b then codes "receipt" else c ∷ s) ≡ false)
    by_dots true dots = (refl, refl)
    by_dots false other = (h, other)

-- The codes of digits, letters, and of `_`, `.`, `-` and the blank.
abbrev pub IsNameCode : ℕ → Type 0
IsNameCode c =
    ((48 ≤ c) × (c ≤ 57))
    ⊎ ((65 ≤ c) × (c ≤ 90))
    ⊎ ((97 ≤ c) × (c ≤ 122))
    ⊎ (c ≡ 95)
    ⊎ (c ≡ 46)
    ⊎ (c ≡ 45)
    ⊎ (c ≡ 32)

is_safe-IsNameCode : (c : ℕ) → is_safe c ≡ true → IsNameCode c
is_safe-IsNameCode c h = ground (arith, h)

all-IsNameCode : (s : Text) → all is_safe s ≡ true → All IsNameCode s
all-IsNameCode [] h = tt
all-IsNameCode (c ∷ s) h =
    (is_safe-IsNameCode c (ground (arith, h)), all-IsNameCode s (ground (arith, h)))

not_dots : (s : Text) → all is_dot s ≡ false → All (λ c. c ≡ 46) s → ⊥
not_dots [] h dots = absurd (ground (arith, h))
not_dots (c ∷ s) h (dot, dots) = not_dots s (ground (arith, h, dot)) dots

-- A download name has only letters, digits, underscores, dots, hyphens and spaces, so it can neither end
-- the quoted name of a header nor the header, and it is neither empty nor made of dots alone.
pub sanitize_receipt_download_name_safe :
    (name : Text)
    → All IsNameCode (sanitize_receipt_download_name name)
      × (¬ All (λ c. c ≡ 46) (sanitize_receipt_download_name name))
unfolding sanitize_receipt_download_name
sanitize_receipt_download_name_safe name =
    let (safe, named) =
      named_or_receipt_safe (trim (map (λ c. if is_safe c then c else b'_') name))
        (all-trim is_safe _ (all-map name)) in
    (all-IsNameCode _ safe, not_dots _ named)
