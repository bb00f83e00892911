-- ===== src/Requests/Numbers.antt =====
-- Numbers in a path or a query: server/src/utils/requestParsing.ts against decimal printing.
use expense_management_syste.Base.{
  ℕ, zero, suc, ◌+◌, ◌/◌, ◌%◌, ◌≤◌, ◌<◌, ◌≡◌, refl, true, [], ◌∷◌, arith, Text, all, ltb,
  if◌then◌else◌, String, ◌≡◌, All, ◌-◌, ◌*◌, length, sym, ◌∙◌,
}
use expense_management_syste.Errors.{ok}
use expense_management_syste.Requests.Query.{
  QueryValue, is_digit, is_digits, digits_from, number_of, max_safe_integer, parse_positive_id,
}

-- `String(n)`, by fuel: `n` rounds are enough, since each takes a digit off.
print_digits : ℕ → ℕ → Text → Text
print_digits zero n rest = rest
print_digits (suc fuel) n rest =
    let more = print_digits fuel (n / 10) ((n % 10 + b'0') ∷ rest) in
    if ltb n 10 then (n + b'0') ∷ rest else more

pub print : ℕ → Text
unfolding print_digits
print n = print_digits (suc n) n []

digits_from-print_digits :
    (fuel n : ℕ) (rest : Text)
    → n < fuel
    → number_of (print_digits fuel n rest) ≡ digits_from n rest
unfolding print_digits
digits_from-print_digits zero n rest h = absurd (omega arith)
digits_from-print_digits (suc fuel) n rest h =
    ground (arith, digits_from-print_digits fuel (n / 10) ((n % 10 + b'0') ∷ rest))

is_digits-print_digits :
    (fuel n : ℕ) (rest : Text)
    → n < fuel
    → all is_digit rest ≡ true
    → is_digits (print_digits fuel n rest) ≡ true
unfolding print_digits
is_digits-print_digits zero n rest h d = absurd (omega arith)
is_digits-print_digits (suc fuel) n rest h d =
    ground (arith, is_digits-print_digits fuel (n / 10) ((n % 10 + b'0') ∷ rest))

-- A positive safe number that is printed in decimal and put into a path is read back as it was.
pub parse_positive_id-print :
    (n : ℕ) (field : String)
    → 0 < n
    → n ≤ max_safe_integer
    → parse_positive_id (QueryValue.text (print n)) field ≡ ok n
unfolding parse_positive_id print
parse_positive_id-print n field pos safe = ground (
  arith,
  digits_from-print_digits (suc n) n [] (omega arith),
  is_digits-print_digits (suc n) n [] (omega arith) refl,
)

digits-All : (s : Text) → all is_digit s ≡ true → All (λ c. (48 ≤ c) × (c ≤ 57)) s
digits-All [] h = tt
digits-All (c ∷ s) h = ((ground (arith, h), ground (arith, h)), digits-All s (ground (arith, h)))

-- What one digit in front of this text counts: ten to the power of its length.
abbrev pub place : Text → ℕ
place [] = 1
place (_ ∷ s) = 10 * place s

-- The value of a text in decimal.
abbrev pub decimal : Text → ℕ
decimal [] = 0
decimal (c ∷ s) = (c - 48) * place s + decimal s

digits_from-decimal : (acc : ℕ) (s : Text) → digits_from acc s ≡ acc * place s + decimal s
digits_from-decimal acc [] = omega arith
digits_from-decimal acc (c ∷ s) =
    digits_from-decimal (acc * 10 + (c - 48)) s ∙ shifted acc (c - 48) (place s) (decimal s)
  where
    shifted : (a x p r : ℕ) → (a * 10 + x) * p + r ≡ a * (10 * p) + (x * p + r)
    shifted a x p r = grind arith

-- What is accepted as an id is a text of at least one character, all of them the digits 0 to 9; what it
-- is accepted as is its decimal value, which is positive and below 2^53.
pub parse_positive_id_sound :
    (value : QueryValue) (field : String) {n : ℕ}
    → parse_positive_id value field ≡ ok n
    → (raw : Text) × (value ≡ QueryValue.text raw)
      × (1 ≤ length raw)
      × All (λ c. (48 ≤ c) × (c ≤ 57)) raw
      × (decimal raw ≡ n)
      × (0 < n)
      × (n < 9007199254740992)
unfolding parse_positive_id
parse_positive_id_sound (QueryValue.text raw) field {n} h =
    let digits : is_digits raw ≡ true = ground arith in
    let value : number_of raw ≡ n = ground arith in
    (
      raw,
      refl,
      filled raw digits,
      digits-All raw (ground (arith, digits)),
      sym (plain (place raw) (decimal raw)) ∙ sym (digits_from-decimal 0 raw) ∙ value,
      ground arith,
      ground arith,
    )
  where
    plain : (p r : ℕ) → 0 * p + r ≡ r
    plain p r = omega arith

    filled : (s : Text) → is_digits s ≡ true → 1 ≤ length s
    filled [] d = absurd (ground (arith, d))
    filled (c ∷ s) d = omega arith
parse_positive_id_sound _ field h = cc
