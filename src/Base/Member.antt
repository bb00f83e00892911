-- ===== src/Base/Member.antt =====
-- Membership in a list as a choice of place, and what filters, joins and searches do to it.
use mathlib.Core.Path.{◌≡◌, refl, sym, ap, ◌∙◌, subst}
use mathlib.Core.Logic.{◌↔◌, ◌⊎◌, inl, inr}
use mathlib.Core.Bool.{Bool, true, false}
use mathlib.Core.List.{List, [], ◌∷◌, ◌++◌, map}
use native.Mathlib.Omega.{arith}
use expense_management_syste.Base.Tests.{Bool-cases}
use expense_management_syste.Base.Lists.{filter, any, All}

module _ {A : Type 0} where
  abbrev pub In : A → List A → Type 0
  In x [] = ⊥
  In x (y ∷ l) = (x ≡ y) ⊎ In x l

  pub In-append : (x : A) (a b : List A) → In x (a ++ b) ↔ (In x a ⊎ In x b)
  In-append x [] b = (λ h. inr h, λ h. elim h [ inl none ↦ absurd none | inr there ↦ there ])
  In-append x (y ∷ a) b =
      let rest = In-append x a b in
      (
        λ h. elim h [
          | inl here ↦ inl (inl here)
          | inr later ↦ elim (rest.0 later) [ inl left ↦ inl (inr left) | inr right ↦ inr right ]
        ],
        λ h. elim h [
          | inl left ↦ elim left [ inl here ↦ inl here | inr later ↦ inr (rest.1 (inl later)) ]
          | inr right ↦ inr (rest.1 (inr right))
        ],
      )

  pub In-filter :
      (test : A → Bool) (x : A) (l : List A) → In x (filter test l) ↔ (In x l × (test x ≡ true))
  In-filter test x [] = (λ h. absurd h, λ h. absurd h.0)
  In-filter test x (y ∷ l) =
      let rest = In-filter test x l in
      elim (Bool-cases (test y)) [
        | inl passes ↦ rw (passes) (
          λ h. elim h [
            | inl here ↦ (inl here, ap test here ∙ passes)
            | inr later ↦ (inr (rest.0 later).0, (rest.0 later).1)
          ],
          λ h. elim h.0 [ inl here ↦ inl here | inr later ↦ inr (rest.1 (later, h.1)) ],
        )
        | inr fails ↦ rw (fails) (
          λ h. (inr (rest.0 h).0, (rest.0 h).1),
          λ h. elim h.0 [
            | inl here ↦ absurd (let both : true ≡ false = sym h.1 ∙ ap test here ∙ fails in cc)
            | inr later ↦ rest.1 (later, h.1)
          ],
        )
      ]

  pub any-In :
      (test : A → Bool) (l : List A) → (any test l ≡ true) ↔ ((x : A) × In x l × (test x ≡ true))
  any-In test [] = (λ h. absurd cc, λ (x, there, h). absurd there)
  any-In test (y ∷ l) =
      let rest = any-In test l in
      elim (Bool-cases (test y)) [
        | inl passes ↦ (λ h. (y, inl refl, passes), λ h. rw (passes) refl)
        | inr fails ↦ (
          λ h.
              let later : any test l ≡ true = ground (arith, h, fails) in
              let (x, there, hx) = rest.0 later in (x, inr there, hx),
          λ (x, there, hx). elim there [
            | inl here ↦ absurd (let both : true ≡ false = sym hx ∙ ap test here ∙ fails in cc)
            | inr later ↦ let found = rest.1 (x, later, hx) in ground (arith, found)
          ],
        )
      ]

  pub All-In {κ} : (P : A → Type κ) (l : List A) → ((x : A) → In x l → P x) → All P l
  All-In P [] h = tt
  All-In P (x ∷ l) h = (h x (inl refl), All-In P l λ y there. h y (inr there))

pub In-map :
    {A B : Type 0} (f : A → B) (y : B) (l : List A) → In y (map f l) → (x : A) × In x l × (f x ≡ y)
In-map f y [] h = absurd h
In-map f y (x ∷ l) h = elim h [
  | inl here ↦ (x, inl refl, sym here)
  | inr later ↦ let (z, there, same) = In-map f y l later in (z, inr there, same)
]

-- The lists that `f` gives for the entries, one after the other.
abbrev pub flat : {A B : Type 0} → (A → List B) → List A → List B
flat f [] = []
flat f (x ∷ l) = f x ++ flat f l

pub In-flat :
    {A B : Type 0} (f : A → List B) (y : B) (l : List A)
    → In y (flat f l) ↔ ((x : A) × In x l × In y (f x))
In-flat f y [] = (λ h. absurd h, λ (x, there, h). absurd there)
In-flat f y (x ∷ l) =
    let rest = In-flat f y l in
    let split = In-append y (f x) (flat f l) in
    (
      λ h. elim (split.0 h) [
        | inl here ↦ (x, inl refl, here)
        | inr later ↦ let (z, there, hz) = rest.0 later in (z, inr there, hz)
      ],
      λ (z, there, hz). elim there [
        | inl same ↦ split.1 (inl (subst (λ v. In y (f v)) same hz))
        | inr later ↦ split.1 (inr (rest.1 (z, later, hz)))
      ],
    )
