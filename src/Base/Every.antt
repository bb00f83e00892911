-- ===== src/Base/Every.antt =====
-- What holds of every entry of a list goes on to hold of the lists made from it.
use Prim.Native.Nat.{ℕ, zero, suc}
use mathlib.Core.Path.{◌≡◌}
use mathlib.Core.Logic.{inl, inr}
use mathlib.Core.Bool.{Bool, true}
use mathlib.Core.List.{List, [], ◌∷◌, map}
use expense_management_syste.Base.Tests.{Bool-cases}
use expense_management_syste.Base.Lists.{All, take, drop, filter}
use expense_management_syste.Base.Order.{insert_by, sort_by, slice}

module _ {ℓ κ} {A : Type ℓ} (P : A → Type κ) where
  pub All-take : (n : ℕ) (l : List A) → All P l → All P (take n l)
  All-take zero l h = tt
  All-take (suc n) [] h = tt
  All-take (suc n) (x ∷ l) (hx, h) = (hx, All-take n l h)

  All-drop : (n : ℕ) (l : List A) → All P l → All P (drop n l)
  All-drop zero l h = h
  All-drop (suc n) [] h = tt
  All-drop (suc n) (x ∷ l) (hx, h) = All-drop n l h

  All-insert_by :
      (before : A → A → Bool) (x : A) (l : List A) → P x → All P l → All P (insert_by before x l)
  All-insert_by before x [] hx h = (hx, tt)
  All-insert_by before x (y ∷ l) hx (hy, h) = elim (Bool-cases (before x y)) [
    | inl first ↦ rw (first) (hx, (hy, h))
    | inr later ↦ rw (later) (hy, All-insert_by before x l hx h)
  ]

  pub All-sort_by : (before : A → A → Bool) (l : List A) → All P l → All P (sort_by before l)
  All-sort_by before [] h = tt
  All-sort_by before (x ∷ l) (hx, h) =
      All-insert_by before x (sort_by before l) hx (All-sort_by before l h)

  pub All-slice : (size offset : ℕ) (l : List A) → All P l → All P (slice size offset l)
  All-slice size offset l h = All-take size (drop offset l) (All-drop offset l h)

  -- What a filter lets through passes its test.
  pub All-filter :
      (test : A → Bool) (l : List A) → All P l → All (λ x. P x × (test x ≡ true)) (filter test l)
  All-filter test [] h = tt
  All-filter test (x ∷ l) (hx, h) = elim (Bool-cases (test x)) [
    | inl passes ↦ rw (passes) ((hx, passes), All-filter test l h)
    | inr fails ↦ rw (fails) (All-filter test l h)
  ]

pub All-weaken {ℓ κ} :
    {A : Type ℓ} {P Q : A → Type κ} → ((a : A) → P a → Q a) → (l : List A) → All P l → All Q l
All-weaken h [] g = tt
All-weaken h (x ∷ l) (gx, g) = (h x gx, All-weaken h l g)

pub All-map {ℓ κ} :
    {A B : Type ℓ} (P : A → Type κ) (Q : B → Type κ) (f : A → B)
    → ((a : A) → P a → Q (f a))
    → (l : List A) → All P l
    → All Q (map f l)
All-map P Q f h [] g = tt
All-map P Q f h (x ∷ l) (gx, g) = (h x gx, All-map P Q f h l g)

pub All-both :
    {A : Type 0} (P Q : A → Type 0) (xs : List A) → All P xs → All Q xs → All (λ x. P x × Q x) xs
All-both P Q [] h g = tt
All-both P Q (x ∷ xs) (h, hs) (g, gs) = ((h, g), All-both P Q xs hs gs)
