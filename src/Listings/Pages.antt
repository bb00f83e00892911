-- ===== src/Listings/Pages.antt =====
-- The pages of a listing put together, and what an export leaves out.
use mathlib.Core.List.{Perm}
use mathlib.Core.List.Perm
use expense_management_syste.Base.{
  ℕ, zero, suc, ◌+◌, ◌-◌, ◌*◌, ◌≤◌, Bool, true, some, List, [], ◌∷◌, ◌++◌, ◌≡◌, refl, sym, ap, ◌∙◌,
  arith, Bool-cases, inl, inr, length, take, drop, slice, insert_by, sort_by, min, take_all,
}
use expense_management_syste.Errors.{ok}
use expense_management_syste.Db.{Db, World, pure, ◌>>=◌, query}
use expense_management_syste.Db.Alone.{>>=_step, query_alone}
use expense_management_syste.Requests.{
  limit_offset, normalize_positive_integer, max_safe_integer, max_page_size, is_positive_safe,
}
use expense_management_syste.Listings.Statements.{select_count, select_rows, list_page}

module _ {A : Type 0} where
  insert_by-Perm :
      (before : A → A → Bool) (x : A) (l : List A) → Perm (insert_by before x l) (x ∷ l)
  insert_by-Perm before x [] = Perm.rfl
  insert_by-Perm before x (y ∷ ys) = elim (Bool-cases (before x y)) [
    | inl first ↦ rw (first) Perm.rfl
    | inr later ↦
        rw (later) (Perm.trans (Perm.cons y (insert_by-Perm before x ys)) (Perm.swap x y ys))
  ]

  -- Ordering loses no row and makes up none.
  pub sort_by-Perm : (before : A → A → Bool) (l : List A) → Perm (sort_by before l) l
  sort_by-Perm before [] = Perm.rfl
  sort_by-Perm before (x ∷ xs) =
      Perm.trans (insert_by-Perm before x (sort_by before xs))
        (Perm.cons x (sort_by-Perm before xs))

  length-insert_by :
      (before : A → A → Bool) (x : A) (l : List A) → length (insert_by before x l) ≡ suc (length l)
  length-insert_by before x [] = refl
  length-insert_by before x (y ∷ ys) =
      let rest = length-insert_by before x ys in
      elim (Bool-cases (before x y)) [
        | inl first ↦ rw (first) refl
        | inr later ↦ rw (later, rest) refl
      ]

  pub length-sort_by : (before : A → A → Bool) (l : List A) → length (sort_by before l) ≡ length l
  length-sort_by before [] = refl
  length-sort_by before (x ∷ xs) =
      length-insert_by before x (sort_by before xs) ∙ ap suc (length-sort_by before xs)

  take_nil : (n : ℕ) → take {A = A} n [] ≡ []
  take_nil zero = refl
  take_nil (suc n) = refl

  take-add : (n k m : ℕ) (l : List A) → m ≡ n + k → take n l ++ take k (drop n l) ≡ take m l
  take-add zero k m l e = let same : k ≡ m = omega arith in ap (λ i. take i l) same
  take-add (suc n) k m [] e = take_nil k ∙ sym (take_nil m)
  take-add (suc n) k zero (x ∷ l) e = absurd (omega arith)
  take-add (suc n) k (suc m) (x ∷ l) e = ap (x ∷◌) (take-add n k m l (omega arith))

  -- The first `n` pages, one after the other.
  abbrev pub joined : (ℕ → List A) → ℕ → List A
  joined page zero = []
  joined page (suc n) = joined page n ++ page (suc n)

  joined-slice :
      (size n : ℕ) (l : List A) → joined (λ k. slice size ((k - 1) * size) l) n ≡ take (n * size) l
  joined-slice size zero l =
      let none_yet : 0 * size ≡ 0 = omega arith in ap (λ i. take i l) (sym none_yet)
  joined-slice size (suc n) l =
      let here : (suc n - 1) * size ≡ n * size = ap (λ i. i * size) (omega arith) in
      let total : suc n * size ≡ n * size + size = omega arith in
      ap (λ p. p ++ slice size ((suc n - 1) * size) l) (joined-slice size n l)
      ∙ ap (λ o. take (n * size) l ++ take size (drop o l)) here
      ∙ take-add (n * size) size (suc n * size) l total

  -- Pages that agree one by one agree when they are joined.
  pub joined-cong :
      (f g : ℕ → List A) (n : ℕ) → ((k : ℕ) → 1 ≤ k → k ≤ n → f k ≡ g k) → joined f n ≡ joined g n
  joined-cong f g zero h = refl
  joined-cong f g (suc n) h =
      let rest = joined-cong f g n (λ k a b. h k a (omega arith)) in
      let last = h (suc n) (omega arith) (omega arith) in cc

  -- The pages of a sequence are together the sequence, once they are enough.
  pub joined_all :
      (size n : ℕ) (l : List A)
      → length l ≤ n * size
      → joined (λ k. slice size ((k - 1) * size) l) n ≡ l
  joined_all size n l h = joined-slice size n l ∙ take_all (n * size) l h

-- The LIMIT and OFFSET of a page within the bounds.
pub limit_offset_page :
    (k size : ℕ)
    → 1 ≤ k
    → k ≤ max_safe_integer
    → 1 ≤ size
    → size ≤ max_page_size
    → limit_offset (some k) (some size) ≡ (size, (k - 1) * size)
unfolding limit_offset normalize_positive_integer
limit_offset_page k size hk hk' hs hs' =
    let page_ok : is_positive_safe k ≡ true = ground arith in
    let size_ok : is_positive_safe size ≡ true = ground arith in
    let kept : min size max_page_size ≡ size = omega arith in rw (page_ok, size_ok, kept) refl

module _ {A : Type 0} where
  pub list_page_alone :
      (rows : Db → List A) (before : A → A → Bool) (k size : ℕ) (w : World)
      → w.events ≡ []
      → 1 ≤ k
      → k ≤ max_safe_integer
      → 1 ≤ size
      → size ≤ max_page_size
      → list_page rows (some before) (some k) (some size) w ≡ (
        ok (record {
          rows = slice size ((k - 1) * size) (sort_by before (rows w.db));
          total = length (rows w.db);
        }),
        w,
      )
  unfolding list_page select_count select_rows pure
  list_page_alone rows before k size w quiet hk hk' hs hs' =
      let cut = limit_offset_page k size hk hk' hs hs' in
      let counted = query_alone (select_count rows) w {a = length (rows w.db)} quiet refl in
      let found =
        query_alone (select_rows rows (some before) size ((k - 1) * size)) w
          {a = slice size ((k - 1) * size) (sort_by before (rows w.db))} quiet refl in
      >>=_step (query (select_count rows)) _ w counted
      ∙ ap
          (λ (p : ℕ × ℕ).
            (do
              page_rows ← query (select_rows rows (some before) p.0 p.1)
              pure (record { rows = page_rows; total = length (rows w.db) }))
              w)
          cut
      ∙ >>=_step (query (select_rows rows (some before) size ((k - 1) * size))) _ w found
