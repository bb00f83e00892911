-- ===== src/Listings/Complete.antt =====
-- What the listings of server/src/models/expense.ts show: pages and exports against the rows that match.
use mathlib.Core.List.{Perm}
use mathlib.Core.Path.{subst}
use expense_management_syste.Base.{
  ℕ, ◌-◌, ◌*◌, ◌≤◌, Bool, true, none, Option, some, List, [], ◌∷◌, All, All-weaken, All-filter,
  All-sort_by, ◌⊎◌, inl, inr, Bool-cases, ◌≡◌, sym, ap, ◌∙◌, arith, length, slice, sort_by,
}
use expense_management_syste.Errors.{Result, ok, err}
use expense_management_syste.Types.{Expense}
use expense_management_syste.Db.{Db, World, lift, is_live}
use expense_management_syste.Db.Alone.{>>=_step, lift_alone}
use expense_management_syste.Requests.{
  Direction, asc, desc, ResolvedSort, resolve_sort, max_safe_integer, max_page_size,
}
use expense_management_syste.Listings.Order.{Server, query_text, ranked, column_order}
use expense_management_syste.Listings.Statements.{Listed, list_page}
use expense_management_syste.Listings.Pages.{
  length-sort_by, sort_by-Perm, joined, joined-cong, joined_all, list_page_alone,
}
use expense_management_syste.Listings.Model.{
  ExpenseOptions, user_expense_sorts, newest_first, is_own_match, expense_orders, own_matches,
  own_order, find_by_user_id,
}

-- Two rows are the same one or one of them comes first: the server has no ties to break.
abbrev pub NoTies : (Expense → Expense → Bool) → Type 0
NoTies before = (a b : Expense) → (a.id ≡ b.id) ⊎ (before a b ≡ true) ⊎ (before b a ≡ true)

ranked-NoTies :
    (direction : Direction) (less : Expense → Expense → Bool)
    → NoTies (ranked direction less (λ e. e.id))
ranked-NoTies asc less a b = elim (Bool-cases (less a b)) [
  | inl first ↦ inr (inl (ground (arith, first)))
  | inr not_first ↦ elim (Bool-cases (less b a)) [
    | inl second ↦ inr (inr (ground (arith, second)))
    | inr tied ↦ ground (arith, not_first, tied)
  ]
]
ranked-NoTies desc less a b = elim (Bool-cases (less a b)) [
  | inl first ↦ inr (inr (ground (arith, first)))
  | inr not_first ↦ elim (Bool-cases (less b a)) [
    | inl second ↦ inr (inl (ground (arith, second)))
    | inr tied ↦ ground (arith, not_first, tied)
  ]
]

own_order-NoTies :
    (server : Server) (sort : ResolvedSort) {before : Expense → Expense → Bool}
    → own_order server sort ≡ some before
    → NoTies before
own_order-NoTies server sort h = by_column (column_order sort.column_sql (expense_orders server)) h
  where
    by_column :
        (o : Option (Expense → Expense → Bool)) {before : Expense → Expense → Bool}
        → (let out : Option (Expense → Expense → Bool) = elim o [
          | none ↦ none
          | some less ↦ some (ranked sort.direction less (λ e. e.id))
        ] in
            out ≡ some before)
        → NoTies before
    by_column none h = absurd cc
    by_column (some less) h =
        let same : ranked sort.direction less (λ (e : Expense). e.id) ≡ _ = cc in
        subst NoTies same (ranked-NoTies sort.direction less)

-- A live expense of this user.
abbrev pub IsOwn : ℕ → Expense → Type 0
IsOwn user_id e = (e.submitted_by ≡ user_id) × (is_live e ≡ true)

own_matches-IsOwn :
    (server : Server) (user_id : ℕ) (options : ExpenseOptions) (d : Db)
    → All (IsOwn user_id) (own_matches server user_id options d)
unfolding own_matches is_own_match
own_matches-IsOwn server user_id options d =
    All-weaken (λ e h. (ground (arith, h.1), ground (arith, h.1)))
      (own_matches server user_id options d)
      (All-filter (λ e. Unit {0}) (is_own_match server user_id options) d.expenses
        (any_row d.expenses))
  where
    any_row : (l : List Expense) → All (λ e. Unit {0}) l
    any_row [] = tt
    any_row (e ∷ l) = (tt, any_row l)

-- The rows of an answer.
abbrev pub rows_of : {A : Type 0} → Result (Listed A) × World → List A
rows_of (ok found, w) = found.rows
rows_of (err e, w) = []

abbrev pub at_page : ExpenseOptions → ℕ → ℕ → ExpenseOptions
at_page options k size = record options { page = some k; page_size = some size }

module _ (server : Server) (user_id : ℕ) (options : ExpenseOptions) (w : World) where
  page_rows :
      (k size : ℕ) {sort : ResolvedSort} {before : Expense → Expense → Bool}
      → w.events ≡ []
      → resolve_sort
          (query_text options.sort)
          (query_text options.order)
          user_expense_sorts
          (newest_first "created_at")
        ≡ ok sort
      → own_order server sort ≡ some before
      → 1 ≤ k
      → k ≤ max_safe_integer
      → 1 ≤ size
      → size ≤ max_page_size
      → rows_of (find_by_user_id server user_id (at_page options k size) w)
        ≡ slice size ((k - 1) * size) (sort_by before (own_matches server user_id options w.db))
  unfolding find_by_user_id own_matches is_own_match
  page_rows k size {sort} {before} quiet sorted ordered hk hk' hs hs' =
      let rows = own_matches server user_id options in
      let r =
        resolve_sort (query_text options.sort) (query_text options.order) user_expense_sorts
          (newest_first "created_at") in
      ap rows_of (
        >>=_step (lift r) _ w (lift_alone r w sorted)
        ∙ ap (λ o. list_page rows o (some k) (some size) w) ordered
        ∙ list_page_alone rows before k size w quiet hk hk' hs hs')

  -- Pages 1 to `n` of a submitter's expenses, read while nothing else happens and enough to hold all
  -- that match, show one after the other the matching rows in the requested order: each row that
  -- matches stands on one page, once, and no other row does. They are live expenses of the submitter. In
  -- that order no two rows with different ids tie, so that the server has no choice between pages.
  pub find_by_user_id-pages :
      (size n : ℕ) {sort : ResolvedSort} {before : Expense → Expense → Bool}
      → w.events ≡ []
      → resolve_sort
          (query_text options.sort)
          (query_text options.order)
          user_expense_sorts
          (newest_first "created_at")
        ≡ ok sort
      → own_order server sort ≡ some before
      → 1 ≤ size
      → size ≤ max_page_size
      → n ≤ max_safe_integer
      → length (own_matches server user_id options w.db) ≤ n * size
      → let shown =
          joined (λ k. rows_of (find_by_user_id server user_id (at_page options k size) w)) n in
        (shown ≡ sort_by before (own_matches server user_id options w.db))
        × Perm shown (own_matches server user_id options w.db)
        × All (IsOwn user_id) shown
        × NoTies before
  find_by_user_id-pages size n {sort} {before} quiet sorted ordered hs hs' hn enough =
      let rows = own_matches server user_id options w.db in
      let perm = sort_by-Perm before rows in
      let whole =
        joined-cong _ _ n (λ k a b. page_rows k size quiet sorted ordered a (omega arith) hs hs')
        ∙ joined_all size n (sort_by before rows)
            (subst (λ l. l ≤ n * size) (sym (length-sort_by before rows)) enough) in
      (
        whole,
        subst (λ l. Perm l rows) (sym whole) perm,
        subst (All (IsOwn user_id)) (sym whole) (
            All-sort_by (IsOwn user_id) before rows
              (own_matches-IsOwn server user_id options w.db)),
        own_order-NoTies server sort ordered,
      )
