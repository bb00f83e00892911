-- ===== src/Listings/Scope.antt =====
-- Whose expenses `getAllExpenses` of server/src/controllers/adminController.ts shows.
use mathlib.Core.List.{Mem, mem-cons_self, mem-cons_of_mem}
use mathlib.Core.Path.{subst}
use expense_management_syste.Base.{
  ℕ, Bool, true, false, Option, none, some, List, [], ◌∷◌, ◌≡◌, refl, sym, ap, ◌∙◌, ◌⊎◌, inl, inr,
  arith, Text, All, All-slice, All-sort_by, All-filter, All-map, All-weaken, All-both, map,
  Option-cases, Bool-cases, sort_by, slice,
}
use expense_management_syste.Errors.{Result, ok, err}
use expense_management_syste.Types.{User, Expense}
use expense_management_syste.Db.{Db, World, pure, query, lift, is_live, find_user}
use expense_management_syste.Db.Runs.{Ends, >>=-Ends, lift-Ends}
use expense_management_syste.Db.Moments.{
  Waits, Waits-of_eq, Waits-trans, Reads, Reads-Ends, Reads-query, reads, IsSelect, select-Ends,
}
use expense_management_syste.Requests.{Page, limit_offset}
use expense_management_syste.Auth.{AuthUser, Request, demo_scope, truthy}
use expense_management_syste.Listings.Order.{Server}
use expense_management_syste.Listings.Statements.{Listed, select_count, select_rows, list_page}
use expense_management_syste.Listings.Model.{
  ExpenseOptions, ExpenseRow, Submitted, selected, join_submitters, in_scope, is_ledger_match,
  ledger_matches, ledger_sort, ledger_order, find_all,
}
use expense_management_syste.Listings.Filters.{ListQuery, paged_options}
use expense_management_syste.Listings.Answers.{get_all_expenses}

-- A demo caller may see the users of its own workspace, anybody else those of no workspace.
abbrev pub Visible : Server → AuthUser → User → Type 0
Visible server caller u =
    ((caller.demo_mode ≡ true)
      × (u.is_demo ≡ true)
      × ((own theirs : Text) × (caller.demo_session_id ≡ some own)
          × (u.demo_session_id ≡ some theirs)
          × (server.equal theirs own ≡ true)))
    ⊎ ((caller.demo_mode ≡ false) × (u.is_demo ≡ false))

-- The row is a live expense of the table, of a user that the caller may see, with the name and the address of that
-- user.
abbrev pub VisibleRow : Server → AuthUser → Db → ExpenseRow → Type 0
VisibleRow server caller d r =
    Mem r.expense d.expenses
    × (is_live r.expense ≡ true)
    × ((u : User) × (find_user r.expense.submitted_by d.users ≡ some u)
        × (r.submitter_name ≡ u.display_name)
        × (r.submitter_email ≡ u.email)
        × Visible server caller u)

abbrev pub IsJoined : List User → Submitted → Type 0
IsJoined users r = find_user r.expense.submitted_by users ≡ some r.submitter

pub join_submitters-IsJoined :
    (users : List User) (es : List Expense) → All (IsJoined users) (join_submitters users es)
join_submitters-IsJoined users [] = tt
join_submitters-IsJoined users (e ∷ es) =
    let rest = join_submitters-IsJoined users es in
    elim (Option-cases (find_user e.submitted_by users)) [
      | inl missing ↦ rw (missing, All) rest
      | inr (u, found) ↦ rw (found, All) (found, rest)
    ]

-- Each row of the join has an expense of the table.
join_submitters-Mem :
    (all : List Expense) (users : List User) (es : List Expense)
    → ((e : Expense) → Mem e es → Mem e all)
    → All (λ r. Mem r.expense all) (join_submitters users es)
join_submitters-Mem all users [] inside = tt
join_submitters-Mem all users (e ∷ es) inside =
    let rest = join_submitters-Mem all users es (λ x m. inside x (mem-cons_of_mem e m)) in
    elim (Option-cases (find_user e.submitted_by users)) [
      | inl missing ↦ rw (missing, All) rest
      | inr (u, found) ↦ rw (found, All) (inside e mem-cons_self, rest)
    ]

abbrev pub IsRow : Db → Submitted → Type 0
IsRow d r = IsJoined d.users r × Mem r.expense d.expenses

pub join_submitters-rows : (d : Db) → All (IsRow d) (join_submitters d.users d.expenses)
join_submitters-rows d =
    All-both (IsJoined d.users) (λ r. Mem r.expense d.expenses) (join_submitters d.users d.expenses)
      (join_submitters-IsJoined d.users d.expenses)
      (join_submitters-Mem d.expenses d.users d.expenses (λ e m. m))

in_session :
    (server : Server) (caller : AuthUser) (own : Text) (u : User)
    → caller.demo_mode ≡ true
    → caller.demo_session_id ≡ some own
    → in_scope server (some own) u ≡ true
    → truthy (some own) ≡ true
    → Visible server caller u
in_session server caller [] u mode same inside full = absurd cc
in_session server caller (c ∷ s) u mode same inside full = elim (Option-cases u.demo_session_id) [
  | inl nobody ↦ absurd (ground (arith, inside, nobody))
  | inr (theirs, stands) ↦
      inl (
        mode,
        ground (arith, inside),
        (c ∷ s, theirs, same, stands, ground (arith, inside, stands)),
      )
]

pub in_scope-Visible :
    (server : Server) (caller : AuthUser) (session : Option Text) (u : User)
    → demo_scope (some caller) ≡ ok session
    → in_scope server session u ≡ true
    → Visible server caller u
unfolding demo_scope
in_scope-Visible server caller session u scoped inside = elim (Bool-cases caller.demo_mode) [
  | inl demo ↦ elim (Option-cases caller.demo_session_id) [
    | inl nobody ↦ absurd (ground (arith, scoped, demo, nobody))
    | inr (own, same) ↦
        let kept : session ≡ some own = ground (arith, scoped, demo, same) in
        let full : truthy (some own) ≡ true = ground (arith, scoped, demo, same) in
        in_session server caller own u demo same
          (subst (λ x. in_scope server x u ≡ true) kept inside) full
  ]
  | inr real ↦
      let kept : session ≡ none = ground (arith, scoped, real) in
      let here = subst (λ x. in_scope server x u ≡ true) kept inside in
      inr (real, ground (arith, here))
]

module _ (server : Server) (caller : AuthUser) where
  ledger_matches-VisibleRow :
      (session : Option Text) (options : ExpenseOptions) (d : Db)
      → demo_scope (some caller) ≡ ok session
      → All (λ r. VisibleRow server caller d (selected r)) (ledger_matches server session options d)
  unfolding ledger_matches is_ledger_match
  ledger_matches-VisibleRow session options d scoped =
      All-weaken
        (λ r h.
          let live : is_live r.expense ≡ true = ground (arith, h) in
          let inside : in_scope server session r.submitter ≡ true = ground (arith, h) in
          (
            h.0.1,
            live,
            (
              r.submitter,
              h.0.0,
              refl,
              refl,
              in_scope-Visible server caller session r.submitter scoped inside,
            ),
          ))
        (ledger_matches server session options d)
        (All-filter (IsRow d) (is_ledger_match server session options)
          (join_submitters d.users d.expenses) (join_submitters-rows d))

pub select_count-IsSelect : {A : Type 0} (rows : Db → List A) → IsSelect (select_count rows)
unfolding select_count
select_count-IsSelect rows = record { leaves = λ now d x h. ground (arith, h) }

pub select_rows-IsSelect :
    {A : Type 0} (rows : Db → List A) (order : Option (A → A → Bool)) (size offset : ℕ)
    → IsSelect (select_rows rows order size offset)
unfolding select_rows
select_rows-IsSelect rows none size offset = record { leaves = λ now d x h. absurd cc }
select_rows-IsSelect rows (some before) size offset = record {
  leaves = λ now d x h. ground (arith, h);
}

abbrev pub rows_in : {A : Type 0} → Result (Listed A) × World → List A
rows_in (ok l, _) = l.rows
rows_in (err _, _) = []

module _ {A : Type 0} where
  pub select_rows-All :
      (P : A → Type 0) (rows : Db → List A) (order : Option (A → A → Bool)) (size offset now : ℕ)
      (d : Db) {found : List A} {d' : Db}
      → select_rows rows order size offset now d ≡ some (found, d')
      → All P (rows d)
      → All P found
  unfolding select_rows
  select_rows-All P rows none size offset now d h g = cc
  select_rows-All P rows (some before) size offset now d {found} h g =
      let same : slice size offset (sort_by before (rows d)) ≡ found = cc in
      subst (All P) same
        (All-slice P size offset (sort_by before (rows d)) (All-sort_by P before (rows d) g))

  -- The rows of a page are rows that the WHERE clause leaves of the tables at the end of the listing.
  pub list_page-Ends :
      (rows : Db → List A) (order : Option (A → A → Bool)) (page page_size : Option ℕ) (w : World)
      {found : Listed A} {w' : World}
      → Ends (list_page rows order page page_size) w found w'
      → ((P : A → Type 0) → All P (rows w'.db) → All P found.rows) × Waits w w'
  unfolding list_page pure
  list_page-Ends rows order page page_size w {found} {w'} h =
      let (total, w1, p, q) = >>=-Ends (query (select_count rows)) _ w h in
      let (some_rows, w2, p', q') =
        >>=-Ends
          (query (
            select_rows rows order (limit_offset page page_size).0 (limit_offset page page_size).1))
          _ w1 q in
      let size = (limit_offset page page_size).0 in
      let offset = (limit_offset page page_size).1 in
      let (stmt, later) =
        select-Ends (select_rows rows order size offset) w1
          (select_rows-IsSelect rows order size offset) p' in
      let last : w2 ≡ w' = ap (λ (x : Result (Listed A) × World). x.1) q' in
      let earlier : Waits w w1 =
        Reads-Ends (Reads-query (select_count rows) (select_count-IsSelect rows)) p in
      let same : some_rows ≡ found.rows = ap (λ (x : Result (Listed A) × World). rows_in x) q' in
      (
        λ P g. subst (All P) same (
            select_rows-All P rows order size offset w2.now w2.db stmt
              (subst (λ (v : World). All P (rows v.db)) (sym last) g)),
        Waits-trans earlier (Waits-trans later (Waits-of_eq last)),
      )

ledger_sort-Reads :
    (server : Server) (options : ExpenseOptions) → Reads (ledger_sort server options)
ledger_sort-Reads server options = search reads

-- The rows of `findAll` are made from rows that its WHERE clause leaves of the tables at its end.
pub find_all-Ends :
    (server : Server) (session : Option Text) (options : ExpenseOptions) (w : World)
    {found : Listed ExpenseRow} {w' : World}
    → Ends (find_all server session options) w found w'
    → ((P : ExpenseRow → Type 0)
        → All (λ r. P (selected r)) (ledger_matches server session options w'.db)
        → All P found.rows)
      × Waits w w'
unfolding find_all pure
find_all-Ends server session options w {found} {w'} h =
    let (sort, w1, h0, h1) = >>=-Ends (ledger_sort server options) _ w h in
    let first : Waits w w1 = Reads-Ends (ledger_sort-Reads server options) h0 in
    let rows = ledger_matches server session options in
    let order = ledger_order server sort in
    let (page, w2, h2, h3) =
      >>=-Ends (list_page rows order options.page options.page_size) _ w1 h1 in
    let (shown, listed) = list_page-Ends rows order options.page options.page_size w1 h2 in
    let last : w2 ≡ w' = ap (λ (x : Result (Listed ExpenseRow) × World). x.1) h3 in
    let same : map selected page.rows ≡ found.rows =
      ap (λ (x : Result (Listed ExpenseRow) × World). rows_in x) h3 in
    (
      λ P g. subst (All P) same (
          All-map (λ r. P (selected r)) P selected (λ r v. v) page.rows
            (shown (λ r. P (selected r))
              (subst (λ (v : World). All (λ r. P (selected r)) (rows v.db)) (sym last) g))),
      Waits-trans first (Waits-trans listed (Waits-of_eq last)),
    )

find_all-visible :
    (server : Server) (caller : AuthUser) (session : Option Text) (options : ExpenseOptions)
    (w : World) {found : Listed ExpenseRow} {w' : World}
    → demo_scope (some caller) ≡ ok session
    → Ends (find_all server session options) w found w'
    → All (VisibleRow server caller w'.db) found.rows × Waits w w'
find_all-visible server caller session options w {found} {w'} scoped h =
    let (shown, waits) = find_all-Ends server session options w h in
    (
      shown (VisibleRow server caller w'.db)
          (ledger_matches-VisibleRow server caller session options w'.db scoped),
      waits,
    )

-- `getAllExpenses` writes nothing, and every row that it shows is a live expense of the tables as they
-- are at its end, whose submitter there the caller may see: in a demo session a demo user of the same
-- session, else a user who is no demo user. The row carries that user's name and address.
pub get_all_expenses-visible :
    (server : Server) (req : Request) (q : ListQuery) (w : World) {found : Listed ExpenseRow}
    {p : Page} {w' : World}
    → Ends (get_all_expenses server req q) w (found, p) w'
    → All (VisibleRow server req.user w'.db) found.rows × Waits w w'
unfolding get_all_expenses pure
get_all_expenses-visible server req q w {found} {p} {w'} h =
    let ((options, _), w1, h0, h1) = >>=-Ends (lift (paged_options q)) _ w h in
    let (session, w2, scoped, h2) = >>=-Ends (lift (demo_scope (some req.user))) _ w1 h1 in
    let first : w ≡ w2 =
      (lift-Ends (paged_options q) w h0).1 ∙ (lift-Ends (demo_scope (some req.user)) w1 scoped).1 in
    let (answer, w3, h3, h4) = >>=-Ends (find_all server session options) _ w2 h2 in
    let (visible, listed) =
      find_all-visible server req.user session options w2
        (lift-Ends (demo_scope (some req.user)) w1 scoped).0 h3 in
    let same : answer ≡ found = cc in
    let last : w3 ≡ w' = ap (λ (x : Result (Listed ExpenseRow × Page) × World). x.1) h4 in
    (
      subst (λ (v : World). All (VisibleRow server req.user v.db) found.rows) last
          (subst (λ (l : Listed ExpenseRow). All (VisibleRow server req.user w3.db) l.rows) same
            visible),
      Waits-trans (Waits-of_eq first) (Waits-trans listed (Waits-of_eq last)),
    )
