-- ===== src/Pending/Rows.antt =====
-- Whose rows the two queries for pending expenses of server/src/models/expense.ts give.
use mathlib.Core.List.{Mem}
use mathlib.Core.Path.{subst}
use expense_management_syste.Base.{
  ℕ, true, false, Option, some, List, [], ◌∷◌, ◌≡◌, sym, ap, ◌⊎◌, inl, inr, arith, Text, All,
  All-filter, All-map, All-weaken, filter, map, In, In-filter, In-map, any-In, ◌==◌,
}
use expense_management_syste.Errors.{Result, ok, err}
use expense_management_syste.Types.{User}
use expense_management_syste.Db.{Db, World, pure, query, find_user}
use expense_management_syste.Db.Runs.{Ends, >>=-Ends}
use expense_management_syste.Db.Moments.{Waits, IsSelect, select-Ends}
use expense_management_syste.Requests.{Page, limit_offset}
use expense_management_syste.Auth.{
  Request, GraphApi, GraphUser, is_admin, demo_scope, same_id, get_bearer_token,
}
use expense_management_syste.Listings.{
  Server, Listed, ExpenseRow, Submitted, selected, join_submitters, ledger_matches, is_ledger_match,
  in_scope, list_page, select_count, select_rows,
}
use expense_management_syste.Listings.Scope.{
  Visible, IsRow, join_submitters-rows, select_rows-IsSelect, in_scope-Visible, list_page-Ends,
  rows_in, select_rows-All,
}
use expense_management_syste.Pending.Reports.{
  UserCache, is_among, find_by_entra_ids, select_by_entra_ids,
}
use expense_management_syste.Pending.Model.{
  is_waiting, is_report_match, report_matches, is_submitter_match, submitter_matches, by_creation,
  shown_rows, find_pending_by_manager_id, find_pending_by_submitter_ids,
}
use expense_management_syste.Pending.Handler.{
  Approvals, Reason, Source, pending_options, respond_from_database,
}

-- The row is a pending, live expense of the table, of this user.
abbrev pub WaitingRow : Db → ExpenseRow → User → Type 0
WaitingRow d r u =
    Mem r.expense d.expenses
    × (is_waiting r.expense ≡ true)
    × (find_user r.expense.submitted_by d.users ≡ some u)

abbrev pub rows_of_answer : Result Approvals × World → List ExpenseRow
rows_of_answer (ok a, _) = a.found.rows
rows_of_answer (err _, _) = []

-- The request began in the world `w0`.
module _ (server : Server) (graph : GraphApi) (req : Request) (w0 : World) where
  -- Graph was asked since the request began, with the caller's token and before anything was written, and
  -- answered with a direct report who, in the tables read after the answer, is the user with this id.
  abbrev pub IsReported : ℕ → Type 0
  IsReported k =
      (reports : List GraphUser) × (before after read_at : World) × Waits w0 before
      × Ends (graph.get_direct_reports req.user.id (get_bearer_token req.authorization) false)
          before reports after
      × Waits after read_at
      × ((v : User) × In v read_at.db.users
          × (v.id ≡ k)
          × (is_among server (map (λ (r : GraphUser). r.id) reports) v ≡ true))

  -- Why the caller is shown the pending expenses of the user `u`.
  abbrev pub MayDecide : ExpenseRow → User → Type 0
  MayDecide r u =
      ((is_admin req ≡ true) × Visible server req.user u)
      ⊎ ((r.expense.submitted_by == req.user.id) ≡ false)
        × (same_id u.manager_id req.user.id ≡ true ⊎ IsReported r.expense.submitted_by)

  abbrev pub ShownRow : Db → ExpenseRow → Type 0
  ShownRow d r = (u : User) × WaitingRow d r u × MayDecide r u

  pub ledger-ShownRow :
      (session : Option Text) (p : Page) (d : Db)
      → is_admin req ≡ true
      → demo_scope (some req.user) ≡ ok session
      → All (λ r. ShownRow d (selected r)) (ledger_matches server session (pending_options p) d)
  unfolding ledger_matches is_ledger_match
  ledger-ShownRow session p d admin scoped =
      All-weaken
        (λ r h.
          let inside : in_scope server session r.submitter ≡ true = ground (arith, h.1) in
          (
            r.submitter,
            (h.0.1, ground (arith, h.1), h.0.0),
            inl (admin, in_scope-Visible server req.user session r.submitter scoped inside),
          ))
        (ledger_matches server session (pending_options p) d)
        (All-filter (IsRow d) (is_ledger_match server session (pending_options p))
          (join_submitters d.users d.expenses) (join_submitters-rows d))

  reports-ShownRow : (d : Db) → All (λ r. ShownRow d (selected r)) (report_matches req.user.id d)
  unfolding report_matches is_report_match
  reports-ShownRow d =
      All-weaken
        (λ r h.
          let waits : is_waiting r.expense ≡ true = ground (arith, h.1) in
          (
            r.submitter,
            (h.0.1, waits, h.0.0),
            inr (ground (arith, h.1), inl (ground (arith, h.1))),
          ))
        (report_matches req.user.id d)
        (All-filter (IsRow d) (is_report_match req.user.id) (join_submitters d.users d.expenses)
          (join_submitters-rows d))

  find_pending_by_manager_id-shown :
      (ties : Submitted → ℕ) (p : Page) (w : World) {found : Listed ExpenseRow} {w' : World}
      → Ends (find_pending_by_manager_id ties req.user.id p) w found w'
      → All (ShownRow w'.db) found.rows
  unfolding find_pending_by_manager_id pure
  find_pending_by_manager_id-shown ties p w {found} {w'} h =
      let rows = report_matches req.user.id in
      let order = some (by_creation ties) in
      let (page, w1, listed, answer) =
        >>=-Ends (list_page rows order (some p.page) (some p.page_size))
          (λ (l : Listed Submitted). pure (shown_rows ties l)) w h in
      let (shown, _) = list_page-Ends rows order (some p.page) (some p.page_size) w listed in
      let same : map selected page.rows ≡ found.rows =
        ap (λ (x : Result (Listed ExpenseRow) × World). rows_in x) answer in
      let last : w1 ≡ w' = ap (λ (x : Result (Listed ExpenseRow) × World). x.1) answer in
      subst (λ (v : World). All (ShownRow v.db) found.rows) last
        (subst (All (ShownRow w1.db)) same (
          All-map (λ r. ShownRow w1.db (selected r)) (ShownRow w1.db) selected (λ r v. v) page.rows
            (shown (λ r. ShownRow w1.db (selected r)) (reports-ShownRow w1.db))))

  pub respond_from_database-shown :
      (ties : Submitted → ℕ) (cache : UserCache) (p : Page) (reason : Reason) (w : World)
      {a : Approvals} {w' : World}
      → Ends (respond_from_database server ties graph cache req p reason) w a w'
      → All (ShownRow w'.db) a.found.rows
  unfolding respond_from_database pure
  respond_from_database-shown ties cache p reason w {a} {w'} h =
      let (found, w1, listed, answer) =
        >>=-Ends (find_pending_by_manager_id ties req.user.id p)
          (λ (l : Listed ExpenseRow).
            pure (record { found = l; page = p; source = Source.database reason }))
          w h in
      let shown = find_pending_by_manager_id-shown ties p w listed in
      let last : w1 ≡ w' = ap (λ (x : Result Approvals × World). x.1) answer in
      subst (λ (v : World). All (ShownRow v.db) a.found.rows) last
        (subst (All (ShownRow w1.db)) (ap rows_of_answer answer) shown)

  select_by_entra_ids-IsSelect :
      (ids : List (Option Text)) → IsSelect (select_by_entra_ids server ids)
  unfolding select_by_entra_ids
  select_by_entra_ids-IsSelect ids = record { leaves = λ now d x h. ground (arith, h) }

  -- The users found for the reports are reported users.
  pub found-IsReported :
      (reports : List GraphUser) (before w : World) {users : List User} {w' : World} (k : ℕ)
      → Waits w0 before
      → Ends
          (graph.get_direct_reports req.user.id (get_bearer_token req.authorization) false)
          before
          reports
          w
      → Ends (find_by_entra_ids server (map (λ (r : GraphUser). r.id) reports)) w users w'
      → In k (map (λ (u : User). u.id) users)
      → IsReported k
  unfolding find_by_entra_ids select_by_entra_ids pure
  found-IsReported [] before w {users} k earlier served h there =
      let none_found : [] ≡ users = cc in
      absurd (subst (λ (l : List User). In k (map (λ (u : User). u.id) l)) (sym none_found) there)
  found-IsReported (report ∷ reports) before w {users} {w'} k earlier served h there =
      let ids = map (λ (r : GraphUser). r.id) (report ∷ reports) in
      let (stmt, later) =
        select-Ends (select_by_entra_ids server ids) w (select_by_entra_ids-IsSelect ids) h in
      let same : filter (is_among server ids) w'.db.users ≡ users = cc in
      let (v, found, is) = In-map (λ (u : User). u.id) k users there in
      let (listed, among) =
        (In-filter (is_among server ids) v w'.db.users).0
          (subst (λ (l : List User). In v l) (sym same) found) in
      (report ∷ reports, before, w, w', earlier, served, later, (v, listed, is, among))

  submitters-ShownRow :
      (ids : List ℕ) (d : Db)
      → ((k : ℕ) → In k ids → ((k == req.user.id) ≡ false) × IsReported k)
      → All (λ r. ShownRow d (selected r)) (submitter_matches ids d)
  unfolding submitter_matches is_submitter_match
  submitters-ShownRow ids d reported =
      All-weaken
        (λ r h.
          let waits : is_waiting r.expense ≡ true = ground (arith, h.1) in
          let (k, there, is) =
            (any-In (λ k. k == r.expense.submitted_by) ids).0 (ground (arith, h.1)) in
          let same : k ≡ r.expense.submitted_by = ground (arith, is) in
          let (not_own, reports) = reported k there in
          (
            r.submitter,
            (h.0.1, waits, h.0.0),
            inr (
              subst (λ j. (j == req.user.id) ≡ false) same not_own,
              inr (subst IsReported same reports),
            ),
          ))
        (submitter_matches ids d)
        (All-filter (IsRow d) (λ (r : Submitted). is_submitter_match ids r.expense)
          (join_submitters d.users d.expenses) (join_submitters-rows d))

  pub find_pending_by_submitter_ids-shown :
      (ties : Submitted → ℕ) (ids : List ℕ) (p : Page) (w : World) {found : Listed ExpenseRow}
      {w' : World}
      → ((k : ℕ) → In k ids → ((k == req.user.id) ≡ false) × IsReported k)
      → Ends (find_pending_by_submitter_ids ties ids p) w found w'
      → All (ShownRow w'.db) found.rows
  unfolding find_pending_by_submitter_ids pure
  find_pending_by_submitter_ids-shown ties [] p w {found} {w'} reported h =
      let same : [] ≡ found.rows = ap (λ (x : Result (Listed ExpenseRow) × World). rows_in x) h in
      subst (All (ShownRow w'.db)) same tt
  find_pending_by_submitter_ids-shown ties (k ∷ ids) p w {found} {w'} reported h =
      let bounds = limit_offset (some p.page) (some p.page_size) in
      let rows = submitter_matches (k ∷ ids) in
      let (total, w1, _, h1) =
        >>=-Ends (query (select_count λ d. filter (is_submitter_match (k ∷ ids)) d.expenses)) _ w
          h in
      let (page_rows, w2, read, answer) =
        >>=-Ends (query (select_rows rows (some (by_creation ties)) bounds.0 bounds.1)) _ w1 h1 in
      let order = some (by_creation ties) in
      let (stmt, _) =
        select-Ends (select_rows rows order bounds.0 bounds.1) w1
          (select_rows-IsSelect rows order bounds.0 bounds.1) read in
      let last : w2 ≡ w' = ap (λ (x : Result (Listed ExpenseRow) × World). x.1) answer in
      let same : map selected page_rows ≡ found.rows =
        ap (λ (x : Result (Listed ExpenseRow) × World). rows_in x) answer in
      subst (λ (v : World). All (ShownRow v.db) found.rows) last
        (subst (All (ShownRow w2.db)) same (
          All-map (λ r. ShownRow w2.db (selected r)) (ShownRow w2.db) selected (λ r v. v) page_rows
            (select_rows-All (λ r. ShownRow w2.db (selected r)) rows order bounds.0 bounds.1 w2.now
              w2.db stmt (submitters-ShownRow (k ∷ ids) w2.db reported))))
