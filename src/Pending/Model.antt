-- ===== src/Pending/Model.antt =====
-- `findPendingByManagerId` and `findPendingBySubmitterIds` of server/src/models/expense.ts.
use expense_management_syste.Base.{
  ℕ, Bool, not, ◌&&◌, some, List, [], ◌∷◌, any, filter, map, ltb, ◌==◌,
}
use expense_management_syste.Types.{Expense, Status, status_eq}
use expense_management_syste.Db.{Db, M, pure, ◌>>=◌, query, is_live}
use expense_management_syste.Requests.{desc, limit_offset, Page}
use expense_management_syste.Auth.{same_id}
use expense_management_syste.Listings.{
  Listed, select_count, select_rows, list_page, ranked, Submitted, ExpenseRow, selected,
  join_submitters,
}

abbrev pub is_waiting : Expense → Bool
is_waiting e = status_eq e.status Status.pending && is_live e

-- The WHERE clause of `findPendingByManagerId`
unfoldable pub is_report_match : ℕ → Submitted → Bool
is_report_match manager_id r =
    is_waiting r.expense
    && not (r.expense.submitted_by == manager_id)
    && same_id r.submitter.manager_id manager_id

unfoldable pub report_matches : ℕ → Db → List Submitted
unfolding is_report_match
report_matches manager_id d =
    filter (is_report_match manager_id) (join_submitters d.users d.expenses)

-- The WHERE clause of `findPendingBySubmitterIds`
unfoldable pub is_submitter_match : List ℕ → Expense → Bool
is_submitter_match ids e = is_waiting e && any (λ k. k == e.submitted_by) ids

unfoldable pub submitter_matches : List ℕ → Db → List Submitted
unfolding is_submitter_match
submitter_matches ids d =
    filter (λ (r : Submitted). is_submitter_match ids r.expense)
      (join_submitters d.users d.expenses)

-- `ORDER BY e.created_at DESC`; the server breaks ties by `ties`.
module _ (ties : Submitted → ℕ) where
  abbrev pub by_creation : Submitted → Submitted → Bool
  by_creation = ranked desc (λ a b. ltb a.expense.created_at b.expense.created_at) ties

  abbrev pub shown_rows : Listed Submitted → Listed ExpenseRow
  shown_rows found = record { rows = map selected found.rows; total = found.total }

  -- `findPendingByManagerId`
  unfoldable pub find_pending_by_manager_id : ℕ → Page → M (Listed ExpenseRow)
  unfolding report_matches list_page
  find_pending_by_manager_id manager_id p =
      list_page (report_matches manager_id) (some by_creation) (some p.page) (some p.page_size)
      >>= λ found. pure (shown_rows found)

  -- `findPendingBySubmitterIds`, which counts without the join
  unfoldable pub find_pending_by_submitter_ids : List ℕ → Page → M (Listed ExpenseRow)
  unfolding is_submitter_match submitter_matches select_count select_rows
  find_pending_by_submitter_ids [] p = pure (record { rows = []; total = 0 })
  find_pending_by_submitter_ids (k ∷ ids) p = do
    let bounds = limit_offset (some p.page) (some p.page_size)
    total ← query (select_count λ d. filter (is_submitter_match (k ∷ ids)) d.expenses)
    page_rows ←
        query (select_rows (submitter_matches (k ∷ ids)) (some by_creation) bounds.0 bounds.1)
    pure (shown_rows (record { rows = page_rows; total = total }))
