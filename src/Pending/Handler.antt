-- ===== src/Pending/Handler.antt =====
-- `getPendingApprovals` of server/src/controllers/approvalController.ts.
use expense_management_syste.Base.{
  ℕ, true, false, not, none, some, List, [], ◌∷◌, Text, filter, map, ◌==◌, if◌then◌else◌,
}
use expense_management_syste.Errors.{Error}
use expense_management_syste.Types.{User, Status}
use expense_management_syste.Db.{M, pure, ◌>>=◌, ◌>>◌, attempt, lift}
use expense_management_syste.Requests.{QueryValue, Page, parse_pagination}
use expense_management_syste.Auth.{
  Request, GraphApi, GraphUser, is_admin, is_nonempty, get_bearer_token, demo_scope,
}
use expense_management_syste.Listings.{
  Server, Listed, ExpenseOptions, ExpenseRow, Submitted, find_all,
}
use expense_management_syste.Pending.Reports.{
  UserCache, find_by_entra_ids, reassign_manager_for_users,
}
use expense_management_syste.Pending.Model.{
  find_pending_by_manager_id, find_pending_by_submitter_ids,
}

-- `meta.reason`
pub data Reason : Type 0 where
  missing_token graph_unavailable graph_consent_required graph_no_direct_reports : Reason

-- `meta`: none for an admin
pub data Source : Type 0 where
  no_meta : Source
  database : Reason → Source
  from_reports : Source

pub record Approvals : Type 0 where
  pub found : Listed ExpenseRow
  pub page : Page
  pub source : Source

-- The options of `findAll` that the handler gives.
abbrev pub pending_options : Page → ExpenseOptions
pending_options p = record {
  status = some Status.pending;
  category = none;
  search = none;
  date_from = none;
  date_to = none;
  sort = none;
  order = none;
  page = some p.page;
  page_size = some p.page_size;
}

abbrev pub reason_of : Error → Reason
reason_of (Error.graph_auth true) = Reason.graph_consent_required
reason_of _ = Reason.graph_unavailable

module _ (server : Server) (ties : Submitted → ℕ) (graph : GraphApi) (cache : UserCache)
    (req : Request) where
  -- `respondFromDatabase`
  unfoldable pub respond_from_database : Page → Reason → M Approvals
  unfolding find_pending_by_manager_id
  respond_from_database p reason = find_pending_by_manager_id ties req.user.id p >>= λ found.
      pure (record { found = found; page = p; source = Source.database reason })

  abbrev pub subordinate_ids : List User → List ℕ
  subordinate_ids users = filter (λ k. not (k == req.user.id)) (map (λ (u : User). u.id) users)

  -- The direct reports, once Graph has answered
  unfoldable pub respond_from_reports : Page → List GraphUser → M Approvals
  unfolding respond_from_database find_by_entra_ids reassign_manager_for_users
      find_pending_by_submitter_ids
  respond_from_reports p [] = respond_from_database p Reason.graph_no_direct_reports
  respond_from_reports p (report ∷ reports) =
      find_by_entra_ids server (map (λ (r : GraphUser). r.id) (report ∷ reports)) >>= λ users.
      reassign_manager_for_users cache users req.user.id
      >> (find_pending_by_submitter_ids ties (subordinate_ids users) p >>= λ found.
          pure (record { found = found; page = p; source = Source.from_reports }))

  unfoldable pub respond_to_admin : Page → M Approvals
  unfolding find_all
  respond_to_admin p = lift (demo_scope (some req.user)) >>= λ session.
      find_all server session (pending_options p) >>= λ found.
      pure (record { found = found; page = p; source = Source.no_meta })

  -- The `try` around the calls to Graph
  unfoldable pub respond_from_graph : Page → Text → M Approvals
  unfolding respond_from_reports respond_from_database
  respond_from_graph p token =
      attempt (graph.get_direct_reports req.user.id token false >>= respond_from_reports p)
        (λ e. respond_from_database p (reason_of e))

  unfoldable pub respond_to_manager : Page → M Approvals
  unfolding respond_from_graph
  respond_to_manager p =
      let token = get_bearer_token req.authorization in
      if req.user.demo_mode
      then respond_from_database p Reason.missing_token
      else if not (is_nonempty token)
      then respond_from_database p Reason.missing_token
      else respond_from_graph p token

  -- `getPendingApprovals`
  unfoldable pub get_pending_approvals : QueryValue → QueryValue → M Approvals
  unfolding respond_to_admin respond_to_manager
  get_pending_approvals page page_size = lift (parse_pagination page page_size) >>= λ p.
      if is_admin req then respond_to_admin p else respond_to_manager p
