-- ===== src/Listings/Trail.antt =====
-- The listings of server/src/models/auditLog.ts, and `getAuditLogs` of
-- server/src/controllers/adminController.ts.
use expense_management_syste.Base.{
  ℕ, Bool, ◌&&◌, Option, none, some, List, [], ◌∷◌, String, Text, codes, leb, ltb, ◌==◌, any,
  filter, map,
}
use expense_management_syste.Types.{User, AuditLog, AuditAction}
use expense_management_syste.Db.{Db, M, pure, ◌>>=◌, lift, query, find_user}
use expense_management_syste.Requests.{
  QueryValue, ResolvedSort, resolve_sort, limit_offset, parse_positive_integer, parse_enum_query,
  parse_date_query, parse_string_query, parse_pagination, Page,
}
use expense_management_syste.Auth.{Request, demo_scope}
use expense_management_syste.Listings.Order.{
  Server, if_given, if_defined, query_text, ranked, column_order, action_place, action_name,
}
use expense_management_syste.Listings.Statements.{
  Listed, Exported, select_count, select_rows, export_rows,
}
use expense_management_syste.Listings.Model.{in_scope, newest_first}
use expense_management_syste.Listings.Filters.{named_in}

pub record AuditOptions : Type 0 where
  pub expense_id : Option ℕ
  pub performed_by : Option ℕ
  pub action : Option AuditAction
  pub date_from : Option Text
  pub date_to : Option Text
  pub sort : Option Text
  pub order : Option Text
  pub page : Option ℕ
  pub page_size : Option ℕ

-- `AUDIT_LOG_SORTS`
abbrev pub audit_log_sorts : List (Text × String)
audit_log_sorts =
    (codes "expense", "expense_id")
    ∷ (codes "action", "action")
    ∷ (codes "actor", "performed_by")
    ∷ (codes "when", "created_at")
    ∷ []

-- `AUDIT_LOG_EXPORT_SORTS`
abbrev pub audit_log_export_sorts : List (Text × String)
audit_log_export_sorts =
    (codes "expense", "a.expense_id")
    ∷ (codes "action", "a.action")
    ∷ (codes "actor", "a.performed_by")
    ∷ (codes "when", "a.created_at")
    ∷ []

-- A row of `audit_logs a JOIN users u ON a.performed_by = u.id`
pub record Performed : Type 0 where
  pub entry : AuditLog
  pub performer : User

-- The row of an export, with the performer's name.
pub record AuditLogExportRow : Type 0 where
  pub entry : AuditLog
  pub performer_name : Text

abbrev pub join_performers : List User → List AuditLog → List Performed
join_performers users [] = []
join_performers users (a ∷ rest_entries) =
    let rest = join_performers users rest_entries in
    elim (find_user a.performed_by users) [
      | none ↦ rest
      | some u ↦ (record { entry = a; performer = u }) ∷ rest
    ]

module _ (server : Server) where
  abbrev entry_filters : AuditOptions → AuditLog → Bool
  entry_filters options a =
      if_defined options.expense_id (λ k. a.expense_id == k)
      && if_defined options.performed_by (λ k. a.performed_by == k)
      && if_defined options.action (λ action. action_place a.action == action_place action)
      && if_given options.date_from (λ day. leb (server.midnight day) a.created_at)
      && if_given options.date_to (λ day. leb a.created_at (server.midnight day))

  -- The WHERE clause of `findAll`; the users of the scope are a subquery.
  unfoldable pub is_audit_match : List User → Option Text → AuditOptions → AuditLog → Bool
  is_audit_match users demo_session_id options a =
      any (λ u. in_scope server demo_session_id u && (u.id == a.performed_by)) users
      && entry_filters options a

  unfoldable pub audit_matches : Option Text → AuditOptions → Db → List AuditLog
  audit_matches demo_session_id options d =
      filter (is_audit_match d.users demo_session_id options) d.audit_logs

  -- The joined rows that the WHERE clause of `findAllForExport` leaves.
  unfoldable pub audit_export_matches : Option Text → AuditOptions → Db → List Performed
  audit_export_matches demo_session_id options d =
      filter (λ r. in_scope server demo_session_id r.performer && entry_filters options r.entry)
        (join_performers d.users d.audit_logs)

  abbrev pub audit_orders : List (String × (AuditLog → AuditLog → Bool))
  audit_orders =
      ("expense_id", λ a b. ltb a.expense_id b.expense_id)
      ∷ ("action", λ a b. ltb (action_place a.action) (action_place b.action))
      ∷ ("performed_by", λ a b. ltb a.performed_by b.performed_by)
      ∷ ("created_at", λ a b. ltb a.created_at b.created_at)
      ∷ []

  abbrev pub audit_export_orders : List (String × (Performed → Performed → Bool))
  audit_export_orders =
      ("a.expense_id", λ a b. ltb a.entry.expense_id b.entry.expense_id)
      ∷ ("a.action", λ a b. ltb (action_place a.entry.action) (action_place b.entry.action))
      ∷ ("a.performed_by", λ a b. ltb a.entry.performed_by b.entry.performed_by)
      ∷ ("a.created_at", λ a b. ltb a.entry.created_at b.entry.created_at)
      ∷ []

  abbrev pub audit_order : ResolvedSort → Option (AuditLog → AuditLog → Bool)
  audit_order sort = elim (column_order sort.column_sql audit_orders) [
    | none ↦ none
    | some less ↦ some (ranked sort.direction less (λ a. a.id))
  ]

  abbrev pub audit_export_order : ResolvedSort → Option (Performed → Performed → Bool)
  audit_export_order sort = elim (column_order sort.column_sql audit_export_orders) [
    | none ↦ none
    | some less ↦ some (ranked sort.direction less (λ r. r.entry.id))
  ]

  -- `findAll`
  unfoldable pub find_all : Option Text → AuditOptions → M (Listed AuditLog)
  unfolding audit_matches
  find_all demo_session_id options = do
    total ← query (select_count (audit_matches demo_session_id options))
    sort ← lift (
        resolve_sort (query_text options.sort) (query_text options.order) audit_log_sorts
          (newest_first "created_at"))
    rows ← query (
        select_rows (audit_matches demo_session_id options) (audit_order sort)
          (limit_offset options.page options.page_size).0
          (limit_offset options.page options.page_size).1)
    pure (record { rows = rows; total = total })

  -- `findAllForExport`
  unfoldable pub find_all_for_export : Option Text → AuditOptions → M (Exported AuditLogExportRow)
  unfolding audit_export_matches
  find_all_for_export demo_session_id options = do
    sort ← lift (
        resolve_sort (query_text options.sort) (query_text options.order) audit_log_export_sorts
          (newest_first "a.created_at"))
    found ← export_rows (audit_export_matches demo_session_id options) (audit_export_order sort)
    pure (record {
      rows =
          map (λ r. record { entry = r.entry; performer_name = r.performer.display_name })
            found.rows;
      capped = found.capped;
    })

-- The members of `req.query` that `getAuditLogs` reads.
pub record AuditQuery : Type 0 where
  pub expense_id : QueryValue
  pub performed_by : QueryValue
  pub action : QueryValue
  pub date_from : QueryValue
  pub date_to : QueryValue
  pub sort : QueryValue
  pub order : QueryValue
  pub page : QueryValue
  pub page_size : QueryValue

abbrev audit_actions : List AuditAction
audit_actions =
    AuditAction.submitted ∷ AuditAction.resubmitted ∷ AuditAction.approved ∷ AuditAction.rejected
    ∷ AuditAction.overridden ∷ AuditAction.updated ∷ AuditAction.deleted ∷ []

-- The options that `getAuditLogs` reads from the query, before the scope.
unfoldable pub audit_options : AuditQuery → M (AuditOptions × Page)
audit_options q = do
  expense_id ← lift (parse_positive_integer q.expense_id "expense_id")
  performed_by ← lift (parse_positive_integer q.performed_by "performed_by")
  action ← lift (parse_enum_query q.action "action" (map action_name audit_actions))
  date_from ← lift (parse_date_query q.date_from "date_from")
  date_to ← lift (parse_date_query q.date_to "date_to")
  sort ← lift (parse_string_query q.sort "sort" 32)
  order ← lift (parse_string_query q.order "order" 4)
  p ← lift (parse_pagination q.page q.page_size)
  pure (
    record {
      expense_id = expense_id;
      performed_by = performed_by;
      action = named_in action_name audit_actions action;
      date_from = date_from;
      date_to = date_to;
      sort = sort;
      order = order;
      page = some p.page;
      page_size = some p.page_size;
    },
    p,
  )

-- `getAuditLogs`
unfoldable pub get_audit_logs : Server → Request → AuditQuery → M (Listed AuditLog × Page)
unfolding audit_options find_all
get_audit_logs server req q = do
  (options, p) ← audit_options q
  session ← lift (demo_scope (some req.user))
  found ← find_all server session options
  pure (found, p)
