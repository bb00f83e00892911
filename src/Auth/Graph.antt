-- ===== src/Auth/Graph.antt =====
-- server/src/services/graphApi.ts as its callers see it: the direct reports of the signed-in user,
-- which come from Microsoft Graph over the network, and `isManagerOf`.
use expense_management_syste.Base.{ℕ, Bool, false, Option, none, some, List, Text, any, text_eq}
use expense_management_syste.Db.{M, pure, ◌>>=◌, Keeps, keeps}
use expense_management_syste.Db.Moments.{Reads, reads}
use expense_management_syste.Requests.{to_lower}

-- The field of a GraphUser that authorization reads; `none` is an id that is no string.
pub record GraphUser : Type 0 where
  pub id : Option Text

-- The calls to Microsoft Graph. A call takes time, in which other requests may commit; it changes
-- nothing of the tables itself.
pub record GraphApi : Type 0 where
  pub get_direct_reports : ℕ → Text → Bool → M (List GraphUser)
  pub reports_keep :
      (user_id : ℕ) (token : Text) (force_refresh : Bool)
      → Keeps (get_direct_reports user_id token force_refresh)
  pub reports_read :
      (user_id : ℕ) (token : Text) (force_refresh : Bool)
      → Reads (get_direct_reports user_id token force_refresh)

abbrev pub has_id : Text → GraphUser → Bool
has_id target report = elim report.id [ none ↦ false | some k ↦ text_eq (to_lower k) target ]

-- `isManagerOf`
unfoldable pub is_manager_of : GraphApi → ℕ → Text → Text → Bool → M Bool
is_manager_of graph manager_id subordinate_entra_id token force_refresh = do
  reports ← graph.get_direct_reports manager_id token force_refresh
  pure (any (has_id (to_lower subordinate_entra_id)) reports)

pub is_manager_of-Reads :
    (graph : GraphApi) (manager_id : ℕ) (entra_id token : Text) (force_refresh : Bool)
    → Reads (is_manager_of graph manager_id entra_id token force_refresh)
unfolding is_manager_of
is_manager_of-Reads graph manager_id entra_id token force_refresh =
    search (reads, graph.reports_read)

pub is_manager_of-Keeps :
    (graph : GraphApi) (manager_id : ℕ) (entra_id token : Text) (force_refresh : Bool)
    → Keeps (is_manager_of graph manager_id entra_id token force_refresh)
unfolding is_manager_of
is_manager_of-Keeps graph manager_id entra_id token force_refresh =
    search (keeps, graph.reports_keep)
