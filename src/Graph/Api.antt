-- ===== src/Graph/Api.antt =====
-- The Graph client as the interface that server/src/services/managerAuthorization.ts calls.
use expense_management_syste.Base.{true, List, map}
use expense_management_syste.Errors.{Error, Result, ok, err}
use expense_management_syste.Db.{lift, Keeps-lift}
use expense_management_syste.Db.Moments.{Reads-lift}
use expense_management_syste.Auth.{GraphUser, GraphApi}
use expense_management_syste.Graph.Http.{Entry, Failure, Outcome, Settings, Outside}
use expense_management_syste.Graph.Client.{NodeCache, Runtime, Wire, get_direct_reports}

-- A GraphApiAuthError, or any other error.
abbrev pub error_of : Failure → Error
error_of Failure.consent_required = Error.graph_auth true
error_of _ = Error.failure

abbrev pub result_of : Outcome (List Entry) → Result (List GraphUser)
result_of (Outcome.failed e) = err (error_of e)
result_of (Outcome.done entries) = ok (map (λ (r : Entry). record { id = r.id }) entries)

module _ {Store : Type 0} (cache : NodeCache Store) (settings : Settings) (outside : Outside)
    (runtime : Runtime) (w0 : Wire Store) where
  -- The client in the state `w0`. It touches no table.
  abbrev pub client_api : GraphApi
  client_api = record {
    get_direct_reports = λ user_id token force_refresh. lift (
        result_of
          (get_direct_reports cache settings outside runtime user_id token force_refresh w0).0);
    reports_keep = λ user_id token force_refresh. Keeps-lift _;
    reports_read = λ user_id token force_refresh. Reads-lift _;
  }
