-- ===== src/Login/Identity.antt =====
-- As whom `authenticate` of server/src/middleware/auth.ts lets a request in.
use expense_management_syste.Base.{Option, none, some}
use expense_management_syste.Db.{M, pure, ◌>>=◌}
use expense_management_syste.Auth.{AuthUser}
use expense_management_syste.Listings.{Server}
use expense_management_syste.Login.Outside.{Headers, Environment, Outside}
use expense_management_syste.Login.Sessions.{handle_stub_auth}
use expense_management_syste.Login.Authenticate.{entra_or_refuse}

module _ (server : Server) (env : Environment) (outside : Outside) (headers : Headers) where
  entra_next : Option AuthUser → M AuthUser
  entra_next stub = elim stub [
    | some u ↦ pure u
    | none ↦ entra_or_refuse server env outside headers
  ]

  stub_next : Option AuthUser → M AuthUser
  stub_next demo = elim demo [
    | some u ↦ pure u
    | none ↦ handle_stub_auth env outside headers >>= λ stub. elim stub [
      | some u ↦ pure u
      | none ↦ entra_or_refuse server env outside headers
    ]
  ]
