-- ===== src/Auth/Principal.antt =====
-- `req.user` of server/src/types/index.ts, and the parts of a request that the handlers read.
use expense_management_syste.Base.{ℕ, Bool, Option, List, Text}
use expense_management_syste.Types.{Role}
use expense_management_syste.Notifications.{Actor}

-- `stub_auth` and `demo_mode` say that the optional flag is true.
pub record AuthUser : Type 0 where
  pub id : ℕ
  pub role : Role
  pub assigned_roles : List Role
  pub email : Text
  pub display_name : Text
  pub stub_auth : Bool
  pub demo_mode : Bool
  pub demo_session_id : Option Text

-- `in_production` is `process.env.NODE_ENV === 'production'`.
pub record Request : Type 0 where
  pub user : AuthUser
  pub authorization : Option Text
  pub ip : Option Text
  pub in_production : Bool

abbrev pub actor_of : Request → Actor
actor_of req = record { id = req.user.id; display_name = req.user.display_name }
