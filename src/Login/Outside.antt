-- ===== src/Login/Outside.antt =====
-- What server/src/middleware/auth.ts takes from outside: the request's headers, the environment, and
-- tokens as jsonwebtoken verifies them.
use expense_management_syste.Base.{ℕ, Bool, Option, Text}
use expense_management_syste.Auth.{RolesClaim}

-- A header that is repeated is no string; no handler of this file reads one.
pub record Headers : Type 0 where
  pub authorization : Option Text
  pub stub_user_id : Option Text
  pub active_role : Option Text
  pub host : Option Text
  pub origin : Option Text
  pub referer : Option Text
  pub remote_address : Option Text
  pub ip : Option Text

-- The variables of the process: NODE_ENV is `development`, ALLOW_STUB_AUTH and ENABLE_DEMO are `true`,
-- DEMO_JWT_SECRET and OWNER_OIDS.
pub record Environment : Type 0 where
  pub in_development : Bool
  pub allow_stub_auth : Bool
  pub enable_demo : Bool
  pub demo_jwt_secret : Text
  pub owner_oids : Text

-- The payload of a demo token; `demo` says that the claim is the value true.
pub record DemoClaims : Type 0 where
  pub demo : Bool
  pub sub : Text

-- A claim that is missing or falsy, a string, or another value.
pub data Claim : Type 0 where
  missing : Claim
  text : Text → Claim
  other : Claim

-- The payload of an Entra token; an `oid` or a `name` that is no string is `none`, and so is a missing
-- `roles`.
pub record EntraClaims : Type 0 where
  pub oid : Option Text
  pub preferred_username : Claim
  pub upn : Claim
  pub unique_name : Claim
  pub name : Option Text
  pub roles : Option RolesClaim

-- `jwt.verify` with the demo secret, and with Entra's keys, issuers and audiences, at a time; the
-- hostname of `new URL`, where that does not throw; and `Number(s)` where it is a natural number.
pub record Outside : Type 0 where
  pub verify_demo : Text → Text → ℕ → Option DemoClaims
  pub verify_entra : Text → ℕ → Option EntraClaims
  pub hostname : Text → Option Text
  pub to_number : Text → Option ℕ
