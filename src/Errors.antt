-- ===== src/Errors.antt =====
-- server/src/utils/errors.ts: the errors that a request can end in, and code that may throw one.
use Prim.Native.String.{◌++◌}
use expense_management_syste.Base.{ℕ, Bool, true, false, String}

-- An AppError with its status code, a GraphApiAuthError (is consent required?), or any other error.
pub data Error : Type 0 where
  app : ℕ → String → Error
  graph_auth : Bool → Error
  failure : Error

abbrev pub not_found : String → Error
not_found resource = Error.app 404 (resource ++ " not found")

abbrev pub unauthorized : String → Error
unauthorized message = Error.app 401 message

abbrev pub forbidden : String → Error
forbidden message = Error.app 403 message

abbrev pub bad_request : String → Error
bad_request message = Error.app 400 message

abbrev pub conflict : String → Error
conflict message = Error.app 409 message

abbrev pub insufficient_permissions : Error
insufficient_permissions = forbidden "Insufficient permissions"

pub data Result (A : Type 0) : Type 0 where
  ok : A → Result A
  err : Error → Result A

infixl 5 ◌>>=◌ ◌>>◌
abbrev pub ◌>>=◌ : {A B : Type 0} → Result A → (A → Result B) → Result B
Result.ok a >>= f = f a
Result.err e >>= f = Result.err e

abbrev pub ◌>>◌ : {B : Type 0} → Result (Unit {0}) → Result B → Result B
m >> k = m >>= λ _. k

-- `if (!holds) throw e`
abbrev pub require : Bool → Error → Result (Unit {0})
require true e = Result.ok tt
require false e = Result.err e
