-- ===== src/Db/Monad.antt =====
-- The world of a request, one round trip, and `try { begin; ...; commit } catch { rollback; throw }`.
use expense_management_syste.Base.{ℕ, Bool, Option, none, some, List, [], ◌∷◌, if◌then◌else◌}
use expense_management_syste.Errors.{Error, Result}
use expense_management_syste.Db.Table.{Db}

-- What happens at one await: other requests commit, and the awaited call fails or not.
pub record Event : Type 0 where
  pub others : Db → Db
  pub fails : Bool

-- `now` is CURRENT_TIMESTAMP; past the end of the schedule nothing interferes and nothing fails.
pub record World : Type 0 where
  pub db : Db
  pub now : ℕ
  pub events : List Event

abbrev pub M : Type 0 → Type 0
M A = World → Result A × World

unfoldable pub pure : {A : Type 0} → A → M A
pure a w = (Result.ok a, w)

-- `throw e`, and `next(e); return`
unfoldable pub raise : {A : Type 0} → Error → M A
raise e w = (Result.err e, w)

infixl 5 ◌>>=◌ ◌>>◌
unfoldable pub ◌>>=◌ : {A B : Type 0} → M A → (A → M B) → M B
◌>>=◌ m f w = elim (m w).0 [ Result.ok a ↦ f a (m w).1 | Result.err e ↦ (Result.err e, (m w).1) ]

abbrev pub ◌>>◌ : {B : Type 0} → M (Unit {0}) → M B → M B
m >> k = m >>= λ _. k

-- A synchronous call that may throw.
unfoldable pub lift : {A : Type 0} → Result A → M A
lift r w = (r, w)

-- `Date.now()`
unfoldable pub current_time : M ℕ
current_time w = (Result.ok w.now, w)

-- `try { m } catch (e) { handler(e) }`
unfoldable pub attempt : {A : Type 0} → M A → (Error → M A) → M A
attempt m handler w = elim (m w).0 [
  | Result.ok a ↦ (Result.ok a, (m w).1)
  | Result.err e ↦ handler e (m w).1
]

unfoldable pub guard : Bool → Error → M (Unit {0})
guard holds e = if holds then pure tt else raise e

-- `if (!x) { next(e); return; }`
unfoldable pub or_raise : {A : Type 0} → Option A → Error → M A
or_raise none e = raise e
or_raise (some a) e = pure a

-- One SQL statement at a time `now`; `none` is an error that the server reports.
abbrev pub Statement : Type 0 → Type 0
Statement A = ℕ → Db → Option (A × Db)

unfoldable pub run : {A : Type 0} → Statement A → M A
run s w = elim (s w.now w.db) [
  | none ↦ (Result.err Error.failure, w)
  | some (a, d) ↦ (Result.ok a, record w { db = d })
]

-- The next entry of the schedule, outside a transaction.
unfoldable pub pause : M (Unit {0})
pause w = elim w.events [
  | [] ↦ (Result.ok tt, w)
  | e ∷ es ↦ (
    if e.fails then Result.err Error.failure else Result.ok tt,
    record w { db = e.others w.db; events = es },
  )
]

-- The next entry of the schedule, inside a transaction: only its failure counts.
unfoldable pub pause_locked : M (Unit {0})
pause_locked w = elim w.events [
  | [] ↦ (Result.ok tt, w)
  | e ∷ es ↦ (if e.fails then Result.err Error.failure else Result.ok tt, record w { events = es })
]

-- `pool.execute` and `pool.query`: an autocommitted statement
unfoldable pub query : {A : Type 0} → Statement A → M A
unfolding run pause
query s = pause >> run s

-- `conn.execute` inside a transaction
unfoldable pub execute : {A : Type 0} → Statement A → M A
unfolding run pause_locked
execute s = pause_locked >> run s

-- How the body of a transaction ends: what follows is a commit or a rollback.
pub data Ending (A : Type 0) : Type 0 where
  commit : A → Ending A
  abort : A → Ending A

-- A rollback brings the rows back, and not the AUTO_INCREMENT counters.
abbrev pub restore : Db → Db → Db
restore before after = record before {
  next_user = after.next_user;
  next_expense = after.next_expense;
  next_receipt = after.next_receipt;
  next_comment = after.next_comment;
  next_notification = after.next_notification;
  next_audit = after.next_audit;
}

-- `conn.rollback()`: a connection that cannot answer is rolled back by the server.
unfoldable pub rollback : Db → M (Unit {0})
unfolding pause_locked
rollback before w = pause_locked (record w { db = restore before w.db })

-- The end of the `try` block, entered with the rows as they were before it.
unfoldable pub finish : {A : Type 0} → Db → Ending A → M A
unfolding rollback pause_locked
finish before (Ending.commit a) = pause_locked >> pure a
finish before (Ending.abort a) = rollback before >> pure a

-- `try { begin; body; commit } catch (e) { rollback; throw e }`
unfoldable pub try_block : {A : Type 0} → M (Ending A) → M A
try_block body w =
    attempt (do pause_locked; ending ← body; finish w.db ending) (λ e. rollback w.db >> raise e) w

-- `conn = await getConnection(); try { ... } ...`
unfoldable pub transaction : {A : Type 0} → M (Ending A) → M A
transaction body = pause >> try_block body
