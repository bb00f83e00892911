-- ===== src/Users.antt =====
-- server/src/models/user.ts, as the handlers of expenses use it.
use expense_management_syste.Base.{ℕ, Option, some, arith, ◌≡◌}
use expense_management_syste.Types.{User}
use expense_management_syste.Db.{
  World, M, Statement, StatementKeeps, query, find_user, Evolves-of_same, Keeps, keeps,
}
use expense_management_syste.Db.Runs.{Ends}
use expense_management_syste.Db.Moments.{Waits, Reads, Reads-query, IsSelect, select-Ends}

unfoldable pub select_user : ℕ → Statement (Option User)
select_user k now d = some (find_user k d.users, d)

-- `findById`
unfoldable pub find_by_id : ℕ → M (Option User)
find_by_id k = query (select_user k)

select_user-StatementKeeps : (k : ℕ) → StatementKeeps (select_user k)
unfolding select_user
select_user-StatementKeeps k = record {
  apply = λ now d r d' h. Evolves-of_same d d' (ground arith) (ground arith);
}

pub find_by_id-Keeps : (k : ℕ) → Keeps (find_by_id k)
unfolding find_by_id
find_by_id-Keeps k = search (keeps, select_user-StatementKeeps)

select_user-IsSelect : (k : ℕ) → IsSelect (select_user k)
unfolding select_user
select_user-IsSelect k = record { leaves = λ now d x h. ground (arith, h) }

pub find_by_id-Reads : (k : ℕ) → Reads (find_by_id k)
unfolding find_by_id
find_by_id-Reads k = Reads-query (select_user k) (select_user-IsSelect k)

-- The user is looked up in the tables of the moment at which the query ends.
pub find_by_id-found :
    (k : ℕ) (w : World) {o : Option User} {w' : World}
    → Ends (find_by_id k) w o w'
    → (find_user k w'.db.users ≡ o) × Waits w w'
unfolding find_by_id select_user
find_by_id-found k w h =
    let (stmt, before) = select-Ends (select_user k) w (select_user-IsSelect k) h in
    (ground (arith, stmt), before)
