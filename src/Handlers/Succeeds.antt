-- ===== src/Handlers/Succeeds.antt =====
-- Undisturbed runs of `approveExpense` of server/src/controllers/approvalController.ts.
use expense_management_syste.Base.{
  ℕ, ◌<◌, ltb, Bool, true, not, Option, some, List, [], ◌∷◌, ◌≡◌, refl, ap, ◌≢◌, arith, ◌==◌,
  if◌then◌else◌, Text, ==_refl,
}
use expense_management_syste.Errors.{Error, Result, ok, err, not_found}
use expense_management_syste.Types.{Expense, Status, status_eq}
use expense_management_syste.Db.{
  Db, Event, World, M, pure, ◌>>=◌, guard, or_raise, lift, Statement, query, pause, run, find_live,
  replace,
}
use expense_management_syste.Db.Runs.{Ends}
use expense_management_syste.Db.Total.{Total}
use expense_management_syste.Requests.{QueryValue, parse_positive_id}
use expense_management_syste.Expenses.{
  find_by_id, select_live, decide, ResultCode, append_audit, approve_row, approved_entry,
  approve_with_version, sp_approve_expense,
}
use expense_management_syste.Auth.{
  Request, GraphApi, Relationship, verify_manager_relationship, require_allowed, live_check,
}
use expense_management_syste.Handlers.Approval.{
  approve_found, approve_expense, check_code, not_approvable,
}
use expense_management_syste.Handlers.Committed.{after_approval-Total}

Ends->>= :
    {A B : Type 0} (m : M A) (f : A → M B) (w : World) {w1 w' : World} {a : A} {b : B}
    → Ends m w a w1
    → Ends (f a) w1 b w'
    → Ends (m >>= f) w b w'
unfolding ◌>>=◌
Ends->>= {A} {B} m f w {w1} {w'} {a} {b} p q = step (m w).0 (m w).1 p
  where
    step :
        (r : Result A) (v : World)
        → ◌≡◌ {A = Result A × World} (r, v) (ok a, w1)
        → (let out : Result B × World = elim r [ ok x ↦ f x v | err e ↦ (err e, v) ] in
            out ≡ (ok b, w'))
    step (ok x) v e =
        let same : x ≡ a = cc in
        let at : v ≡ w1 = ap (λ (y : Result A × World). y.1) e in cc (q, same, at)
    step (err x) v e = cc

pause-calm : (w : World) → w.events ≡ [] → Ends pause w tt w
unfolding pause
pause-calm w calm = empty w.events calm
  where
    empty :
        (es : List Event)
        → es ≡ []
        → (let out : Result (Unit {0}) × World = elim es [
          | [] ↦ (ok tt, w)
          | e ∷ rest ↦ (
            if e.fails then err Error.failure else ok tt,
            record w { db = e.others w.db; events = rest },
          )
        ] in
            out ≡ (ok tt, w))
    empty [] h = refl
    empty (e ∷ rest) h = cc

run-calm :
    {A : Type 0} (s : Statement A) (w : World) {a : A} {d : Db}
    → s w.now w.db ≡ some (a, d)
    → Ends (run s) w a (record w { db = d })
unfolding run
run-calm s w runs = rw (runs, run) refl

-- A statement when no other request interferes and nothing fails.
query-calm :
    {A : Type 0} (s : Statement A) (w : World) {a : A} {d : Db}
    → w.events ≡ []
    → s w.now w.db ≡ some (a, d)
    → Ends (query s) w a (record w { db = d })
unfolding query
query-calm s w {a} {d} calm runs =
    Ends->>= pause (λ _. run s) w (pause-calm w calm) (run-calm s w runs)

Total-Ends : {A : Type 0} {m : M A} → Total m → (w : World) → (a : A) × Ends m w a (m w).1
Total-Ends {m} t w = let (a, e) = t.ends w in (a, ap (λ r. (r, (m w).1)) e)

guard-calm : (b : Bool) (e : Error) (w : World) → b ≡ true → Ends (guard b e) w tt w
unfolding guard pure
guard-calm b e w h = rw h refl

decide-calm :
    (k by : ℕ) (ip : Option Text) (now : ℕ) (d : Db) (e : Expense)
    → find_live k d.expenses ≡ some e
    → e.status ≡ Status.pending
    → 0 < e.amount
    → (d' : Db) × (sp_approve_expense k by e.version ip now d ≡ some (ResultCode.success, d'))
unfolding sp_approve_expense decide
decide-calm k by ip now d e found pending positive =
    let same = ==_refl e.version in
    let paid : ltb 0 e.amount ≡ true = ground (arith, positive) in
    (
      append_audit (approved_entry k by e.version ip) now (record d {
        expenses = replace k (record (approve_row by e) { updated_at = now }) d.expenses;
      }),
      ground (arith, found, pending, same, paid),
    )

lift-calm : {A : Type 0} {r : Result A} (w : World) {a : A} → r ≡ ok a → Ends (lift r) w a w
unfolding lift
lift-calm w h = ap (λ x. (x, w)) h

or_raise-calm : {A : Type 0} (a : A) (e : Error) (w : World) → Ends (or_raise (some a) e) w a w
unfolding or_raise pure
or_raise-calm a e w = refl

require_allowed-calm : (w : World) → Ends (require_allowed Relationship.allowed) w tt w
unfolding require_allowed pure
require_allowed-calm w = refl

check_code-calm : (e : Error) (w : World) → Ends (check_code e ResultCode.success) w tt w
unfolding check_code pure
check_code-calm e w = refl

find_by_id-calm :
    (k : ℕ) (w : World) {e : Expense}
    → w.events ≡ []
    → find_live k w.db.expenses ≡ some e
    → Ends (find_by_id k) w (some e) w
unfolding find_by_id select_live
find_by_id-calm k w calm found = query-calm (select_live k) w calm (ap (λ o. some (o, w.db)) found)

approve_with_version-calm :
    (k by version : ℕ) (ip : Option Text) (w : World) {d' : Db}
    → w.events ≡ []
    → sp_approve_expense k by version ip w.now w.db ≡ some (ResultCode.success, d')
    → Ends (approve_with_version k by version ip) w ResultCode.success (record w { db = d' })
unfolding approve_with_version
approve_with_version-calm k by version ip w calm runs =
    query-calm (sp_approve_expense k by version ip) w calm runs

-- An approval succeeds when no other request interferes and nothing fails: the id in the path is that of
-- a live expense which is pending and has a positive amount, the caller is not its submitter, and the
-- manager check allows the caller.
pub approve_expense_succeeds :
    (graph : GraphApi) (req : Request) (raw_id : QueryValue) (w : World) (k : ℕ) (e : Expense)
    → w.events ≡ []
    → parse_positive_id raw_id "expense ID" ≡ ok k
    → find_live k w.db.expenses ≡ some e
    → e.status ≡ Status.pending
    → 0 < e.amount
    → e.submitted_by ≢ req.user.id
    → verify_manager_relationship graph req e.submitted_by live_check w
      ≡ (ok Relationship.allowed, w)
    → (answer : Expense) × (w' : World) × (approve_expense graph req raw_id w ≡ (ok answer, w'))
unfolding approve_expense approve_found
approve_expense_succeeds graph req raw_id w k e calm parsed found pending positive other allowed =
    let (d', done) = decide-calm k req.user.id req.ip w.now w.db e found pending positive in
    let (answer, last) = Total-Ends (after_approval-Total req k e) (record w { db = d' }) in
    let not_own : not (e.submitted_by == req.user.id) ≡ true = ground (arith, other) in
    let is_pending : status_eq e.status Status.pending ≡ true = ground (arith, pending) in
    (
      answer,
      _,
      Ends->>= (lift (parse_positive_id raw_id "expense ID")) _ w (lift-calm w parsed) (
          Ends->>= (find_by_id k) _ w (find_by_id-calm k w calm found) (
            Ends->>= (or_raise (some e) (not_found "Expense")) _ w (or_raise-calm e _ w) (
              Ends->>= (guard (not (e.submitted_by == req.user.id)) _) _ w
                (guard-calm _ _ w not_own)
                (Ends->>= (verify_manager_relationship graph req e.submitted_by live_check) _ w
                  allowed
                  (Ends->>= (require_allowed Relationship.allowed) _ w (require_allowed-calm w) (
                    Ends->>= (guard (status_eq e.status Status.pending) not_approvable) _ w
                      (guard-calm _ _ w is_pending)
                      (Ends->>= (approve_with_version k req.user.id e.version req.ip) _ w
                        (approve_with_version-calm k req.user.id e.version req.ip w calm done)
                        (Ends->>= (check_code not_approvable ResultCode.success) _
                          (record w { db = d' })
                          (check_code-calm not_approvable (record w { db = d' })) last)))))))),
    )
