-- ===== src/Handlers/Opening.antt =====
-- How `approveExpense` and `rejectExpense` of server/src/controllers/approvalController.ts begin.
use mathlib.Core.Path.{subst}
use expense_management_syste.Base.{ℕ, Option, some, ◌≡◌, sym, ap, ◌∙◌, arith}
use expense_management_syste.Errors.{ok, not_found}
use expense_management_syste.Types.{Expense}
use expense_management_syste.Db.{
  Db, World, M, Keeps-pause, ◌>>=◌, or_raise, lift, Rely, Evolves, by_id, find_live,
  find_live-by_id,
}
use expense_management_syste.Db.Runs.{
  Ends, >>=-Ends, Keeps-Ends, lift-Ends, or_raise-Ends, query-Ends,
}
use expense_management_syste.Db.Moments.{Waits}
use expense_management_syste.Expenses.Operations.{find_by_id-found}
use expense_management_syste.Requests.{QueryValue, parse_positive_id}
use expense_management_syste.Expenses.{find_by_id, select_live}

find_by_id-Ends :
    (k : ℕ) (w : World) {o : Option Expense} {w' : World}
    → Rely w.events
    → Ends (find_by_id k) w o w'
    → (find_live k w'.db.expenses ≡ o) × Evolves w.db w'.db × Rely w'.events × Waits w w'
unfolding find_by_id select_live
find_by_id-Ends k w {o} {w'} r h =
    let (w0, stmt, paused, left) = query-Ends (select_live k) w h in
    let (g, r0) = Keeps-Ends Keeps-pause r paused in
    let same : w0.db ≡ w'.db = ground (arith, stmt) in
    (
      ap (λ (d : Db). find_live k d.expenses) (sym same) ∙ ground (arith, stmt),
      subst (Evolves w.db) same g,
      subst Rely (sym left) r0,
      (find_by_id-found k w h).1,
    )

-- The first lines of both handlers.
unfoldable pub opening : {A : Type 0} → QueryValue → (ℕ → Expense → M A) → M A
opening raw_id next = do
  expense_id ← lift (parse_positive_id raw_id "expense ID")
  found ← find_by_id expense_id
  expense ← or_raise found (not_found "Expense")
  next expense_id expense

pub opening-Ends :
    {A : Type 0} (raw_id : QueryValue) (next : ℕ → Expense → M A) (w : World) {a : A} {w' : World}
    → Rely w.events
    → Ends (opening raw_id next) w a w'
    → (k : ℕ) × (e : Expense) × (w0 : World) × (parse_positive_id raw_id "expense ID" ≡ ok k)
      × (by_id k w0.db.expenses ≡ some e)
      × Evolves w.db w0.db
      × Rely w0.events
      × Waits w w0
      × Ends (next k e) w0 a w'
unfolding opening
opening-Ends raw_id next w {a} {w'} r h =
    let (k, w1, p, h1) = >>=-Ends (lift (parse_positive_id raw_id "expense ID")) _ w h in
    let (parsed, still) = lift-Ends (parse_positive_id raw_id "expense ID") w p in
    let (o, w2, q, h2) = >>=-Ends (find_by_id k) _ w1 h1 in
    let (e, w3, q3, h3) = >>=-Ends (or_raise o (not_found "Expense")) (λ x. next k x) w2 h2 in
    let (found, still3) = or_raise-Ends o (not_found "Expense") w2 q3 in
    let (read, g, r2, before) =
      find_by_id-Ends k w r (subst (λ x. Ends (find_by_id k) x o w2) (sym still) q) in
    (
      k,
      e,
      w2,
      parsed,
      (find_live-by_id k w2.db.expenses (read ∙ found)).0,
      g,
      r2,
      before,
      subst (λ x. Ends (next k e) x a w') (sym still3) h3,
    )
