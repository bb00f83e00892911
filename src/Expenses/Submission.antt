-- ===== src/Expenses/Submission.antt =====
-- The transaction of `createSubmission` of server/src/models/expense.ts.
use mathlib.Core.List.{append-nil}
use mathlib.Core.Path.{subst}
use expense_management_syste.Base.{
  ℕ, ◌+◌, Option, none, some, List, [], ◌∷◌, ◌++◌, ◌≡◌, sym, ap, ◌∙◌, arith, Text, Option-cases,
  inl, inr,
}
use expense_management_syste.Errors.{Error, Result, ok, err}
use expense_management_syste.Types.{Expense, Receipt}
use expense_management_syste.Db.{
  Db, World, or_raise, pause, execute, Ending, commit, abort, transaction, find_live,
  find_live-by_id, by_id, by_id-append_self,
}
use expense_management_syste.Db.Runs.{Ends, >>=-Ends, or_raise-Ends}
use expense_management_syste.Db.Atomic.{
  SameRows, Settled, transaction-Settled, execute-Ends, pure_world, pure_value,
}
use expense_management_syste.Expenses.Frame.{
  SameOthers, SameOthers-of_eq, SameOthers-trans, SameOthers-write,
}
use expense_management_syste.Expenses.Fresh.{receipt_rows, submission_entry, IsNew, IsNew-new_row}
use expense_management_syste.Expenses.Rows.{NewExpense, ReceiptInput}
use expense_management_syste.Expenses.Sql.{
  AuditEntry, new_row, insert_expense, insert_receipt, select_receipt, audit_row, append_audit,
  insert_audit, select_live,
}
use expense_management_syste.Expenses.Model.{
  submitted_entry, store_receipt, submission_body, create_submission,
}

-- The new expense is the last row of its table, and pending; its receipt, when there is one, and the
-- audit entry of the submission came with it; no other table changed.
pub record Submitted (new : NewExpense) (receipt : Option ReceiptInput) (ip : Option Text) (d : Db)
    (expense : Expense) (d' : Db) : Type 0 where
  pub row : IsNew new d.next_expense expense
  pub expenses : d'.expenses ≡ d.expenses ++ expense ∷ []
  pub receipts :
      (now : ℕ) × (d'.receipts
        ≡ d.receipts ++ receipt_rows receipt d.next_expense d.next_receipt now)
  pub audit_logs :
      (now : ℕ) × (d'.audit_logs
        ≡ d.audit_logs ++ submission_entry d.next_expense new.submitted_by ip d.next_audit now ∷ [])
  pub others : SameOthers d d'

pub AllOrNothing :
    NewExpense
    → Option ReceiptInput
    → Option Text
    → Db
    → Result (Expense × Option Receipt)
    → Db
    → Type 0
AllOrNothing new receipt ip d (ok (expense, _)) d' = Submitted new receipt ip d expense d'
AllOrNothing new receipt ip d (err _) d' = SameRows d d'

insert_expense-success :
    (new : NewExpense) (now : ℕ) (d : Db) {k : ℕ} {d' : Db}
    → insert_expense new now d ≡ some (k, d')
    → (k ≡ d.next_expense)
      × (by_id d.next_expense d.expenses ≡ none)
      × (d' ≡ record d {
        expenses = d.expenses ++ new_row new d.next_expense now ∷ [];
        next_expense = d.next_expense + 1;
      })
unfolding insert_expense
insert_expense-success new now d h = elim (Option-cases (by_id d.next_expense d.expenses)) [
  | inl fresh ↦ (ground arith, fresh, ground arith)
  | inr (e, taken) ↦ absurd (ground arith)
]

-- What storing the receipt leaves alone, and adds.
record Stored (receipt : Option ReceiptInput) (k : ℕ) (d d' : Db) : Type 0 where
  expenses : d'.expenses ≡ d.expenses
  audit_logs : d'.audit_logs ≡ d.audit_logs
  next_audit : d'.next_audit ≡ d.next_audit
  receipts : (now : ℕ) × (d'.receipts ≡ d.receipts ++ receipt_rows receipt k d.next_receipt now)
  others : SameOthers d d'

insert_receipt-SameOthers :
    (k : ℕ) (input : ReceiptInput) (now : ℕ) (d : Db) {j : ℕ} {d' : Db}
    → insert_receipt k input now d ≡ some (j, d')
    → SameOthers d d'
unfolding insert_receipt
insert_receipt-SameOthers k input now d h = record {
  users = ground (arith, h);
  comments = ground (arith, h);
  notifications = ground (arith, h);
  security_events = ground (arith, h);
}

store_receipt-Stored :
    (k : ℕ) (receipt : Option ReceiptInput) (w : World) {stored : Option Receipt} {w' : World}
    → Ends (store_receipt k receipt) w stored w'
    → Stored receipt k w.db w'.db
unfolding store_receipt insert_receipt select_receipt
store_receipt-Stored k none w {stored} {w'} h =
    let same : w'.db ≡ w.db = sym (ap (λ (x : World). x.db) (pure_world none h)) in
    record {
      expenses = ap (λ (x : Db). x.expenses) same;
      audit_logs = ap (λ (x : Db). x.audit_logs) same;
      next_audit = ap (λ (x : Db). x.next_audit) same;
      receipts = (0, ap (λ (x : Db). x.receipts) same ∙ sym (append-nil w.db.receipts));
      others = SameOthers-of_eq same;
    }
store_receipt-Stored k (some input) w {stored} {w'} h =
    let (j, w1, p, q) = >>=-Ends (execute (insert_receipt k input)) _ w h in
    let (now, inserted) = execute-Ends (insert_receipt k input) w p in
    let (later, selected) = execute-Ends (select_receipt j) w1 q in
    let same : w'.db ≡ w1.db = ground (arith, selected) in
    record {
      expenses = ap (λ (x : Db). x.expenses) same ∙ ground (arith, inserted);
      audit_logs = ap (λ (x : Db). x.audit_logs) same ∙ ground (arith, inserted);
      next_audit = ap (λ (x : Db). x.next_audit) same ∙ ground (arith, inserted);
      receipts = (now, ap (λ (x : Db). x.receipts) same ∙ ground (arith, inserted));
      others =
          SameOthers-trans (insert_receipt-SameOthers k input now w.db inserted)
            (SameOthers-of_eq same);
    }

same_row :
    (es : List Expense) {j k : ℕ} {a b : Expense}
    → by_id k es ≡ some a
    → by_id j es ≡ some b
    → k ≡ j
    → a ≡ b
same_row es p q e = cc (p, q, ap (λ i. by_id i es) e)

steps_Submitted :
    (new : NewExpense) (receipt : Option ReceiptInput) (ip : Option Text) (d d1 d2 d3 d' : Db)
    (k : ℕ) (expense : Expense) (now now3 : ℕ)
    → insert_expense new now d ≡ some (k, d1)
    → Stored receipt k d1 d2
    → d3 ≡ append_audit (submitted_entry k new.submitted_by ip) now3 d2
    → find_live k d3.expenses ≡ some expense
    → d' ≡ d3
    → Submitted new receipt ip d expense d'
steps_Submitted new receipt ip d d1 d2 d3 d' k expense now now3 inserted stored logged found same =
    let (key, fresh, made) = insert_expense-success new now d inserted in
    let rows1 : d1.expenses ≡ d.expenses ++ new_row new d.next_expense now ∷ [] =
      ap (λ (x : Db). x.expenses) made in
    let rows3 : d3.expenses ≡ d1.expenses = ap (λ (x : Db). x.expenses) logged ∙ stored.expenses in
    let is_there : by_id d.next_expense d3.expenses ≡ some (new_row new d.next_expense now) =
      ap (by_id d.next_expense) (rows3 ∙ rows1)
      ∙ by_id-append_self d.expenses (new_row new d.next_expense now) fresh in
    let row : expense ≡ new_row new d.next_expense now =
      same_row d3.expenses (find_live-by_id k d3.expenses found).0 is_there key in
    let (at, receipts) = stored.receipts in
    let kept : d'.receipts ≡ d2.receipts =
      ap (λ (x : Db). x.receipts) same ∙ ap (λ (x : Db). x.receipts) logged in
    let before : d1.receipts ≡ d.receipts = ap (λ (x : Db). x.receipts) made in
    let counter : d1.next_receipt ≡ d.next_receipt = ap (λ (x : Db). x.next_receipt) made in
    let trail : d'.audit_logs
        ≡ d2.audit_logs
          ++ audit_row (submitted_entry k new.submitted_by ip) d2.next_audit now3 ∷ [] =
      ap (λ (x : Db). x.audit_logs) same ∙ ap (λ (x : Db). x.audit_logs) logged in
    let entries : d2.audit_logs ≡ d.audit_logs =
      stored.audit_logs ∙ ap (λ (x : Db). x.audit_logs) made in
    let next : d2.next_audit ≡ d.next_audit =
      stored.next_audit ∙ ap (λ (x : Db). x.next_audit) made in
    record {
      row = subst (IsNew new d.next_expense) (sym row) (IsNew-new_row new d.next_expense now);
      expenses =
          ap (λ (x : Db). x.expenses) same
          ∙ rows3
          ∙ rows1
          ∙ ap (λ x. d.expenses ++ x ∷ []) (sym row);
      receipts = (at, cc (kept, receipts, before, counter, key));
      audit_logs = (now3, cc (trail, entries, next, key));
      others = SameOthers-trans (SameOthers-write d made) (
          SameOthers-trans stored.others
            (SameOthers-trans (SameOthers-write d2 logged) (SameOthers-of_eq same)));
    }

pub select_live-success :
    (k now : ℕ) (d : Db) {o : Option Expense} {d' : Db}
    → select_live k now d ≡ some (o, d')
    → (find_live k d.expenses ≡ o) × (d' ≡ d)
unfolding select_live
select_live-success k now d h = (ground (arith, h), ground (arith, h))

insert_audit-success :
    (entry : AuditEntry) (now : ℕ) (d : Db) {k : ℕ} {d' : Db}
    → insert_audit entry now d ≡ some (k, d')
    → d' ≡ append_audit entry now d
unfolding insert_audit
insert_audit-success entry now d h = ground (arith, h)

abbrev ended : {A : Type 0} → Ending A → A
ended (commit a) = a
ended (abort a) = a

submission_body-Submitted :
    (new : NewExpense) (receipt : Option ReceiptInput) (ip : Option Text) (w : World)
    {expense : Expense} {stored : Option Receipt} {w' : World}
    → Ends (submission_body new receipt ip) w (commit (expense, stored)) w'
    → Submitted new receipt ip w.db expense w'.db
unfolding submission_body
submission_body-Submitted new receipt ip w {expense} {stored} {w'} h =
    let (k, w1, p1, h1) = >>=-Ends (execute (insert_expense new)) _ w h in
    let (st, w2, p2, h2) = >>=-Ends (store_receipt k receipt) _ w1 h1 in
    let (j, w3, p3, h3) =
      >>=-Ends (execute (insert_audit (submitted_entry k new.submitted_by ip))) _ w2 h2 in
    let (o, w4, p4, h4) = >>=-Ends (execute (select_live k)) _ w3 h3 in
    let (e, w5, p5, h5) = >>=-Ends (or_raise o Error.failure) _ w4 h4 in
    let (now, inserted) = execute-Ends (insert_expense new) w p1 in
    let (now3, logged) =
      execute-Ends (insert_audit (submitted_entry k new.submitted_by ip)) w2 p3 in
    let (now4, selected) = execute-Ends (select_live k) w3 p4 in
    let (found, still) = or_raise-Ends o Error.failure w4 p5 in
    let (read, unread) = select_live-success k now4 w3.db selected in
    let last : w5 ≡ w' = pure_world (commit (e, st)) h5 in
    let same : e ≡ expense =
      ap (λ (x : Ending (Expense × Option Receipt)). (ended x).0) (pure_value w5 h5) in
    steps_Submitted new receipt ip w.db w1.db w2.db w3.db w'.db k expense now now3 inserted
      (store_receipt-Stored k receipt w1 p2)
      (insert_audit-success (submitted_entry k new.submitted_by ip) now3 w2.db logged)
      (read ∙ found ∙ ap some same) (ap (λ (x : World). x.db) (sym (still ∙ last)) ∙ unread)

commit_ne_abort : {A : Type 0} {a b : A} → ◌≡◌ {A = Ending A} (commit a) (abort b) → ⊥
commit_ne_abort h = ground (arith, h)

-- The body ends in a commit, or fails.
submission_body-commit :
    (new : NewExpense) (receipt : Option ReceiptInput) (ip : Option Text) (w : World)
    {x : Expense × Option Receipt} {w' : World}
    → Ends (submission_body new receipt ip) w (abort x) w'
    → ⊥
unfolding submission_body
submission_body-commit new receipt ip w {x} {w'} h =
    let (k, w1, p1, h1) = >>=-Ends (execute (insert_expense new)) _ w h in
    let (st, w2, p2, h2) = >>=-Ends (store_receipt k receipt) _ w1 h1 in
    let (j, w3, p3, h3) =
      >>=-Ends (execute (insert_audit (submitted_entry k new.submitted_by ip))) _ w2 h2 in
    let (o, w4, p4, h4) = >>=-Ends (execute (select_live k)) _ w3 h3 in
    let (e, w5, p5, h5) = >>=-Ends (or_raise o Error.failure) _ w4 h4 in
    commit_ne_abort (pure_value w5 h5)

-- `createSubmission` is all or nothing: from the rows that are there when it gets its connection, and
-- whichever of its statements fails, it either fails and leaves every table as it was, or it answers
-- with the new expense, which is pending, at version 1 and the last row of its table, and the tables
-- have besides just its receipt, when there is one, and the audit entry of its submission.
pub create_submission-AllOrNothing :
    (new : NewExpense) (receipt : Option ReceiptInput) (ip : Option Text) (w : World)
    → let (result, after) = create_submission new receipt ip w in
      AllOrNothing new receipt ip (pause w).1.db result after.db
unfolding create_submission AllOrNothing
create_submission-AllOrNothing new receipt ip w =
    let out = transaction (submission_body new receipt ip) w in
    settle out.0 out.1 (transaction-Settled (submission_body new receipt ip) w)
  where
    settle :
        (r : Result (Expense × Option Receipt)) (w' : World)
        → Settled (submission_body new receipt ip) (pause w).1 r w'
        → AllOrNothing new receipt ip (pause w).1.db r w'.db
    settle (err e) w' s = s
    settle (ok (e, stored)) w' (w1, w2, start, inl (aborted, _)) =
        absurd (submission_body-commit new receipt ip w1 aborted)
    settle (ok (e, stored)) w' (w1, w2, start, inr (body, last)) =
        let s = submission_body-Submitted new receipt ip w1 body in
        subst (λ (d : Db). Submitted new receipt ip d e w'.db) start
          (subst (λ (d : Db). Submitted new receipt ip w1.db e d) (sym last) s)
