-- ===== src/Expenses/Frame.antt =====
-- The tables that the transactions of server/src/models/expense.ts leave alone.
use expense_management_syste.Base.{ℕ, List, ◌≡◌, ap, ◌∙◌}
use expense_management_syste.Types.{Expense, Receipt, AuditLog}
use expense_management_syste.Db.{Db}

-- The tables that only other requests write are as they were.
pub record SameOthers (d d' : Db) : Type 0 where
  pub users : d'.users ≡ d.users
  pub comments : d'.comments ≡ d.comments
  pub notifications : d'.notifications ≡ d.notifications
  pub security_events : d'.security_events ≡ d.security_events

pub SameOthers-of_eq : {d d' : Db} → d' ≡ d → SameOthers d d'
SameOthers-of_eq e = record {
  users = ap (λ (x : Db). x.users) e;
  comments = ap (λ (x : Db). x.comments) e;
  notifications = ap (λ (x : Db). x.notifications) e;
  security_events = ap (λ (x : Db). x.security_events) e;
}

pub SameOthers-trans : {d m d' : Db} → SameOthers d m → SameOthers m d' → SameOthers d d'
SameOthers-trans a b = record {
  users = b.users ∙ a.users;
  comments = b.comments ∙ a.comments;
  notifications = b.notifications ∙ a.notifications;
  security_events = b.security_events ∙ a.security_events;
}

-- A write of the expenses, the receipts or the trail.
pub SameOthers-write :
    (d : Db) {d' : Db} {es : List Expense} {rs : List Receipt} {ls : List AuditLog} {i j k : ℕ}
    → d' ≡ record d {
      expenses = es;
      receipts = rs;
      audit_logs = ls;
      next_expense = i;
      next_receipt = j;
      next_audit = k;
    }
    → SameOthers d d'
SameOthers-write d e = record {
  users = ap (λ (x : Db). x.users) e;
  comments = ap (λ (x : Db). x.comments) e;
  notifications = ap (λ (x : Db). x.notifications) e;
  security_events = ap (λ (x : Db). x.security_events) e;
}
