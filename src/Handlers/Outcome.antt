-- ===== src/Handlers/Outcome.antt =====
-- Decisions of server/src/controllers/approvalController.ts from the request to the answer, while
-- other requests commit in between.
use expense_management_syste.Base.{ℕ, some, ◌≡◌, ◌≢◌, Text}
use expense_management_syste.Errors.{ok}
use expense_management_syste.Types.{Expense, Status}
use expense_management_syste.Db.{World, Grows, by_id}
use expense_management_syste.Requests.{QueryValue, parse_positive_id, trim}
use expense_management_syste.Expenses.{AuditEntry, approved_entry, rejected_entry}
use expense_management_syste.Auth.{Request, GraphApi}
use expense_management_syste.Handlers.Decisions.{Recorded}
use expense_management_syste.Handlers.Gate.{Authorized}

module _ (graph : GraphApi) (req : Request) (k : ℕ) where
  -- The decision `entry` on the expense `k` is there, and it was allowed.
  pub record Outcome (change : Expense → Expense) (entry : ℕ → AuditEntry) (w w' : World)
      : Type 0 where
    pub version : ℕ
    pub row : Expense
    pub found : by_id k w'.db.expenses ≡ some row
    pub not_own : row.submitted_by ≢ req.user.id
    pub authorized : Authorized graph req row.submitted_by w w'
    pub recorded : Recorded w.db.audit_logs w'.db.audit_logs (entry version)
    pub written :
        (before : Expense) × (time : ℕ) × Grows (record (change before) { updated_at = time }) row

abbrev pub ApprovalDone : GraphApi → Request → QueryValue → World → World → Type 0
ApprovalDone graph req raw_id w w' =
    (k : ℕ) × (version : ℕ) × (row : Expense) × (parse_positive_id raw_id "expense ID" ≡ ok k)
    × (by_id k w'.db.expenses ≡ some row)
    × (row.status ≡ Status.approved)
    × (row.approved_by ≡ some req.user.id)
    × (row.submitted_by ≢ req.user.id)
    × Authorized graph req row.submitted_by w w'
    × Recorded w.db.audit_logs w'.db.audit_logs (approved_entry k req.user.id version req.ip)

abbrev pub RejectionDone : GraphApi → Request → QueryValue → Text → World → World → Type 0
RejectionDone graph req raw_id reason w w' =
    (k : ℕ) × (version : ℕ) × (row : Expense) × (parse_positive_id raw_id "expense ID" ≡ ok k)
    × (by_id k w'.db.expenses ≡ some row)
    × (row.submitted_by ≢ req.user.id)
    × Authorized graph req row.submitted_by w w'
    × Recorded w.db.audit_logs w'.db.audit_logs
        (rejected_entry k req.user.id version (trim reason) req.ip)
