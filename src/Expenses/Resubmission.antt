-- ===== src/Expenses/Resubmission.antt =====
-- The transaction of `resubmit` of server/src/models/expense.ts.
use expense_management_syste.Base.{ℕ, ◌+◌, none, some, List, ◌≡◌}
use expense_management_syste.Errors.{Result, ok, err}
use expense_management_syste.Types.{Expense, Status}
use expense_management_syste.Db.{Db, M, ◌>>=◌, execute, Ending, commit, abort, by_id, replace}
use expense_management_syste.Db.Atomic.{SameRows}
use expense_management_syste.Expenses.Rows.{Entry, applied, assign_all}
use expense_management_syste.Expenses.Sql.{select_live}
use expense_management_syste.Expenses.Model.{ResubmitResult, Resubmitted, resubmit_locked}

-- The row after a resubmission: pending again at the next version, with no decision, of the same
-- submitter and not deleted or marked otherwise; the fields that were given have their new values.
pub record IsReopened (entries : List Entry) (old new : Expense) : Type 0 where
  pub is_pending : new.status ≡ Status.pending
  pub next_version : new.version ≡ old.version + 1
  pub undecided : (new.approved_by ≡ none) × (new.rejection_reason ≡ none)
  pub same_id : new.id ≡ old.id
  pub same_submitter : new.submitted_by ≡ old.submitted_by
  pub edited :
      let given : Expense = assign_all (applied entries) old in
      (new.title ≡ given.title)
      × (new.description ≡ given.description)
      × (new.amount ≡ given.amount)
      × (new.currency ≡ given.currency)
      × (new.category ≡ given.category)
      × (new.expense_date ≡ given.expense_date)

-- The expense was rejected at that version; its row is reopened, and nothing else changed, the audit trail included.
pub record Reopened (k : ℕ) (entries : List Entry) (version : ℕ) (d d' : Db) : Type 0 where
  pub row : Expense
  pub was : by_id k d.expenses ≡ some row
  pub rejected : row.status ≡ Status.rejected
  pub at : row.version ≡ version
  pub written :
      (new : Expense) × IsReopened entries row new
      × (d' ≡ record d { expenses = replace k new d.expenses })

module _ (k : ℕ) (entries : List Entry) (version : ℕ) where
  abbrev pub ResubmissionHolds : Db → Result Resubmitted → Db → Type 0
  ResubmissionHolds d (ok (ResubmitResult.success, _, _)) d' = Reopened k entries version d d'
  ResubmissionHolds d (ok (_, _, _)) d' = SameRows d d'
  ResubmissionHolds d (err _) d' = SameRows d d'

  abbrev BodyEnd : Ending Resubmitted → Db → Db → Type 0
  BodyEnd (commit (ResubmitResult.success, _, _)) d d' = Reopened k entries version d d'
  BodyEnd (commit (_, _, _)) d d' = ⊥
  BodyEnd (abort (ResubmitResult.success, _, _)) d d' = ⊥
  BodyEnd (abort (_, _, _)) d d' = Unit {0}

  resubmit_body : M (Ending Resubmitted)
  resubmit_body = execute (select_live k) >>= resubmit_locked k entries version
