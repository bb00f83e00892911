-- ===== src/Handlers/Service.antt =====
-- The service as a whole: the requests that it takes, one after the other on its side, each against
-- whatever the others commit in between.
use expense_management_syste.Base.{ℕ, Option, some, List, [], ◌∷◌, Text}
use expense_management_syste.Types.{Expense, Status}
use expense_management_syste.Db.{
  World, M, pure, ◌>>=◌, attempt, Keeps, keeps, Keeps->>=, Keeps-attempt, Keeps-pure, Rely, Evolves,
  StatementKeeps, Evolves-of_same, by_id,
}
use expense_management_syste.Requests.{QueryValue}
use expense_management_syste.Notifications.{expense_for_approval-Keeps}
use expense_management_syste.Expenses.{NewExpense, AuditEntry, Entry}
use expense_management_syste.Expenses.Statements.{insert_audit-StatementKeeps}
use expense_management_syste.Expenses.Operations.{
  create_submission-Keeps, find_by_id-Keeps, update-Keeps, resubmit-Keeps, delete-Keeps,
  approve_with_version-Keeps, reject_with_version-Keeps,
}
use expense_management_syste.Uploads.{Upload}
use expense_management_syste.Auth.{Request, GraphApi}
use expense_management_syste.Comments.{get_comments, add_comment}
use expense_management_syste.Comments.Rules.{get_comments-Keeps, add_comment-Keeps}
use expense_management_syste.Inbox.{
  get_notifications, get_unread_count, mark_notification_read, mark_all_notifications_read,
}
use expense_management_syste.Inbox.Rules.{
  get_notifications-Keeps, get_unread_count-Keeps, mark_notification_read-Keeps,
  mark_all_notifications_read-Keeps,
}
use expense_management_syste.Handlers.Approval.{
  approve_found, approve_expense, reject_found, reject_expense,
}
use expense_management_syste.Handlers.Submitter.{
  select_audit, create_audit, select_receipts, find_receipts, load_expense, create_expense,
  audit_update, update_expense, resubmit_expense, delete_expense, get_expense_by_id,
}
use expense_management_syste.Handlers.Guarantee.{
  require_allowed-Keeps, check_code-Keeps, check_resubmitted-Keeps, check_deleted-Keeps,
  verify_manager_relationship-Keeps, ensure_can_access_expense-Keeps, after_approval-Keeps,
  after_rejection-Keeps,
}
use expense_management_syste.Base.{◌≡◌, arith, ap, ◌∙◌}

-- The requests of server/src/routes/expenses.ts, approvals.ts and notifications.ts that these handlers
-- serve.
pub data Call : Type 0 where
  approve : QueryValue → Call
  reject : QueryValue → Text → Call
  create : NewExpense → Option Upload → Call
  update : QueryValue → List Entry → Call
  resubmit : QueryValue → List Entry → Call
  remove : QueryValue → Call
  show : QueryValue → Call
  comments : QueryValue → Call
  comment : QueryValue → Text → Call
  notifications : QueryValue → QueryValue → QueryValue → Call
  unread_count : Call
  mark_read : QueryValue → Call
  mark_all_read : Call

abbrev done : {A : Type 0} → M A → M (Unit {0})
done m = m >>= λ _. pure tt

module _ (graph : GraphApi) where
  unfoldable pub handle : Request → Call → M (Unit {0})
  handle req (Call.approve raw_id) = done (approve_expense graph req raw_id)
  handle req (Call.reject raw_id reason) = done (reject_expense graph req raw_id reason)
  handle req (Call.create body file) = done (create_expense req body file)
  handle req (Call.update raw_id body) = done (update_expense req raw_id body)
  handle req (Call.resubmit raw_id body) = done (resubmit_expense req raw_id body)
  handle req (Call.remove raw_id) = done (delete_expense req raw_id)
  handle req (Call.show raw_id) = done (get_expense_by_id graph req raw_id)
  handle req (Call.comments raw_id) = done (get_comments graph req raw_id)
  handle req (Call.comment raw_id body) = done (add_comment graph req raw_id body)
  handle req (Call.notifications page page_size unread) =
      done (get_notifications req page page_size unread)
  handle req Call.unread_count = done (get_unread_count req)
  handle req (Call.mark_read raw_id) = mark_notification_read req raw_id
  handle req Call.mark_all_read = done (mark_all_notifications_read req)

  -- A request that fails is answered with its error, and the next one is served.
  unfoldable pub serve : List (Request × Call) → M (Unit {0})
  serve [] = pure tt
  serve ((req, call) ∷ calls) = attempt (handle req call) (λ _. pure tt) >>= λ _. serve calls

select_audit-StatementKeeps : (k : ℕ) → StatementKeeps (select_audit k)
unfolding select_audit
select_audit-StatementKeeps k = record {
  apply = λ now d r d' h. Evolves-of_same d d' (ground arith) (ground arith);
}

create_audit-Keeps : (entry : AuditEntry) → Keeps (create_audit entry)
unfolding create_audit
create_audit-Keeps entry = search (keeps, insert_audit-StatementKeeps, select_audit-StatementKeeps)

audit_update-Keeps :
    (req : Request) (k : ℕ) (fields : List Text) → Keeps (audit_update req k fields)
unfolding audit_update
audit_update-Keeps req k [] = search keeps
audit_update-Keeps req k (f ∷ fs) = search (keeps, create_audit-Keeps)

select_receipts-StatementKeeps : (k : ℕ) → StatementKeeps (select_receipts k)
unfolding select_receipts
select_receipts-StatementKeeps k = record {
  apply = λ now d r d' h. Evolves-of_same d d' (ground arith) (ground arith);
}

find_receipts-Keeps : (k : ℕ) → Keeps (find_receipts k)
unfolding find_receipts
find_receipts-Keeps k = search (keeps, select_receipts-StatementKeeps)

load_expense-Keeps : (raw_id : QueryValue) → Keeps (load_expense raw_id)
unfolding load_expense
load_expense-Keeps raw_id = search (keeps, find_by_id-Keeps) depth 9

ruleset parts = (
  keeps, find_by_id-Keeps, load_expense-Keeps, audit_update-Keeps, create_audit-Keeps,
  find_receipts-Keeps, require_allowed-Keeps, check_code-Keeps, check_resubmitted-Keeps,
  check_deleted-Keeps, verify_manager_relationship-Keeps, ensure_can_access_expense-Keeps,
  after_approval-Keeps, after_rejection-Keeps, expense_for_approval-Keeps, create_submission-Keeps,
  update-Keeps, resubmit-Keeps, delete-Keeps, approve_with_version-Keeps, reject_with_version-Keeps,
)

module _ (graph : GraphApi) (req : Request) where
  approve_found-Keeps : (k : ℕ) (e : Expense) → Keeps (approve_found graph req k e)
  unfolding approve_found
  approve_found-Keeps k e = search parts depth 16

  reject_found-Keeps :
      (k : ℕ) (reason : Text) (e : Expense) → Keeps (reject_found graph req k reason e)
  unfolding reject_found
  reject_found-Keeps k reason e = search parts depth 16

  approve_expense-Keeps : (raw_id : QueryValue) → Keeps (approve_expense graph req raw_id)
  unfolding approve_expense
  approve_expense-Keeps raw_id = search (parts, approve_found-Keeps) depth 9

  reject_expense-Keeps :
      (raw_id : QueryValue) (reason : Text) → Keeps (reject_expense graph req raw_id reason)
  unfolding reject_expense
  reject_expense-Keeps raw_id reason = search (parts, reject_found-Keeps) depth 9

create_expense-Keeps :
    (req : Request) (body : NewExpense) (file : Option Upload)
    → Keeps (create_expense req body file)
unfolding create_expense
create_expense-Keeps req body file = search parts depth 9

update_expense-Keeps :
    (req : Request) (raw_id : QueryValue) (body : List Entry)
    → Keeps (update_expense req raw_id body)
unfolding update_expense
update_expense-Keeps req raw_id body = search parts depth 16

resubmit_expense-Keeps :
    (req : Request) (raw_id : QueryValue) (body : List Entry)
    → Keeps (resubmit_expense req raw_id body)
unfolding resubmit_expense
resubmit_expense-Keeps req raw_id body = search parts depth 18

delete_expense-Keeps : (req : Request) (raw_id : QueryValue) → Keeps (delete_expense req raw_id)
unfolding delete_expense
delete_expense-Keeps req raw_id = search parts depth 16

get_expense_by_id-Keeps :
    (graph : GraphApi) (req : Request) (raw_id : QueryValue)
    → Keeps (get_expense_by_id graph req raw_id)
unfolding get_expense_by_id
get_expense_by_id-Keeps graph req raw_id = search parts depth 9

handle-Keeps : (graph : GraphApi) (req : Request) (call : Call) → Keeps (handle graph req call)
unfolding handle
handle-Keeps graph req (Call.approve raw_id) = search (keeps, approve_expense-Keeps)
handle-Keeps graph req (Call.reject raw_id reason) = search (keeps, reject_expense-Keeps)
handle-Keeps graph req (Call.create body file) = search (keeps, create_expense-Keeps)
handle-Keeps graph req (Call.update raw_id body) = search (keeps, update_expense-Keeps)
handle-Keeps graph req (Call.resubmit raw_id body) = search (keeps, resubmit_expense-Keeps)
handle-Keeps graph req (Call.remove raw_id) = search (keeps, delete_expense-Keeps)
handle-Keeps graph req (Call.show raw_id) = search (keeps, get_expense_by_id-Keeps)
handle-Keeps graph req (Call.comments raw_id) = search (keeps, get_comments-Keeps)
handle-Keeps graph req (Call.comment raw_id body) = search (keeps, add_comment-Keeps)
handle-Keeps graph req (Call.notifications page page_size unread) =
    search (keeps, get_notifications-Keeps)
handle-Keeps graph req Call.unread_count = search (keeps, get_unread_count-Keeps)
handle-Keeps graph req (Call.mark_read raw_id) = mark_notification_read-Keeps req raw_id
handle-Keeps graph req Call.mark_all_read = search (keeps, mark_all_notifications_read-Keeps)

serve-Keeps : (graph : GraphApi) (calls : List (Request × Call)) → Keeps (serve graph calls)
unfolding serve
serve-Keeps graph [] = search keeps
serve-Keeps graph ((req, call) ∷ calls) =
    Keeps->>= (Keeps-attempt (handle-Keeps graph req call) (λ _. Keeps-pure tt))
      (λ _. serve-Keeps graph calls)

-- Whatever requests are served, whatever fails, and whatever the others commit in between, as long as
-- the others let the tables evolve too: no expense is lost or changes its id or its submitter, no
-- version goes back, a row changes only with its version, an approved or a deleted row never changes
-- again, and the audit trail keeps its entries in their order.
pub serve-Evolves :
    (graph : GraphApi) (calls : List (Request × Call)) (w : World)
    → Rely w.events
    → Evolves w.db (serve graph calls w).1.db
serve-Evolves graph calls w r = ((serve-Keeps graph calls).apply w r).0

-- Whatever requests are served, whatever fails, and whatever the others commit in between, as long as
-- they let the tables evolve too: an approved expense stays exactly as it is.
pub serve-approved_final :
    (graph : GraphApi) (calls : List (Request × Call)) (w : World) (k : ℕ) (e : Expense)
    → Rely w.events
    → by_id k w.db.expenses ≡ some e
    → e.status ≡ Status.approved
    → by_id k (serve graph calls w).1.db.expenses ≡ some e
serve-approved_final graph calls w k e r found approved =
    let (later, still, grown) = (serve-Evolves graph calls w r).rows k e found in
    still ∙ ap some (grown.approved_final approved)
