-- ===== src/Tests/Data.antt =====
-- A small company: an employee, her manager, and an admin.
use expense_management_syste.Base.{ℕ, true, false, none, some, [], ◌∷◌, Text, codes}
use expense_management_syste.Types.{User, Role, Category}
use expense_management_syste.Db.{Db, Event, World, pure, Keeps-pure}
use expense_management_syste.Expenses.{NewExpense, ReceiptInput, new_row}
use expense_management_syste.Db.Moments.{Reads-pure}
use expense_management_syste.Auth.{Request, GraphApi}

abbrev user : ℕ → Text → Role → User
user k name role = record {
  id = k;
  entra_id = name;
  email = name;
  display_name = name;
  role = role;
  manager_id = some 2;
  is_active = true;
  is_demo = false;
  demo_expires_at = none;
  demo_session_id = none;
  default_currency = none;
  notify_on_submission = some true;
  notify_on_decision = some true;
  notify_on_comment = some true;
}

abbrev pub ann : User
ann = user 1 (codes "ann") Role.employee

abbrev pub lunch : NewExpense
lunch = record {
  submitted_by = 1;
  title = codes "Lunch";
  description = none;
  amount = 1250;
  currency = codes "EUR";
  category = Category.meals;
  expense_date = codes "2026-01-31";
}

abbrev pub scan : ReceiptInput
scan = record {
  file_name = codes "scan.png";
  file_path = codes "uploads/scan.png";
  mime_type = codes "image/png";
  file_size = 2048;
}

-- Expense 1 is pending, at version 1.
abbrev pub company : Db
company = record {
  users = ann ∷ user 2 (codes "bob") Role.manager ∷ user 3 (codes "eve") Role.admin ∷ [];
  expenses = new_row lunch 1 10 ∷ [];
  receipts = [];
  comments = [];
  notifications = [];
  audit_logs = [];
  security_events = [];
  next_user = 4;
  next_expense = 2;
  next_receipt = 1;
  next_comment = 1;
  next_notification = 1;
  next_audit = 1;
}

-- Nothing happens at an await.
abbrev pub quiet : Event
quiet = record { others = λ d. d; fails = false }

abbrev pub broken : Event
broken = record { others = λ d. d; fails = true }

abbrev pub calm : World
calm = record { db = company; now = 20; events = quiet ∷ quiet ∷ [] }

-- The third call fails.
abbrev pub stormy : World
stormy = record { db = company; now = 20; events = quiet ∷ quiet ∷ quiet ∷ broken ∷ [] }

-- Everybody reports to everybody's manager: Graph lists `ann`.
abbrev pub graph : GraphApi
graph = record {
  get_direct_reports =
      λ user_id token force_refresh. pure (record { id = some (codes "Ann") } ∷ []);
  reports_keep =
      λ user_id token force_refresh. Keeps-pure (record { id = some (codes "Ann") } ∷ []);
  reports_read =
      λ user_id token force_refresh. Reads-pure (record { id = some (codes "Ann") } ∷ []);
}

abbrev pub request : ℕ → Role → Request
request k role = record {
  user = record {
    id = k;
    role = role;
    assigned_roles = role ∷ [];
    email = codes "x";
    display_name = codes "x";
    stub_auth = false;
    demo_mode = false;
    demo_session_id = none;
  };
  authorization = some (codes "Bearer t");
  ip = none;
  in_production = true;
}
