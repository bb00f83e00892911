-- ===== src/Listings/Order.antt =====
-- What the models put after `WHERE` and `ORDER BY`, and how the database server reads it.
use expense_management_syste.Base.{
  ℕ, Bool, true, not, ◌||◌, ◌&&◌, Option, none, some, List, [], ◌∷◌, String, Text, codes, text_eq,
  ltb, if◌then◌else◌,
}
use expense_management_syste.Types.{Status, Category, AuditAction}
use expense_management_syste.Requests.{QueryValue, Direction, asc, desc, Column, sql, inherited}

-- The database server's own: when two characters of a pattern and a text are the same, when two texts
-- are equal, when one comes before the other, and the instant at which a date begins.
pub record Server : Type 0 where
  pub same : ℕ → ℕ → Bool
  pub equal : Text → Text → Bool
  pub before : Text → Text → Bool
  pub midnight : Text → ℕ

-- `if (filter) ... AND test`: an empty text is no filter.
abbrev pub if_given : Option Text → (Text → Bool) → Bool
if_given none test = true
if_given (some []) test = true
if_given (some (c ∷ s)) test = test (c ∷ s)

-- `if (filter !== undefined) ... AND test`
abbrev pub if_defined : {A : Type 0} → Option A → (A → Bool) → Bool
if_defined none test = true
if_defined (some a) test = test a

-- A text of the options, as `resolveSort` takes it.
abbrev pub query_text : Option Text → QueryValue
query_text none = QueryValue.undefined
query_text (some s) = QueryValue.text s

-- `ORDER BY <column> <direction>, id DESC`
abbrev pub ranked : {A : Type 0} → Direction → (A → A → Bool) → (A → ℕ) → A → A → Bool
ranked asc less id a b = less a b || not (less b a) && ltb (id b) (id a)
ranked desc less id a b = less b a || not (less a b) && ltb (id b) (id a)

-- The order of a column, by its name; the text of an inherited member is no column, and the server
-- refuses the statement.
abbrev pub named_order :
    {A : Type 0} → Text → List (String × (A → A → Bool)) → Option (A → A → Bool)
named_order name [] = none
named_order name ((column, less) ∷ rest) =
    if text_eq (codes column) name then some less else named_order name rest

abbrev pub column_order :
    {A : Type 0} → Column → List (String × (A → A → Bool)) → Option (A → A → Bool)
column_order (sql name) columns = named_order (codes name) columns
column_order (inherited member) columns = none

-- An ENUM is ordered by the place of its value in the declaration, and compared by its name.
abbrev pub status_place : Status → ℕ
status_place Status.pending = 1
status_place Status.approved = 2
status_place Status.rejected = 3

abbrev pub category_place : Category → ℕ
category_place Category.travel = 1
category_place Category.meals = 2
category_place Category.supplies = 3
category_place Category.equipment = 4
category_place Category.software = 5
category_place Category.training = 6
category_place Category.other = 7

abbrev pub action_place : AuditAction → ℕ
action_place AuditAction.submitted = 1
action_place AuditAction.resubmitted = 2
action_place AuditAction.approved = 3
action_place AuditAction.rejected = 4
action_place AuditAction.overridden = 5
action_place AuditAction.updated = 6
action_place AuditAction.deleted = 7

abbrev pub status_name : Status → Text
status_name Status.pending = codes "PENDING"
status_name Status.approved = codes "APPROVED"
status_name Status.rejected = codes "REJECTED"

abbrev pub category_name : Category → Text
category_name Category.travel = codes "TRAVEL"
category_name Category.meals = codes "MEALS"
category_name Category.supplies = codes "SUPPLIES"
category_name Category.equipment = codes "EQUIPMENT"
category_name Category.software = codes "SOFTWARE"
category_name Category.training = codes "TRAINING"
category_name Category.other = codes "OTHER"

abbrev pub action_name : AuditAction → Text
action_name AuditAction.submitted = codes "SUBMITTED"
action_name AuditAction.resubmitted = codes "RESUBMITTED"
action_name AuditAction.approved = codes "APPROVED"
action_name AuditAction.rejected = codes "REJECTED"
action_name AuditAction.overridden = codes "OVERRIDDEN"
action_name AuditAction.updated = codes "UPDATED"
action_name AuditAction.deleted = codes "DELETED"
