-- ===== src/Listings/Exports.antt =====
-- What the exports of server/src/models/expense.ts leave out.
use expense_management_syste.Base.{◌≤◌, ◌<◌, Bool, true, List, ◌≡◌, ◌↔◌, length, take, sort_by}
use expense_management_syste.Db.{Db}
use expense_management_syste.Requests.{export_max_rows}
use expense_management_syste.Listings.Statements.{Exported}

-- The export is the first rows up to the cap, in the order that was asked for, and says whether it left
-- any out.
abbrev pub ExportOf : {A : Type 0} → (A → A → Bool) → List A → Exported A → Type 0
ExportOf before matches found =
    (found.rows ≡ take export_max_rows (sort_by before matches))
    × (length found.rows ≤ export_max_rows)
    × ((found.capped ≡ true) ↔ (export_max_rows < length matches))
