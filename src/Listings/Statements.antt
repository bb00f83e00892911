-- ===== src/Listings/Statements.antt =====
-- The three shapes of statement behind a listing: a count, a page, and an export, over the rows that
-- a WHERE clause leaves of the tables.
use expense_management_syste.Base.{
  ℕ, ◌+◌, Bool, Option, none, some, List, ltb, length, take, sort_by, slice, if◌then◌else◌,
}
use expense_management_syste.Db.{Db, Statement, M, pure, query, ◌>>=◌}
use expense_management_syste.Requests.{limit_offset, export_max_rows}

-- `{ data, total }`
pub record Listed (A : Type 0) : Type 0 where
  pub rows : List A
  pub total : ℕ

-- `{ data, capped }`
pub record Exported (A : Type 0) : Type 0 where
  pub rows : List A
  pub capped : Bool

module _ {A : Type 0} where
  -- `SELECT COUNT(*)`
  unfoldable pub select_count : (Db → List A) → Statement ℕ
  select_count rows now d = some (length (rows d), d)

  -- `SELECT ... ORDER BY ... LIMIT ? OFFSET ?`; without an order the server refuses the statement.
  unfoldable pub select_rows : (Db → List A) → Option (A → A → Bool) → ℕ → ℕ → Statement (List A)
  select_rows rows none size offset now d = none
  select_rows rows (some before) size offset now d =
      some (slice size offset (sort_by before (rows d)), d)

  -- `const capped = rows.length > EXPORT_MAX_ROWS`, and the rows up to the cap
  abbrev pub cap_rows : List A → Exported A
  cap_rows rows =
      let capped : Bool = ltb export_max_rows (length rows) in
      record { rows = if capped then take export_max_rows rows else rows; capped = capped }

  -- The two queries of a page.
  unfoldable pub list_page :
      (Db → List A) → Option (A → A → Bool) → Option ℕ → Option ℕ → M (Listed A)
  unfolding select_count select_rows
  list_page rows order page page_size = do
    total ← query (select_count rows)
    page_rows ←
        query
          (select_rows rows order (limit_offset page page_size).0 (limit_offset page page_size).1)
    pure (record { rows = page_rows; total = total })

  -- The query of an export, one row over the cap.
  unfoldable pub export_rows : (Db → List A) → Option (A → A → Bool) → M (Exported A)
  unfolding select_rows
  export_rows rows order = do
    found ← query (select_rows rows order (export_max_rows + 1) 0)
    pure (cap_rows found)
