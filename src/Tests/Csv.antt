-- ===== src/Tests/Csv.antt =====
-- CSV and download names at concrete inputs.
use expense_management_syste.Base.{false, List, [], ◌∷◌, Text, codes, map, All, ◌≡◌, refl, ◌⊎◌}
use expense_management_syste.Uploads.{sanitize_receipt_download_name}
use expense_management_syste.Uploads.Names.{IsNameCode, sanitize_receipt_download_name_safe}
use expense_management_syste.Csv.{guarded, to_csv}
use expense_management_syste.Csv.Reader.{Mode, read, to_csv-read}
use expense_management_syste.Csv.Safe.{is_live_cell, guarded-is_live_cell}

abbrev cells : List (List Text)
cells = (codes "7" ∷ codes "=1+1" ∷ codes "a \"b\", c" ∷ []) ∷ []

abbrev heads : List Text
heads = codes "ID" ∷ codes "Title" ∷ codes "Note" ∷ []

to_csv-read_example : read Mode.start [] [] (to_csv heads cells) ≡ map (map guarded) (heads ∷ cells)
to_csv-read_example = to_csv-read heads cells refl

guarded-is_live_cell_example :
    (is_live_cell (guarded (codes "=1+1")) ≡ false)
    × ((guarded (codes "=1+1") ≡ codes "=1+1") ⊎ (guarded (codes "=1+1") ≡ 39 ∷ codes "=1+1"))
guarded-is_live_cell_example = guarded-is_live_cell (codes "=1+1")

sanitize_receipt_download_name_safe_example :
    All IsNameCode (sanitize_receipt_download_name (codes "a\"b.png"))
    × (¬ All (λ c. c ≡ 46) (sanitize_receipt_download_name (codes "a\"b.png")))
sanitize_receipt_download_name_safe_example = sanitize_receipt_download_name_safe (codes "a\"b.png")
