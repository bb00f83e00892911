-- ===== src/Uploads.antt =====
-- The uploaded file of server/src/controllers/expenseController.ts `createExpense`, and the download name
-- of server/src/utils/receiptFiles.ts.
pub mod Names
use expense_management_syste.Base.{
  ℕ, Bool, not, ◌||◌, ◌&&◌, Option, none, some, List, [], ◌∷◌, map, Text, codes, all, leb, ◌==◌,
  if◌then◌else◌, take,
}
use expense_management_syste.Requests.{trim}
use expense_management_syste.Expenses.{ReceiptInput}

-- The fields of multer's `req.file` that the handler reads.
pub record Upload : Type 0 where
  pub originalname : Text
  pub path : Text
  pub mimetype : Text
  pub size : ℕ

-- `[\w.\- ]`
abbrev pub is_safe : ℕ → Bool
is_safe c =
    leb b'0' c && leb c b'9'
    || leb b'A' c && leb c b'Z'
    || leb b'a' c && leb c b'z'
    || (c == b'_')
    || (c == b'.')
    || (c == b'-')
    || (c == 32)

abbrev pub is_dot : ℕ → Bool
is_dot c = c == b'.'

abbrev pub named_or_receipt : Text → Text
named_or_receipt [] = codes "receipt"
named_or_receipt (c ∷ s) = if all is_dot (c ∷ s) then codes "receipt" else c ∷ s

-- `sanitizeReceiptDownloadName`
unfoldable pub sanitize_receipt_download_name : Text → Text
sanitize_receipt_download_name name =
    named_or_receipt (trim (map (λ c. if is_safe c then c else b'_') name))

-- `const receiptInput`
abbrev pub receipt_input : Option Upload → Option ReceiptInput
receipt_input none = none
receipt_input (some file) = some (record {
  file_name = take 255 (sanitize_receipt_download_name file.originalname);
  file_path = file.path;
  mime_type = file.mimetype;
  file_size = file.size;
})
