-- ===== src/Logs/Batch.antt =====
-- `takeBatch` of server/src/config/pulsarLogsTransport.ts.
use expense_management_syste.Base.{
  ℕ, ◌+◌, ◌≤◌, ◌<◌, suc, List, [], ◌∷◌, ◌++◌, ◌≡◌, refl, ◌⊎◌, inl, inr, arith, length, List-cases,
}
use expense_management_syste.Logs.Row.{LogRow}
use expense_management_syste.Logs.State.{batch_rows, batch_bytes}
use expense_management_syste.Logs.Shipper.{take_rows, take_batch}

module _ (row_bytes : LogRow → ℕ) where
  abbrev pub bytes_of : List LogRow → ℕ
  bytes_of [] = 0
  bytes_of (row ∷ rows) = row_bytes row + bytes_of rows

  pub take_rows-append :
      (n bytes : ℕ) (queue : List LogRow)
      → (take_rows row_bytes n bytes queue).0 ++ (take_rows row_bytes n bytes queue).1 ≡ queue
  unfolding take_rows
  take_rows-append n bytes [] = refl
  take_rows-append n bytes (row ∷ queue) =
      ground (arith, take_rows-append (suc n) (bytes + row_bytes row) queue)

  pub take_rows-length :
      (n bytes : ℕ) (queue : List LogRow)
      → n ≤ batch_rows
      → n + length (take_rows row_bytes n bytes queue).0 ≤ batch_rows
  unfolding take_rows
  take_rows-length n bytes [] h = omega arith
  take_rows-length n bytes (row ∷ queue) h =
      ground (arith, take_rows-length (suc n) (bytes + row_bytes row) queue)

  -- After the first row the budget holds.
  take_rows-bytes :
      (n bytes : ℕ) (queue : List LogRow)
      → 0 < n
      → bytes + bytes_of (take_rows row_bytes n bytes queue).0 ≤ batch_bytes
        ⊎ ((take_rows row_bytes n bytes queue).0 ≡ [])
  unfolding take_rows
  take_rows-bytes n bytes [] h = inr refl
  take_rows-bytes n bytes (row ∷ queue) h =
      ground (arith, take_rows-bytes (suc n) (bytes + row_bytes row) queue)

  -- What stays could not be taken.
  take_rows-full :
      (n bytes : ℕ) (queue : List LogRow) {row : LogRow} {rest : List LogRow}
      → 0 < n
      → n ≤ batch_rows
      → (take_rows row_bytes n bytes queue).1 ≡ row ∷ rest
      → (n + length (take_rows row_bytes n bytes queue).0 ≡ batch_rows)
        ⊎ (batch_bytes < bytes + bytes_of (take_rows row_bytes n bytes queue).0 + row_bytes row)
  unfolding take_rows
  take_rows-full n bytes [] h m e = absurd cc
  take_rows-full n bytes (x ∷ queue) {row} {rest} h m e =
      ground (arith, take_rows-full (suc n) (bytes + row_bytes x) queue {row = row} {rest = rest})

  -- A batch from a queue that is not empty is a front part of it, in order, and leaves the rest. It has at
  -- least one and at most 200 rows; unless it is one row, it keeps within the budget of 200,000 bytes with
  -- 128 for the envelope; and it leaves nothing that it could take: the queue is used up, or the batch has
  -- 200 rows, or the next row would break the budget.
  pub take_batch-bounds :
      (queue : List LogRow) {row : LogRow} {more : List LogRow}
      → queue ≡ row ∷ more
      → ((take_batch row_bytes queue).0 ++ (take_batch row_bytes queue).1 ≡ queue)
        × (1 ≤ length (take_batch row_bytes queue).0)
        × (length (take_batch row_bytes queue).0 ≤ batch_rows)
        × ((length (take_batch row_bytes queue).0 ≡ 1)
            ⊎ (128 + bytes_of (take_batch row_bytes queue).0 ≤ batch_bytes))
        × (((take_batch row_bytes queue).1 ≡ [])
            ⊎ (length (take_batch row_bytes queue).0 ≡ batch_rows)
            ⊎ ((next : LogRow) × (later : List LogRow) × ((take_batch row_bytes queue).1
                  ≡ next ∷ later)
                × (batch_bytes < 128 + bytes_of (take_batch row_bytes queue).0 + row_bytes next)))
  unfolding take_batch take_rows
  take_batch-bounds [] same = cc
  take_batch-bounds (x ∷ queue) same =
      let after = take_rows row_bytes 1 (128 + row_bytes x) queue in
      let budget = take_rows-bytes 1 (128 + row_bytes x) queue (omega arith) in
      (
        take_rows-append 0 128 (x ∷ queue),
        omega arith,
        omega (arith, take_rows-length 0 128 (x ∷ queue) (omega arith)),
        elim budget [
          | inl within ↦ inr (omega (arith, within))
          | inr alone ↦ inl (rw (alone) refl)
        ],
        elim (List-cases after.1) [
          | inl empty ↦ inl empty
          | inr (next, later, left) ↦
              elim (take_rows-full 1 (128 + row_bytes x) queue (omega arith) (omega arith) left) [
                | inl full ↦ inr (inl (omega (arith, full)))
                | inr over ↦ inr (inr (next, later, left, omega (arith, over)))
              ]
        ],
      )
