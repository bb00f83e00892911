-- ===== src/Expenses/Deletion.antt =====
-- The transaction of `delete` of server/src/models/expense.ts.
use mathlib.Core.Path.{subst}
use expense_management_syste.Base.{
  ℕ, Bool, true, false, not, ◌||◌, ◌&&◌, Option, none, some, [], ◌∷◌, ◌++◌, ◌≡◌, refl, sym, ap, ◌∙◌,
  arith, Text, Option-cases, Bool-cases, inl, inr, ◌==◌, if◌then◌else◌,
}
use expense_management_syste.Errors.{Result, ok, err}
use expense_management_syste.Types.{Expense, Status, status_eq}
use expense_management_syste.Db.{
  Db, World, M, pure, ◌>>=◌, pause, execute, Ending, commit, abort, transaction, by_id, replace,
  satisfies_checks,
}
use expense_management_syste.Db.Runs.{Ends, >>=-Ends}
use expense_management_syste.Db.Atomic.{
  SameRows, Settled, transaction-Settled, execute-Ends, pure_world, pure_value,
}
use expense_management_syste.Expenses.Rows.{delete_row}
use expense_management_syste.Expenses.Erased.{IsErased, delete_row-IsErased, deletion_entry}
use expense_management_syste.Expenses.Sql.{
  append_audit, deleted_entry, select_live, insert_deleted_audit, update_where, is_at, soft_delete,
}
use expense_management_syste.Expenses.Submission.{select_live-success}
use expense_management_syste.Expenses.Frame.{SameOthers, SameOthers-trans, SameOthers-write}
use expense_management_syste.Expenses.Model.{DeleteResult, delete_write, delete_locked, delete}

-- The expense was pending at that version; its row is marked as deleted by that user, no other row
-- and no other table changed, and the trail has one entry more, of the deletion.
pub record Deleted (k deleted_by version : ℕ) (ip : Option Text) (d d' : Db) : Type 0 where
  pub row : Expense
  pub was : by_id k d.expenses ≡ some row
  pub pending : row.status ≡ Status.pending
  pub at : row.version ≡ version
  pub expenses :
      (new : Expense) × IsErased deleted_by row new × (d'.expenses ≡ replace k new d.expenses)
  pub audit_logs :
      (now : ℕ) × (d'.audit_logs
        ≡ d.audit_logs ++ deletion_entry row deleted_by ip d.next_audit now ∷ [])
  pub receipts : d'.receipts ≡ d.receipts
  pub others : SameOthers d d'

module _ (k deleted_by version : ℕ) (ip : Option Text) where
  abbrev pub DeletionHolds : Db → Result DeleteResult → Db → Type 0
  DeletionHolds d (ok DeleteResult.success) d' = Deleted k deleted_by version ip d d'
  DeletionHolds d (ok _) d' = SameRows d d'
  DeletionHolds d (err _) d' = SameRows d d'

  abbrev BodyEnd : Ending DeleteResult → Db → Db → Type 0
  BodyEnd (commit DeleteResult.success) d d' = Deleted k deleted_by version ip d d'
  BodyEnd (commit _) d d' = ⊥
  BodyEnd (abort DeleteResult.success) d d' = ⊥
  BodyEnd (abort _) d d' = Unit {0}

  logged_row :
      (now : ℕ) (d d1 : Db) (row : Expense)
      → insert_deleted_audit k deleted_by ip now d ≡ some (tt, d1)
      → by_id k d.expenses ≡ some row
      → d1 ≡ append_audit (deleted_entry row deleted_by ip) now d
  unfolding insert_deleted_audit
  logged_row now d d1 row h found = ground (arith, h, found)

  unlogged_rows :
      (now : ℕ) (d d1 : Db)
      → insert_deleted_audit k deleted_by ip now d ≡ some (tt, d1)
      → d1.expenses ≡ d.expenses
  unfolding insert_deleted_audit
  unlogged_rows now d d1 h = elim (Option-cases (by_id k d.expenses)) [
    | inl missing ↦ ground (arith, h, missing)
    | inr (e, found) ↦ ground (arith, h, found)
  ]

  soft_delete-success :
      (now : ℕ) (d d' : Db) (n : ℕ)
      → soft_delete k version deleted_by now d ≡ some (n, d')
      → (n == 0) ≡ false
      → (row : Expense) × (by_id k d.expenses ≡ some row)
        × (row.status ≡ Status.pending)
        × (row.version ≡ version)
        × (d' ≡ record d {
          expenses =
              replace k (record (delete_row now deleted_by row) { updated_at = now }) d.expenses;
        })
  unfolding soft_delete update_where
  soft_delete-success now d d' n h some_row = elim (Option-cases (by_id k d.expenses)) [
    | inl missing ↦ absurd (ground (arith, h, missing, some_row))
    | inr (e, found) ↦
        let new : Expense = record (delete_row now deleted_by e) { updated_at = now } in
        elim (Bool-cases (is_at version Status.pending e && satisfies_checks new)) [
          | inl passes ↦ (
            e,
            found,
            ground (arith, passes),
            ground (arith, passes),
            ground (arith, h, found, passes),
          )
          | inr fails ↦ absurd (ground (arith, h, found, fails, some_row))
        ]
  ]

  writes-Deleted :
      (t1 t2 n : ℕ) (d d1 d2 : Db)
      → insert_deleted_audit k deleted_by ip t1 d ≡ some (tt, d1)
      → soft_delete k version deleted_by t2 d1 ≡ some (n, d2)
      → (n == 0) ≡ false
      → Deleted k deleted_by version ip d d2
  writes-Deleted t1 t2 n d d1 d2 logged written some_row =
      let (row, was1, pending, at, made) = soft_delete-success t2 d1 d2 n written some_row in
      let rows : d1.expenses ≡ d.expenses = unlogged_rows t1 d d1 logged in
      let was : by_id k d.expenses ≡ some row = ap (by_id k) (sym rows) ∙ was1 in
      let trail : d1 ≡ append_audit (deleted_entry row deleted_by ip) t1 d =
        logged_row t1 d d1 row logged was in
      record {
        row = row;
        was = was;
        pending = pending;
        at = at;
        expenses = (
          record (delete_row t2 deleted_by row) { updated_at = t2 },
          delete_row-IsErased t2 deleted_by row,
          ap (λ (x : Db). x.expenses) made
              ∙ ap (replace k (record (delete_row t2 deleted_by row) { updated_at = t2 })) rows,
        );
        audit_logs = (t1, ap (λ (x : Db). x.audit_logs) made ∙ ap (λ (x : Db). x.audit_logs) trail);
        receipts = ap (λ (x : Db). x.receipts) made ∙ ap (λ (x : Db). x.receipts) trail;
        others = SameOthers-trans (SameOthers-write d trail) (SameOthers-write d1 made);
      }

  delete_write-BodyEnd :
      (w : World) {x : Ending DeleteResult} {w' : World}
      → Ends (delete_write k deleted_by version ip) w x w'
      → BodyEnd x w.db w'.db
  unfolding delete_write
  delete_write-BodyEnd w {x} {w'} h =
      let (u, w1, p, h1) = >>=-Ends (execute (insert_deleted_audit k deleted_by ip)) _ w h in
      let (n, w2, p2, h2) = >>=-Ends (execute (soft_delete k version deleted_by)) _ w1 h1 in
      let (t1, logged) = execute-Ends (insert_deleted_audit k deleted_by ip) w p in
      let (t2, written) = execute-Ends (soft_delete k version deleted_by) w1 p2 in
      by_count t1 t2 n w1 w2 logged written (n == 0) refl h2
    where
      by_count :
          (t1 t2 n : ℕ) (w1 w2 : World)
          → insert_deleted_audit k deleted_by ip t1 w.db ≡ some (tt, w1.db)
          → soft_delete k version deleted_by t2 w1.db ≡ some (n, w2.db)
          → (b : Bool) → (n == 0) ≡ b
          → Ends
              (if b then pure (abort DeleteResult.conflict) else pure (commit DeleteResult.success))
              w2
              x
              w'
          → BodyEnd x w.db w'.db
      by_count t1 t2 n w1 w2 logged written true zero h2 =
          subst (λ y. BodyEnd y w.db w'.db) (pure_value w2 h2) tt
      by_count t1 t2 n w1 w2 logged written false some_row h2 =
          let last : w2.db ≡ w'.db =
            ap (λ (y : World). y.db) (pure_world (commit DeleteResult.success) h2) in
          subst (λ y. BodyEnd y w.db w'.db) (pure_value w2 h2)
            (subst (Deleted k deleted_by version ip w.db) last
              (writes-Deleted t1 t2 n w.db w1.db w2.db logged written some_row))

  delete_locked-BodyEnd :
      (o : Option Expense) (w : World) {x : Ending DeleteResult} {w' : World}
      → Ends (delete_locked k deleted_by version ip o) w x w'
      → BodyEnd x w.db w'.db
  unfolding delete_locked
  delete_locked-BodyEnd none w {x} {w'} h = subst (λ y. BodyEnd y w.db w'.db) (pure_value w h) tt
  delete_locked-BodyEnd (some row) w {x} {w'} h =
      tested (not (status_eq row.status Status.pending) || not (row.version == version)) h
    where
      tested :
          (b : Bool)
          → Ends
              (if b
                then pure (abort DeleteResult.conflict)
                else delete_write k deleted_by version ip)
              w
              x
              w'
          → BodyEnd x w.db w'.db
      tested true h = subst (λ y. BodyEnd y w.db w'.db) (pure_value w h) tt
      tested false h = delete_write-BodyEnd w h

  delete_body : M (Ending DeleteResult)
  delete_body = execute (select_live k) >>= delete_locked k deleted_by version ip

  delete_body-BodyEnd :
      (w : World) {x : Ending DeleteResult} {w' : World}
      → Ends delete_body w x w'
      → BodyEnd x w.db w'.db
  unfolding delete_body
  delete_body-BodyEnd w {x} {w'} h =
      let (o, w1, p, h1) =
        >>=-Ends (execute (select_live k)) (delete_locked k deleted_by version ip) w h in
      let (now, selected) = execute-Ends (select_live k) w p in
      let (_, unread) = select_live-success k now w.db selected in
      subst (λ (d : Db). BodyEnd x d w'.db) unread (delete_locked-BodyEnd o w1 h1)

  -- `delete` is all or nothing: from the rows that are there when it gets its connection, and whichever of
  -- its statements fails, either the expense was pending at the expected version, is marked as deleted by
  -- that user with no other row changed, and the trail has one entry more, of the deletion; or every table
  -- is as it was, and the answer is a failure or another result than success.
  pub delete-DeletionHolds :
      (w : World)
      → let (result, after) = delete k deleted_by version ip w in
        DeletionHolds (pause w).1.db result after.db
  unfolding delete delete_body
  delete-DeletionHolds w =
      let out = transaction delete_body w in settle out.0 out.1 (transaction-Settled delete_body w)
    where
      committed :
          (r : DeleteResult) (d d' : Db) → BodyEnd (commit r) d d' → DeletionHolds d (ok r) d'
      committed DeleteResult.success d d' s = s
      committed _ d d' s = absurd s

      aborted :
          (r : DeleteResult) (d d' m : Db)
          → BodyEnd (abort r) d m
          → SameRows d d'
          → DeletionHolds d (ok r) d'
      aborted DeleteResult.success d d' m s same = absurd s
      aborted _ d d' m s same = same

      settle :
          (r : Result DeleteResult) (w' : World)
          → Settled delete_body (pause w).1 r w'
          → DeletionHolds (pause w).1.db r w'.db
      settle (err e) w' s = s
      settle (ok r) w' (w1, w2, start, inl (body, same)) =
          aborted r (pause w).1.db w'.db w2.db
            (subst (λ (d : Db). BodyEnd (abort r) d w2.db) start (delete_body-BodyEnd w1 body)) same
      settle (ok r) w' (w1, w2, start, inr (body, last)) = committed r (pause w).1.db w'.db (
          subst (λ (d : Db). BodyEnd (commit r) d w'.db) start
            (subst (λ (d : Db). BodyEnd (commit r) w1.db d) (sym last)
              (delete_body-BodyEnd w1 body)))
