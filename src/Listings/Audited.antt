-- ===== src/Listings/Audited.antt =====
-- Whose audit entries `getAuditLogs` of server/src/controllers/adminController.ts shows.
use mathlib.Core.List.{Mem, mem-cons_self, mem-cons_of_mem}
use mathlib.Core.Path.{subst}
use expense_management_syste.Base.{
  ℕ, Bool, true, ◌&&◌, List, [], ◌∷◌, ◌≡◌, ap, inl, inr, arith, Bool-cases, Option, some, Text, All,
  All-filter, All-weaken, any, ◌==◌,
}
use expense_management_syste.Errors.{Result, ok, err}
use expense_management_syste.Types.{User, AuditLog}
use expense_management_syste.Db.{Db, World, pure, query, lift}
use expense_management_syste.Db.Runs.{Ends, >>=-Ends, lift-Ends}
use expense_management_syste.Db.Moments.{
  Waits, Waits-of_eq, Waits-trans, Reads, Reads-Ends, Reads-query, reads, select-Ends,
}
use expense_management_syste.Requests.{Page, limit_offset}
use expense_management_syste.Auth.{AuthUser, Request, demo_scope}
use expense_management_syste.Listings.Order.{Server}
use expense_management_syste.Listings.Statements.{Listed, select_count, select_rows}
use expense_management_syste.Listings.Model.{in_scope}
use expense_management_syste.Listings.Trail.{
  AuditOptions, AuditQuery, is_audit_match, audit_matches, audit_order, audit_options, find_all,
  get_audit_logs,
}
use expense_management_syste.Listings.Scope.{
  Visible, in_scope-Visible, select_rows-All, select_count-IsSelect, select_rows-IsSelect,
}

-- The entry stands in the trail, and was made by a user that the caller may see.
abbrev pub VisibleEntry : Server → AuthUser → Db → AuditLog → Type 0
VisibleEntry server caller d a =
    Mem a d.audit_logs
    × (u : User) × Mem u d.users
    × (u.id ≡ a.performed_by)
    × Visible server caller u

any_inv :
    (test : User → Bool) (users : List User)
    → any test users ≡ true
    → (u : User) × Mem u users × (test u ≡ true)
any_inv test [] h = absurd cc
any_inv test (u ∷ users) h = elim (Bool-cases (test u)) [
  | inl here ↦ (u, mem-cons_self, here)
  | inr other ↦
      let (v, m, hv) = any_inv test users (ground (arith, h, other)) in (v, mem-cons_of_mem u m, hv)
]

All-Mem : (l all : List AuditLog) → ((a : AuditLog) → Mem a l → Mem a all) → All (λ a. Mem a all) l
All-Mem [] all inside = tt
All-Mem (a ∷ l) all inside =
    (inside a mem-cons_self, All-Mem l all (λ x m. inside x (mem-cons_of_mem a m)))

audit_matches-VisibleEntry :
    (server : Server) (caller : AuthUser) (session : Option Text) (options : AuditOptions) (d : Db)
    → demo_scope (some caller) ≡ ok session
    → All (VisibleEntry server caller d) (audit_matches server session options d)
unfolding audit_matches is_audit_match
audit_matches-VisibleEntry server caller session options d scoped =
    All-weaken
      (λ a h.
        let performed : AuditLog → User → Bool =
          λ b u. in_scope server session u && (u.id == b.performed_by) in
        let (u, m, hu) = any_inv (performed a) d.users (ground (arith, h)) in
        (
          h.0,
          u,
          m,
          ground (arith, hu),
          in_scope-Visible server caller session u scoped (ground (arith, hu)),
        ))
      (audit_matches server session options d)
      (All-filter (λ a. Mem a d.audit_logs) (is_audit_match server d.users session options)
        d.audit_logs (All-Mem d.audit_logs d.audit_logs (λ a m. m)))

find_all-visible :
    (server : Server) (caller : AuthUser) (session : Option Text) (options : AuditOptions)
    (w : World) {found : Listed AuditLog} {w' : World}
    → demo_scope (some caller) ≡ ok session
    → Ends (find_all server session options) w found w'
    → All (VisibleEntry server caller w'.db) found.rows × Waits w w'
unfolding find_all pure
find_all-visible server caller session options w {found} {w'} scoped h =
    let matches = audit_matches server session options in
    let (total, w1, h0, h1) = >>=-Ends (query (select_count matches)) _ w h in
    let (sort, w2, g2, h2) = >>=-Ends (lift _) _ w1 h1 in
    let size = (limit_offset options.page options.page_size).0 in
    let offset = (limit_offset options.page options.page_size).1 in
    let (rows, w3, h3, h4) =
      >>=-Ends (query (select_rows matches (audit_order server sort) size offset)) _ w2 h2 in
    let (stmt, later) =
      select-Ends (select_rows matches (audit_order server sort) size offset) w2
        (select_rows-IsSelect matches (audit_order server sort) size offset) h3 in
    let last : w3 ≡ w' = ap (λ (x : Result (Listed AuditLog) × World). x.1) h4 in
    let counted : Waits w w1 =
      Reads-Ends (Reads-query (select_count matches) (select_count-IsSelect matches)) h0 in
    let sorted : Waits w1 w2 = Waits-of_eq (lift-Ends _ w1 g2).1 in
    let same : rows ≡ found.rows = rows_same h4 in
    (
      subst (λ (v : World). All (VisibleEntry server caller v.db) found.rows) last
          (subst (All (VisibleEntry server caller w3.db)) same (
            select_rows-All (VisibleEntry server caller w3.db) matches (audit_order server sort)
              size offset w3.now w3.db stmt
              (audit_matches-VisibleEntry server caller session options w3.db scoped))),
      Waits-trans counted (Waits-trans sorted (Waits-trans later (Waits-of_eq last))),
    )
  where
    rows_same :
        {rows : List AuditLog} {total : ℕ} {v : World}
        → pure (record { rows = rows; total = total }) v ≡ (ok found, w')
        → rows ≡ found.rows
    rows_same e =
        ap (λ (x : Result (Listed AuditLog) × World). elim x.0 [ ok l ↦ l.rows | err _ ↦ [] ]) e

audit_options-Reads : (q : AuditQuery) → Reads (audit_options q)
unfolding audit_options
audit_options-Reads q = search reads depth 12

-- `getAuditLogs` writes nothing, and every entry that it shows stands in the trail as it is at its end and
-- was made by a user of the table of users then whom the caller may see: in a demo session by a demo user
-- of the same session, else by a user who is no demo user.
pub get_audit_logs-visible :
    (server : Server) (req : Request) (q : AuditQuery) (w : World) {found : Listed AuditLog}
    {p : Page} {w' : World}
    → Ends (get_audit_logs server req q) w (found, p) w'
    → All (VisibleEntry server req.user w'.db) found.rows × Waits w w'
unfolding get_audit_logs pure
get_audit_logs-visible server req q w {found} {p} {w'} h =
    let ((options, _), w1, h0, h1) = >>=-Ends (audit_options q) _ w h in
    let (session, w2, scoped, h2) = >>=-Ends (lift (demo_scope (some req.user))) _ w1 h1 in
    let first : Waits w w1 = Reads-Ends (audit_options-Reads q) h0 in
    let second : w1 ≡ w2 = (lift-Ends (demo_scope (some req.user)) w1 scoped).1 in
    let (answer, w3, h3, h4) = >>=-Ends (find_all server session options) _ w2 h2 in
    let (visible, listed) =
      find_all-visible server req.user session options w2
        (lift-Ends (demo_scope (some req.user)) w1 scoped).0 h3 in
    let same : answer ≡ found = cc in
    let last : w3 ≡ w' = ap (λ (x : Result (Listed AuditLog × Page) × World). x.1) h4 in
    (
      subst (λ (v : World). All (VisibleEntry server req.user v.db) found.rows) last
          (subst (λ (l : Listed AuditLog). All (VisibleEntry server req.user w3.db) l.rows) same
            visible),
      Waits-trans first (Waits-trans (Waits-of_eq second) (Waits-trans listed (Waits-of_eq last))),
    )
