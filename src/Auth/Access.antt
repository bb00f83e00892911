-- ===== src/Auth/Access.antt =====
-- The roles of a token and the role that a header asks for: server/src/middleware/auth.ts.
use expense_management_syste.Base.{
  true, Option, none, some, List, [], ◌∷◌, ◌≡◌, refl, sym, ap, ◌∙◌, arith, Text, text_eq,
  Bool-cases, Option-cases, inl, inr,
}
use expense_management_syste.Types.{Role, role_eq}
use expense_management_syste.Auth.Roles.{
  role_name, RolesClaim, includes, resolve_roles, named, is_nonempty, resolve_active_role, role_in,
}

-- Exactly the roles that a token claims are assigned.
pub resolve_roles-claimed :
    (claims : List (Option Text)) (r : Role)
    → role_in r (resolve_roles (RolesClaim.array claims)) ≡ includes claims r
unfolding resolve_roles
resolve_roles-claimed claims Role.employee = ground arith
resolve_roles-claimed claims Role.manager = ground arith
resolve_roles-claimed claims Role.admin = ground arith

pub role_eq_of_eq : (r x : Role) → x ≡ r → role_eq r x ≡ true
role_eq_of_eq Role.employee x h = ap (role_eq Role.employee) h
role_eq_of_eq Role.manager x h = ap (role_eq Role.manager) h
role_eq_of_eq Role.admin x h = ap (role_eq Role.admin) h

eq_of_role_eq : (r x : Role) → role_eq r x ≡ true → x ≡ r
eq_of_role_eq Role.employee x h = ground arith
eq_of_role_eq Role.manager x h = ground arith
eq_of_role_eq Role.admin x h = ground arith

-- The names of the roles tell them apart.
role_name-text_eq : (r x : Role) → text_eq (role_name r) (role_name x) ≡ role_eq r x
role_name-text_eq Role.employee Role.employee = refl
role_name-text_eq Role.employee _ = refl
role_name-text_eq Role.manager Role.manager = refl
role_name-text_eq Role.manager _ = refl
role_name-text_eq Role.admin Role.admin = refl
role_name-text_eq Role.admin _ = refl

named-role_in :
    (name : Text) (rs : List Role) (r : Role) → named name rs ≡ some r → role_in r rs ≡ true
named-role_in name [] r h = ground (arith, h)
named-role_in name (x ∷ rs) r h = elim (Bool-cases (text_eq name (role_name x))) [
  | inl here ↦
      let same : x ≡ r = ground (arith, h, here) in
      let equal : role_eq r x ≡ true = role_eq_of_eq r x same in ground (arith, equal)
  | inr later ↦
      let rest : role_in r rs ≡ true = named-role_in name rs r (ground (arith, h, later)) in
      ground (arith, rest)
]

named-role_name :
    (rs : List Role) (r : Role) → role_in r rs ≡ true → named (role_name r) rs ≡ some r
named-role_name [] r h = ground (arith, h)
named-role_name (x ∷ rs) r h =
    let test : text_eq (role_name r) (role_name x) ≡ role_eq r x = role_name-text_eq r x in
    elim (Bool-cases (role_eq r x)) [
      | inl here ↦ let same : x ≡ r = eq_of_role_eq r x here in ground (arith, test, here, same)
      | inr later ↦
          let rest : named (role_name r) rs ≡ some r =
            named-role_name rs r (ground (arith, h, later)) in
          ground (arith, test, later, rest)
    ]

pub active_role_in :
    (rs : List Role) (header : Option Text) (r : Role)
    → resolve_active_role rs header ≡ some r
    → role_in r rs ≡ true
unfolding resolve_active_role
active_role_in [] header r h = ground (arith, h)
active_role_in (x ∷ rs) none r h =
    let equal : role_eq r x ≡ true = role_eq_of_eq r x (ground (arith, h)) in ground (arith, equal)
active_role_in (x ∷ rs) (some name) r h = elim (Option-cases (named name (x ∷ rs))) [
  | inl missing ↦
      let equal : role_eq r x ≡ true = role_eq_of_eq r x (ground (arith, h, missing)) in
      ground (arith, equal)
  | inr (y, found) ↦ elim (Bool-cases (is_nonempty name)) [
    | inl asked ↦ named-role_in name (x ∷ rs) r (found ∙ ground (arith, h, found, asked))
    | inr empty ↦
        let equal : role_eq r x ≡ true = role_eq_of_eq r x (ground (arith, h, empty)) in
        ground (arith, equal)
  ]
]

role_name-is_nonempty : (r : Role) → is_nonempty (role_name r) ≡ true
role_name-is_nonempty Role.employee = refl
role_name-is_nonempty Role.manager = refl
role_name-is_nonempty Role.admin = refl

active-role_name :
    (rs : List Role) (r : Role)
    → role_in r rs ≡ true
    → resolve_active_role rs (some (role_name r)) ≡ some r
unfolding resolve_active_role
active-role_name [] r h = ground (arith, h)
active-role_name (x ∷ rs) r h =
    let found = named-role_name (x ∷ rs) r h in
    let asked = role_name-is_nonempty r in rw (asked, found) refl

-- The active role is one that the token claims, whatever the header asks for.
pub resolve_active_role-claimed :
    (claims : List (Option Text)) (header : Option Text) (r : Role)
    → resolve_active_role (resolve_roles (RolesClaim.array claims)) header ≡ some r
    → includes claims r ≡ true
resolve_active_role-claimed claims header r h =
    sym (resolve_roles-claimed claims r)
    ∙ active_role_in (resolve_roles (RolesClaim.array claims)) header r h

-- A header that names a role which the token claims is obeyed.
pub resolve_active_role-obeyed :
    (claims : List (Option Text)) (r : Role)
    → includes claims r ≡ true
    → resolve_active_role (resolve_roles (RolesClaim.array claims)) (some (role_name r)) ≡ some r
resolve_active_role-obeyed claims r h =
    active-role_name (resolve_roles (RolesClaim.array claims)) r
      (resolve_roles-claimed claims r ∙ h)
