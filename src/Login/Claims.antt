-- ===== src/Login/Claims.antt =====
-- The claims that `verifyToken` and `authenticate` of server/src/middleware/auth.ts go by.
use expense_management_syste.Base.{
  ℕ, Bool, true, false, ◌||◌, ◌&&◌, Option, none, some, List, [], ◌∷◌, ◌++◌, Text, text_eq, leb,
  length, any, filter, map, ◌==◌, if◌then◌else◌,
}
use expense_management_syste.Types.{Role}
use expense_management_syste.Requests.{to_lower, trim}
use expense_management_syste.Auth.{RolesClaim, array, not_array, resolve_roles, is_nonempty}
use expense_management_syste.Login.Outside.{Environment, Claim, EntraClaims}

-- What `verifyToken` resolves to: the payload, with the claims that it found to be there.
pub record Verified : Type 0 where
  pub oid : Text
  pub email : Text
  pub name : Option Text
  pub roles : Option RolesClaim

-- `a || b` on claims
abbrev or_claim : Claim → Claim → Claim
or_claim Claim.missing next = next
or_claim (Claim.text []) next = next
or_claim (Claim.text (c ∷ s)) next = Claim.text (c ∷ s)
or_claim Claim.other next = Claim.other

abbrev text_of : Claim → Option Text
text_of (Claim.text s) = some s
text_of _ = none

abbrev all_strings : List (Option Text) → Bool
all_strings [] = true
all_strings (none ∷ rest) = false
all_strings (some _ ∷ rest) = all_strings rest

-- `roles` is missing, or an array of strings
abbrev is_roles_claim : Option RolesClaim → Bool
is_roles_claim none = true
is_roles_claim (some not_array) = false
is_roles_claim (some (array names)) = all_strings names

abbrev within : ℕ → Text → Bool
within most s = is_nonempty s && leb (length s) most

-- The checks of the callback of `verifyToken`
unfoldable pub accept_claims : EntraClaims → Option Verified
accept_claims claims = elim claims.oid [
  | none ↦ none
  | some oid ↦
      elim (text_of (or_claim claims.preferred_username (or_claim claims.upn claims.unique_name))) [
        | none ↦ none
        | some email ↦
            if within 100 oid && within 320 email && is_roles_claim claims.roles
            then some
                (record { oid = oid; email = email; name = claims.name; roles = claims.roles })
            else none
      ]
]

-- `resolveRoles(decoded.roles)`
abbrev pub assigned_to : Verified → List Role
assigned_to claims = elim claims.roles [ none ↦ [] | some roles ↦ resolve_roles roles ]

-- `split(',')`
abbrev split_from : Text → Text → List Text
split_from part [] = part ∷ []
split_from part (c ∷ s) =
    let next = split_from [] s in
    let more = split_from (part ++ c ∷ []) s in if c == b',' then part ∷ next else more

-- The allowlist of OWNER_OIDS
unfoldable pub owner_list : Text → List Text
unfolding trim
owner_list owner_oids = filter is_nonempty (map (λ s. to_lower (trim s)) (split_from [] owner_oids))

-- `ownerOids.length > 0 && !ownerOids.includes(oid)` fails
unfoldable pub is_owner_allowed : Environment → Text → Bool
unfolding owner_list
is_owner_allowed env oid =
    let owners = owner_list env.owner_oids in
    leb (length owners) 0 || any (text_eq (to_lower oid)) owners
