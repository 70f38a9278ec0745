-- ===== src/Authz/Tests/Tables.antt =====
-- The theorems on the queries over the tables at concrete rows.
use postbrain.Prelude.{
  ℕ, nat_eq, pair_eq, string_eq, String, ◌≡◌, refl, sym, ap, ◌∙◌, ◌⊎◌, ◌↔◌, inl, inr, true, false,
  List, [], ◌∷◌, some, ok, In, get?, arith,
}
use postbrain.Authz.Permissions.{
  Permission, parse, expand, expand_scoped, cut, check_operation, new_permission, shorthand?, ops?,
}
use postbrain.Authz.PermSet.{contains, new_permission_set, collect, mark_all, mark}
use postbrain.Authz.Roles.{parse_role, role_owner, role_permissions}
use postbrain.Authz.Resolver.{has_permission}
use postbrain.Authz.Resolver.Totality.{KnownRole, KnownGrant}
use postbrain.Principals.Membership.Laws.{Ancestor, self, up}
use postbrain.Authz.Tables.{
  Scope, ScopeGrant, Tables, contains_path, queries, get_reachable_scope_ids, reachable_scope_ids,
}
use postbrain.Authz.Tables.Spec.{Allowed}
use postbrain.Authz.Tables.Refinement.{has_permission-Allowed}
use postbrain.Authz.Tables.Reachable.{
  IsDirect, IsUpward, reachable_scope_ids_lem, has_permission-unreachable,
}

abbrev team : Scope
team = record { id = 10; principal_id = 1; path = 1 ∷ [] }

abbrev project : Scope
project = record { id = 11; principal_id = 2; path = 1 ∷ 2 ∷ [] }

abbrev grant : ScopeGrant
grant = record {
  principal_id = 3;
  scope_id = 11;
  permissions = "memories:read" ∷ [];
  expires_at = some 50;
}

-- Principal 1 owns the team, 2 the project below it; 4 is a member of 2, and 3 has a grant on the project.
abbrev world : Tables
world = record {
  principals = (1, false) ∷ (2, false) ∷ (3, false) ∷ (4, false) ∷ [];
  memberships = ((4, 2), "member") ∷ [];
  scopes = team ∷ project ∷ [];
  scope_grants = grant ∷ [];
}

world_roles : (row : (ℕ × ℕ) × String) → In row world.memberships → KnownRole (row.1)
unfolding parse_role
world_roles row h = elim h [
  | inl e ↦ ("member", ap (λ (r : (ℕ × ℕ) × String). parse_role (r.1)) e)
  | inr n ↦ absurd n
]

world_grants : (g : ScopeGrant) → In g world.scope_grants → KnownGrant g.permissions
unfolding new_permission_set collect mark_all mark expand expand_scoped cut check_operation
    new_permission shorthand? ops? parse
world_grants g h = elim h [
  | inl e ↦ (
    record { perms = "memories:read" ∷ [] },
    ap (λ (g : ScopeGrant). new_permission_set g.permissions) e,
  )
  | inr n ↦ absurd n
]

Ancestor-world : (x : ℕ) → Ancestor world.memberships 1 x → x ≡ 1
Ancestor-world x (self y) = refl
Ancestor-world x (up {z} (role, row) a) = absurd (ground arith)

world_direct : (id : ℕ) → IsDirect world 20 1 id → id ≡ 10
world_direct id h = elim h [
  | inl (s, at, e, a) ↦ elim at [
    | inl is_team ↦ sym e ∙ ap (λ (s : Scope). s.id) is_team
    | inr (inl is_project) ↦
        let owner : 2 ≡ 1 =
          sym (ap (λ (s : Scope). s.principal_id) is_project) ∙ Ancestor-world s.principal_id a in
        absurd (ground (arith, owner))
    | inr (inr n) ↦ absurd n
  ]
  | inr (g, at, e, mine, live) ↦ elim at [
    | inl is_grant ↦
        let owner : 3 ≡ 1 = sym (ap (λ (g : ScopeGrant). g.principal_id) is_grant) ∙ mine in
        absurd (ground (arith, owner))
    | inr n ↦ absurd n
  ]
]

team_key : (s : Scope) → In s world.scopes → s.id ≡ 10 → s ≡ team
team_key s h e = elim h [
  | inl is_team ↦ is_team
  | inr (inl is_project) ↦
      let clash : 11 ≡ 10 = sym (ap (λ (s : Scope). s.id) is_project) ∙ e in
      absurd (ground (arith, clash))
  | inr (inr n) ↦ absurd n
]

project_key : (s : Scope) → In s world.scopes → s.id ≡ 11 → s ≡ project
project_key s h e = elim h [
  | inl is_team ↦
      let clash : 10 ≡ 11 = sym (ap (λ (s : Scope). s.id) is_team) ∙ e in
      absurd (ground (arith, clash))
  | inr (inl is_project) ↦ is_project
  | inr (inr n) ↦ absurd n
]

has_permission-Allowed_example :
    (has_permission (queries world 20) 4 11 "memories:write" ≡ ok true)
    ↔ Allowed world 20 4 11 "memories:write"
has_permission-Allowed_example =
    has_permission-Allowed world 20 4 11 world_roles world_grants "memories:write"

reachable_scope_ids_lem_example :
    (ids : List ℕ) × (reachable_scope_ids world 20 3 ≡ ok ids)
    × ((id : ℕ)
        → In id ids ↔ (
            ((get? 3 world.principals ≡ some true)
              × ((s : Scope) × In s world.scopes × (s.id ≡ id)))
            ⊎ ((get? 3 world.principals ≡ some false)
                × (IsDirect world 20 3 id ⊎ IsUpward world 20 3 id))))
reachable_scope_ids_lem_example = reachable_scope_ids_lem world 20 3

has_permission-unreachable_example :
    ((p : Permission)
      → contains (role_permissions role_owner) p ≡ true
      → has_permission (queries world 20) 1 11 p ≡ ok true)
    × (In 11 (get_reachable_scope_ids world 20 1) → ⊥)
unfolding contains_path
has_permission-unreachable_example =
    has_permission-unreachable world 20 1 world_roles world_grants refl team project (inl refl)
      (inr (inl refl)) refl refl refl project_key team_key (λ e. absurd (ground arith)) world_direct
