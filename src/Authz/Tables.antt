-- ===== src/Authz/Tables.antt =====
-- internal/db/authz.sql.go: the queries of the resolver over the tables of principals, memberships,
-- scopes and grants, and ReachableScopeIDs of internal/authz/resolver.go. A join is a loop over the rows
-- of its tables. The path of a scope (ltree) is the list of its labels; `now` is the database's `now()`.
-- The rows come in the order of the tables; SQL leaves it open, and no result depends on it.
pub mod Spec
pub mod Answers
pub mod Ranks
pub mod Held
pub mod Refinement
pub mod Reachable
use postbrain.Prelude.{
  ℕ, nat_eq, String, string_eq, Bool, true, false, ◌&&◌, ◌||◌, negb, List, [], ◌∷◌, ◌++◌, map,
  Option, none, some, ltb, leb, ◌==◌, if◌then◌else◌, Result, ok, err, any, elem, select, get?,
  for_each, when,
}
use postbrain.Authz.Roles.{role_owner, role_admin, role_member}
use postbrain.Authz.Resolver.{DbError, no_rows, failed, Queries}
use postbrain.Principals.Membership.{Memberships}
use postbrain.Principals.Ancestry.{principal_ancestry, fresh}

pub record Scope : Type 0 where
  pub id : ℕ
  pub principal_id : ℕ
  pub path : List ℕ

pub record ScopeGrant : Type 0 where
  pub principal_id : ℕ
  pub scope_id : ℕ
  pub permissions : List String
  pub expires_at : Option ℕ

pub record Tables : Type 0 where
  pub principals : List (ℕ × Bool)  -- id, is_system_admin
  pub memberships : Memberships
  pub scopes : List Scope
  pub scope_grants : List ScopeGrant

-- `a @> b`: `a` is `b` or an ancestor of it.
unfoldable pub contains_path : List ℕ → List ℕ → Bool
contains_path [] b = true
contains_path (x ∷ a) [] = false
contains_path (x ∷ a) (y ∷ b) = x == y && contains_path a b

-- `expires_at IS NULL OR expires_at > now()`
unfoldable pub is_live : ℕ → Option ℕ → Bool
is_live now none = true
is_live now (some t) = ltb now t

-- The two joins with the target: a scope at it or above it, and a scope strictly below it.
unfoldable pub at_or_above : Scope → Scope → Bool
unfolding contains_path
at_or_above s target = contains_path s.path target.path

unfoldable pub below : Scope → Scope → Bool
unfolding contains_path
below s target = contains_path target.path s.path && negb (s.id == target.id)

-- `ORDER BY CASE pm.role …`
unfoldable pub role_rank : String → ℕ
role_rank r =
    if r == role_owner then 1 else if r == role_admin then 2 else if r == role_member then 3 else 4

-- `ORDER BY … LIMIT 1`
unfoldable pub first_by_rank : List String → Option String
first_by_rank [] = none
first_by_rank (r ∷ rs) = elim (first_by_rank rs) [
  | none ↦ some r
  | some q ↦ if leb (role_rank r) (role_rank q) then some r else some q
]

-- `WITH RECURSIVE principal_ancestry(id)`
unfoldable pub ancestry : Memberships → ℕ → List ℕ
ancestry rows principal_id = elim (principal_ancestry rows principal_id) [
  | none ↦ []
  | some ids ↦ ids
]

module _ (t : Tables) where
  unfoldable pub get_principal_system_admin : ℕ → Result DbError Bool
  get_principal_system_admin id = elim (get? id t.principals) [ none ↦ err no_rows | some b ↦ ok b ]

  unfoldable pub scope_exists : ℕ → Bool
  scope_exists id = any (λ s. s.id == id) t.scopes

  -- The scopes that a join relates to the target scope.
  unfoldable pub related : (Scope → Scope → Bool) → ℕ → List Scope
  related rel target_id =
      for_each t.scopes
        λ target. if target.id == target_id then select (λ s. rel s target) t.scopes else []

  unfoldable pub owns_related : (Scope → Scope → Bool) → ℕ → ℕ → Bool
  unfolding related
  owns_related rel principal_id target_id =
      any (λ s. s.principal_id == principal_id) (related rel target_id)

  unfoldable pub principal_owns_target_or_ancestor : ℕ → ℕ → Bool
  unfolding owns_related at_or_above
  principal_owns_target_or_ancestor principal_id target_id =
      owns_related at_or_above principal_id target_id

  unfoldable pub principal_owns_descendant : ℕ → ℕ → Bool
  unfolding owns_related below
  principal_owns_descendant target_id principal_id = owns_related below principal_id target_id

  -- `FROM principal_memberships pm JOIN … ON pm.parent_id = … WHERE pm.member_id IN (…)`
  unfoldable pub related_roles : (Scope → Scope → Bool) → ℕ → ℕ → List String
  unfolding related ancestry
  related_roles rel principal_id target_id = for_each (related rel target_id) λ s.
      for_each t.memberships λ (pm : (ℕ × ℕ) × String).
        when (pm.0.1 == s.principal_id && elem pm.0.0 (ancestry t.memberships principal_id)) pm.1

  unfoldable pub get_descendant_membership_roles : ℕ → ℕ → List String
  unfolding related_roles below
  get_descendant_membership_roles principal_id target_id =
      related_roles below principal_id target_id

  -- Here the owners are taken once each, before the join.
  unfoldable pub owner_roles : ℕ → ℕ → List String
  unfolding related ancestry at_or_above fresh
  owner_roles principal_id target_id =
      for_each (fresh [] (map (λ (s : Scope). s.principal_id) (related at_or_above target_id)))
        λ owner. for_each t.memberships λ (pm : (ℕ × ℕ) × String).
          when (pm.0.1 == owner && elem pm.0.0 (ancestry t.memberships principal_id)) pm.1

  unfoldable pub get_effective_membership_role : ℕ → ℕ → Result DbError String
  unfolding owner_roles first_by_rank
  get_effective_membership_role principal_id target_id =
      elim (first_by_rank (owner_roles principal_id target_id)) [
        | none ↦ err no_rows
        | some r ↦ ok r
      ]

  unfoldable pub related_grants : (Scope → Scope → Bool) → ℕ → ℕ → ℕ → List (List String)
  unfolding related is_live
  related_grants rel now principal_id target_id = for_each (related rel target_id) λ s.
      for_each t.scope_grants λ g.
        when (g.scope_id == s.id && (g.principal_id == principal_id && is_live now g.expires_at))
          g.permissions

  unfoldable pub get_scope_grant_permissions : ℕ → ℕ → ℕ → List (List String)
  unfolding related_grants at_or_above
  get_scope_grant_permissions now principal_id target_id =
      related_grants at_or_above now principal_id target_id

  unfoldable pub get_descendant_scope_grant_permissions : ℕ → ℕ → ℕ → List (List String)
  unfolding related_grants below
  get_descendant_scope_grant_permissions now principal_id target_id =
      related_grants below now principal_id target_id

  unfoldable pub is_scope_allowed_by_token_scopes : ℕ → List ℕ → Bool
  unfolding related at_or_above
  is_scope_allowed_by_token_scopes target_id allowed_ids =
      any (λ allowed. elem allowed.id allowed_ids) (related at_or_above target_id)

  unfoldable pub get_all_scope_ids : List ℕ
  get_all_scope_ids = map (λ (s : Scope). s.id) t.scopes

  -- `direct_scopes`
  unfoldable pub direct_scopes : ℕ → ℕ → List ℕ
  unfolding ancestry is_live
  direct_scopes now principal_id =
      map (λ (s : Scope). s.id)
        (select (λ s. elem s.principal_id (ancestry t.memberships principal_id)) t.scopes)
      ++ map (λ (g : ScopeGrant). g.scope_id)
          (select (λ g. g.principal_id == principal_id && is_live now g.expires_at) t.scope_grants)

  -- `upward_scopes`
  unfoldable pub upward_scopes : ℕ → ℕ → List ℕ
  unfolding direct_scopes contains_path
  upward_scopes now principal_id = for_each t.scopes λ ancestor. for_each t.scopes λ direct.
      when
        (contains_path ancestor.path direct.path
          && (negb (ancestor.id == direct.id) && elem direct.id (direct_scopes now principal_id)))
        ancestor.id

  unfoldable pub get_reachable_scope_ids : ℕ → ℕ → List ℕ
  unfolding direct_scopes upward_scopes fresh
  get_reachable_scope_ids now principal_id =
      fresh [] (direct_scopes now principal_id ++ upward_scopes now principal_id)

  -- `DBResolver.ReachableScopeIDs`; nil is the empty list.
  unfoldable pub reachable_scope_ids : ℕ → ℕ → Result DbError (List ℕ)
  unfolding get_principal_system_admin get_all_scope_ids get_reachable_scope_ids
  reachable_scope_ids now principal_id = elim (get_principal_system_admin principal_id) [
    | err no_rows ↦ ok []
    | err (failed m) ↦ err (failed m)
    | ok true ↦ ok get_all_scope_ids
    | ok false ↦ ok (get_reachable_scope_ids now principal_id)
  ]

  -- The queries of the resolver, answered from the tables.
  abbrev pub queries : ℕ → Queries
  queries now = record {
    get_principal_system_admin = get_principal_system_admin;
    scope_exists = λ s. ok (scope_exists s);
    principal_owns_target_or_ancestor = λ p s. ok (principal_owns_target_or_ancestor p s);
    get_effective_membership_role = get_effective_membership_role;
    get_scope_grant_permissions = λ p s. ok (get_scope_grant_permissions now p s);
    principal_owns_descendant = λ s p. ok (principal_owns_descendant s p);
    get_descendant_membership_roles = λ p s. ok (get_descendant_membership_roles p s);
    get_descendant_scope_grant_permissions =
        λ p s. ok (get_descendant_scope_grant_permissions now p s);
  }
