-- ===== src/Authz/Resolver.antt =====
-- internal/authz/resolver.go: the effective permissions of a principal on a scope.
-- A UUID is a number. The queries of internal/db that the resolver calls are the record `Queries`; one
-- request calls each of them at most once. An error comes back as `err`: the empty set that Go returns
-- beside an error carries nothing, and no caller reads it.

pub mod Sources
pub mod Laws
pub mod Totality
use postbrain.Prelude.{
  ℕ, String, Bool, true, false, List, [], ◌∷◌, Option, none, some, if◌then◌else◌, Result, ok, err,
  ◌>>=◌,
}
use postbrain.Authz.Permissions.{Permission, Error}
use postbrain.Authz.PermSet.{
  PermissionSet, empty_permission_set, new_permission_set, contains, union,
}
use postbrain.Authz.Roles.{Role, role_owner, parse_role, role_permissions}
use postbrain.Authz.ReadOnly.{new_all_permissions, all_read_permissions, read_only_permission_set}

-- What a query answers instead of rows: `pgx.ErrNoRows`, or a failure of the database.
pub data DbError : Type 0 where
  no_rows : DbError
  failed : String → DbError

pub record Queries : Type 0 where
  pub get_principal_system_admin : ℕ → Result DbError Bool
  pub scope_exists : ℕ → Result DbError Bool
  pub principal_owns_target_or_ancestor : ℕ → ℕ → Result DbError Bool
  pub get_effective_membership_role : ℕ → ℕ → Result DbError String
  pub get_scope_grant_permissions : ℕ → ℕ → Result DbError (List (List String))
  pub principal_owns_descendant : ℕ → ℕ → Result DbError Bool
  pub get_descendant_membership_roles : ℕ → ℕ → Result DbError (List String)
  pub get_descendant_scope_grant_permissions : ℕ → ℕ → Result DbError (List (List String))

pub data ResolveError : Type 0 where
  lookup_failed : DbError → ResolveError
  invalid : Error → ResolveError
  needs_db_resolver : ResolveError

-- `fmt.Errorf("…: %w", err)` around a query's and around a check's error.
unfoldable pub queried {ℓ} : {A : Type ℓ} → Result DbError A → Result ResolveError A
queried (ok a) = ok a
queried (err e) = err (lookup_failed e)

unfoldable pub checked {ℓ} : {A : Type ℓ} → Result Error A → Result ResolveError A
checked (ok a) = ok a
checked (err e) = err (invalid e)

-- Step 3: no row means no membership.
unfoldable pub add_membership :
    Result DbError String → PermissionSet → Result ResolveError PermissionSet
unfolding checked
add_membership (err no_rows) result = ok result
add_membership (err (failed m)) result = err (lookup_failed (failed m))
add_membership (ok role_str) result = do
  role ← checked (parse_role role_str)
  ok (union (result ∷ role_permissions role ∷ []))

-- The loop of step 4.
unfoldable pub add_grants : List (List String) → PermissionSet → Result ResolveError PermissionSet
unfolding checked
add_grants [] result = ok result
add_grants (raw ∷ rest) result = do
  ps ← checked (new_permission_set raw)
  add_grants rest (union (result ∷ ps ∷ []))

-- The loops of step 5.
unfoldable pub add_descendant_roles :
    List String → PermissionSet → Result ResolveError PermissionSet
unfolding checked
add_descendant_roles [] upward_read = ok upward_read
add_descendant_roles (raw ∷ rest) upward_read = do
  role ← checked (parse_role raw)
  add_descendant_roles rest
      (union (upward_read ∷ read_only_permission_set (role_permissions role) ∷ []))

unfoldable pub add_descendant_grants :
    List (List String) → PermissionSet → Result ResolveError PermissionSet
unfolding checked
add_descendant_grants [] upward_read = ok upward_read
add_descendant_grants (raw ∷ rest) upward_read = do
  ps ← checked (new_permission_set raw)
  add_descendant_grants rest (union (upward_read ∷ read_only_permission_set ps ∷ []))

module _ (q : Queries) where
  open q use {
    get_principal_system_admin, scope_exists, principal_owns_target_or_ancestor,
    get_effective_membership_role, get_scope_grant_permissions, principal_owns_descendant,
    get_descendant_membership_roles, get_descendant_scope_grant_permissions,
  }

  -- Steps 2 to 4: the value of `result` before step 5.
  unfoldable pub from_above : ℕ → ℕ → Result ResolveError PermissionSet
  unfolding queried
  from_above principal_id scope_id = do
    owns ← queried (principal_owns_target_or_ancestor principal_id scope_id)
    let owned =
        if owns
        then union (empty_permission_set ∷ role_permissions role_owner ∷ [])
        else empty_permission_set
    with_role ← add_membership (get_effective_membership_role principal_id scope_id) owned
    grant_perms ← queried (get_scope_grant_permissions principal_id scope_id)
    add_grants grant_perms with_role

  -- Step 5: the value of `upwardRead`.
  unfoldable pub from_below : ℕ → ℕ → Result ResolveError PermissionSet
  unfolding queried
  from_below principal_id scope_id = do
    owns_descendant ← queried (principal_owns_descendant scope_id principal_id)
    let upward_owned =
        if owns_descendant
        then union (empty_permission_set ∷ all_read_permissions ∷ [])
        else empty_permission_set
    desc_roles ← queried (get_descendant_membership_roles principal_id scope_id)
    upward_roles ← add_descendant_roles desc_roles upward_owned
    desc_grant_perms ← queried (get_descendant_scope_grant_permissions principal_id scope_id)
    add_descendant_grants desc_grant_perms upward_roles

  -- Steps 2 to 5, for a principal that is no systemadmin and a scope that exists.
  unfoldable pub from_sources : ℕ → ℕ → Result ResolveError PermissionSet
  from_sources principal_id scope_id = do
    result ← from_above principal_id scope_id
    upward_read ← from_below principal_id scope_id
    ok (union (result ∷ upward_read ∷ []))

  -- `DBResolver.EffectivePermissions`
  unfoldable pub effective_permissions : ℕ → ℕ → Result ResolveError PermissionSet
  unfolding from_sources
  effective_permissions principal_id scope_id = elim (get_principal_system_admin principal_id) [
    | err no_rows ↦ ok empty_permission_set
    | err (failed m) ↦ err (lookup_failed (failed m))
    | ok true ↦ ok new_all_permissions
    | ok false ↦ do
      exists ← queried (scope_exists scope_id)
      if exists then from_sources principal_id scope_id else ok empty_permission_set
  ]

  -- `DBResolver.HasPermission`
  unfoldable pub has_permission : ℕ → ℕ → Permission → Result ResolveError Bool
  unfolding effective_permissions
  has_permission principal_id scope_id perm = do
    perms ← effective_permissions principal_id scope_id
    ok (contains perms perm)
