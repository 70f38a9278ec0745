-- ===== src/Authz/TokenResolver.antt =====
-- internal/authz/token_resolver.go and internal/api/scopeauth/scopeauth.go: what a token may do.
-- Times are numbers on one clock; `now` is what `time.Now` returns during the call.
pub mod Laws
use postbrain.Prelude.{
  ℕ, String, Bool, true, false, List, [], ◌∷◌, Option, none, some, ltb, if◌then◌else◌, Result, ok,
  err, ◌>>=◌,
}
use postbrain.Authz.Permissions.{Permission}
use postbrain.Authz.PermSet.{PermissionSet, empty_permission_set, contains}
use postbrain.Authz.Tokens.{parse_token_permissions, effective_token_permissions as within_token}
use postbrain.Authz.Resolver.{DbError, ResolveError, needs_db_resolver, queried, checked}

-- The fields of `db.Token` that the resolver reads.
pub record Token : Type 0 where
  pub principal_id : ℕ
  pub scope_ids : List ℕ
  pub permissions : List String
  pub revoked_at : Option ℕ
  pub expires_at : Option ℕ

-- The `Resolver` that a token resolver wraps. `scope_query` is the query
-- `IsScopeAllowedByTokenScopes` of the database resolver under it, if there is one
-- (`unwrapDBResolver`).
pub record Resolver : Type 0 where
  pub effective_permissions : ℕ → ℕ → Result ResolveError PermissionSet
  pub scope_query : Option (ℕ → List ℕ → Result DbError Bool)

-- `tok.ExpiresAt != nil && tok.ExpiresAt.Before(time.Now())`
unfoldable pub is_expired : ℕ → Option ℕ → Bool
is_expired now none = false
is_expired now (some t) = ltb t now

unfoldable pub is_revoked : Option ℕ → Bool
is_revoked none = false
is_revoked (some t) = true

module _ (resolver : Resolver) where
  unfoldable pub is_scope_allowed : ℕ → List ℕ → Result ResolveError Bool
  unfolding queried
  is_scope_allowed scope_id allowed_ids = elim (resolver.scope_query) [
    | none ↦ err needs_db_resolver
    | some query ↦ queried (query scope_id allowed_ids)
  ]

  -- The scope restriction: a token with no scopes is not restricted.
  unfoldable pub scope_check : ℕ → List ℕ → Result ResolveError Bool
  unfolding is_scope_allowed
  scope_check scope_id [] = ok true
  scope_check scope_id (s ∷ scope_ids) = is_scope_allowed scope_id (s ∷ scope_ids)

  -- The two sets and their intersection, once the token is live and the scope is allowed.
  unfoldable pub both_sets : Token → ℕ → Result ResolveError PermissionSet
  unfolding checked
  both_sets tok scope_id = do
    principal_perms ← resolver.effective_permissions tok.principal_id scope_id
    token_perms ← checked (parse_token_permissions tok.permissions)
    ok (within_token principal_perms token_perms)

  -- `TokenResolver.EffectiveTokenPermissions`
  unfoldable pub effective_token_permissions : ℕ → Token → ℕ → Result ResolveError PermissionSet
  unfolding scope_check both_sets
  effective_token_permissions now tok scope_id =
      if is_revoked tok.revoked_at
      then ok empty_permission_set
      else if is_expired now tok.expires_at
      then ok empty_permission_set
      else do
        allowed ← scope_check scope_id tok.scope_ids
        if allowed then both_sets tok scope_id else ok empty_permission_set

  -- `TokenResolver.HasTokenPermission`
  unfoldable pub has_token_permission : ℕ → Token → ℕ → Permission → Result ResolveError Bool
  unfolding effective_token_permissions
  has_token_permission now tok scope_id perm = do
    perms ← effective_token_permissions now tok scope_id
    ok (contains perms perm)

-- scopeauth.go

pub data AuthError : Type 0 where
  missing_token : AuthError
  scope_resolver_unavailable : AuthError
  check_failed : ResolveError → AuthError
  token_scope_denied : Permission → ℕ → AuthError

-- `AuthorizeContextScope`; the context holds a token and a token resolver, or lacks one. `none` is
-- the nil error.
unfoldable pub authorize_context_scope :
    Option Token → Option Resolver → ℕ → ℕ → Permission → Option AuthError
unfolding has_token_permission
authorize_context_scope none _ now scope_id perm = some missing_token
authorize_context_scope (some token) none now scope_id perm = some scope_resolver_unavailable
authorize_context_scope (some token) (some resolver) now scope_id perm =
    elim (has_token_permission resolver now token scope_id perm) [
      | err e ↦ some (check_failed e)
      | ok true ↦ none
      | ok false ↦ some (token_scope_denied perm scope_id)
    ]
