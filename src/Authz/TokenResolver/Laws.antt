-- ===== src/Authz/TokenResolver/Laws.antt =====
-- token_resolver.go: a token never exceeds its principal, its declared permissions or its scopes.
use postbrain.Prelude.{
  ℕ, String, string_eq, ◌≡◌, ap, ◌∙◌, inl, inr, true, false, ◌&&◌, List, [], ◌∷◌, none, some,
  Bool-cases, Result, ok, bind_ok, Result-cases, arith,
}
use postbrain.Authz.Permissions.{Permission}
use postbrain.Authz.PermSet.{PermissionSet, empty_permission_set, contains, intersect}
use postbrain.Authz.PermSet.Laws.{contains-intersect, contains-empty, contains-new_permission_set}
use postbrain.Authz.Tokens.{
  parse_token_permissions, effective_token_permissions as within_token, has_admin,
}
use postbrain.Authz.Resolver.{ResolveError, checked}
use postbrain.Authz.Resolver.Sources.{row_grants, checked-ok}
use postbrain.Authz.TokenResolver.{
  Token, Resolver, is_expired, is_revoked, scope_check, both_sets, effective_token_permissions,
  has_token_permission, authorize_context_scope,
}

-- The set of a token's declared permissions holds what one of its texts expands to.
pub contains-parse_token_permissions :
    (raw : List String) (p : Permission) {s : PermissionSet}
    → parse_token_permissions raw ≡ ok s
    → contains s p ≡ row_grants p raw
unfolding parse_token_permissions
contains-parse_token_permissions [] p h = cc
contains-parse_token_permissions (r ∷ rs) p h = elim (Bool-cases (has_admin (r ∷ rs))) [
  | inl legacy ↦ absurd (ground arith)
  | inr fine ↦ contains-new_permission_set p (r ∷ rs) (rw fine at h)
]

-- Every condition that lets a token do something on a scope.
pub record Entitled (resolver : Resolver) (now : ℕ) (tok : Token) (scope_id : ℕ) (p : Permission)
    : Type 0 where
  pub not_revoked : tok.revoked_at ≡ none
  pub not_expired : is_expired now tok.expires_at ≡ false
  pub in_scope : scope_check resolver scope_id tok.scope_ids ≡ ok true
  pub principal_perms : PermissionSet
  pub principal_answer :
      resolver.effective_permissions tok.principal_id scope_id ≡ ok principal_perms
  pub principal_may : contains principal_perms p ≡ true
  pub declared : row_grants p tok.permissions ≡ true

module _ (resolver : Resolver) (now : ℕ) (tok : Token) (scope_id : ℕ) (p : Permission) where
  not_revoked_of : is_revoked tok.revoked_at ≡ false → tok.revoked_at ≡ none
  unfolding is_revoked
  not_revoked_of h = ground arith

  both_sets-Entitled :
      {s : PermissionSet}
      → is_revoked tok.revoked_at ≡ false
      → is_expired now tok.expires_at ≡ false
      → scope_check resolver scope_id tok.scope_ids ≡ ok true
      → both_sets resolver tok scope_id ≡ ok s
      → contains s p ≡ true
      → Entitled resolver now tok scope_id p
  unfolding both_sets within_token
  both_sets-Entitled {s} live fresh allowed h m =
      bind_ok (resolver.effective_permissions tok.principal_id scope_id) _ h λ perms answered h1.
        bind_ok (checked (parse_token_permissions tok.permissions)) _ h1 λ declared parsed same.
          let joined : ◌≡◌ {A = Result ResolveError PermissionSet} (ok (intersect perms declared))
              (ok s) =
            same in
          let shared : (contains perms p && contains declared p) ≡ true =
            ground (arith, contains-intersect perms declared p) in
          record {
            not_revoked = not_revoked_of live;
            not_expired = fresh;
            in_scope = allowed;
            principal_perms = perms;
            principal_answer = answered;
            principal_may = ground arith;
            declared =
                ground
                  (arith, contains-parse_token_permissions tok.permissions p (checked-ok _ parsed));
          }

  nothing_held :
      {s : PermissionSet}
      → ◌≡◌ {A = Result ResolveError PermissionSet} (ok empty_permission_set) (ok s)
      → contains s p ≡ true
      → Entitled resolver now tok scope_id p
  nothing_held h m = absurd (ground (arith, contains-empty p))

  effective-Entitled :
      {s : PermissionSet}
      → effective_token_permissions resolver now tok scope_id ≡ ok s
      → contains s p ≡ true
      → Entitled resolver now tok scope_id p
  unfolding effective_token_permissions
  effective-Entitled {s} h m = elim (Bool-cases (is_revoked tok.revoked_at)) [
    | inl revoked ↦ nothing_held (rw (revoked, effective_token_permissions) at h) m
    | inr live ↦ elim (Bool-cases (is_expired now tok.expires_at)) [
      | inl late ↦ nothing_held (rw (live, late, effective_token_permissions) at h) m
      | inr fresh ↦
          bind_ok (scope_check resolver scope_id tok.scope_ids) _
            (rw (live, fresh, effective_token_permissions) at h)
            λ allowed checked rest. elim (Bool-cases allowed) [
              | inl inside ↦
                  both_sets-Entitled live fresh (checked ∙ ap ok inside) (rw inside at rest) m
              | inr outside ↦ nothing_held (rw outside at rest) m
            ]
    ]
  ]

  -- A request passes the scope check only if its token is neither revoked nor expired, the query for
  -- the token's scopes allows the scope (or the token names none), the principal itself holds the
  -- permission on the scope, and one of the token's declared texts expands to it.
  pub authorize_context_scope-Entitled :
      authorize_context_scope (some tok) (some resolver) now scope_id p ≡ none
      → Entitled resolver now tok scope_id p
  unfolding authorize_context_scope has_token_permission
  authorize_context_scope-Entitled h =
      elim (Result-cases (effective_token_permissions resolver now tok scope_id)) [
        | inl (s, e) ↦ effective-Entitled e (ground arith)
        | inr (x, e) ↦ absurd (ground arith)
      ]

  -- Conversely a request that meets all these conditions passes, when the token's declared texts are
  -- well-formed.
  pub Entitled-authorize_context_scope :
      Entitled resolver now tok scope_id p
      → (declared : PermissionSet) → parse_token_permissions tok.permissions ≡ ok declared
      → authorize_context_scope (some tok) (some resolver) now scope_id p ≡ none
  unfolding authorize_context_scope has_token_permission effective_token_permissions both_sets
      is_revoked within_token checked
  Entitled-authorize_context_scope e declared parsed = ground (
    arith,
    parsed,
    contains-intersect e.principal_perms declared p,
    contains-parse_token_permissions tok.permissions p parsed,
  )
