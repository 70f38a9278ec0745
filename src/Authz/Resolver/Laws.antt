-- ===== src/Authz/Resolver/Laws.antt =====
-- resolver.go: what the effective permissions are, source by source.
use postbrain.Prelude.{
  ℕ, string_eq, ◌≡◌, refl, ap, ◌≢◌, ◌∙◌, inl, inr, Bool, true, false, ◌&&◌, ◌||◌, [], ◌∷◌,
  if◌then◌else◌, Bool-cases, Result, ok, err, bind_ok, any-and, any, arith,
}
use postbrain.Authz.Permissions.{Permission, parse}
use postbrain.Authz.Permissions.Expansion.{parses}
use postbrain.Authz.PermSet.{PermissionSet, contains, union, empty_permission_set}
use postbrain.Authz.PermSet.Laws.{contains-union_pair, contains-empty}
use postbrain.Authz.Roles.{role_owner, role_permissions}
use postbrain.Authz.ReadOnly.{is_read, all_read_permissions, new_all_permissions}
use postbrain.Authz.ReadOnly.Laws.{contains-all_read_permissions, contains-new_all_permissions}
use postbrain.Authz.Resolver.{
  DbError, no_rows, failed, Queries, ResolveError, lookup_failed, queried, add_membership,
  add_descendant_roles, from_above, from_below, from_sources, effective_permissions, has_permission,
}
use postbrain.Authz.Resolver.Sources.{
  row_grants, is_yes, rows, role_grants, queried-ok, contains-add_membership, contains-add_grants,
  contains-add_descendant_roles, contains-add_descendant_grants,
}

module _ (q : Queries) (principal_id scope_id : ℕ) where
  open q use {
    get_principal_system_admin, scope_exists, principal_owns_target_or_ancestor,
    get_effective_membership_role, get_scope_grant_permissions, principal_owns_descendant,
    get_descendant_membership_roles, get_descendant_scope_grant_permissions,
  }

  -- Ownership, membership or a grant on the scope or above it.
  abbrev pub held_above : Permission → Bool
  held_above p =
      (is_yes (principal_owns_target_or_ancestor principal_id scope_id)
        && contains (role_permissions role_owner) p)
      || role_grants p (get_effective_membership_role principal_id scope_id)
      || any (row_grants p) (rows (get_scope_grant_permissions principal_id scope_id))

  -- Ownership, membership or a grant strictly below the scope.
  abbrev pub held_below : Permission → Bool
  held_below p =
      is_yes (principal_owns_descendant scope_id principal_id)
      || any (λ r. contains (role_permissions r) p)
          (rows (get_descendant_membership_roles principal_id scope_id))
      || any (row_grants p) (rows (get_descendant_scope_grant_permissions principal_id scope_id))

  -- What a principal may do on a scope.
  abbrev pub may : Permission → Bool
  may p = elim (get_principal_system_admin principal_id) [
    | ok true ↦ parses (parse p)
    | ok false ↦ is_yes (scope_exists scope_id) && (held_above p || (is_read p && held_below p))
    | err e ↦ false
  ]

  contains-owned :
      (b : Bool) (s : PermissionSet) (p : Permission)
      → contains (if b then union (empty_permission_set ∷ s ∷ []) else empty_permission_set) p
        ≡ (b && contains s p)
  contains-owned b s p =
      ground (arith, contains-union_pair empty_permission_set s p, contains-empty p)

  contains-from_above :
      (p : Permission) {t : PermissionSet}
      → from_above q principal_id scope_id ≡ ok t
      → contains t p ≡ held_above p
  unfolding from_above
  contains-from_above p {t} h =
      bind_ok (queried (principal_owns_target_or_ancestor principal_id scope_id)) _ h λ owns e1 h1.
        let owned =
          if owns
          then union (empty_permission_set ∷ role_permissions role_owner ∷ [])
          else empty_permission_set in
        bind_ok (add_membership (get_effective_membership_role principal_id scope_id) owned) _ h1
          λ s e2 h2.
            bind_ok (queried (get_scope_grant_permissions principal_id scope_id)) _ h2 λ gs e3 h3.
              rw (queried-ok _ e1, queried-ok _ e3)
                (contains-add_grants gs s p h3
                  ∙ ap (λ b. b || any (row_grants p) gs)
                      (contains-add_membership (get_effective_membership_role principal_id scope_id)
                          owned p e2
                        ∙ ap
                            (λ b.
                              b
                              || role_grants p
                                  (get_effective_membership_role principal_id scope_id))
                            (contains-owned owns (role_permissions role_owner) p)))

  contains-from_below :
      (p : Permission) {t : PermissionSet}
      → from_below q principal_id scope_id ≡ ok t
      → contains t p ≡ (is_read p && held_below p)
  unfolding from_below
  contains-from_below p {t} h =
      bind_ok (queried (principal_owns_descendant scope_id principal_id)) _ h λ owns e1 h1.
        let owned =
          if owns
          then union (empty_permission_set ∷ all_read_permissions ∷ [])
          else empty_permission_set in
        bind_ok (queried (get_descendant_membership_roles principal_id scope_id)) _ h1 λ rs e2 h2.
          bind_ok (add_descendant_roles rs owned) _ h2 λ s e3 h3.
            bind_ok (queried (get_descendant_scope_grant_permissions principal_id scope_id)) _ h3
              λ gs e4 h4.
                rw (queried-ok _ e1, queried-ok _ e2, queried-ok _ e4)
                  (ground (
                    arith,
                    contains-add_descendant_grants gs s p h4,
                    contains-add_descendant_roles rs owned p e3,
                    contains-owned owns all_read_permissions p,
                    contains-all_read_permissions p,
                    any-and (row_grants p) (is_read p) gs,
                    any-and (λ r. contains (role_permissions r) p) (is_read p) rs,
                  ))

  contains-from_sources :
      (p : Permission) {t : PermissionSet}
      → from_sources q principal_id scope_id ≡ ok t
      → contains t p ≡ (held_above p || (is_read p && held_below p))
  unfolding from_sources
  contains-from_sources p {t} h =
      bind_ok (from_above q principal_id scope_id) _ h λ result above h1.
        bind_ok (from_below q principal_id scope_id) _ h1 λ upward below same.
          let grown : ◌≡◌ {A = Result ResolveError PermissionSet}
              (ok (union (result ∷ upward ∷ []))) (ok t) =
            same in
          ground (
            arith,
            grown,
            contains-union_pair result upward p,
            contains-from_above p above,
            contains-from_below p below,
          )

  contains-after_admin :
      (p : Permission) {t : PermissionSet}
      → effective_permissions q principal_id scope_id ≡ ok t
      → get_principal_system_admin principal_id ≡ ok false
      → contains t p
        ≡ (is_yes (scope_exists scope_id) && (held_above p || (is_read p && held_below p)))
  unfolding effective_permissions queried
  contains-after_admin p {t} h e =
      bind_ok (queried (scope_exists scope_id)) _ (rw (e, effective_permissions) at h)
        λ exists found rest. rw (queried-ok _ found) (elim (Bool-cases exists) [
          | inl there ↦ ground (arith, contains-from_sources p (rw there at rest))
          | inr gone ↦
              let same : ◌≡◌ {A = Result ResolveError PermissionSet} (ok empty_permission_set)
                  (ok t) =
                rw gone at rest in
              ground (arith, contains-empty p)
        ])

  contains-by_answer :
      (p : Permission) (m : Result DbError Bool) {t : PermissionSet}
      → effective_permissions q principal_id scope_id ≡ ok t
      → get_principal_system_admin principal_id ≡ m
      → contains t p ≡ may p
  unfolding effective_permissions
  contains-by_answer p (ok false) h e = rw (e, may) (contains-after_admin p h e)
  contains-by_answer p (ok true) {t} h e =
      let same : ◌≡◌ {A = Result ResolveError PermissionSet} (ok new_all_permissions) (ok t) =
        rw (e, effective_permissions) at h in
      rw (e, may) (ground (arith, contains-new_all_permissions p))
  contains-by_answer p (err no_rows) {t} h e =
      let same : ◌≡◌ {A = Result ResolveError PermissionSet} (ok empty_permission_set) (ok t) =
        rw (e, effective_permissions) at h in
      rw (e, may) (ground (arith, contains-empty p))
  contains-by_answer p (err (failed x)) {t} h e =
      let same : ◌≡◌ {A = Result ResolveError PermissionSet} (err (lookup_failed (failed x)))
          (ok t) =
        rw (e, effective_permissions) at h in
      cc

  -- Whenever the resolver answers, its answer holds a permission exactly in these cases: the principal
  -- is a systemadmin and the permission is valid; or the principal is known and no systemadmin, the
  -- scope exists, and the principal owns the scope or one above it and the owner role has the
  -- permission, or its effective membership role has it, or a row of grants on the scope or above
  -- expands to it; or, on such a scope, the permission is a read permission and the principal owns a
  -- scope below, or has below a role or a grant that gives it.
  pub contains-effective_permissions :
      (p : Permission) {t : PermissionSet}
      → effective_permissions q principal_id scope_id ≡ ok t
      → contains t p ≡ may p
  contains-effective_permissions p h =
      contains-by_answer p (get_principal_system_admin principal_id) h refl

  -- A principal that is granted a permission which is no read permission, and is no systemadmin, holds
  -- it by ownership, membership or a grant on the scope or above it: what it holds below the scope
  -- never gives more than reading.
  pub has_permission-held_above :
      (p : Permission)
      → has_permission q principal_id scope_id p ≡ ok true
      → is_read p ≡ false
      → get_principal_system_admin principal_id ≢ ok true
      → held_above p ≡ true
  unfolding has_permission
  has_permission-held_above p h reads admin =
      bind_ok (effective_permissions q principal_id scope_id) _ h λ t answered given.
        let granted : ◌≡◌ {A = Result ResolveError Bool} (ok (contains t p)) (ok true) = given in
        ground (arith, granted, contains-effective_permissions p answered)
