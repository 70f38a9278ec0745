-- ===== src/Authz/Tables/Refinement.antt =====
-- resolver.go over the tables of authz.sql.go: the permissions it answers are the ones meant.
use postbrain.Prelude.{
  ℕ, nat_eq, String, string_eq, ◌≡◌, refl, sym, ap, ◌∙◌, ◌↔◌, inl, inr, Bool, true, false, ◌&&◌,
  ◌||◌, Bool-cases, Option-cases, or-eq-true, none, some, Result, ok, err, bind_ok, get?, ◌==◌,
  eq_of_beq, beq_self, All, In, any_iff, All-of_In, arith,
}
use postbrain.Authz.Permissions.{Permission}
use postbrain.Authz.Permissions.Expansion.{parses-IsValid, parses_of_IsValid}
use postbrain.Authz.PermSet.{contains}
use postbrain.Authz.Resolver.{no_rows, ResolveError, effective_permissions, has_permission}
use postbrain.Authz.Resolver.Laws.{may, held_above, contains-effective_permissions}
use postbrain.Authz.Resolver.Totality.{KnownRole, KnownGrant, Works, effective_permissions_total}
use postbrain.Authz.Tables.{
  Scope, ScopeGrant, Tables, at_or_above, below, queries, get_principal_system_admin, scope_exists,
  principal_owns_target_or_ancestor, principal_owns_descendant, get_effective_membership_role,
  get_scope_grant_permissions, get_descendant_membership_roles,
  get_descendant_scope_grant_permissions, owns_related, owner_roles, related_roles, related_grants,
  first_by_rank,
}
use postbrain.Authz.Tables.Spec.{Allowed, Encloses, Inside}
use postbrain.Authz.Tables.Answers.{
  In-related_roles, In-related_grants, In-owner_roles, and-eq-true, at_or_above_iff, below_iff,
}
use postbrain.Authz.Tables.Ranks.{In-first_by_rank}
use postbrain.Authz.Tables.Held.{held_above_iff, held_below_iff}

and_or_and : (a b c d : Bool) → a ≡ true → c ≡ true → d ≡ true → (a && (b || (c && d))) ≡ true
and_or_and a b c d h k l = ground arith

module _ (t : Tables) (now principal_id target_id : ℕ) where
  scope_exists_iff :
      (scope_exists t target_id ≡ true) ↔ ((s : Scope) × In s t.scopes × (s.id ≡ target_id))
  unfolding scope_exists
  scope_exists_iff = (
    λ h.
        let (s, i, e) = (any_iff (λ (s : Scope). s.id == target_id) t.scopes).0 h in
        (s, i, eq_of_beq s.id target_id e),
    λ h.
        let (s, i, e) = h in
        (any_iff (λ (s : Scope). s.id == target_id) t.scopes).1
          (s, i, ap (λ k. s.id == k) (sym e) ∙ beq_self s.id),
  )

  pub admin-found :
      (b : Bool)
      → get? principal_id t.principals ≡ some b
      → get_principal_system_admin t principal_id ≡ ok b
  unfolding get_principal_system_admin
  admin-found b h = rw (h, get_principal_system_admin) refl

  pub admin-gone :
      get? principal_id t.principals ≡ none
      → get_principal_system_admin t principal_id ≡ err no_rows
  unfolding get_principal_system_admin
  admin-gone h = rw (h, get_principal_system_admin) refl

  role-best :
      (r : String)
      → first_by_rank (owner_roles t principal_id target_id) ≡ some r
      → get_effective_membership_role t principal_id target_id ≡ ok r
  unfolding get_effective_membership_role
  role-best r h = rw (h, get_effective_membership_role) refl

  role-none :
      first_by_rank (owner_roles t principal_id target_id) ≡ none
      → get_effective_membership_role t principal_id target_id ≡ err no_rows
  unfolding get_effective_membership_role
  role-none h = rw (h, get_effective_membership_role) refl

  may-Allowed :
      (p : Permission)
      → may (queries t now) principal_id target_id p ≡ true
      → Allowed t now principal_id target_id p
  may-Allowed p h = elim (Option-cases (get? principal_id t.principals)) [
    | inl gone ↦ absurd (ground (arith, rw (admin-gone gone, may) at h))
    | inr (admin, found) ↦ elim (Bool-cases admin) [
      | inl is_admin ↦ inl (
        rw is_admin at found,
        parses-IsValid p (rw (admin-found admin found, is_admin, may) at h),
      )
      | inr no_admin ↦
          let (there, held) = and-eq-true _ _ (rw (admin-found admin found, no_admin, may) at h) in
          inr (
            rw no_admin at found,
            scope_exists_iff.0 there,
            elim (or-eq-true (held_above (queries t now) principal_id target_id p) _ held) [
              | inl above ↦ inl ((held_above_iff t now principal_id target_id p).0 above)
              | inr both ↦
                  let (reads, found_below) = and-eq-true _ _ both in
                  inr (reads, (held_below_iff t now principal_id target_id p).0 found_below)
            ],
          )
    ]
  ]

  Allowed-may :
      (p : Permission)
      → Allowed t now principal_id target_id p
      → may (queries t now) principal_id target_id p ≡ true
  Allowed-may p h = elim h [
    | inl (found, valid) ↦ rw (admin-found true found, may) (parses_of_IsValid p valid)
    | inr (found, there, inl above) ↦
        rw
          (
            admin-found false found,
            may,
            scope_exists_iff.1 there,
            (held_above_iff t now principal_id target_id p).1 above,
          )
          refl
    | inr (found, there, inr (reads, found_below)) ↦
        rw (admin-found false found, may)
          (and_or_and (scope_exists t target_id)
            (held_above (queries t now) principal_id target_id p) _ _ (scope_exists_iff.1 there)
            reads ((held_below_iff t now principal_id target_id p).1 found_below))
  ]

  known_principal :
      (p : Permission)
      → Allowed t now principal_id target_id p
      → (b : Bool) × (get? principal_id t.principals ≡ some b)
  known_principal p h = elim h [
    | inl (found, valid) ↦ (true, found)
    | inr (found, there, held) ↦ (false, found)
  ]

  -- The queries are answered and the rows they return are well-formed.
  tables-Works :
      (admin : Bool)
      → get? principal_id t.principals ≡ some admin
      → ((row : (ℕ × ℕ) × String) → In row t.memberships → KnownRole (row.1))
      → ((g : ScopeGrant) → In g t.scope_grants → KnownGrant g.permissions)
      → Works (queries t now) principal_id target_id
  unfolding principal_owns_target_or_ancestor get_scope_grant_permissions principal_owns_descendant
      get_descendant_membership_roles get_descendant_scope_grant_permissions
  tables-Works admin found roles grants =
      let known_grants : (rel : Scope → Scope → Bool) (Rel : Scope → Scope → Type 0)
          → ((s target : Scope) → (rel s target ≡ true) ↔ Rel s target)
          → All KnownGrant (related_grants t rel now principal_id target_id) =
        λ rel Rel reads. All-of_In KnownGrant _ λ raw i.
          let (s, g, r, at, on, mine, live, same) =
            (In-related_grants t now principal_id target_id rel Rel reads raw).0 i in
          rw same (grants g at) in
      record {
        is_admin = admin;
        admin_answer = admin-found admin found;
        exists = scope_exists t target_id;
        exists_answer = refl;
        owns = owns_related t at_or_above principal_id target_id;
        owns_answer = refl;
        role = elim (Option-cases (first_by_rank (owner_roles t principal_id target_id))) [
          | inl absent ↦ inl (role-none absent)
          | inr (r, best) ↦
              let (s, member, i, row, a) =
                (In-owner_roles t now principal_id target_id r).0 (In-first_by_rank _ r best) in
              inr (r, role-best r best, roles ((member, s.principal_id), r) row)
        ];
        grants = related_grants t at_or_above now principal_id target_id;
        grants_answer = refl;
        grants_known = known_grants at_or_above Encloses at_or_above_iff;
        owns_below = owns_related t below principal_id target_id;
        owns_below_answer = refl;
        roles_below = related_roles t below principal_id target_id;
        roles_below_answer = refl;
        roles_below_known = All-of_In KnownRole _ λ r i.
            let (s, member, at, row, a) =
              (In-related_roles t now principal_id target_id below Inside below_iff r).0 i in
            roles ((member, s.principal_id), r) row;
        grants_below = related_grants t below now principal_id target_id;
        grants_below_answer = refl;
        grants_below_known = known_grants below Inside below_iff;
      }

  -- Over tables whose membership roles are known and whose grants expand, the resolver, asking the SQL
  -- queries, answers that the principal has a permission exactly when the principal is a systemadmin and
  -- the permission is valid, or is a known principal without that flag, the scope exists, and the rows
  -- give the permission by ownership, by a role of the principal or of one of its ancestors, or by an
  -- unexpired grant, on the scope or above it; or, for a read permission, likewise strictly below it.
  pub has_permission-Allowed :
      ((row : (ℕ × ℕ) × String) → In row t.memberships → KnownRole (row.1))
      → ((g : ScopeGrant) → In g t.scope_grants → KnownGrant g.permissions)
      → (p : Permission)
      → (has_permission (queries t now) principal_id target_id p ≡ ok true)
        ↔ Allowed t now principal_id target_id p
  unfolding has_permission
  has_permission-Allowed roles grants p = (
    λ h.
        bind_ok (effective_permissions (queries t now) principal_id target_id) _ h
          λ perms answered given.
            let granted : ◌≡◌ {A = Result ResolveError Bool} (ok (contains perms p)) (ok true) =
              given in
            may-Allowed p (
              ground (
                arith,
                granted,
                contains-effective_permissions (queries t now) principal_id target_id p answered,
              )),
    λ h.
        let (admin, found) = known_principal p h in
        let (perms, answered) =
          effective_permissions_total (queries t now) principal_id target_id
            (tables-Works admin found roles grants) in
        rw answered (
          ap (λ b. ok b)
            (contains-effective_permissions (queries t now) principal_id target_id p answered
              ∙ Allowed-may p h)),
  )
