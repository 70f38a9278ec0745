-- ===== src/Authz/Resolver/Totality.antt =====
-- resolver.go: when the resolver answers.
use postbrain.Prelude.{
  ℕ, String, string_eq, ◌≡◌, refl, ◌⊎◌, inl, inr, Bool, List, [], ◌∷◌, if◌then◌else◌, Bool-cases,
  Result, ok, err, All,
}
use postbrain.Authz.PermSet.{PermissionSet, new_permission_set, union, empty_permission_set}
use postbrain.Authz.Roles.{role_owner, parse_role, role_permissions}
use postbrain.Authz.ReadOnly.{all_read_permissions, new_all_permissions, read_only_permission_set}
use postbrain.Authz.Resolver.{
  no_rows, Queries, queried, add_membership, add_grants, add_descendant_roles,
  add_descendant_grants, from_above, from_below, from_sources, effective_permissions,
}

-- The call returns a value.
abbrev pub Succeeds {ℓ κ} : {E : Type ℓ} {A : Type κ} → Result E A → Type (ℓ ⊔ κ)
Succeeds {A} m = (a : A) × (m ≡ ok a)

-- The rows are as the schema keeps them: known roles, and grants that expand.
abbrev pub KnownRole : String → Type 0
KnownRole r = Succeeds (parse_role r)

abbrev pub KnownGrant : List String → Type 0
KnownGrant raw = Succeeds (new_permission_set raw)

add_grants_total :
    (raws : List (List String)) (s : PermissionSet)
    → All KnownGrant raws
    → Succeeds (add_grants raws s)
unfolding add_grants
add_grants_total [] s h = (s, refl)
add_grants_total (raw ∷ raws) s ((ps, e), h) = rw e (add_grants_total raws (union (s ∷ ps ∷ [])) h)

add_descendant_roles_total :
    (raws : List String) (s : PermissionSet)
    → All KnownRole raws
    → Succeeds (add_descendant_roles raws s)
unfolding add_descendant_roles
add_descendant_roles_total [] s h = (s, refl)
add_descendant_roles_total (raw ∷ raws) s ((role, e), h) = rw e (
    add_descendant_roles_total raws
      (union (s ∷ read_only_permission_set (role_permissions role) ∷ [])) h)

add_descendant_grants_total :
    (raws : List (List String)) (s : PermissionSet)
    → All KnownGrant raws
    → Succeeds (add_descendant_grants raws s)
unfolding add_descendant_grants
add_descendant_grants_total [] s h = (s, refl)
add_descendant_grants_total (raw ∷ raws) s ((ps, e), h) =
    rw e (add_descendant_grants_total raws (union (s ∷ read_only_permission_set ps ∷ [])) h)

-- The answers of a database that works, about one principal and one scope: the principal and the
-- scope are there, and the rows are well-formed.
pub record Works (q : Queries) (principal_id scope_id : ℕ) : Type 0 where
  pub is_admin : Bool
  pub admin_answer : q.get_principal_system_admin principal_id ≡ ok is_admin
  pub exists : Bool
  pub exists_answer : q.scope_exists scope_id ≡ ok exists
  pub owns : Bool
  pub owns_answer : q.principal_owns_target_or_ancestor principal_id scope_id ≡ ok owns
  pub role :
      (q.get_effective_membership_role principal_id scope_id ≡ err no_rows)
      ⊎ ((r : String) × (q.get_effective_membership_role principal_id scope_id ≡ ok r)
          × KnownRole r)
  pub grants : List (List String)
  pub grants_answer : q.get_scope_grant_permissions principal_id scope_id ≡ ok grants
  pub grants_known : All KnownGrant grants
  pub owns_below : Bool
  pub owns_below_answer : q.principal_owns_descendant scope_id principal_id ≡ ok owns_below
  pub roles_below : List String
  pub roles_below_answer : q.get_descendant_membership_roles principal_id scope_id ≡ ok roles_below
  pub roles_below_known : All KnownRole roles_below
  pub grants_below : List (List String)
  pub grants_below_answer :
      q.get_descendant_scope_grant_permissions principal_id scope_id ≡ ok grants_below
  pub grants_below_known : All KnownGrant grants_below

module _ (q : Queries) (principal_id scope_id : ℕ) (w : Works q principal_id scope_id) where
  add_membership_total :
      (s : PermissionSet)
      → Succeeds (add_membership (q.get_effective_membership_role principal_id scope_id) s)
  unfolding add_membership
  add_membership_total s = elim (w.role) [
    | inl absent ↦ rw absent (s, refl)
    | inr (r, found, (role, known)) ↦
        rw (found, known) (union (s ∷ role_permissions role ∷ []), refl)
  ]

  from_above_total : Succeeds (from_above q principal_id scope_id)
  unfolding from_above
  from_above_total =
      let owned =
        if w.owns
        then union (empty_permission_set ∷ role_permissions role_owner ∷ [])
        else empty_permission_set in
      let (s, e) = add_membership_total owned in
      rw (w.owns_answer, e, w.grants_answer) (add_grants_total w.grants s w.grants_known)

  from_below_total : Succeeds (from_below q principal_id scope_id)
  unfolding from_below
  from_below_total =
      let owned =
        if w.owns_below
        then union (empty_permission_set ∷ all_read_permissions ∷ [])
        else empty_permission_set in
      let (s, e) = add_descendant_roles_total w.roles_below owned w.roles_below_known in
      rw (w.owns_below_answer, w.roles_below_answer, e, w.grants_below_answer)
        (add_descendant_grants_total w.grants_below s w.grants_below_known)

  -- When every query is answered and every row is well-formed, the resolver returns a set of
  -- permissions; a missing membership is no error.
  pub effective_permissions_total : Succeeds (effective_permissions q principal_id scope_id)
  unfolding effective_permissions from_sources queried
  effective_permissions_total =
      let (above, e) = from_above_total in
      let (below, d) = from_below_total in
      elim (Bool-cases w.is_admin) [
        | inl yes_admin ↦
            rw (w.admin_answer, yes_admin, effective_permissions) (new_all_permissions, refl)
        | inr no_admin ↦ elim (Bool-cases w.exists) [
          | inl there ↦
              rw (w.admin_answer, no_admin, effective_permissions, w.exists_answer, there, e, d)
                (union (above ∷ below ∷ []), refl)
          | inr gone ↦
              rw (w.admin_answer, no_admin, effective_permissions, w.exists_answer, gone)
                (empty_permission_set, refl)
        ]
      ]
