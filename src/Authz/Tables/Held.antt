-- ===== src/Authz/Tables/Held.antt =====
-- resolver.go over the tables of authz.sql.go: what is held above and below a scope.
use postbrain.Prelude.{
  ℕ, nat_eq, String, string_eq, ◌≡◌, sym, ◌∙◌, ◌↔◌, inl, inr, Bool, true, ◌&&◌, ◌||◌, Option-cases,
  or-eq-true, List, any, any_iff, arith,
}
use postbrain.Authz.Permissions.{Permission}
use postbrain.Authz.PermSet.{contains}
use postbrain.Authz.Roles.{role_owner, role_permissions}
use postbrain.Authz.Resolver.Sources.{row_grants, role_grants}
use postbrain.Authz.Resolver.Laws.{held_above, held_below}
use postbrain.Authz.Tables.{
  Scope, Tables, at_or_above, below, queries, principal_owns_target_or_ancestor,
  principal_owns_descendant, get_effective_membership_role, get_scope_grant_permissions,
  get_descendant_membership_roles, get_descendant_scope_grant_permissions, owns_related,
  owner_roles, related_roles, related_grants, first_by_rank,
}
use postbrain.Authz.Tables.Spec.{Encloses, Inside, HasRole, HasGrant, AllowedAbove, AllowedBelow}
use postbrain.Authz.Tables.Answers.{
  owns_related_iff, In-related_roles, In-related_grants, In-owner_roles, and-eq-true,
  at_or_above_iff, below_iff,
}
use postbrain.Authz.Tables.Ranks.{first_by_rank_gives}

or_first : (a b c d : Bool) → a ≡ true → b ≡ true → ((a && b) || c || d) ≡ true
or_first a b c d h k = ground arith

or_left : (a b c : Bool) → a ≡ true → (a || b || c) ≡ true
or_left a b c h = ground arith

or_second : (a b c : Bool) → b ≡ true → (a || b || c) ≡ true
or_second a b c h = ground arith

or_third : (a b : Bool) → b ≡ true → (a || b) ≡ true
or_third a b h = ground arith

module _ (t : Tables) (now principal_id target_id : ℕ) where
  -- The one role that the query returns gives what the roles above give together.
  role_grants-any :
      (p : Permission)
      → role_grants p (get_effective_membership_role t principal_id target_id)
        ≡ any (λ r. contains (role_permissions r) p) (owner_roles t principal_id target_id)
  unfolding get_effective_membership_role
  role_grants-any p = elim (Option-cases (first_by_rank (owner_roles t principal_id target_id))) [
    | inl absent ↦
        ground (arith, absent, first_by_rank_gives (owner_roles t principal_id target_id) p)
    | inr (r, found) ↦
        ground (arith, found, first_by_rank_gives (owner_roles t principal_id target_id) p)
  ]

  role_above_iff :
      (p : Permission)
      → (role_grants p (get_effective_membership_role t principal_id target_id) ≡ true) ↔ (
          (role : String) × HasRole t now principal_id target_id Encloses role
          × (contains (role_permissions role) p ≡ true))
  role_above_iff p =
      let roles = owner_roles t principal_id target_id in
      let test = λ (r : String). contains (role_permissions r) p in
      (
        λ h.
            let (role, i, gives) = (any_iff test roles).0 (sym (role_grants-any p) ∙ h) in
            (role, (In-owner_roles t now principal_id target_id role).0 i, gives),
        λ h.
            let (role, has, gives) = h in
            role_grants-any p
            ∙ (any_iff test roles).1
                (role, (In-owner_roles t now principal_id target_id role).1 has, gives),
      )

  roles_below_iff :
      (p : Permission)
      → (any (λ r. contains (role_permissions r) p) (related_roles t below principal_id target_id)
          ≡ true)
        ↔ ((role : String) × HasRole t now principal_id target_id Inside role
            × (contains (role_permissions role) p ≡ true))
  roles_below_iff p =
      let roles = related_roles t below principal_id target_id in
      let test = λ (r : String). contains (role_permissions r) p in
      (
        λ h.
            let (role, i, gives) = (any_iff test roles).0 h in
            (
              role,
              (In-related_roles t now principal_id target_id below Inside below_iff role).0 i,
              gives,
            ),
        λ h.
            let (role, has, gives) = h in
            (any_iff test roles).1 (
              role,
              (In-related_roles t now principal_id target_id below Inside below_iff role).1 has,
              gives,
            ),
      )

  grants_iff :
      (rel : Scope → Scope → Bool) (Rel : Scope → Scope → Type 0)
      → ((s target : Scope) → (rel s target ≡ true) ↔ Rel s target)
      → (p : Permission)
      → (any (row_grants p) (related_grants t rel now principal_id target_id) ≡ true) ↔ (
          (raw : List String) × HasGrant t now principal_id target_id Rel raw
          × (row_grants p raw ≡ true))
  grants_iff rel Rel reads p =
      let raws = related_grants t rel now principal_id target_id in
      (
        λ h.
            let (raw, i, gives) = (any_iff (row_grants p) raws).0 h in
            (raw, (In-related_grants t now principal_id target_id rel Rel reads raw).0 i, gives),
        λ h.
            let (raw, has, gives) = h in
            (any_iff (row_grants p) raws).1 (
              raw,
              (In-related_grants t now principal_id target_id rel Rel reads raw).1 has,
              gives,
            ),
      )

  pub held_above_iff :
      (p : Permission)
      → (held_above (queries t now) principal_id target_id p ≡ true)
        ↔ AllowedAbove t now principal_id target_id p
  unfolding principal_owns_target_or_ancestor get_scope_grant_permissions
  held_above_iff p =
      let owns = owns_related t at_or_above principal_id target_id in
      let gives = contains (role_permissions role_owner) p in
      let by_role = role_grants p (get_effective_membership_role t principal_id target_id) in
      let by_grant = any (row_grants p) (related_grants t at_or_above now principal_id target_id) in
      (
        λ h. elim (or-eq-true ((owns && gives) || by_role) by_grant h) [
          | inl first ↦ elim (or-eq-true (owns && gives) by_role first) [
            | inl owned ↦
                let (o, g) = and-eq-true owns gives owned in
                inl (
                  (owns_related_iff t now principal_id target_id at_or_above Encloses
                        at_or_above_iff).0
                      o,
                  g,
                )
            | inr role ↦ inr (inl ((role_above_iff p).0 role))
          ]
          | inr grant ↦ inr (inr ((grants_iff at_or_above Encloses at_or_above_iff p).0 grant))
        ],
        λ h. elim h [
          | inl (o, g) ↦
              or_first owns gives by_role by_grant
                ((owns_related_iff t now principal_id target_id at_or_above Encloses
                    at_or_above_iff).1
                  o)
                g
          | inr (inl role) ↦ or_second (owns && gives) by_role by_grant ((role_above_iff p).1 role)
          | inr (inr grant) ↦
              or_third ((owns && gives) || by_role) by_grant
                ((grants_iff at_or_above Encloses at_or_above_iff p).1 grant)
        ],
      )

  pub held_below_iff :
      (p : Permission)
      → (held_below (queries t now) principal_id target_id p ≡ true)
        ↔ AllowedBelow t now principal_id target_id p
  unfolding principal_owns_descendant get_descendant_membership_roles
      get_descendant_scope_grant_permissions
  held_below_iff p =
      let owns = owns_related t below principal_id target_id in
      let by_role =
        any (λ (r : String). contains (role_permissions r) p)
          (related_roles t below principal_id target_id) in
      let by_grant = any (row_grants p) (related_grants t below now principal_id target_id) in
      (
        λ h. elim (or-eq-true (owns || by_role) by_grant h) [
          | inl first ↦ elim (or-eq-true owns by_role first) [
            | inl owned ↦
                inl ((owns_related_iff t now principal_id target_id below Inside below_iff).0 owned)
            | inr role ↦ inr (inl ((roles_below_iff p).0 role))
          ]
          | inr grant ↦ inr (inr ((grants_iff below Inside below_iff p).0 grant))
        ],
        λ h. elim h [
          | inl o ↦
              or_left owns by_role by_grant
                ((owns_related_iff t now principal_id target_id below Inside below_iff).1 o)
          | inr (inl role) ↦ or_second owns by_role by_grant ((roles_below_iff p).1 role)
          | inr (inr grant) ↦
              or_third (owns || by_role) by_grant ((grants_iff below Inside below_iff p).1 grant)
        ],
      )
