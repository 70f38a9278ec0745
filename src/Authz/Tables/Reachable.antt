-- ===== src/Authz/Tables/Reachable.antt =====
-- `ReachableScopeIDs` of resolver.go: which scopes it lists.
use postbrain.Prelude.{
  ℕ, nat_eq, String, string_eq, ◌≡◌, ◌≢◌, refl, sym, ap, subst, ◌∙◌, ◌⊎◌, ◌↔◌, inl, inr, true,
  false, ◌&&◌, negb, Bool-cases, Option-cases, List, [], ◌++◌, some, ok, ◌==◌, eq_of_beq, beq_self,
  elem, get?, map, select, In, In-append, In-select, In-map, of_In-map, In-for_each, In-when,
  elem_iff, for_each, when, arith,
}
use postbrain.Authz.Permissions.{Permission}
use postbrain.Authz.PermSet.{contains}
use postbrain.Authz.Roles.{role_owner, role_permissions}
use postbrain.Authz.Resolver.{has_permission}
use postbrain.Authz.Resolver.Totality.{KnownRole, KnownGrant}
use postbrain.Principals.Membership.Laws.{Ancestor}
use postbrain.Principals.Ancestry.Laws.{In-fresh, In-fresh_or_seen}
use postbrain.Authz.Tables.{
  Scope, ScopeGrant, Tables, contains_path, is_live, at_or_above, ancestry, queries, direct_scopes,
  upward_scopes, get_reachable_scope_ids, get_all_scope_ids, reachable_scope_ids,
}
use postbrain.Authz.Tables.Answers.{In-ancestry, and-eq-true, at_or_above_iff}
use postbrain.Authz.Tables.Refinement.{has_permission-Allowed, admin-found, admin-gone}

module _ (t : Tables) (now principal_id : ℕ) where
  -- The principal or an ancestor of it owns the scope, or the principal has an unexpired grant on it.
  abbrev pub IsDirect : ℕ → Type 0
  IsDirect id =
      ((s : Scope) × In s t.scopes
        × (s.id ≡ id)
        × Ancestor t.memberships principal_id s.principal_id)
      ⊎ ((g : ScopeGrant) × In g t.scope_grants
          × (g.scope_id ≡ id)
          × (g.principal_id ≡ principal_id)
          × (is_live now g.expires_at ≡ true))

  -- Such a scope is in the subtree of another scope, this one.
  abbrev pub IsUpward : ℕ → Type 0
  IsUpward id =
      (s : Scope) × (direct : Scope) × In s t.scopes
      × In direct t.scopes
      × (s.id ≡ id)
      × (contains_path s.path direct.path ≡ true)
      × ((s.id == direct.id) ≡ false)
      × IsDirect direct.id

  In-direct_scopes : (id : ℕ) → In id (direct_scopes t now principal_id) ↔ IsDirect id
  unfolding direct_scopes
  In-direct_scopes id =
      let owned = λ (s : Scope). elem s.principal_id (ancestry t.memberships principal_id) in
      let granted =
        λ (g : ScopeGrant). g.principal_id == principal_id && is_live now g.expires_at in
      let scope_id = λ (s : Scope). s.id in
      let grant_id = λ (g : ScopeGrant). g.scope_id in
      let split =
        In-append id (map scope_id (select owned t.scopes))
          (map grant_id (select granted t.scope_grants)) in
      (
        λ h. elim (split.0 h) [
          | inl i ↦
              let (s, at, e) = of_In-map scope_id (select owned t.scopes) id i in
              let (there, own) = (In-select owned s t.scopes).0 at in
              inl (
                s,
                there,
                sym e,
                (In-ancestry t.memberships principal_id s.principal_id).0 ((elem_iff _ _).0 own),
              )
          | inr i ↦
              let (g, at, e) = of_In-map grant_id (select granted t.scope_grants) id i in
              let (there, mine) = (In-select granted g t.scope_grants).0 at in
              let (same, live) = and-eq-true _ _ mine in
              inr (g, there, sym e, eq_of_beq g.principal_id principal_id same, live)
        ],
        λ h. split.1 (elim h [
          | inl (s, there, e, a) ↦ inl (
              subst (λ k. In k (map scope_id (select owned t.scopes))) e
                (In-map scope_id _ s (
                  (In-select owned s t.scopes).1 (
                    there,
                    (elem_iff s.principal_id (ancestry t.memberships principal_id)).1
                        ((In-ancestry t.memberships principal_id s.principal_id).1 a),
                  ))))
          | inr (g, there, e, mine, live) ↦
              let same : (g.principal_id == principal_id) ≡ true =
                ap (λ k. g.principal_id == k) (sym mine) ∙ beq_self g.principal_id in
              inr (
                subst (λ k. In k (map grant_id (select granted t.scope_grants))) e
                  (In-map grant_id _ g
                    ((In-select granted g t.scope_grants).1 (there, ground (arith, same, live)))))
        ]),
      )

  In-upward_scopes : (id : ℕ) → In id (upward_scopes t now principal_id) ↔ IsUpward id
  unfolding upward_scopes
  In-upward_scopes id =
      let test = λ (s direct : Scope).
        contains_path s.path direct.path
        && (negb (s.id == direct.id) && elem direct.id (direct_scopes t now principal_id)) in
      let row = λ (s : Scope). for_each t.scopes λ direct. when (test s direct) s.id in
      (
        λ h.
            let (s, at, found) = (In-for_each t.scopes row id).0 h in
            let (direct, there, made) =
              (In-for_each t.scopes (λ direct. when (test s direct) s.id) id).0 found in
            let (holds, e) = (In-when (test s direct) s.id id).0 made in
            let (path, rest) = and-eq-true _ _ holds in
            let (other, reached) =
              and-eq-true (negb (s.id == direct.id))
                (elem direct.id (direct_scopes t now principal_id)) rest in
            (
              s,
              direct,
              at,
              there,
              sym e,
              path,
              ground (arith, other),
              (In-direct_scopes direct.id).0 ((elem_iff _ _).0 reached),
            ),
        λ h.
            let (s, direct, at, there, e, path, other, reached) = h in
            let listed =
              (elem_iff direct.id (direct_scopes t now principal_id)).1
                ((In-direct_scopes direct.id).1 reached) in
            (In-for_each t.scopes row id).1 (
              s,
              at,
              (In-for_each t.scopes (λ direct. when (test s direct) s.id) id).1 (
                direct,
                there,
                (In-when (test s direct) s.id id).1 (ground (arith, path, other, listed), sym e),
              ),
            ),
      )

  In-get_reachable_scope_ids :
      (id : ℕ) → In id (get_reachable_scope_ids t now principal_id) ↔ (IsDirect id ⊎ IsUpward id)
  unfolding get_reachable_scope_ids
  In-get_reachable_scope_ids id =
      let direct = direct_scopes t now principal_id in
      let upward = upward_scopes t now principal_id in
      let split = In-append id direct upward in
      (
        λ h. elim (split.0 (In-fresh id [] (direct ++ upward) h).0) [
          | inl i ↦ inl ((In-direct_scopes id).0 i)
          | inr i ↦ inr ((In-upward_scopes id).0 i)
        ],
        λ h.
            let there : In id (direct ++ upward) = split.1 (elim h [
              | inl d ↦ inl ((In-direct_scopes id).1 d)
              | inr u ↦ inr ((In-upward_scopes id).1 u)
            ]) in
            elim (In-fresh_or_seen id [] (direct ++ upward) there) [
              | inl none_seen ↦ absurd (ground (arith, none_seen))
              | inr j ↦ j
            ],
      )

  In-get_all_scope_ids :
      (id : ℕ) → In id (get_all_scope_ids t) ↔ ((s : Scope) × In s t.scopes × (s.id ≡ id))
  unfolding get_all_scope_ids
  In-get_all_scope_ids id =
      let scope_id = λ (s : Scope). s.id in
      (
        λ h. let (s, at, e) = of_In-map scope_id t.scopes id h in (s, at, sym e),
        λ h.
            let (s, at, e) = h in
            subst (λ k. In k (map scope_id t.scopes)) e (In-map scope_id t.scopes s at),
      )

  -- The list of the reachable scopes always comes back. It has a scope exactly when the principal is a
  -- systemadmin and the scope is in the table; or the principal is known and no systemadmin, and it or
  -- an ancestor of it owns the scope, or it has an unexpired grant on the scope, or the scope is above
  -- another one of which this holds.
  pub reachable_scope_ids_lem :
      (ids : List ℕ) × (reachable_scope_ids t now principal_id ≡ ok ids)
      × ((id : ℕ)
          → In id ids ↔ (
              ((get? principal_id t.principals ≡ some true)
                × ((s : Scope) × In s t.scopes × (s.id ≡ id)))
              ⊎ ((get? principal_id t.principals ≡ some false) × (IsDirect id ⊎ IsUpward id))))
  unfolding reachable_scope_ids
  reachable_scope_ids_lem = elim (Option-cases (get? principal_id t.principals)) [
    | inl gone ↦
        let answer = admin-gone t now principal_id 0 gone in
        (
          [],
          rw (answer, reachable_scope_ids) refl,
          λ id. (
            λ i. absurd i,
            λ h. elim h [
              | inl (found, rest) ↦ absurd (ground (arith, found, gone))
              | inr (found, rest) ↦ absurd (ground (arith, found, gone))
            ],
          ),
        )
    | inr (admin, found) ↦
        let answer = admin-found t now principal_id 0 admin found in
        elim (Bool-cases admin) [
          | inl is_admin ↦ (
            get_all_scope_ids t,
            rw (answer, is_admin, reachable_scope_ids) refl,
            λ id. (
              λ i. inl (rw is_admin at found, (In-get_all_scope_ids id).0 i),
              λ h. elim h [
                | inl (there, rest) ↦ (In-get_all_scope_ids id).1 rest
                | inr (there, rest) ↦ absurd (ground (arith, found, there, is_admin))
              ],
            ),
          )
          | inr no_admin ↦ (
            get_reachable_scope_ids t now principal_id,
            rw (answer, no_admin, reachable_scope_ids) refl,
            λ id. (
              λ i. inr (rw no_admin at found, (In-get_reachable_scope_ids id).0 i),
              λ h. elim h [
                | inl (there, rest) ↦ absurd (ground (arith, found, there, no_admin))
                | inr (there, rest) ↦ (In-get_reachable_scope_ids id).1 rest
              ],
            ),
          )
        ]
  ]

  -- On well-formed tables, with a scope of a principal that is no systemadmin and a scope strictly below
  -- it, where the upper one is all that the principal has direct access to and no other row has the id
  -- of one of the two: the resolver answers that the principal has every permission of an owner on the
  -- lower scope, and the list of the reachable scopes leaves the lower scope out.
  pub has_permission-unreachable :
      ((row : (ℕ × ℕ) × String) → In row t.memberships → KnownRole (row.1))
      → ((g : ScopeGrant) → In g t.scope_grants → KnownGrant g.permissions)
      → get? principal_id t.principals ≡ some false
      → (parent child : Scope) → In parent t.scopes
      → In child t.scopes
      → parent.principal_id ≡ principal_id
      → contains_path parent.path child.path ≡ true
      → contains_path child.path parent.path ≡ false
      → ((s : Scope) → In s t.scopes → s.id ≡ child.id → s ≡ child)
      → ((s : Scope) → In s t.scopes → s.id ≡ parent.id → s ≡ parent)
      → child.id ≢ parent.id
      → ((id : ℕ) → IsDirect id → id ≡ parent.id)
      → ((p : Permission)
          → contains (role_permissions role_owner) p ≡ true
          → has_permission (queries t now) principal_id child.id p ≡ ok true)
        × (In child.id (get_reachable_scope_ids t now principal_id) → ⊥)
  unfolding at_or_above
  has_permission-unreachable roles grants found parent child parent_in child_in owner down up
        child_key parent_key other only =
      (
        λ p gives. (has_permission-Allowed t now principal_id child.id roles grants p).1 (
            inr (
              found,
              (child, child_in, refl),
              inl (
                  inl (
                    (
                      parent,
                      (child, child_in, refl, parent_in, (at_or_above_iff parent child).0 down),
                      owner,
                    ),
                    gives,
                  )),
            )),
        λ i. elim ((In-get_reachable_scope_ids child.id).0 i) [
          | inl d ↦ other (only child.id d)
          | inr (s, direct, at, there, e, path, apart, reached) ↦
              let is_child = child_key s at e in
              let is_parent = parent_key direct there (only direct.id reached) in
              let clash : contains_path child.path parent.path ≡ true =
                subst (λ (k : Scope). contains_path child.path k.path ≡ true) is_parent
                  (subst (λ (k : Scope). contains_path k.path direct.path ≡ true) is_child path) in
              ground (arith, clash, up)
        ],
      )
