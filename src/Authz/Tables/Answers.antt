-- ===== src/Authz/Tables/Answers.antt =====
-- authz.sql.go: what the rows of each query are.
use postbrain.Prelude.{
  ◌∷◌, Option, ◌++◌, negb, some, none, ℕ, nat_eq, String, string_eq, ◌≡◌, refl, sym, ap, subst, ◌∙◌,
  ◌↔◌, inl, inr, Bool, true, ◌&&◌, Bool-cases, List, [], map, ◌==◌, eq_of_beq, beq_self,
  if◌then◌else◌, elem, select, In, any_iff, In-for_each, In-select, In-when, In-map, of_In-map,
  elem_iff, for_each, when, arith,
}
use postbrain.Principals.Membership.{Memberships}
use postbrain.Principals.Membership.Laws.{Ancestor}
use postbrain.Principals.Ancestry.Laws.{principal_ancestry_lem, In-fresh, In-fresh_or_seen}
use postbrain.Principals.Ancestry.{fresh}
use postbrain.Authz.Tables.{
  Scope, ScopeGrant, Tables, is_live, at_or_above, ancestry, related, owns_related, related_roles,
  owner_roles, related_grants, contains_path, below,
}
use postbrain.Authz.Tables.Spec.{IsRelated, Owns, HasRole, HasGrant, Encloses, Inside, Unexpired}

pub In-ancestry : (rows : Memberships) (p x : ℕ) → In x (ancestry rows p) ↔ Ancestor rows p x
unfolding ancestry
In-ancestry rows p x =
    let (ids, e, exact) = principal_ancestry_lem rows p in
    let same : ancestry rows p ≡ ids = rw (e, ancestry) refl in
    subst (λ l. In x l ↔ Ancestor rows p x) (sym same) (exact x)

abbrev head_or : ℕ → List ℕ → ℕ
head_or y [] = y
head_or y (x ∷ l) = x

abbrev tail_of : List ℕ → List ℕ
tail_of [] = []
tail_of (x ∷ l) = l

pub and-eq-true : (a b : Bool) → (a && b) ≡ true → (a ≡ true) × (b ≡ true)
and-eq-true a b h = ground arith

contains_path_iff :
    (a b : List ℕ) → (contains_path a b ≡ true) ↔ ((rest : List ℕ) × (b ≡ a ++ rest))
unfolding contains_path
contains_path_iff [] b = (λ h. (b, refl), λ h. refl)
contains_path_iff (x ∷ a) [] = (λ h. absurd (ground arith), λ h. absurd (ground (arith, h.1)))
contains_path_iff (x ∷ a) (y ∷ b) = (
  λ h.
      let (head, tail) = and-eq-true (x == y) (contains_path a b) h in
      let (rest, e) = (contains_path_iff a b).0 tail in
      (rest, ap (λ l. y ∷ l) e ∙ ap (λ z. z ∷ (a ++ rest)) (sym (eq_of_beq x y head))),
  λ h.
      let (rest, e) = h in
      let head : (x == y) ≡ true = ap (λ l. x == head_or y l) e ∙ beq_self x in
      let tail = (contains_path_iff a b).1 (rest, ap tail_of e) in ground (arith, head, tail),
)

pub at_or_above_iff : (s target : Scope) → (at_or_above s target ≡ true) ↔ Encloses s target
unfolding at_or_above
at_or_above_iff s target = contains_path_iff s.path target.path

pub below_iff : (s target : Scope) → (below s target ≡ true) ↔ Inside s target
unfolding below
below_iff s target = (
  λ h.
      let (path, other) =
        and-eq-true (contains_path target.path s.path) (negb (s.id == target.id)) h in
      (
        (contains_path_iff target.path s.path).0 path,
        λ e.
            let same : (s.id == target.id) ≡ true = ap (λ k. s.id == k) (sym e) ∙ beq_self s.id in
            ground (arith, same, other),
      ),
  λ h.
      let path = (contains_path_iff target.path s.path).1 h.0 in
      elim (Bool-cases (s.id == target.id)) [
        | inl same ↦ absurd (h.1 (eq_of_beq s.id target.id same))
        | inr other ↦ ground (arith, path, other)
      ],
)

is_live_iff : (now : ℕ) (e : Option ℕ) → (is_live now e ≡ true) ↔ Unexpired now e
unfolding is_live
is_live_iff now none = (λ h. inl refl, λ h. refl)
is_live_iff now (some time) = (
  λ h. inr (time, refl, ground (arith, h)),
  λ h. elim h [
    | inl clash ↦ absurd (ground (arith, clash))
    | inr (later, e, less) ↦ ground (arith, e, less)
  ],
)

module _ (t : Tables) (now principal_id target_id : ℕ) (rel : Scope → Scope → Bool)
    (Rel : Scope → Scope → Type 0)
    (reads : (s target : Scope) → (rel s target ≡ true) ↔ Rel s target) where
  pub In-related :
      (s : Scope) → In s (related t rel target_id) ↔ IsRelated t now principal_id target_id Rel s
  unfolding related
  In-related s =
      let row = λ (target : Scope).
        if target.id == target_id then select (λ s. rel s target) t.scopes else [] in
      (
        λ h.
            let (target, at, found) = (In-for_each t.scopes row s).0 h in
            elim (Bool-cases (target.id == target_id)) [
              | inl same ↦
                  let (i, holds) =
                    (In-select (λ s. rel s target) s t.scopes).0 (rw same at found) in
                  (target, at, eq_of_beq target.id target_id same, i, (reads s target).0 holds)
              | inr other ↦ absurd (rw other at found)
            ],
        λ h.
            let (target, at, same, i, holds) = h in
            let hit : (target.id == target_id) ≡ true =
              ap (λ k. target.id == k) (sym same) ∙ beq_self target.id in
            (In-for_each t.scopes row s).1 (
              target,
              at,
              rw hit ((In-select (λ s. rel s target) s t.scopes).1 (i, (reads s target).1 holds)),
            ),
      )

  pub owns_related_iff :
      (owns_related t rel principal_id target_id ≡ true) ↔ Owns t now principal_id target_id Rel
  unfolding owns_related
  owns_related_iff = (
    λ h.
        let (s, i, e) =
          (any_iff (λ (s : Scope). s.principal_id == principal_id) (related t rel target_id)).0 h in
        (s, (In-related s).0 i, eq_of_beq s.principal_id principal_id e),
    λ h.
        let (s, i, e) = h in
        (any_iff (λ (s : Scope). s.principal_id == principal_id) (related t rel target_id)).1
          (s, (In-related s).1 i, ap (λ k. s.principal_id == k) (sym e) ∙ beq_self s.principal_id),
  )

  -- The roles of the rows that make the principal or an ancestor a member of an owner.
  roles_of_owner : ℕ → (ℕ × ℕ) × String → List String
  roles_of_owner owner pm =
      when (pm.0.1 == owner && elem pm.0.0 (ancestry t.memberships principal_id)) pm.1

  In-roles_of_owner :
      (owner : ℕ) (role : String)
      → In role (for_each t.memberships (roles_of_owner owner)) ↔ (
          (member : ℕ) × In ((member, owner), role) t.memberships
          × Ancestor t.memberships principal_id member)
  unfolding roles_of_owner
  In-roles_of_owner owner role = (
    λ h.
        let (pm, at, found) = (In-for_each t.memberships (roles_of_owner owner) role).0 h in
        let (holds, same) =
          (In-when (pm.0.1 == owner && elem pm.0.0 (ancestry t.memberships principal_id)) pm.1
              role).0
            found in
        let (parent, member) = and-eq-true _ _ holds in
        (
          pm.0.0,
          subst (λ r. In ((pm.0.0, owner), r) t.memberships) (sym same)
              (subst (λ o. In ((pm.0.0, o), pm.1) t.memberships) (eq_of_beq pm.0.1 owner parent)
                at),
          (In-ancestry t.memberships principal_id pm.0.0).0
              ((elem_iff pm.0.0 (ancestry t.memberships principal_id)).0 member),
        ),
    λ h.
        let (member, at, a) = h in
        let there =
          (elem_iff member (ancestry t.memberships principal_id)).1
            ((In-ancestry t.memberships principal_id member).1 a) in
        (In-for_each t.memberships (roles_of_owner owner) role).1 (
          ((member, owner), role),
          at,
          (In-when _ role role).1 (ground (arith, there, beq_self owner), refl),
        ),
  )

  pub In-related_roles :
      (role : String)
      → In role (related_roles t rel principal_id target_id)
        ↔ HasRole t now principal_id target_id Rel role
  unfolding related_roles roles_of_owner
  In-related_roles role =
      let rows = λ (s : Scope). for_each t.memberships (roles_of_owner s.principal_id) in
      (
        λ h.
            let (s, at, found) = (In-for_each (related t rel target_id) rows role).0 h in
            let (member, row, a) = (In-roles_of_owner s.principal_id role).0 found in
            (s, member, (In-related s).0 at, row, a),
        λ h.
            let (s, member, i, row, a) = h in
            (In-for_each (related t rel target_id) rows role).1
              (s, (In-related s).1 i, (In-roles_of_owner s.principal_id role).1 (member, row, a)),
      )

  pub In-related_grants :
      (raw : List String)
      → In raw (related_grants t rel now principal_id target_id)
        ↔ HasGrant t now principal_id target_id Rel raw
  unfolding related_grants
  In-related_grants raw =
      let test = λ (s : Scope) (g : ScopeGrant).
        g.scope_id == s.id && (g.principal_id == principal_id && is_live now g.expires_at) in
      let grants = λ (s : Scope). for_each t.scope_grants λ g. when (test s g) g.permissions in
      (
        λ h.
            let (s, at, found) = (In-for_each (related t rel target_id) grants raw).0 h in
            let (g, i, given) =
              (In-for_each t.scope_grants (λ g. when (test s g) g.permissions) raw).0 found in
            let (holds, same) = (In-when (test s g) g.permissions raw).0 given in
            let (on, rest) = and-eq-true _ _ holds in
            let (mine, live) = and-eq-true _ _ rest in
            (
              s,
              g,
              (In-related s).0 at,
              i,
              eq_of_beq g.scope_id s.id on,
              eq_of_beq g.principal_id principal_id mine,
              (is_live_iff now g.expires_at).0 live,
              same,
            ),
        λ h.
            let (s, g, at, i, on, mine, live, same) = h in
            let on_it : (g.scope_id == s.id) ≡ true =
              ap (λ k. g.scope_id == k) (sym on) ∙ beq_self g.scope_id in
            let is_mine : (g.principal_id == principal_id) ≡ true =
              ap (λ k. g.principal_id == k) (sym mine) ∙ beq_self g.principal_id in
            (In-for_each (related t rel target_id) grants raw).1 (
              s,
              (In-related s).1 at,
              (In-for_each t.scope_grants (λ g. when (test s g) g.permissions) raw).1 (
                g,
                i,
                (In-when (test s g) g.permissions raw).1
                    (ground (arith, on_it, is_mine, (is_live_iff now g.expires_at).1 live), same),
              ),
            ),
      )

-- Owners taken once each are the same owners.
pub In-owner_roles :
    (t : Tables) (now principal_id target_id : ℕ) (role : String)
    → In role (owner_roles t principal_id target_id)
      ↔ HasRole t now principal_id target_id Encloses role
unfolding owner_roles roles_of_owner
In-owner_roles t now principal_id target_id role =
    let owners = map (λ (s : Scope). s.principal_id) (related t at_or_above target_id) in
    let rows = λ (owner : ℕ).
      for_each t.memberships
        (roles_of_owner t now principal_id target_id at_or_above Encloses at_or_above_iff owner) in
    (
      λ h.
          let (owner, at, found) = (In-for_each (fresh [] owners) rows role).0 h in
          let (s, i, same) =
            of_In-map (λ (s : Scope). s.principal_id) (related t at_or_above target_id) owner
              (In-fresh owner [] owners at).0 in
          let (member, row, a) =
            (In-roles_of_owner t now principal_id target_id at_or_above Encloses at_or_above_iff
                owner role).0
              found in
          (
            s,
            member,
            (In-related t now principal_id target_id at_or_above Encloses at_or_above_iff s).0 i,
            subst (λ o. In ((member, o), role) t.memberships) same row,
            a,
          ),
      λ h.
          let (s, member, i, row, a) = h in
          let there =
            In-map (λ (s : Scope). s.principal_id) (related t at_or_above target_id) s
              ((In-related t now principal_id target_id at_or_above Encloses at_or_above_iff s).1
                i) in
          (In-for_each (fresh [] owners) rows role).1 (
            s.principal_id,
            elim (In-fresh_or_seen s.principal_id [] owners there) [
              | inl none_seen ↦ absurd (ground (arith, none_seen))
              | inr j ↦ j
            ],
            (In-roles_of_owner t now principal_id target_id at_or_above Encloses at_or_above_iff
                  s.principal_id role).1
                (member, row, a),
          ),
    )
