-- ===== src/Authz/Inheritance/Laws.antt =====
-- inheritance.go: what the resulting maps grant.
use postbrain.Prelude.{
  ℕ, nat_eq, string_eq, ◌≡◌, ap, ◌∙◌, inl, inr, Bool, true, false, ◌&&◌, ◌||◌, List, [], ◌∷◌, none,
  some, Option-cases, Bool-cases, ◌==◌, get?, get?-put, select, elem, elem-select, any, arith, All,
  eq_of_beq,
}
use postbrain.Authz.Permissions.{Permission}
use postbrain.Authz.PermSet.{PermissionSet, permissions, mark_all, union, contains}
use postbrain.Authz.PermSet.Laws.{elem-mark_all, contains-union_pair}
use postbrain.Authz.ReadOnly.{is_read}
use postbrain.Authz.Inheritance.{
  Grants, add_grant, add_to_all, apply_upward_read, merge_one, merge_from, merge_grants,
}

-- The map grants the permission on the scope.
abbrev pub grants_on : ℕ → Permission → Grants → Bool
grants_on k p m = elim (get? k m) [ none ↦ false | some ps ↦ contains ps p ]

-- The keys of a map are distinct.
abbrev pub IsMap : Grants → Type 0
IsMap [] = Unit
IsMap ((k, ps) ∷ m) = (get? k m ≡ none) × IsMap m

grants_on-add_grant :
    (k j : ℕ) (p : Permission) (ps : PermissionSet) (m : Grants)
    → grants_on j p (add_grant k ps m) ≡ (grants_on j p m || (k == j && contains ps p))
unfolding add_grant
grants_on-add_grant k j p ps m = elim (Option-cases (get? k m)) [
  | inl missing ↦ rw (missing, add_grant) (ground (arith, get?-put k j ps m, same_entry k j m))
  | inr (existing, found) ↦
      rw (found, add_grant)
        (ground (
          arith,
          get?-put k j (union (existing ∷ ps ∷ [])) m,
          contains-union_pair existing ps p,
          same_entry k j m,
        ))
]
  where
    same_entry : (k j : ℕ) (m : Grants) → (k == j) ≡ true → get? k m ≡ get? j m
    same_entry k j m h = ap (λ i. get? i m) (eq_of_beq k j h)

grants_on-add_to_all :
    (j : ℕ) (p : Permission) (ancestors : List ℕ) (ps : PermissionSet) (m : Grants)
    → grants_on j p (add_to_all ancestors ps m)
      ≡ (grants_on j p m || (elem j ancestors && contains ps p))
unfolding add_to_all
grants_on-add_to_all j p [] ps m = ground arith
grants_on-add_to_all j p (a ∷ ancestors) ps m =
    grants_on-add_to_all j p ancestors ps (add_grant a ps m)
    ∙ (rw (grants_on-add_grant a j p ps m)
        (or_and (grants_on j p m) (a == j) (contains ps p) (elem j ancestors)))
  where
    or_and : (a b c d : Bool) → ((a || (b && c)) || (d && c)) ≡ (a || ((b || d) && c))
    or_and a b c d = ground arith

contains-marked :
    (p : Permission) (ps : List Permission)
    → contains (record { perms = mark_all ps [] }) p ≡ elem p ps
unfolding contains
contains-marked p ps = ground (arith, elem-mark_all p ps [])

-- The branches on the read permissions that were collected.
grants_on-collected :
    (grants : Grants) (ancestors : List ℕ) (k : ℕ) (p : Permission) (reads : List Permission)
    → grants_on k p (elim reads [
      | [] ↦ grants
      | q ∷ rest ↦ add_to_all ancestors (record { perms = mark_all (q ∷ rest) [] }) grants
    ])
      ≡ (grants_on k p grants || (elem k ancestors && elem p reads))
grants_on-collected grants ancestors k p [] = ground arith
grants_on-collected grants ancestors k p (q ∷ rest) =
    let reads : PermissionSet = record { perms = mark_all (q ∷ rest) [] } in
    grants_on-add_to_all k p ancestors reads grants
    ∙ ap (λ b. grants_on k p grants || (elem k ancestors && b)) (contains-marked p (q ∷ rest))

held_reads :
    (p : Permission) (held : PermissionSet)
    → elem p (select is_read held.perms) ≡ (is_read p && contains held p)
unfolding contains
held_reads p held = ground (arith, elem-select is_read p held.perms)

-- Exactly the read permissions of the source scope are added, on exactly the ancestors; every scope
-- keeps what it had.
pub grants_on-apply_upward_read :
    (grants : Grants) (source : ℕ) (ancestors : List ℕ) (k : ℕ) (p : Permission)
    → grants_on k p (apply_upward_read grants source ancestors)
      ≡ (grants_on k p grants || (elem k ancestors && (is_read p && grants_on source p grants)))
unfolding apply_upward_read permissions
grants_on-apply_upward_read grants source [] k p = ground arith
grants_on-apply_upward_read grants source (a ∷ ancestors) k p =
    elim (Option-cases (get? source grants)) [
      | inl missing ↦ rw (missing, apply_upward_read) (ground arith)
      | inr (held, found) ↦
          rw (found, apply_upward_read, grants_on)
            (grants_on-collected grants (a ∷ ancestors) k p (select is_read held.perms)
              ∙ ap (λ b. grants_on k p grants || (elem k (a ∷ ancestors) && b)) (held_reads p held))
    ]

grants_on-merge_one :
    (src result : Grants) (k : ℕ) (p : Permission)
    → IsMap src
    → grants_on k p (merge_one src result) ≡ (grants_on k p result || grants_on k p src)
unfolding merge_one
grants_on-merge_one [] result k p h = ground arith
grants_on-merge_one ((j, ps) ∷ src) result k p (fresh, h) =
    grants_on-merge_one src (add_grant j ps result) k p h
    ∙ rw (grants_on-add_grant j k p ps result) (elim (Bool-cases (j == k)) [
      | inl same ↦ ground (arith, fresh, ap (λ i. get? i src) (eq_of_beq j k same))
      | inr other ↦ ground arith
    ])

grants_on-merge_from :
    (sources : List Grants) (result : Grants) (k : ℕ) (p : Permission)
    → All IsMap sources
    → grants_on k p (merge_from sources result)
      ≡ (grants_on k p result || any (grants_on k p) sources)
unfolding merge_from
grants_on-merge_from [] result k p h = ground arith
grants_on-merge_from (src ∷ sources) result k p (m, h) = ground (
  arith,
  grants_on-merge_from sources (merge_one src result) k p h,
  grants_on-merge_one src result k p m,
)

-- A merge grants a permission on a scope exactly when one of the maps does.
pub grants_on-merge_grants :
    (sources : List Grants) (k : ℕ) (p : Permission)
    → All IsMap sources
    → grants_on k p (merge_grants sources) ≡ any (grants_on k p) sources
unfolding merge_grants
grants_on-merge_grants sources k p h = grants_on-merge_from sources [] k p h
