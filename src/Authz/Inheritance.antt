-- ===== src/Authz/Inheritance.antt =====
-- internal/authz/inheritance.go: maps from scopes to permissions.
pub mod Laws
use postbrain.Prelude.{
  ℕ, nat_eq, Bool, true, false, List, [], ◌∷◌, Option, none, some, if◌then◌else◌, get?, put, select,
}
use postbrain.Authz.Permissions.{Permission}
use postbrain.Authz.PermSet.{PermissionSet, permissions, mark_all, union}
use postbrain.Authz.ReadOnly.{is_read}

-- `map[ScopeID]PermissionSet`
abbrev pub Grants : Type 0
Grants = List (ℕ × PermissionSet)

-- `if existing, ok := result[k]; ok { result[k] = Union(existing, ps) } else { result[k] = ps }`
unfoldable pub add_grant : ℕ → PermissionSet → Grants → Grants
add_grant k ps result = elim (get? k result) [
  | some existing ↦ put k (union (existing ∷ ps ∷ [])) result
  | none ↦ put k ps result
]

-- The loop over the ancestors.
unfoldable pub add_to_all : List ℕ → PermissionSet → Grants → Grants
add_to_all [] ps result = result
add_to_all (a ∷ ancestors) ps result = add_to_all ancestors ps (add_grant a ps result)

-- `ApplyUpwardRead`. The copy of `grants` into `result` is `grants`.
unfoldable pub apply_upward_read : Grants → ℕ → List ℕ → Grants
apply_upward_read grants source [] = grants
apply_upward_read grants source (a ∷ ancestors) = elim (get? source grants) [
  | none ↦ grants
  | some source_perms ↦ elim (select is_read (permissions source_perms)) [
    | [] ↦ grants
    | p ∷ read_perms ↦
        add_to_all (a ∷ ancestors) (record { perms = mark_all (p ∷ read_perms) [] }) grants
  ]
]

-- The loops of `MergeGrants`.
unfoldable pub merge_one : Grants → Grants → Grants
merge_one [] result = result
merge_one ((k, ps) ∷ src) result = merge_one src (add_grant k ps result)

unfoldable pub merge_from : List Grants → Grants → Grants
merge_from [] result = result
merge_from (src ∷ sources) result = merge_from sources (merge_one src result)

unfoldable pub merge_grants : List Grants → Grants
unfolding merge_from merge_one
merge_grants sources = merge_from sources []
