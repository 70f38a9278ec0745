-- ===== src/Authz/PermSet.antt =====
-- internal/authz/permset.go: sets of permissions.
-- The key set of `map[Permission]struct{}` is the list of its keys, each once. Go leaves the order in
-- which a map is ranged over open, and nothing here depends on it.
pub mod Laws
use postbrain.Prelude.{
  ℕ, String, string_eq, Bool, true, false, ◌&&◌, List, [], ◌∷◌, ◌++◌, ◌==◌, if◌then◌else◌, Result,
  ok, err, ◌>>=◌, elem, any, length, Option, none, some, get?,
}
use postbrain.Authz.Permissions.{
  Permission, Operation, Resource, Error, unknown_role, empty_token_permissions, admin_not_valid,
  cannot_promote, new_permission, parse, expand, all_permissions, resource_memories,
  resource_knowledge, resource_collections, resource_skills, resource_sessions, resource_graph,
  resource_scopes, resource_principals, resource_tokens, resource_sharing, resource_promotions,
  operation_read, operation_write, operation_edit, operation_delete,
}

pub record PermissionSet : Type 0 where
  pub perms : List Permission

unfoldable pub empty_permission_set : PermissionSet
empty_permission_set = record { perms = [] }

-- `m[p] = struct{}{}`
unfoldable pub mark : Permission → List Permission → List Permission
mark p m = if elem p m then m else p ∷ m

-- `for _, p := range ps { m[p] = struct{}{} }`
unfoldable pub mark_all : List Permission → List Permission → List Permission
mark_all [] m = m
mark_all (p ∷ ps) m = mark_all ps (mark p m)

-- The loop of `NewPermissionSet`.
unfoldable pub collect : List String → List Permission → Result Error (List Permission)
collect [] m = ok m
collect (r ∷ rs) m = do expanded ← expand r; collect rs (mark_all expanded m)

unfoldable pub new_permission_set : List String → Result Error PermissionSet
unfolding collect
new_permission_set raw = do m ← collect raw []; ok (record { perms = m })

unfoldable pub contains : PermissionSet → Permission → Bool
contains ps p = elem p ps.perms

unfoldable pub satisfies : PermissionSet → Permission → Bool
satisfies ps required = contains ps required

unfoldable pub len : PermissionSet → ℕ
len ps = length ps.perms

unfoldable pub is_empty : PermissionSet → Bool
is_empty ps = elim (ps.perms) [ [] ↦ true | p ∷ rest ↦ false ]

-- `Permissions`: the keys in some order.
unfoldable pub permissions : PermissionSet → List Permission
permissions ps = ps.perms

-- The loops of `Union`.
unfoldable pub union_from : List PermissionSet → List Permission → List Permission
union_from [] m = m
union_from (s ∷ sets) m = union_from sets (mark_all s.perms m)

unfoldable pub union : List PermissionSet → PermissionSet
unfolding union_from
union sets = record { perms = union_from sets [] }

-- The loop of `Intersect`.
unfoldable pub intersect_from : List Permission → PermissionSet → List Permission → List Permission
intersect_from [] b m = m
intersect_from (p ∷ ps) b m = intersect_from ps b (if elem p b.perms then mark p m else m)

unfoldable pub intersect : PermissionSet → PermissionSet → PermissionSet
unfolding intersect_from
intersect a b = record { perms = intersect_from a.perms b [] }
