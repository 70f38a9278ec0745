-- ===== src/Authz/ReadOnly.antt =====
-- internal/authz/resolver.go: the helpers that keep the read permissions of a set.
pub mod Laws
use postbrain.Prelude.{string_eq, Bool, false, List, [], ◌∷◌, ◌==◌, if◌then◌else◌, Result, ok, err}
use postbrain.Authz.Permissions.{Permission, Error, parse, all_permissions, operation_read}
use postbrain.Authz.PermSet.{
  PermissionSet, empty_permission_set, new_permission_set, union, permissions,
}

-- A set that the code builds from strings that it knows to be valid; its error is ignored, and the
-- set is then the zero value.
unfoldable pub or_empty : Result Error PermissionSet → PermissionSet
or_empty (ok s) = s
or_empty (err e) = record { perms = [] }

unfoldable pub new_all_permissions : PermissionSet
unfolding or_empty
new_all_permissions = or_empty (new_permission_set all_permissions)

unfoldable pub new_single_permission : Permission → PermissionSet
unfolding or_empty
new_single_permission p = or_empty (new_permission_set (p ∷ []))

-- `Parse` succeeds with the operation `read`.
unfoldable pub is_read : Permission → Bool
is_read p = elim (parse p) [ err e ↦ false | ok t ↦ t.1 == operation_read ]

-- The loop of `readOnlyPermissionSet`.
unfoldable pub read_only_from : List Permission → PermissionSet → PermissionSet
read_only_from [] out = out
read_only_from (p ∷ ps) out =
    read_only_from ps (if is_read p then union (out ∷ new_single_permission p ∷ []) else out)

unfoldable pub read_only_permission_set : PermissionSet → PermissionSet
unfolding read_only_from
read_only_permission_set ps = read_only_from (permissions ps) empty_permission_set

unfoldable pub all_read_permissions : PermissionSet
all_read_permissions = read_only_permission_set new_all_permissions
