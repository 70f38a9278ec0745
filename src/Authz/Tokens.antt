-- ===== src/Authz/Tokens.antt =====
-- internal/authz/token.go: the permissions that a token declares.
use postbrain.Prelude.{
  String, string_eq, Bool, true, false, List, [], ◌∷◌, ◌==◌, if◌then◌else◌, Result, err,
}
use postbrain.Authz.Permissions.{Error, empty_token_permissions, admin_not_valid}
use postbrain.Authz.PermSet.{PermissionSet, new_permission_set, intersect}

-- The loop of `ParseTokenPermissions` that looks for the legacy value.
unfoldable pub has_admin : List String → Bool
has_admin [] = false
has_admin (r ∷ rs) = if r == "admin" then true else has_admin rs

unfoldable pub parse_token_permissions : List String → Result Error PermissionSet
parse_token_permissions [] = err empty_token_permissions
parse_token_permissions (r ∷ rs) =
    if has_admin (r ∷ rs) then err admin_not_valid else new_permission_set (r ∷ rs)

unfoldable pub effective_token_permissions : PermissionSet → PermissionSet → PermissionSet
effective_token_permissions principal_perms token_perms = intersect principal_perms token_perms
