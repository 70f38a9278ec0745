-- ===== src/Authz/Roles.antt =====
-- internal/authz/roles.go: the permissions of the membership roles.
pub mod Laws
use postbrain.Prelude.{
  String, string_eq, List, [], ◌∷◌, ◌++◌, ◌==◌, if◌then◌else◌, Result, ok, err, Option, none, some,
  get?,
}
use postbrain.Authz.Permissions.{
  Permission, Error, unknown_role, new_permission, resource_memories, resource_knowledge,
  resource_collections, resource_skills, resource_sessions, resource_graph, resource_scopes,
  resource_principals, resource_tokens, resource_sharing, resource_promotions, operation_read,
  operation_write, operation_edit, operation_delete,
}
use postbrain.Authz.PermSet.{PermissionSet, empty_permission_set, mark, mark_all}

abbrev pub Role : Type 0
Role = String

abbrev pub role_member : Role
role_member = "member"

abbrev pub role_admin : Role
role_admin = "admin"

abbrev pub role_owner : Role
role_owner = "owner"

unfoldable pub parse_role : String → Result Error Role
parse_role s =
    if s == role_member
    then ok s
    else if s == role_admin
    then ok s
    else if s == role_owner
    then ok s
    else err (unknown_role s)

-- `rolePerms[RoleMember]`
abbrev pub member_perms : List Permission
member_perms =
    new_permission resource_memories operation_read
    ∷ new_permission resource_memories operation_write
    ∷ new_permission resource_knowledge operation_read
    ∷ new_permission resource_knowledge operation_write
    ∷ new_permission resource_collections operation_read
    ∷ new_permission resource_collections operation_write
    ∷ new_permission resource_skills operation_read
    ∷ new_permission resource_skills operation_write
    ∷ new_permission resource_sessions operation_write
    ∷ new_permission resource_graph operation_read
    ∷ new_permission resource_scopes operation_read
    ∷ new_permission resource_principals operation_read
    ∷ new_permission resource_tokens operation_read
    ∷ new_permission resource_sharing operation_read
    ∷ new_permission resource_promotions operation_read
    ∷ new_permission resource_promotions operation_write
    ∷ []

-- `adminExtra`
abbrev pub admin_extra : List Permission
admin_extra =
    new_permission resource_memories operation_edit
    ∷ new_permission resource_memories operation_delete
    ∷ new_permission resource_knowledge operation_edit
    ∷ new_permission resource_collections operation_edit
    ∷ new_permission resource_skills operation_edit
    ∷ new_permission resource_scopes operation_edit
    ∷ new_permission resource_scopes operation_write
    ∷ new_permission resource_principals operation_edit
    ∷ new_permission resource_sharing operation_write
    ∷ new_permission resource_promotions operation_edit
    ∷ new_permission resource_tokens operation_read
    ∷ new_permission resource_tokens operation_edit
    ∷ []

-- `ownerExtra`
abbrev pub owner_extra : List Permission
owner_extra =
    new_permission resource_knowledge operation_delete
    ∷ new_permission resource_collections operation_delete
    ∷ new_permission resource_skills operation_delete
    ∷ new_permission resource_scopes operation_delete
    ∷ new_permission resource_principals operation_delete
    ∷ new_permission resource_sharing operation_delete
    ∷ new_permission resource_promotions operation_delete
    ∷ new_permission resource_tokens operation_delete
    ∷ []

-- `rolePerms` after `init`.
abbrev pub role_perms : List (Role × List Permission)
role_perms =
    (role_owner, (member_perms ++ admin_extra) ++ owner_extra)
    ∷ (role_admin, member_perms ++ admin_extra)
    ∷ (role_member, member_perms)
    ∷ []

-- `perms, ok := rolePerms[r]`
unfoldable pub perms? : Role → Option (List Permission)
perms? r = get? r role_perms

-- An unknown role has no permissions.
unfoldable pub role_permissions : Role → PermissionSet
unfolding mark_all mark
role_permissions r = elim (perms? r) [
  | none ↦ empty_permission_set
  | some ps ↦ record { perms = mark_all ps [] }
]
