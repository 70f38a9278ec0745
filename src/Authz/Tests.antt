-- ===== src/Authz/Tests.antt =====
-- The theorems on internal/authz at concrete inputs.
mod Tokens
mod Tables
use postbrain.Prelude.{
  ℕ, ◌<◌, String, string_eq, nat_eq, pair_eq, ◌≡◌, ◌≢◌, ◌↔◌, refl, inl, inr, Bool, true, false,
  ◌&&◌, ◌||◌, List, [], ◌∷◌, Option, none, some, if◌then◌else◌, ◌==◌, Result, ok, err, elem, any,
  All, arith,
}
use postbrain.Authz.Permissions.{
  Permission, new_permission, ops_of, parse, expand, shorthand?, ops?, check_operation, cut,
  expand_from, expand_scoped, resource_memories, resource_sessions, operation_read, operation_write,
  all_permissions,
}
use postbrain.Authz.Permissions.Parsing.{parse_iff}
use postbrain.Authz.Permissions.Expansion.{
  IsValid, Denotes, expands_to, expand_iff, all_permissions_iff,
}
use postbrain.Authz.PermSet.{
  PermissionSet, new_permission_set, contains, union, union_from, intersect, collect, mark_all,
  mark, permissions, empty_permission_set,
}
use postbrain.Authz.PermSet.Laws.{
  Distinct, contains-new_permission_set, contains-union, contains-intersect,
  union-intersect-Distinct,
}
use postbrain.Authz.Roles.{role_member, role_admin, role_owner, role_permissions, perms?}
use postbrain.Authz.Roles.Laws.{role_hierarchy, role_permissions-IsValid, no_role-sessions_read}
use postbrain.Authz.ReadOnly.{
  is_read, read_only_permission_set, read_only_from, new_single_permission,
}
use postbrain.Authz.ReadOnly.Laws.{contains-read_only_permission_set}
use postbrain.Authz.Resolver.{
  Queries, no_rows, effective_permissions, has_permission, queried, checked, from_above, from_below,
  from_sources, add_membership, add_grants, add_descendant_roles, add_descendant_grants,
}
use postbrain.Authz.Resolver.Totality.{Succeeds, Works, effective_permissions_total}
use postbrain.Authz.Resolver.Laws.{
  may, held_above, contains-effective_permissions, has_permission-held_above,
}

-- Principal 1 has a grant on scope 10 and another on a scope below it.
abbrev granted : Queries
granted = record {
  get_principal_system_admin = λ p. ok false;
  scope_exists = λ s. ok (s == 10);
  principal_owns_target_or_ancestor = λ p s. ok false;
  get_effective_membership_role = λ p s. err no_rows;
  get_scope_grant_permissions = λ p s. ok (("knowledge:edit" ∷ []) ∷ []);
  principal_owns_descendant = λ s p. ok false;
  get_descendant_membership_roles = λ p s. ok [];
  get_descendant_scope_grant_permissions =
      λ p s. ok (("memories:read" ∷ "memories:write" ∷ []) ∷ []);
}

abbrev granted_perms : PermissionSet
granted_perms = record { perms = "memories:read" ∷ "knowledge:edit" ∷ [] }

answered : effective_permissions granted 1 10 ≡ ok granted_perms
unfolding effective_permissions queried checked from_above from_below from_sources add_membership
    add_grants add_descendant_roles add_descendant_grants new_permission_set collect expand
    shorthand? ops? ops_of check_operation cut expand_from expand_scoped parse new_permission
    contains union union_from mark_all mark read_only_permission_set read_only_from permissions
    is_read empty_permission_set new_single_permission
answered = refl

edits : has_permission granted 1 10 "knowledge:edit" ≡ ok true
unfolding has_permission effective_permissions queried checked from_above from_below from_sources
    add_membership add_grants add_descendant_roles add_descendant_grants new_permission_set collect
    expand shorthand? ops? ops_of check_operation cut expand_from expand_scoped parse new_permission
    contains union union_from mark_all mark read_only_permission_set read_only_from permissions
    is_read empty_permission_set new_single_permission
edits = refl

contains-effective_permissions_example :
    contains granted_perms "memories:write" ≡ may granted 1 10 "memories:write"
contains-effective_permissions_example =
    contains-effective_permissions granted 1 10 "memories:write" answered

has_permission-held_above_example : held_above granted 1 10 "knowledge:edit" ≡ true
unfolding is_read parse ops?
has_permission-held_above_example =
    has_permission-held_above granted 1 10 "knowledge:edit" edits refl (λ e. absurd (ground arith))

knowledge_edit_known : Succeeds (new_permission_set ("knowledge:edit" ∷ []))
unfolding new_permission_set collect expand shorthand? ops? ops_of check_operation cut expand_from
    expand_scoped parse new_permission mark_all mark
knowledge_edit_known = (record { perms = "knowledge:edit" ∷ [] }, refl)

memories_parse :
    new_permission_set ("memories:read" ∷ "memories:write" ∷ [])
    ≡ ok (record { perms = "memories:write" ∷ "memories:read" ∷ [] })
unfolding new_permission_set collect expand shorthand? ops? ops_of check_operation cut expand_from
    expand_scoped parse new_permission mark_all mark
memories_parse = refl

memories_known : Succeeds (new_permission_set ("memories:read" ∷ "memories:write" ∷ []))
memories_known = (record { perms = "memories:write" ∷ "memories:read" ∷ [] }, memories_parse)

granted-Works : Works granted 1 10
granted-Works = record {
  is_admin = false;
  admin_answer = refl;
  exists = true;
  exists_answer = refl;
  owns = false;
  owns_answer = refl;
  role = inl refl;
  grants = ("knowledge:edit" ∷ []) ∷ [];
  grants_answer = refl;
  grants_known = (knowledge_edit_known, tt);
  owns_below = false;
  owns_below_answer = refl;
  roles_below = [];
  roles_below_answer = refl;
  roles_below_known = tt;
  grants_below = ("memories:read" ∷ "memories:write" ∷ []) ∷ [];
  grants_below_answer = refl;
  grants_below_known = (memories_known, tt);
}

effective_permissions_total_example : Succeeds (effective_permissions granted 1 10)
effective_permissions_total_example = effective_permissions_total granted 1 10 granted-Works

parse_iff_example : (parse "memories:read" ≡ ok (resource_memories, operation_read)) ↔ (
    (elem operation_read (ops_of resource_memories) ≡ true)
    × (new_permission resource_memories operation_read ≡ "memories:read"))
parse_iff_example = parse_iff "memories:read" resource_memories operation_read

expand_iff_example :
    (expands_to (expand "read") "memories:read" ≡ true) ↔ Denotes "read" "memories:read"
expand_iff_example = expand_iff "read" "memories:read"

no_role-sessions_read_example :
    contains (role_permissions role_owner) (new_permission resource_sessions operation_read) ≡ false
no_role-sessions_read_example = no_role-sessions_read role_owner
