-- ===== src/Authz/Roles/Laws.antt =====
-- roles.go: the hierarchy of the roles.
use postbrain.Prelude.{
  string_eq, ◌≡◌, refl, inl, inr, Bool, true, false, List, [], ◌++◌, ◌==◌, Bool-cases, none, some,
  beq_comm, Option-cases, elem, elem-append, arith, beq_self, negb, all, all-get?, all-elem,
}
use postbrain.Authz.Permissions.{
  Permission, parse, ops?, cut, new_permission, ops_of, check_operation, resource_sessions,
  operation_read,
}
use postbrain.Authz.Permissions.Expansion.{IsValid, parses, parses-IsValid}
use postbrain.Authz.PermSet.{contains}
use postbrain.Authz.PermSet.Laws.{elem-mark_all, contains-empty}
use postbrain.Authz.Roles.{
  Role, role_member, role_admin, role_owner, member_perms, admin_extra, owner_extra, role_perms,
  perms?, role_permissions,
}

pub contains-role_permissions :
    (r : Role) (p : Permission) {ps : List Permission}
    → perms? r ≡ some ps
    → contains (role_permissions r) p ≡ elem p ps
unfolding role_permissions contains
contains-role_permissions r p {ps} h =
    rw (h, role_permissions) (ground (arith, elem-mark_all p ps []))

pub contains-role_permissions_unknown :
    (r : Role) (p : Permission) → perms? r ≡ none → contains (role_permissions r) p ≡ false
unfolding role_permissions
contains-role_permissions_unknown r p missed = rw (missed, role_permissions, contains-empty) refl

pub perms?-unknown :
    (r : Role)
    → (r == role_owner) ≡ false
    → (r == role_admin) ≡ false
    → (r == role_member) ≡ false
    → perms? r ≡ none
unfolding perms?
perms?-unknown r a b c =
    ground (arith, a, b, c, beq_comm r role_owner, beq_comm r role_admin, beq_comm r role_member)

member : perms? role_member ≡ some member_perms
unfolding perms?
member = refl

admin : perms? role_admin ≡ some (member_perms ++ admin_extra)
unfolding perms?
admin = refl

owner : perms? role_owner ≡ some ((member_perms ++ admin_extra) ++ owner_extra)
unfolding perms?
owner = refl

-- A test of every permission of every role, by evaluation.
role_test :
    (f : Permission → Bool) (r : Role) (p : Permission)
    → all (λ (e : Role × List Permission). all f e.1) role_perms ≡ true
    → contains (role_permissions r) p ≡ true
    → f p ≡ true
role_test f r p h m = elim (Option-cases (perms? r)) [
  | inl missed ↦
      let gone : ◌≡◌ {A = Bool} false true =
        unfold role_permissions in rw (missed, role_permissions, contains-empty) at m in
      cc
  | inr (ps, found) ↦
      all-elem f p ps
        (all-get? (λ (e : Role × List Permission). all f e.1) r role_perms h
          (unfold perms? in found))
        (rw (contains-role_permissions r p found) at m)
]

-- Each role holds all that the role below it holds.
pub role_hierarchy :
    (p : Permission)
    → (contains (role_permissions role_member) p ≡ true
        → contains (role_permissions role_admin) p ≡ true)
      × (contains (role_permissions role_admin) p ≡ true
          → contains (role_permissions role_owner) p ≡ true)
role_hierarchy p = ground (
  arith,
  elem-append p member_perms admin_extra,
  elem-append p (member_perms ++ admin_extra) owner_extra,
  contains-role_permissions role_member p member,
  contains-role_permissions role_admin p admin,
  contains-role_permissions role_owner p owner,
)

-- Whatever the role's text, a role grants valid permissions only.
pub role_permissions-IsValid :
    (r : Role) (p : Permission) → contains (role_permissions r) p ≡ true → IsValid p
role_permissions-IsValid r p h = parses-IsValid p (
    role_test (λ q. parses (parse q)) r p
      (unfold parse ops? ops_of cut check_operation new_permission in refl) h)

-- No role grants the permission to read sessions.
pub no_role-sessions_read :
    (r : Role)
    → contains (role_permissions r) (new_permission resource_sessions operation_read) ≡ false
no_role-sessions_read r =
    let sessions_read = new_permission resource_sessions operation_read in
    elim (Bool-cases (contains (role_permissions r) sessions_read)) [
      | inl held ↦ absurd (
          ground (
            arith,
            beq_self sessions_read,
            role_test (λ q. negb (q == sessions_read)) r sessions_read
                (unfold new_permission in refl) held,
          ))
      | inr lacking ↦ lacking
    ]
