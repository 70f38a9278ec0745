-- ===== src/Authz/Resolver/Sources.antt =====
-- resolver.go: what each source of permissions contributes.
use postbrain.Prelude.{
  String, string_eq, ◌≡◌, ap, Bool, false, ◌&&◌, ◌||◌, List, [], ◌∷◌, Result, ok, err, >>=-eq-ok,
  any, arith,
}
use postbrain.Authz.Permissions.{Permission, Error, expand}
use postbrain.Authz.Permissions.Expansion.{expands_to}
use postbrain.Authz.PermSet.{PermissionSet, new_permission_set, contains, union}
use postbrain.Authz.PermSet.Laws.{contains-union_pair, contains-new_permission_set}
use postbrain.Authz.Roles.{Role, parse_role, role_permissions}
use postbrain.Authz.ReadOnly.{is_read, read_only_permission_set}
use postbrain.Authz.ReadOnly.Laws.{contains-read_only_permission_set}
use postbrain.Authz.Resolver.{
  DbError, no_rows, failed, ResolveError, queried, checked, add_membership, add_grants,
  add_descendant_roles, add_descendant_grants,
}

-- A row of raw permissions grants the permission.
abbrev pub row_grants : Permission → List String → Bool
row_grants p raw = any (λ r. expands_to (expand r) p) raw

-- What a query's answer comes to where a failure counts as nothing.
abbrev pub is_yes : Result DbError Bool → Bool
is_yes (ok b) = b
is_yes (err e) = false

abbrev pub rows {ℓ} : {A : Type ℓ} → Result DbError (List A) → List A
rows (ok l) = l
rows (err e) = []

abbrev pub role_grants : Permission → Result DbError String → Bool
role_grants p (ok r) = contains (role_permissions r) p
role_grants p (err e) = false

pub queried-ok {ℓ} : {A : Type ℓ} (m : Result DbError A) {a : A} → queried m ≡ ok a → m ≡ ok a
unfolding queried
queried-ok (ok b) h = ground arith
queried-ok (err e) h = cc

pub checked-ok {ℓ} : {A : Type ℓ} (m : Result Error A) {a : A} → checked m ≡ ok a → m ≡ ok a
unfolding checked
checked-ok (ok b) h = ground arith
checked-ok (err e) h = cc

-- `ParseRole` returns the role's own text.
parse_role-ok : (s : String) {r : Role} → parse_role s ≡ ok r → s ≡ r
unfolding parse_role
parse_role-ok s h = ground arith

pub contains-add_membership :
    (m : Result DbError String) (s : PermissionSet) (p : Permission) {t : PermissionSet}
    → add_membership m s ≡ ok t
    → contains t p ≡ (contains s p || role_grants p m)
unfolding add_membership
contains-add_membership (err no_rows) s p h = ground arith
contains-add_membership (err (failed x)) s p h = cc
contains-add_membership (ok r) s p {t} h =
    let (role, parsed, same) = >>=-eq-ok (checked (parse_role r)) _ h in
    let grown : ◌≡◌ {A = Result ResolveError PermissionSet}
        (ok (union (s ∷ role_permissions role ∷ []))) (ok t) =
      same in
    ground (
      arith,
      grown,
      parse_role-ok r (checked-ok _ parsed),
      contains-union_pair s (role_permissions role) p,
    )

pub contains-add_grants :
    (raws : List (List String)) (s : PermissionSet) (p : Permission) {t : PermissionSet}
    → add_grants raws s ≡ ok t
    → contains t p ≡ (contains s p || any (row_grants p) raws)
unfolding add_grants
contains-add_grants [] s p h = ground arith
contains-add_grants (raw ∷ raws) s p {t} h =
    let (ps, built, rest) = >>=-eq-ok (checked (new_permission_set raw)) _ h in
    ground (
      arith,
      contains-add_grants raws (union (s ∷ ps ∷ [])) p rest,
      contains-union_pair s ps p,
      contains-new_permission_set p raw (checked-ok _ built),
    )

pub contains-add_descendant_roles :
    (raws : List String) (s : PermissionSet) (p : Permission) {t : PermissionSet}
    → add_descendant_roles raws s ≡ ok t
    → contains t p ≡ (contains s p || any (λ r. contains (role_permissions r) p && is_read p) raws)
unfolding add_descendant_roles
contains-add_descendant_roles [] s p h = ground arith
contains-add_descendant_roles (raw ∷ raws) s p {t} h =
    let (role, parsed, rest) = >>=-eq-ok (checked (parse_role raw)) _ h in
    let reads = read_only_permission_set (role_permissions role) in
    ground (
      arith,
      contains-add_descendant_roles raws (union (s ∷ reads ∷ [])) p rest,
      contains-union_pair s reads p,
      contains-read_only_permission_set (role_permissions role) p,
      ap (λ r. contains (role_permissions r) p) (parse_role-ok raw (checked-ok _ parsed)),
    )

pub contains-add_descendant_grants :
    (raws : List (List String)) (s : PermissionSet) (p : Permission) {t : PermissionSet}
    → add_descendant_grants raws s ≡ ok t
    → contains t p ≡ (contains s p || any (λ raw. row_grants p raw && is_read p) raws)
unfolding add_descendant_grants
contains-add_descendant_grants [] s p h = ground arith
contains-add_descendant_grants (raw ∷ raws) s p {t} h =
    let (ps, built, rest) = >>=-eq-ok (checked (new_permission_set raw)) _ h in
    ground (
      arith,
      contains-add_descendant_grants raws (union (s ∷ read_only_permission_set ps ∷ [])) p rest,
      contains-union_pair s (read_only_permission_set ps) p,
      contains-read_only_permission_set ps p,
      contains-new_permission_set p raw (checked-ok _ built),
    )
