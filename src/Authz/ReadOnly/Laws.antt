-- ===== src/Authz/ReadOnly/Laws.antt =====
-- resolver.go: what the read-only part of a set holds.
use postbrain.Prelude.{
  string_eq, ◌≡◌, refl, ap, inl, inr, Bool, true, false, ◌&&◌, ◌||◌, List, [], ◌∷◌, ◌==◌,
  Bool-cases, Result, ok, err, elem, arith, eq_of_beq, Bool-eq_of_iff, all-elem,
}
use postbrain.Authz.Permissions.{
  Permission, Error, parse, expand, ops?, ops_of, cut, check_operation, new_permission, shorthand?,
  all_permissions,
}
use postbrain.Authz.Permissions.Parsing.{all_valid_sound}
use postbrain.Authz.Permissions.Expansion.{IsValid, parses, parses-IsValid}
use postbrain.Authz.PermSet.{
  PermissionSet, new_permission_set, empty_permission_set, contains, union, permissions, collect,
  mark_all, mark,
}
use postbrain.Authz.PermSet.Laws.{contains-empty, contains-union_pair}
use postbrain.Authz.ReadOnly.{
  new_all_permissions, new_single_permission, is_read, read_only_from, read_only_permission_set,
  all_read_permissions,
}

-- A read permission is valid, and joins a resource and the operation `read`.
pub is_read-IsValid : (p : Permission) → is_read p ≡ true → IsValid p
unfolding is_read
is_read-IsValid p h = parses-IsValid p (ground arith)

is_singleton : Result Error (List Permission) → Permission → Bool
is_singleton (ok (q ∷ [])) p = q == p
is_singleton _ p = false

-- `Expand` gives a valid permission back alone.
expand_valid : (p : Permission) → IsValid p → is_singleton (expand p) p ≡ true
unfolding is_singleton
expand_valid p (r, op, valid, joined) = rw (← joined) (
    all_valid_sound (λ r op. is_singleton (expand (new_permission r op)) (new_permission r op)) r op
      (unfold expand ops? ops_of shorthand? cut check_operation new_permission in refl) valid)

ok_of_is_singleton :
    (m : Result Error (List Permission)) (p : Permission)
    → is_singleton m p ≡ true
    → m ≡ ok (p ∷ [])
unfolding is_singleton
ok_of_is_singleton (ok []) p h = cc
ok_of_is_singleton (ok (q ∷ [])) p h = ap (λ x. ok (x ∷ [])) (eq_of_beq q p h)
ok_of_is_singleton (ok (q ∷ r ∷ ps)) p h = cc
ok_of_is_singleton (err e) p h = cc

pub contains-new_single_permission :
    (p q : Permission) → IsValid p → contains (new_single_permission p) q ≡ (p == q)
unfolding new_single_permission new_permission_set contains mark_all mark
contains-new_single_permission p q valid =
    rw (ok_of_is_singleton (expand p) p (expand_valid p valid)) (ground arith)

same_test : (p q : Permission) → (p == q) ≡ true → is_read p ≡ is_read q
same_test p q h = ap is_read (eq_of_beq p q h)

contains-read_only_from :
    (ps : List Permission) (out : PermissionSet) (q : Permission)
    → contains (read_only_from ps out) q ≡ ((elem q ps && is_read q) || contains out q)
unfolding read_only_from
contains-read_only_from [] out q = refl
contains-read_only_from (p ∷ ps) out q = elim (Bool-cases (is_read p)) [
  | inl reads ↦
      let wider = union (out ∷ new_single_permission p ∷ []) in
      ground (
        arith,
        contains-read_only_from ps wider q,
        contains-union_pair out (new_single_permission p) q,
        contains-new_single_permission p q (is_read-IsValid p reads),
        same_test p q,
      )
  | inr other ↦ ground (arith, contains-read_only_from ps out q, same_test p q)
]

-- The read-only part of a set holds exactly the set's read permissions.
pub contains-read_only_permission_set :
    (s : PermissionSet) (p : Permission)
    → contains (read_only_permission_set s) p ≡ (contains s p && is_read p)
unfolding read_only_permission_set permissions contains
contains-read_only_permission_set s p =
    ground (arith, contains-read_only_from s.perms empty_permission_set p, contains-empty p)

-- The set of all permissions holds a text exactly when the text parses.
pub contains-new_all_permissions :
    (p : Permission) → contains new_all_permissions p ≡ parses (parse p)
contains-new_all_permissions p =
    Bool-eq_of_iff _ _
      (λ h.
        all-elem (λ q. parses (parse q)) p new_all_permissions.perms
          (unfold new_all_permissions new_permission_set collect mark_all mark all_permissions
              expand shorthand? parse ops? ops_of cut check_operation new_permission in
            refl)
          (unfold contains in h))
      (λ h.
        let (r, op, valid, joined) = parses-IsValid p h in
        rw (← joined) (
          all_valid_sound (λ r op. contains new_all_permissions (new_permission r op)) r op
            (unfold new_all_permissions new_permission_set collect mark_all mark all_permissions
                expand shorthand? cut check_operation contains ops? ops_of new_permission in
              refl)
            valid))

-- The set of all read permissions holds exactly the read permissions.
pub contains-all_read_permissions : (p : Permission) → contains all_read_permissions p ≡ is_read p
unfolding all_read_permissions is_read
contains-all_read_permissions p =
    ground (
      arith,
      contains-read_only_permission_set new_all_permissions p,
      contains-new_all_permissions p,
    )
