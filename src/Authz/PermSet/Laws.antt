-- ===== src/Authz/PermSet/Laws.antt =====
-- permset.go: what the sets hold.
use postbrain.Prelude.{
  String, string_eq, ◌≡◌, refl, ap, inl, inr, false, ◌&&◌, ◌||◌, List, [], ◌∷◌, ◌==◌, if◌then◌else◌,
  Bool-cases, Result, ok, err, Result-cases, elem, any, arith, eq_of_beq,
}
use postbrain.Authz.Permissions.{Permission, Error, expand}
use postbrain.Authz.Permissions.Expansion.{expands_to}
use postbrain.Authz.PermSet.{
  PermissionSet, empty_permission_set, mark, mark_all, collect, new_permission_set, contains,
  union_from, union, intersect_from, intersect,
}

-- No key stands in the list twice.
abbrev pub Distinct : List Permission → Type 0
Distinct [] = Unit
Distinct (p ∷ ps) = (elem p ps ≡ false) × Distinct ps

pub elem-mark : (p q : Permission) (m : List Permission) → elem p (mark q m) ≡ (q == p || elem p m)
unfolding mark
elem-mark p q m = elim (Bool-cases (q == p)) [
  | inl same ↦ ground (arith, ap (λ x. elem x m) (eq_of_beq q p same))
  | inr other ↦ ground arith
]

pub elem-mark_all :
    (p : Permission) (ps m : List Permission) → elem p (mark_all ps m) ≡ (elem p ps || elem p m)
unfolding mark_all
elem-mark_all p [] m = refl
elem-mark_all p (q ∷ ps) m = ground (arith, elem-mark_all p ps (mark q m), elem-mark p q m)

pub mark-Distinct : (q : Permission) (m : List Permission) → Distinct m → Distinct (mark q m)
unfolding mark
mark-Distinct q m h = ground arith

pub mark_all-Distinct : (ps m : List Permission) → Distinct m → Distinct (mark_all ps m)
unfolding mark_all
mark_all-Distinct [] m h = h
mark_all-Distinct (q ∷ ps) m h = mark_all-Distinct ps (mark q m) (mark-Distinct q m h)

elem-collect :
    (p : Permission) (raw : List String) (m : List Permission) {m' : List Permission}
    → collect raw m ≡ ok m'
    → elem p m' ≡ (any (λ r. expands_to (expand r) p) raw || elem p m)
unfolding collect
elem-collect p [] m h = ground arith
elem-collect p (r ∷ rs) m {m'} h = elim (Result-cases (expand r)) [
  | inl (ps, e) ↦
      let rest = elem-collect p rs (mark_all ps m) (rw (e, collect) at h) in
      rw e (ground (arith, rest, elem-mark_all p ps m))
  | inr (x, e) ↦
      let failed : ◌≡◌ {A = Result Error (List Permission)} (err x) (ok m') =
        rw (e, collect) at h in
      cc
]

pub contains-empty : (p : Permission) → contains empty_permission_set p ≡ false
unfolding contains empty_permission_set
contains-empty p = refl

-- The set built from raw texts holds exactly what one of the texts expands to.
pub contains-new_permission_set :
    (p : Permission) (raw : List String) {s : PermissionSet}
    → new_permission_set raw ≡ ok s
    → contains s p ≡ any (λ r. expands_to (expand r) p) raw
unfolding new_permission_set contains
contains-new_permission_set p raw {s} h = elim (Result-cases (collect raw [])) [
  | inl (m, e) ↦
      let same : ◌≡◌ {A = Result Error PermissionSet} (ok (record { perms = m })) (ok s) =
        rw (e, new_permission_set) at h in
      ground (arith, elem-collect p raw [] e)
  | inr (x, e) ↦
      let failed : ◌≡◌ {A = Result Error PermissionSet} (err x) (ok s) =
        rw (e, new_permission_set) at h in
      cc
]

elem-union_from :
    (p : Permission) (sets : List PermissionSet) (m : List Permission)
    → elem p (union_from sets m) ≡ (any (λ s. contains s p) sets || elem p m)
unfolding union_from contains
elem-union_from p [] m = refl
elem-union_from p (s ∷ sets) m =
    ground (arith, elem-union_from p sets (mark_all s.perms m), elem-mark_all p s.perms m)

-- A union holds a permission exactly when one of the sets does.
pub contains-union :
    (sets : List PermissionSet) (p : Permission)
    → contains (union sets) p ≡ any (λ s. contains s p) sets
unfolding union contains
contains-union sets p = ground (arith, elem-union_from p sets [])

pub contains-union_pair :
    (a b : PermissionSet) (p : Permission)
    → contains (union (a ∷ b ∷ [])) p ≡ (contains a p || contains b p)
contains-union_pair a b p = ground (arith, contains-union (a ∷ b ∷ []) p)

elem-intersect_from :
    (p : Permission) (ps : List Permission) (b : PermissionSet) (m : List Permission)
    → elem p (intersect_from ps b m) ≡ ((elem p ps && elem p b.perms) || elem p m)
unfolding intersect_from
elem-intersect_from p [] b m = refl
elem-intersect_from p (q ∷ ps) b m = elim (Bool-cases (q == p)) [
  | inl same ↦
      let alike = ap (λ x. elem x b.perms) (eq_of_beq q p same) in
      ground (
        arith,
        alike,
        elem-intersect_from p ps b (mark q m),
        elem-intersect_from p ps b m,
        elem-mark p q m,
      )
  | inr other ↦
      ground (
        arith,
        elem-intersect_from p ps b (mark q m),
        elem-intersect_from p ps b m,
        elem-mark p q m,
      )
]

-- An intersection holds a permission exactly when both sets do.
pub contains-intersect :
    (a b : PermissionSet) (p : Permission)
    → contains (intersect a b) p ≡ (contains a p && contains b p)
unfolding intersect contains
contains-intersect a b p = ground (arith, elem-intersect_from p a.perms b [])

-- Each key of a built set stands once, so that `Len` counts the permissions.
collect-Distinct :
    (raw : List String) (m : List Permission) {m' : List Permission}
    → Distinct m
    → collect raw m ≡ ok m'
    → Distinct m'
unfolding collect
collect-Distinct [] m d h = ground arith
collect-Distinct (r ∷ rs) m {m'} d h = elim (Result-cases (expand r)) [
  | inl (ps, e) ↦
      collect-Distinct rs (mark_all ps m) (mark_all-Distinct ps m d) (rw (e, collect) at h)
  | inr (x, e) ↦
      let failed : ◌≡◌ {A = Result Error (List Permission)} (err x) (ok m') =
        rw (e, collect) at h in
      cc
]

union_from-Distinct :
    (sets : List PermissionSet) (m : List Permission) → Distinct m → Distinct (union_from sets m)
unfolding union_from
union_from-Distinct [] m d = d
union_from-Distinct (s ∷ sets) m d =
    union_from-Distinct sets (mark_all s.perms m) (mark_all-Distinct s.perms m d)

intersect_from-Distinct :
    (ps : List Permission) (b : PermissionSet) (m : List Permission)
    → Distinct m
    → Distinct (intersect_from ps b m)
unfolding intersect_from
intersect_from-Distinct [] b m d = d
intersect_from-Distinct (p ∷ ps) b m d =
    intersect_from-Distinct ps b (if elem p b.perms then mark p m else m)
      (ground (arith, mark-Distinct p m d))

-- Whatever the operands, a union and an intersection keep each permission once.
pub union-intersect-Distinct :
    (sets : List PermissionSet) (a b : PermissionSet)
    → Distinct (union sets).perms × Distinct (intersect a b).perms
unfolding union intersect
union-intersect-Distinct sets a b =
    (union_from-Distinct sets [] tt, intersect_from-Distinct a.perms b [] tt)
