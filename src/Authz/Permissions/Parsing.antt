-- ===== src/Authz/Permissions/Parsing.antt =====
-- permissions.go: splitting a permission string and putting it together again.
use Prim.Native.Char.{code}
use Prim.Native.String.{◌++◌ as ◌+++◌}
use mathlib.Core.Option.{some-injective}
use text.Mathlib.TextEquality.{Char-path}
use text.Mathlib.TextLemmas.{nil-append, cons-append}
use postbrain.Prelude.{
  String, string_eq, ◌≡◌, refl, sym, ap, subst, inl, inr, Bool, true, false, Option, none, some,
  List, ◌=ℕ◌, =ℕ_iff, if◌then◌else◌, Bool-cases, Option-cases, Result, ok, err, elem, arith, ◌↔◌,
  all, all-get?, all-elem,
}
use postbrain.Authz.Permissions.{
  Resource, Operation, Permission, Error, malformed, new_permission, cut, check_operation, parse,
  valid_ops, ops_of, ops?,
}

-- No colon stands in the text.
abbrev pub no_colon : String → Bool
no_colon String.[] = true
no_colon (String.◌∷◌ c s) = if code c =ℕ b':' then false else no_colon s

pub cut-new_permission :
    (r op : String) → no_colon r ≡ true → cut (new_permission r op) ≡ some (r, op)
unfolding cut new_permission
cut-new_permission String.[] op h = rw nil-append (rw cons-append (rw nil-append refl))
cut-new_permission (String.◌∷◌ c r) op h = elim (Bool-cases (code c =ℕ b':')) [
  | inl colon ↦ absurd (ground arith)
  | inr other ↦ rw cons-append (rw (other, cut) (rw (cut-new_permission r op (rw other at h))))
]

pub new_permission-cut :
    (s : String) (p : String × String) → cut s ≡ some p → new_permission p.0 p.1 ≡ s
unfolding cut new_permission
new_permission-cut String.[] p h = cc
new_permission-cut (String.◌∷◌ c s) p h = elim (Bool-cases (code c =ℕ b':')) [
  | inl colon ↦
      let e : ("", s) ≡ p = some-injective _ _ (rw colon at h) in
      subst (λ (q : String × String). q.0 +++ (":" +++ q.1) ≡ String.◌∷◌ c s) e
        (rw nil-append (
          rw cons-append (
            rw nil-append (ap (λ d. String.◌∷◌ d s) (Char-path _ c (sym ((=ℕ_iff _ _).0 colon)))))))
  | inr other ↦ elim (Option-cases (cut s)) [
    | inl missed ↦
        let e : ◌≡◌ {A = Option (String × String)} none (some p) = rw (other, missed, cut) at h in
        cc
    | inr (q, found) ↦
        let e : (String.◌∷◌ c q.0, q.1) ≡ p = some-injective _ _ (rw (other, found, cut) at h) in
        subst (λ (t : String × String). t.0 +++ (":" +++ t.1) ≡ String.◌∷◌ c s) e
          (rw cons-append (ap (String.◌∷◌ c) (new_permission-cut s q found)))
  ]
]

pub check_operation-ok :
    (p : Permission) (r : Resource) (op : Operation) (t : Resource × Operation)
    → check_operation p r op ≡ ok t
    → ((r, op) ≡ t) × (elem op (ops_of r) ≡ true)
unfolding check_operation ops_of
check_operation-ok p r op t h = ground arith

pub ok-check_operation :
    (p : Permission) (r : Resource) (op : Operation)
    → elem op (ops_of r) ≡ true
    → check_operation p r op ≡ ok (r, op)
unfolding check_operation ops_of
ok-check_operation p r op h = ground arith

-- A check of every valid pair, by evaluation.
pub all_valid_sound :
    (f : Resource → Operation → Bool) (r : Resource) (op : Operation)
    → all (λ (e : Resource × List Operation). all (f e.0) e.1) valid_ops ≡ true
    → elem op (ops_of r) ≡ true
    → f r op ≡ true
unfolding ops_of
all_valid_sound f r op h valid = elim (Option-cases (ops? r)) [
  | inl missed ↦ let e : ◌≡◌ {A = Bool} false true = rw (missed, ops_of) at valid in cc
  | inr (ops, found) ↦
      all-elem (f r) op ops
        (unfold ops? in
          all-get? (λ (e : Resource × List Operation). all (f e.0) e.1) r valid_ops h found)
        (rw (found, ops_of) at valid)
]

ops_of-no_colon : (r : Resource) (op : Operation) → elem op (ops_of r) ≡ true → no_colon r ≡ true
ops_of-no_colon r op valid = all_valid_sound (λ r op. no_colon r) r op refl valid

-- Round trip: a permission parses to a resource and an operation exactly when the operation is one
-- of the resource's and the permission is the two joined by a colon.
pub parse_iff :
    (p : Permission) (r : Resource) (op : Operation)
    → (parse p ≡ ok (r, op)) ↔ ((elem op (ops_of r) ≡ true) × (new_permission r op ≡ p))
unfolding parse
parse_iff p r op = (to, from)
  where
    to : parse p ≡ ok (r, op) → (elem op (ops_of r) ≡ true) × (new_permission r op ≡ p)
    to h = elim (Option-cases (cut p)) [
      | inl missed ↦
          let e : ◌≡◌ {A = Result Error (Resource × Operation)} (err (malformed p)) (ok (r, op)) =
            rw (missed, parse) at h in
          cc
      | inr (q, found) ↦
          let checked : check_operation p q.0 q.1 ≡ ok (r, op) = rw (found, parse) at h in
          let (same, valid) = check_operation-ok p q.0 q.1 (r, op) checked in
          (
            subst (λ (t : String × String). elem t.1 (ops_of t.0) ≡ true) same valid,
            subst (λ (t : String × String). new_permission t.0 t.1 ≡ p) same
                (new_permission-cut p q found),
          )
    ]

    from : (elem op (ops_of r) ≡ true) × (new_permission r op ≡ p) → parse p ≡ ok (r, op)
    from (valid, joined) = rw (← joined) (
        rw (cut-new_permission r op (ops_of-no_colon r op valid), parse)
          (ok-check_operation _ r op valid))
