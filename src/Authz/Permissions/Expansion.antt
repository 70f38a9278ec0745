-- ===== src/Authz/Permissions/Expansion.antt =====
-- permissions.go: what `Expand` and `AllPermissions` produce.
use postbrain.Prelude.{
  String, string_eq, ◌≡◌, refl, ◌⊎◌, ◌↔◌, inl, inr, Bool, true, false, ◌&&◌, some, List, [], ◌∷◌,
  ◌==◌, Bool-cases, Option-cases, Result, ok, err, ◌>>=◌, >>=-eq-ok, ◌∙◌, elem, arith, all-get?,
  all-elem, eq_of_beq,
}
use postbrain.Authz.Permissions.{
  Resource, Operation, Permission, Error, new_permission, check_operation, parse, ops_of, ops?, cut,
  shorthand?, shorthand_ops, all_resources, all_permissions, expand_from, expand_scoped, expand,
  unknown_permission,
}
use postbrain.Authz.Permissions.Parsing.{
  parse_iff, all_valid_sound, check_operation-ok, new_permission-cut,
}

-- The permission joins a resource and one of its operations.
abbrev pub IsValid : Permission → Type 0
IsValid p =
    (r : Resource) × (op : Operation) × (elem op (ops_of r) ≡ true) × (new_permission r op ≡ p)

-- What a raw text stands for: a shorthand for each valid permission with that operation, any other
-- text for itself.
abbrev pub Denotes : String → Permission → Type 0
Denotes raw p =
    (r : Resource) × (op : Operation) × (elem op (ops_of r) ≡ true)
    × (new_permission r op ≡ p)
    × ((raw ≡ op) ⊎ (raw ≡ p))

-- The expansion succeeds and lists the permission.
abbrev pub expands_to : Result Error (List Permission) → Permission → Bool
expands_to (ok ps) p = elem p ps
expands_to (err e) p = false

shorthand?-self : (raw : String) {op : Operation} → shorthand? raw ≡ some op → raw ≡ op
unfolding shorthand?
shorthand?-self raw {op} h =
    eq_of_beq raw op (all-get? (λ (e : String × Operation). e.0 == e.1) raw shorthand_ops refl h)

elem-expand_from :
    (p : Permission) (op : Operation) (rs : List Resource)
    → elem p (expand_from op rs) ≡ true
    → (r : Resource) × (elem op (ops_of r) ≡ true) × (new_permission r op ≡ p)
unfolding expand_from
elem-expand_from p op [] h = cc
elem-expand_from p op (r ∷ rs) h = elim (Bool-cases (elem op (ops_of r))) [
  | inl valid ↦ elim (Bool-cases (new_permission r op == p)) [
    | inl same ↦ (r, valid, eq_of_beq _ _ same)
    | inr other ↦ elem-expand_from p op rs (ground arith)
  ]
  | inr invalid ↦ elem-expand_from p op rs (ground arith)
]

expand_scoped-Denotes :
    (raw p : String) (ps : List Permission)
    → expand_scoped raw ≡ ok ps
    → elem p ps ≡ true
    → Denotes raw p
unfolding expand_scoped
expand_scoped-Denotes raw p ps h m = elim (Option-cases (cut raw)) [
  | inl missed ↦
      let e : ◌≡◌ {A = Result Error (List Permission)} (err (unknown_permission raw)) (ok ps) =
        rw (missed, expand_scoped) at h in
      cc
  | inr (q, found) ↦
      let bound : (check_operation raw q.0 q.1 >>= λ valid.
      ok (new_permission valid.0 valid.1 ∷ []))
          ≡ ok ps =
        rw (found, expand_scoped) at h in
      let (t, checked, listed) = >>=-eq-ok _ _ bound in
      let (same, valid) = check_operation-ok raw q.0 q.1 t checked in
      let joined : new_permission q.0 q.1 ≡ raw = new_permission-cut raw q found in
      let is_raw : raw ≡ p = ground (arith, joined, same, eq_of_beq (new_permission t.0 t.1) p) in
      (q.0, q.1, valid, joined ∙ is_raw, inr is_raw)
]

expand-Denotes :
    (raw p : String) (ps : List Permission) → expand raw ≡ ok ps → elem p ps ≡ true → Denotes raw p
unfolding expand
expand-Denotes raw p ps h m = elim (Option-cases (shorthand? raw)) [
  | inl missed ↦ expand_scoped-Denotes raw p ps (ground arith) m
  | inr (op, found) ↦
      let listed : elem p (expand_from op all_resources) ≡ true = ground arith in
      let (r, valid, joined) = elem-expand_from p op all_resources listed in
      (r, op, valid, joined, inl (shorthand?-self raw found))
]

-- Each valid permission is in its own expansion and in that of its operation, by evaluation.
valid-expands :
    (r : Resource) (op : Operation)
    → elem op (ops_of r) ≡ true
    → (expands_to (expand op) (new_permission r op)
        && expands_to (expand (new_permission r op)) (new_permission r op))
      ≡ true
valid-expands r op valid =
    all_valid_sound
      (λ r op.
        expands_to (expand op) (new_permission r op)
        && expands_to (expand (new_permission r op)) (new_permission r op))
      r op (unfold expand ops? ops_of shorthand? cut check_operation new_permission in refl) valid

-- `Expand` succeeds with a list that holds a permission exactly when the raw text stands for it: an
-- operation's name for every valid permission of that operation, a valid permission for itself.
pub expand_iff :
    (raw : String) (p : Permission) → (expands_to (expand raw) p ≡ true) ↔ Denotes raw p
expand_iff raw p = (to (expand raw) refl, from)
  where
    to :
        (m : Result Error (List Permission))
        → expand raw ≡ m
        → expands_to m p ≡ true
        → Denotes raw p
    to (ok ps) e h = expand-Denotes raw p ps e h
    to (err x) e h = cc

    from : Denotes raw p → expands_to (expand raw) p ≡ true
    from (r, op, valid, joined, inl shorthand) =
        rw shorthand (rw (← joined) (ground (arith, valid-expands r op valid)))
    from (r, op, valid, joined, inr scoped) =
        rw scoped (rw (← joined) (ground (arith, valid-expands r op valid)))

abbrev pub parses : Result Error (Resource × Operation) → Bool
parses (ok t) = true
parses (err e) = false

pub parses-IsValid : (p : Permission) → parses (parse p) ≡ true → IsValid p
parses-IsValid p h = go (parse p) refl h
  where
    go : (m : Result Error (Resource × Operation)) → parse p ≡ m → parses m ≡ true → IsValid p
    go (ok t) e h = let (valid, joined) = (parse_iff p t.0 t.1).0 e in (t.0, t.1, valid, joined)
    go (err x) e h = cc

pub parses_of_IsValid : (p : Permission) → IsValid p → parses (parse p) ≡ true
parses_of_IsValid p (r, op, valid, joined) = rw ((parse_iff p r op).1 (valid, joined))

-- `AllPermissions` lists exactly the valid permissions.
pub all_permissions_iff : (p : Permission) → (elem p all_permissions ≡ true) ↔ IsValid p
all_permissions_iff p = (to, from)
  where
    to : elem p all_permissions ≡ true → IsValid p
    to h = parses-IsValid p (
        all-elem (λ q. parses (parse q)) p all_permissions
          (unfold all_permissions parse ops? ops_of cut check_operation new_permission in refl) h)

    from : IsValid p → elem p all_permissions ≡ true
    from (r, op, valid, joined) = rw (← joined) (
        all_valid_sound (λ r op. elem (new_permission r op) all_permissions) r op
          (unfold all_permissions ops? ops_of new_permission in refl) valid)
