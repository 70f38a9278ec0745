-- ===== src/Principals/Ancestry/Laws.antt =====
-- The recursive query of the memberships: it ends, with the ancestors.
use postbrain.Prelude.{
  ℕ, zero, suc, ◌+◌, ◌≤◌, ◌<◌, nat_eq, pair_eq, String, ◌≡◌, refl, sym, ap, subst, ◌∙◌, ◌⊎◌, ◌↔◌,
  inl, inr, Bool, true, false, negb, Bool-cases, or-eq-true, List, [], ◌∷◌, ◌++◌, some, ◌==◌,
  eq_of_beq, beq_self, length, elem, select, length-select, length-select_lt, elem-append, In,
  In-append, In-for_each, In-when, elem_iff, when, arith,
}
use postbrain.Principals.Membership.{Memberships}
use postbrain.Principals.Membership.Laws.{IsMember, Ancestor, self, up, Ancestor-trans}
use postbrain.Principals.Ancestry.{fresh, parents_of, ancestry_from, principal_ancestry}

pub In-fresh : (x : ℕ) (seen xs : List ℕ) → In x (fresh seen xs) → In x xs × (elem x seen ≡ false)
unfolding fresh
In-fresh x seen [] i = absurd i
In-fresh x seen (y ∷ xs) i = elim (Bool-cases (elem y seen)) [
  | inl old ↦ let (j, e) = In-fresh x seen xs (rw old at i) in (inr j, e)
  | inr new ↦ elim (rw new at i) [
    | inl here ↦ (inl here, ap (λ z. elem z seen) here ∙ new)
    | inr there ↦ let (j, e) = In-fresh x (y ∷ seen) xs there in (inr j, ground arith)
  ]
]

-- Nothing of the list is lost.
pub In-fresh_or_seen :
    (x : ℕ) (seen xs : List ℕ) → In x xs → (elem x seen ≡ true) ⊎ In x (fresh seen xs)
unfolding fresh
In-fresh_or_seen x seen [] i = absurd i
In-fresh_or_seen x seen (y ∷ xs) i = elim (Bool-cases (elem y seen)) [
  | inl old ↦ rw old (elim i [
    | inl here ↦ inl (ap (λ z. elem z seen) here ∙ old)
    | inr there ↦ In-fresh_or_seen x seen xs there
  ])
  | inr new ↦ rw new (elim i [
    | inl here ↦ inr (inl here)
    | inr there ↦ elim (In-fresh_or_seen x (y ∷ seen) xs there) [
      | inl was ↦ elim (or-eq-true (y == x) (elem x seen) was) [
        | inl same ↦ inr (inl (sym (eq_of_beq y x same)))
        | inr old ↦ inl old
      ]
      | inr found ↦ inr (inr found)
    ]
  ])
]

-- The rows are those that make a member.
In-IsMember :
    (rows : Memberships) (x z : ℕ) (role : String) → In ((x, z), role) rows → IsMember rows x z
In-IsMember [] x z role i = absurd i
In-IsMember (((m, p), r) ∷ rows) x z role i = elim (Bool-cases (◌==◌ {K = ℕ × ℕ} (m, p) (x, z))) [
  | inl same ↦ (r, rw same refl)
  | inr other ↦ elim i [
    | inl here ↦
        let key : ◌≡◌ {A = ℕ × ℕ} (m, p) (x, z) =
          ap (λ (row : (ℕ × ℕ) × String). row.0) (sym here) in
        let hit : ◌==◌ {K = ℕ × ℕ} (m, p) (x, z) ≡ true =
          ap (λ k. ◌==◌ {K = ℕ × ℕ} (m, p) k) (sym key) ∙ beq_self {A = ℕ × ℕ} (m, p) in
        absurd (ground (arith, hit, other))
    | inr there ↦ let (q, row) = In-IsMember rows x z role there in (q, rw other row)
  ]
]

IsMember-In :
    (rows : Memberships) (x z : ℕ) → IsMember rows x z → (role : String) × In ((x, z), role) rows
IsMember-In [] x z (role, row) = absurd (ground arith)
IsMember-In (((m, p), r) ∷ rows) x z (role, row) =
    elim (Bool-cases (◌==◌ {K = ℕ × ℕ} (m, p) (x, z))) [
      | inl same ↦ (r, inl (ap (λ k. (k, r)) (sym (eq_of_beq (m, p) (x, z) same))))
      | inr other ↦ let (q, i) = IsMember-In rows x z (role, rw other at row) in (q, inr i)
    ]

In-parents_of :
    (z : ℕ) (working : List ℕ) (rows : Memberships)
    → In z (parents_of working rows) ↔ ((x : ℕ) × In x working × IsMember rows x z)
unfolding parents_of
In-parents_of z working rows = (
  λ h.
      let (row, at, made) =
        (In-for_each rows (λ (row : (ℕ × ℕ) × String). when (elem row.0.0 working) row.0.1) z).0
          h in
      let (there, e) = (In-when (elem row.0.0 working) row.0.1 z).0 made in
      (
        row.0.0,
        (elem_iff row.0.0 working).0 there,
        subst (λ k. IsMember rows row.0.0 k) (sym e) (In-IsMember rows row.0.0 row.0.1 row.1 at),
      ),
  λ h.
      let (x, i, member) = h in
      let (role, at) = IsMember-In rows x z member in
      (In-for_each rows (λ (row : (ℕ × ℕ) × String). when (elem row.0.0 working) row.0.1) z).1
        (((x, z), role), at, (In-when (elem x working) z z).1 ((elem_iff x working).1 i, refl)),
)

-- What the rounds keep: every row found is an ancestor, and the parents of a row that was found before
-- the last round are found.
record Sound (rows : Memberships) (start : ℕ) (seen working : List ℕ) : Type 0 where
  started : In start seen
  ancestors : (x : ℕ) → In x seen → Ancestor rows start x
  worked : (x : ℕ) → In x working → In x seen
  closed : (x z : ℕ) → In x seen → IsMember rows x z → In x working ⊎ In z seen

-- Nothing to do is left: what is found is closed, and so holds all ancestors.
Ancestor-closed :
    (rows : Memberships) (seen : List ℕ)
    → ((x z : ℕ) → In x seen → IsMember rows x z → In z seen)
    → {x y : ℕ} → Ancestor rows x y
    → In x seen
    → In y seen
Ancestor-closed rows seen closed (self x) i = i
Ancestor-closed rows seen closed (up {x} {z} member a) i =
    Ancestor-closed rows seen closed a (closed x z i member)

Sound-next :
    (rows : Memberships) (start : ℕ) (seen working : List ℕ)
    → Sound rows start seen working
    → Sound rows start
        (fresh seen (parents_of working rows) ++ seen)
        (fresh seen (parents_of working rows))
Sound-next rows start seen working v =
    let new = fresh seen (parents_of working rows) in
    record {
      started = (In-append start new seen).1 (inr v.started);
      ancestors = λ x i. elim ((In-append x new seen).0 i) [
        | inl j ↦
            let (at, absent) = In-fresh x seen (parents_of working rows) j in
            let (w, k, member) = (In-parents_of x working rows).0 at in
            Ancestor-trans (v.ancestors w (v.worked w k)) (up member (self x))
        | inr j ↦ v.ancestors x j
      ];
      worked = λ x i. (In-append x new seen).1 (inl i);
      closed = λ x z i member. elim ((In-append x new seen).0 i) [
        | inl j ↦ inl j
        | inr j ↦ inr (
            (In-append z new seen).1 (elim (v.closed x z j member) [
              | inl k ↦
                  elim (In-fresh_or_seen z seen (parents_of working rows)
                    ((In-parents_of z working rows).1 (x, k, member))) [
                      | inl old ↦ inr ((elem_iff z seen).0 old)
                      | inr found ↦ inl found
                    ]
              | inr k ↦ inr k
            ]))
      ];
    }

-- The rows whose parent is still to be found.
abbrev is_missing : List ℕ → (ℕ × ℕ) × String → Bool
is_missing seen row = negb (elem row.0.1 seen)

abbrev missing : Memberships → List ℕ → ℕ
missing rows seen = length (select (is_missing seen) rows)

-- A round that finds something leaves fewer of them.
missing-next :
    (rows : Memberships) (seen working : List ℕ) (z : ℕ)
    → In z (fresh seen (parents_of working rows))
    → missing rows (fresh seen (parents_of working rows) ++ seen) < missing rows seen
missing-next rows seen working z i =
    let new = fresh seen (parents_of working rows) in
    let (at, absent) = In-fresh z seen (parents_of working rows) i in
    let (w, k, member) = (In-parents_of z working rows).0 at in
    let (role, row) = IsMember-In rows w z member in
    length-select_lt (is_missing seen) (is_missing (new ++ seen)) rows ((w, z), role)
      (λ row h. ground (arith, h, elem-append row.0.1 new seen)) row (ground (arith, absent))
      (ground (arith, elem-append z new seen, (elem_iff z new).1 i))

-- The fuel that is enough.
abbrev need : Memberships → List ℕ → List ℕ → ℕ
need rows seen [] = 1
need rows seen (w ∷ working) = missing rows seen + 2

need-next :
    (rows : Memberships) (seen : List ℕ) (w : ℕ) (working new : List ℕ)
    → new ≡ fresh seen (parents_of (w ∷ working) rows)
    → need rows (new ++ seen) new < need rows seen (w ∷ working)
need-next rows seen w working [] e = omega arith
need-next rows seen w working (z ∷ zs) e =
    let less = missing-next rows seen (w ∷ working) z (subst (λ l. In z l) e (inl refl)) in
    let same : missing rows (fresh seen (parents_of (w ∷ working) rows) ++ seen)
        ≡ missing rows ((z ∷ zs) ++ seen) =
      ap (λ l. missing rows (l ++ seen)) (sym e) in
    omega (arith, less, same)

ancestry_from_lem :
    (rows : Memberships) (start fuel : ℕ) (seen working : List ℕ)
    → Sound rows start seen working
    → need rows seen working ≤ fuel
    → (ids : List ℕ) × (ancestry_from fuel rows seen working ≡ some ids) × Sound rows start ids []
unfolding ancestry_from
ancestry_from_lem rows start zero seen [] v h = absurd (omega arith)
ancestry_from_lem rows start zero seen (w ∷ working) v h = absurd (omega arith)
ancestry_from_lem rows start (suc fuel) seen [] v h = (seen, refl, v)
ancestry_from_lem rows start (suc fuel) seen (w ∷ working) v h =
    ancestry_from_lem rows start fuel (fresh seen (parents_of (w ∷ working) rows) ++ seen)
      (fresh seen (parents_of (w ∷ working) rows)) (Sound-next rows start seen (w ∷ working) v)
      (omega
        (arith, need-next rows seen w working (fresh seen (parents_of (w ∷ working) rows)) refl))

-- The recursive query of the memberships ends on every table, with cycles or without, and lists exactly
-- the principal and its ancestors.
pub principal_ancestry_lem :
    (rows : Memberships) (principal_id : ℕ)
    → (ids : List ℕ) × (principal_ancestry rows principal_id ≡ some ids)
      × ((x : ℕ) → In x ids ↔ Ancestor rows principal_id x)
unfolding principal_ancestry
principal_ancestry_lem rows p =
    let start : Sound rows p (p ∷ []) (p ∷ []) = record {
      started = inl refl;
      ancestors = λ x i. elim i [
        | inl here ↦ subst (λ k. Ancestor rows p k) (sym here) (self p)
        | inr n ↦ absurd n
      ];
      worked = λ x i. i;
      closed = λ x z i member. inl i;
    } in
    let (ids, e, v) =
      ancestry_from_lem rows p (length rows + 2) (p ∷ []) (p ∷ []) start
        (omega (arith, length-select (is_missing (p ∷ [])) rows)) in
    let closed : (x z : ℕ) → In x ids → IsMember rows x z → In z ids =
      λ x z i member. elim (v.closed x z i member) [ inl n ↦ absurd n | inr k ↦ k ] in
    (ids, e, λ x. (λ i. v.ancestors x i, λ a. Ancestor-closed rows ids closed a (v.started)))
