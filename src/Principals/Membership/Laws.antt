-- ===== src/Principals/Membership/Laws.antt =====
-- membership.go: when the memberships stay without cycles.
use postbrain.Prelude.{
  ℕ, nat_eq, pair_eq, String, ◌≡◌, ◌≢◌, refl, sym, ap, subst, ◌⊎◌, inl, inr, true, false, List, ◌∷◌,
  some, ◌==◌, =ℕ_iff, eq_of_beq, Bool-cases, Result-cases, Option-cases, none, Result, ok, err,
  elem, get?, get?-remove, arith,
}
use postbrain.Principals.Membership.{
  Memberships, InsertError, is_valid_role, check_membership, create_membership, inserted,
  add_membership, remove_membership,
}

-- A row makes `x` a member of `z`.
abbrev pub IsMember : Memberships → ℕ → ℕ → Type 0
IsMember rows x z = (role : String) × (get? (x, z) rows ≡ some role)

-- `y` is `x` or an ancestor of it.
pub data Ancestor (rows : Memberships) : ℕ → ℕ → Type 0 where
  self : (x : ℕ) → Ancestor rows x x
  up : {x z y : ℕ} → IsMember rows x z → Ancestor rows z y → Ancestor rows x y

-- No principal is a member of itself, directly or through others.
abbrev pub Acyclic : Memberships → Type 0
Acyclic rows = (x z : ℕ) → IsMember rows x z → Ancestor rows z x → ⊥

pub Ancestor-trans :
    {rows : Memberships} {x y z : ℕ} → Ancestor rows x y → Ancestor rows y z → Ancestor rows x z
Ancestor-trans (self x) b = b
Ancestor-trans (up m a) b = up m (Ancestor-trans a b)

module _ (rows : Memberships) (m p : ℕ) (role : String) where
  -- A row of the grown table is the new one or an old one.
  IsMember-new :
      (x z : ℕ) → IsMember (((m, p), role) ∷ rows) x z → ((x ≡ m) × (z ≡ p)) ⊎ IsMember rows x z
  IsMember-new x z (r, row) = elim (Bool-cases (◌==◌ {K = ℕ × ℕ} (m, p) (x, z))) [
    | inl same ↦
        let keys = eq_of_beq (m, p) (x, z) same in
        inl (ap (λ (k : ℕ × ℕ). k.0) (sym keys), ap (λ (k : ℕ × ℕ). k.1) (sym keys))
    | inr other ↦ inr (r, rw other at row)
  ]

  Ancestor-new :
      {x y : ℕ}
      → Ancestor (((m, p), role) ∷ rows) x y
      → Ancestor rows x y ⊎ (Ancestor rows x m × Ancestor rows p y)
  Ancestor-new (self x) = inl (self x)
  Ancestor-new (up {x} {z} {y} row a) = elim (IsMember-new x z row) [
    | inl (here, there) ↦
        let start = subst (λ k. Ancestor rows k m) (sym here) (self m) in
        elim (Ancestor-new a) [
          | inl old ↦ inr (start, subst (λ k. Ancestor rows k y) there old)
          | inr (back, old) ↦ inr (start, old)
        ]
    | inr was ↦ elim (Ancestor-new a) [
      | inl old ↦ inl (up was old)
      | inr (back, old) ↦ inr (up was back, old)
    ]
  ]

  Acyclic-new : Acyclic rows → (Ancestor rows p m → ⊥) → Acyclic (((m, p), role) ∷ rows)
  Acyclic-new acyclic apart x z row a = elim (IsMember-new x z row) [
    | inl (here, there) ↦ elim (Ancestor-new a) [
      | inl old ↦
          apart (subst (λ k. Ancestor rows p k) here (subst (λ k. Ancestor rows k x) there old))
      | inr (back, old) ↦ apart (subst (λ k. Ancestor rows k m) there back)
    ]
    | inr was ↦ elim (Ancestor-new a) [
      | inl old ↦ acyclic x z was old
      | inr (back, old) ↦ apart (Ancestor-trans old (up was back))
    ]
  ]

-- A row that is stored keeps the table without cycles, if the member is no ancestor of the parent.
create_membership-Acyclic :
    (m p : ℕ) (role : String) (rows : Memberships)
    → Acyclic rows
    → (Ancestor rows p m → ⊥)
    → Acyclic (create_membership m p role rows).1
unfolding create_membership
create_membership-Acyclic m p role rows acyclic apart = elim (Bool-cases (m == p)) [
  | inl same ↦ rw (same, create_membership) acyclic
  | inr other ↦ elim (Option-cases (get? (m, p) rows)) [
    | inl new ↦ rw (other, new, create_membership) (Acyclic-new rows m p role acyclic apart)
    | inr (old, there) ↦ rw (other, there, create_membership) acyclic
  ]
]

-- A check that passes had the ancestors, and the member is not among them.
check_membership-passed :
    (answer : Result String (List ℕ)) (m : ℕ) (role : String) (t : Unit {0})
    → check_membership answer m role ≡ ok t
    → (ids : List ℕ) × (answer ≡ ok ids) × (elem m ids ≡ false)
unfolding check_membership
check_membership-passed (ok ids) m role t h = (ids, refl, ground arith)
check_membership-passed (err e) m role t h = absurd (ground arith)

inserted-rows : (r : Result InsertError (Unit {0}) × Memberships) → (inserted r).1 ≡ r.1
unfolding inserted
inserted-rows (ok t, rows) = refl
inserted-rows (err e, rows) = refl

-- Whatever `AddMembership` answers, the memberships have no cycle after it if they had none before,
-- provided that the query for the ancestors of the parent, when it answers, lists all of them.
pub add_membership-Acyclic :
    (get_all_parent_ids : Memberships → ℕ → Result String (List ℕ)) (member_id parent_id : ℕ)
    (role : String) (rows : Memberships)
    → ((ids : List ℕ) (x : ℕ)
        → get_all_parent_ids rows parent_id ≡ ok ids
        → Ancestor rows parent_id x
        → elem x ids ≡ true)
    → Acyclic rows
    → Acyclic (add_membership get_all_parent_ids member_id parent_id role rows).1
unfolding add_membership
add_membership-Acyclic get_all_parent_ids m p role rows complete acyclic =
    elim (Result-cases (check_membership (get_all_parent_ids rows p) m role)) [
      | inr (e, refused) ↦ rw (refused, add_membership) acyclic
      | inl (t, passed) ↦
          let (ids, answered, absent) =
            check_membership-passed (get_all_parent_ids rows p) m role t passed in
          rw (passed, add_membership)
            (subst Acyclic (sym (inserted-rows (create_membership m p role rows))) (
              create_membership-Acyclic m p role rows acyclic
                λ a. let present = complete ids m answered a in absurd (ground arith)))
    ]

IsMember-remove :
    (m p x z : ℕ) (rows : Memberships)
    → IsMember (remove_membership m p rows) x z
    → IsMember rows x z
unfolding remove_membership
IsMember-remove m p x z rows (role, row) =
    (role, ground (arith, get?-remove (λ (k : ℕ × ℕ). k == (m, p)) (x, z) rows))

Ancestor-remove :
    (m p : ℕ) (rows : Memberships) {x y : ℕ}
    → Ancestor (remove_membership m p rows) x y
    → Ancestor rows x y
Ancestor-remove m p rows (self x) = self x
Ancestor-remove m p rows (up {x} {z} row a) =
    up (IsMember-remove m p x z rows row) (Ancestor-remove m p rows a)

-- `RemoveMembership` keeps the memberships without cycles, and the row is gone after it.
pub remove_membership-Acyclic :
    (member_id parent_id : ℕ) (rows : Memberships)
    → Acyclic rows
    → Acyclic (remove_membership member_id parent_id rows)
      × (IsMember (remove_membership member_id parent_id rows) member_id parent_id → ⊥)
unfolding remove_membership
remove_membership-Acyclic m p rows acyclic = (
  λ x z row a. acyclic x z (IsMember-remove m p x z rows row) (Ancestor-remove m p rows a),
  λ row.
      ground (
        arith,
        row.1,
        get?-remove (λ (k : ℕ × ℕ). k == (m, p)) (m, p) rows,
        =ℕ_iff m m,
        =ℕ_iff p p,
      ),
)

apart_row : (rows : Memberships) (a b : ℕ) → (Ancestor rows a b → ⊥) → get? (a, b) rows ≡ none
apart_row rows a b apart = elim (Option-cases (get? (a, b) rows)) [
  | inl absent ↦ absent
  | inr (role, row) ↦ absurd (apart (up (role, row) (self b)))
]

check_membership-passes :
    (rows : Memberships) (ids : List ℕ) (m p : ℕ) (role : String)
    → is_valid_role role ≡ true
    → ((x : ℕ) → elem x ids ≡ true → Ancestor rows p x)
    → (Ancestor rows p m → ⊥)
    → check_membership (ok ids) m role ≡ ok tt
unfolding check_membership
check_membership-passes rows ids m p role valid sound apart = elim (Bool-cases (elem m ids)) [
  | inl listed ↦ absurd (apart (sound m listed))
  | inr absent ↦ ground (arith, valid, absent)
]

race-stored :
    (a b : ℕ) (role : String) (rows : Memberships)
    → a ≢ b
    → get? (a, b) rows ≡ none
    → get? (b, a) rows ≡ none
    → (create_membership a b role rows ≡ (ok tt, ((a, b), role) ∷ rows))
      × (create_membership b a role (((a, b), role) ∷ rows)
          ≡ (ok tt, ((b, a), role) ∷ ((a, b), role) ∷ rows))
unfolding create_membership
race-stored a b role rows other absent back = (ground arith, ground arith)

module _ (get_all_parent_ids : Memberships → ℕ → Result String (List ℕ)) (a b : ℕ) (role : String)
    (rows : Memberships) (ids_a ids_b : List ℕ) where
  -- Two calls of `AddMembership` that run their checks before either inserts its row make a cycle: for
  -- any two principals of which neither is an ancestor of the other, on a query that answers with
  -- nothing but ancestors, both checks pass, both inserts succeed and both rows are stored, so that each
  -- is then a member of the other.
  pub check_membership-race :
      is_valid_role role ≡ true
      → (Ancestor rows a b → ⊥)
      → (Ancestor rows b a → ⊥)
      → get_all_parent_ids rows a ≡ ok ids_a
      → get_all_parent_ids rows b ≡ ok ids_b
      → ((x : ℕ) → elem x ids_a ≡ true → Ancestor rows a x)
      → ((x : ℕ) → elem x ids_b ≡ true → Ancestor rows b x)
      → let (first, rows1) = create_membership a b role rows in
        let (second, rows2) = create_membership b a role rows1 in
        (check_membership (get_all_parent_ids rows b) a role ≡ ok tt)
        × (check_membership (get_all_parent_ids rows a) b role ≡ ok tt)
        × (first ≡ ok tt)
        × (second ≡ ok tt)
        × IsMember rows2 a b
        × IsMember rows2 b a
        × (Acyclic rows2 → ⊥)
  check_membership-race valid apart back answer_a answer_b sound_a sound_b =
      let other : a ≢ b = λ e. apart (subst (λ k. Ancestor rows a k) e (self a)) in
      let (stored, stored_too) =
        race-stored a b role rows other (apart_row rows a b apart) (apart_row rows b a back) in
      let row : IsMember (((b, a), role) ∷ ((a, b), role) ∷ rows) a b =
        (role, ground (arith, =ℕ_iff a a, =ℕ_iff b b)) in
      let row_back : IsMember (((b, a), role) ∷ ((a, b), role) ∷ rows) b a =
        (role, ground (arith, =ℕ_iff a a, =ℕ_iff b b)) in
      rw (answer_a, answer_b, stored, stored_too)
        (
          check_membership-passes rows ids_b a b role valid sound_b back,
          check_membership-passes rows ids_a b a role valid sound_a apart,
          refl,
          refl,
          row,
          row_back,
          λ acyclic. acyclic a b row (up row_back (self a)),
        )
