-- ===== src/Principals/Tests.antt =====
-- The theorems on the memberships at concrete inputs.
use postbrain.Prelude.{
  ℕ, nat_eq, pair_eq, String, string_eq, ◌≡◌, refl, sym, ◌≤◌, subst, true, List, [], ◌∷◌, some,
  Result, ok, elem, In, ◌↔◌, arith,
}
use postbrain.Principals.Ancestry.{principal_ancestry}
use postbrain.Principals.Ancestry.Laws.{principal_ancestry_lem}
use postbrain.Principals.Membership.{
  Memberships, is_valid_role, check_membership, create_membership, add_membership,
}
use postbrain.Principals.Membership.Laws.{
  IsMember, Ancestor, self, up, Acyclic, add_membership-Acyclic, check_membership-race,
}

-- Principal 1 is a member of 2.
abbrev joined : Memberships
joined = ((1, 2), "member") ∷ []

joined_row : (x z : ℕ) → IsMember joined x z → (x ≡ 1) × (z ≡ 2)
joined_row x z (role, row) = ground arith

-- The query's answer about principal 1.
abbrev ancestors_of_1 : Memberships → ℕ → Result String (List ℕ)
ancestors_of_1 rows parent_id = ok (1 ∷ 2 ∷ [])

Ancestor-joined_top : (x : ℕ) → Ancestor joined 2 x → x ≡ 2
Ancestor-joined_top x (self y) = refl
Ancestor-joined_top x (up {z} row a) = absurd (ground (arith, joined_row 2 z row))

Ancestor-joined : (x : ℕ) → Ancestor joined 1 x → elem x (1 ∷ 2 ∷ []) ≡ true
Ancestor-joined x (self y) = refl
Ancestor-joined x (up {z} row a) =
    let top = Ancestor-joined_top x (subst (λ k. Ancestor joined k x) (joined_row 1 z row).1 a) in
    rw top refl

joined-Acyclic : Acyclic joined
joined-Acyclic x z row a =
    let (start, end) = joined_row x z row in
    let top = Ancestor-joined_top x (subst (λ k. Ancestor joined k x) end a) in
    absurd (ground (arith, start, top))

add_membership-Acyclic_example : Acyclic (add_membership ancestors_of_1 3 1 "member" joined).1
add_membership-Acyclic_example =
    add_membership-Acyclic ancestors_of_1 3 1 "member" joined
      (λ ids x e a. ground (arith, e, Ancestor-joined x a)) joined-Acyclic

-- A query that answers with the principal itself.
abbrev itself : Memberships → ℕ → Result String (List ℕ)
itself rows parent_id = ok (parent_id ∷ [])

new_to_joined : (p x : ℕ) → 3 ≤ p → Ancestor joined p x → x ≡ p
new_to_joined p x late (self y) = refl
new_to_joined p x late (up {z} row a) = absurd (ground (arith, joined_row p z row))

listed_itself : (p x : ℕ) → elem x (p ∷ []) ≡ true → Ancestor joined p x
listed_itself p x h =
    let same : x ≡ p = ground arith in subst (λ k. Ancestor joined p k) (sym same) (self p)

check_membership-race_example :
    let (first, rows1) = create_membership 4 5 "admin" joined in
    let (second, rows2) = create_membership 5 4 "admin" rows1 in
    (check_membership (itself joined 5) 4 "admin" ≡ ok tt)
    × (check_membership (itself joined 4) 5 "admin" ≡ ok tt)
    × (first ≡ ok tt)
    × (second ≡ ok tt)
    × IsMember rows2 4 5
    × IsMember rows2 5 4
    × (Acyclic rows2 → ⊥)
unfolding is_valid_role
check_membership-race_example =
    check_membership-race itself 4 5 "admin" joined (4 ∷ []) (5 ∷ []) refl
      (λ a. absurd (ground (arith, new_to_joined 4 5 (omega arith) a)))
      (λ a. absurd (ground (arith, new_to_joined 5 4 (omega arith) a))) refl refl (listed_itself 4)
      (listed_itself 5)

-- 1 and 2 are members of each other.
abbrev looped : Memberships
looped = ((1, 2), "member") ∷ ((2, 1), "member") ∷ []

principal_ancestry_lem_example :
    (ids : List ℕ) × (principal_ancestry looped 1 ≡ some ids)
    × ((x : ℕ) → In x ids ↔ Ancestor looped 1 x)
principal_ancestry_lem_example = principal_ancestry_lem looped 1
