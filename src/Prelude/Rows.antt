-- ===== src/Prelude/Rows.antt =====
-- Queries over tables: membership of a list as a type, joins, and what a selection holds.
use Prim.Native.Nat.{◌≤◌, ◌<◌}
use mathlib.Core.Path.{◌≡◌, refl, sym, ap, subst, ◌∙◌}
use mathlib.Core.Logic.{◌⊎◌, inl, inr, ◌↔◌}
use mathlib.Core.Bool.{Bool, true, false}
use mathlib.Core.List.{List, [], ◌∷◌, ◌++◌, map}
use native.Mathlib.Omega.{arith}
use postbrain.Prelude.Tests.{if◌then◌else◌, Bool-cases, or-eq-true}
use postbrain.Prelude.Keys.{Eq, ◌==◌, eq_of_beq, beq_self}
use postbrain.Prelude.Lists.{any, select, All, elem, length}

module _ {A : Type 0} where
  -- The list has the row.
  abbrev pub In : A → List A → Type 0
  In x [] = ⊥
  In x (y ∷ ys) = (x ≡ y) ⊎ In x ys

  pub In-append : (x : A) (xs ys : List A) → In x (xs ++ ys) ↔ (In x xs ⊎ In x ys)
  In-append x [] ys = (λ h. inr h, λ h. elim h [ inl n ↦ absurd n | inr i ↦ i ])
  In-append x (y ∷ xs) ys = (
    λ h. elim h [
      | inl here ↦ inl (inl here)
      | inr there ↦ elim ((In-append x xs ys).0 there) [ inl i ↦ inl (inr i) | inr i ↦ inr i ]
    ],
    λ h. elim h [
      | inl i ↦ elim i [ inl here ↦ inl here | inr there ↦ inr ((In-append x xs ys).1 (inl there)) ]
      | inr i ↦ inr ((In-append x xs ys).1 (inr i))
    ],
  )

  pub any_iff :
      (p : A → Bool) (xs : List A) → (any p xs ≡ true) ↔ ((x : A) × In x xs × (p x ≡ true))
  any_iff p [] = (λ h. absurd (ground arith), λ h. absurd (h.1))
  any_iff p (y ∷ xs) = (
    λ h. elim (or-eq-true (p y) (any p xs) h) [
      | inl hit ↦ (y, inl refl, hit)
      | inr later ↦ let (x, i, e) = (any_iff p xs).0 later in (x, inr i, e)
    ],
    λ h.
        let (x, i, e) = h in
        elim i [
          | inl here ↦ let hit : p y ≡ true = ap p (sym here) ∙ e in ground (arith, hit)
          | inr there ↦ let later = (any_iff p xs).1 (x, there, e) in ground (arith, later)
        ],
  )

  pub In-select :
      (p : A → Bool) (x : A) (xs : List A) → In x (select p xs) ↔ (In x xs × (p x ≡ true))
  In-select p x [] = (λ h. absurd h, λ h. h.0)
  In-select p x (y ∷ xs) = elim (Bool-cases (p y)) [
    | inl hit ↦ rw hit (
      λ h. elim h [
        | inl here ↦ (inl here, ap p here ∙ hit)
        | inr there ↦ let (i, e) = (In-select p x xs).0 there in (inr i, e)
      ],
      λ h. elim (h.0) [ inl here ↦ inl here | inr there ↦ inr ((In-select p x xs).1 (there, h.1)) ],
    )
    | inr miss ↦ rw miss (
      λ h. let (i, e) = (In-select p x xs).0 h in (inr i, e),
      λ h. elim (h.0) [
        | inl here ↦
            let clash : ◌≡◌ {A = Bool} true false = sym (h.1) ∙ ap p here ∙ miss in
            absurd (ground arith)
        | inr there ↦ (In-select p x xs).1 (there, h.1)
      ],
    )
  ]

  -- A stronger test selects fewer rows, and strictly fewer if it drops one.
  pub length-select_mono :
      (p q : A → Bool) (xs : List A)
      → ((x : A) → q x ≡ true → p x ≡ true)
      → length (select q xs) ≤ length (select p xs)
  length-select_mono p q [] h = omega arith
  length-select_mono p q (x ∷ xs) h = ground (arith, h x, length-select_mono p q xs h)

  pub length-select_lt :
      (p q : A → Bool) (xs : List A) (x : A)
      → ((x : A) → q x ≡ true → p x ≡ true)
      → In x xs
      → p x ≡ true
      → q x ≡ false
      → length (select q xs) < length (select p xs)
  length-select_lt p q [] x h i hit miss = absurd i
  length-select_lt p q (y ∷ xs) x h i hit miss = elim i [
    | inl here ↦
        let hit_y : p y ≡ true = ap p (sym here) ∙ hit in
        let miss_y : q y ≡ false = ap q (sym here) ∙ miss in
        ground (arith, hit_y, miss_y, length-select_mono p q xs h)
    | inr there ↦ ground (arith, h y, length-select_lt p q xs x h there hit miss)
  ]

  pub All-of_In {κ} : (P : A → Type κ) (xs : List A) → ((x : A) → In x xs → P x) → All P xs
  All-of_In P [] h = tt
  All-of_In P (x ∷ xs) h = (h x (inl refl), All-of_In P xs λ y i. h y (inr i))

  pub In_of_All {κ} : (P : A → Type κ) (xs : List A) (x : A) → All P xs → In x xs → P x
  In_of_All P [] x h i = absurd i
  In_of_All P (y ∷ xs) x (p, h) i = elim i [
    | inl here ↦ subst P (sym here) p
    | inr there ↦ In_of_All P xs x h there
  ]

  -- `WHERE` on a row of a join.
  abbrev pub when : Bool → A → List A
  when b x = if b then x ∷ [] else []

  pub In-when : (b : Bool) (x y : A) → In y (when b x) ↔ ((b ≡ true) × (y ≡ x))
  In-when true x y = (λ h. elim h [ inl e ↦ (refl, e) | inr n ↦ absurd n ], λ h. inl (h.1))
  In-when false x y = (λ h. absurd h, λ h. absurd (ground (arith, h.0)))

module _ {A : Type 0} {B : Type 0} where
  -- The rows that each row of a table gives: a join.
  abbrev pub for_each : List A → (A → List B) → List B
  for_each [] f = []
  for_each (x ∷ xs) f = f x ++ for_each xs f

  pub In-for_each :
      (xs : List A) (f : A → List B) (y : B)
      → In y (for_each xs f) ↔ ((x : A) × In x xs × In y (f x))
  In-for_each [] f y = (λ h. absurd h, λ h. absurd (h.1))
  In-for_each (x ∷ xs) f y = (
    λ h. elim ((In-append y (f x) (for_each xs f)).0 h) [
      | inl i ↦ (x, inl refl, i)
      | inr i ↦ let (z, at, j) = (In-for_each xs f y).0 i in (z, inr at, j)
    ],
    λ h.
        let (z, at, j) = h in
        (In-append y (f x) (for_each xs f)).1 (elim at [
          | inl here ↦ inl (subst (λ w. In y (f w)) here j)
          | inr there ↦ inr ((In-for_each xs f y).1 (z, there, j))
        ]),
  )

  pub In-map : (f : A → B) (xs : List A) (x : A) → In x xs → In (f x) (map f xs)
  In-map f [] x i = absurd i
  In-map f (y ∷ xs) x i = elim i [
    | inl here ↦ inl (ap f here)
    | inr there ↦ inr (In-map f xs x there)
  ]

  pub of_In-map :
      (f : A → B) (xs : List A) (y : B) → In y (map f xs) → (x : A) × In x xs × (y ≡ f x)
  of_In-map f [] y i = absurd i
  of_In-map f (x ∷ xs) y i = elim i [
    | inl here ↦ (x, inl refl, here)
    | inr there ↦ let (z, at, e) = of_In-map f xs y there in (z, inr at, e)
  ]

module _ {A : Type 0} ⦃e : Eq A⦄ where
  pub elem_iff : (x : A) (xs : List A) → (elem x xs ≡ true) ↔ In x xs
  elem_iff x [] = (λ h. absurd (ground arith), λ h. absurd h)
  elem_iff x (y ∷ xs) = (
    λ h. elim (or-eq-true (y == x) (elem x xs) h) [
      | inl hit ↦ inl (sym (eq_of_beq y x hit))
      | inr later ↦ inr ((elem_iff x xs).0 later)
    ],
    λ h. elim h [
      | inl here ↦
          let hit : (y == x) ≡ true = ap (λ z. y == z) here ∙ beq_self y in ground (arith, hit)
      | inr there ↦ let later = (elem_iff x xs).1 there in ground (arith, later)
    ],
  )
