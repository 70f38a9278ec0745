-- ===== src/Prelude/Lists.antt =====
-- Lists: length over the native numbers, Boolean membership, quantifiers by recursion.
use Prim.Native.Nat.{ℕ, suc, ◌+◌, ◌≤◌}
use mathlib.Core.Path.{◌≡◌, refl, ap, subst}
use mathlib.Core.Logic.{inl, inr}
use mathlib.Core.Bool.{Bool, true, false, ◌&&◌, ◌||◌}
use mathlib.Core.List.{List, [], ◌∷◌, ◌++◌}
use native.Mathlib.Omega.{arith}
use postbrain.Prelude.Tests.{Bool-cases, if◌then◌else◌}
use postbrain.Prelude.Keys.{Eq, ◌==◌}

module _ {ℓ} {A : Type ℓ} where
  abbrev pub length : List A → ℕ
  length [] = 0
  length (x ∷ xs) = suc (length xs)

  pub length-append : (xs ys : List A) → length (xs ++ ys) ≡ length xs + length ys
  length-append [] ys = omega arith
  length-append (x ∷ xs) ys = omega (arith, length-append xs ys)

  abbrev pub all : (A → Bool) → List A → Bool
  all p [] = true
  all p (x ∷ xs) = p x && all p xs

  abbrev pub any : (A → Bool) → List A → Bool
  any p [] = false
  any p (x ∷ xs) = p x || any p xs

  pub any-and : (p : A → Bool) (b : Bool) (xs : List A) → any (λ x. p x && b) xs ≡ (b && any p xs)
  any-and p b [] = ground arith
  any-and p b (x ∷ xs) = ground (arith, any-and p b xs)

  -- The elements that pass a test, in order.
  abbrev pub select : (A → Bool) → List A → List A
  select p [] = []
  select p (x ∷ xs) = if p x then x ∷ select p xs else select p xs

  pub length-select : (p : A → Bool) (xs : List A) → length (select p xs) ≤ length xs
  length-select p [] = omega arith
  length-select p (x ∷ xs) = ground (arith, length-select p xs)

module _ {ℓ κ} {A : Type ℓ} where
  abbrev pub All : (A → Type κ) → List A → Type κ
  All P [] = Unit
  All P (x ∷ xs) = P x × All P xs

module _ {ℓ} {A : Type ℓ} ⦃e : Eq A⦄ where
  abbrev pub elem : A → List A → Bool
  elem a [] = false
  elem a (x ∷ xs) = x == a || elem a xs

  pub elem-append : (a : A) (xs ys : List A) → elem a (xs ++ ys) ≡ (elem a xs || elem a ys)
  elem-append a [] ys = refl
  elem-append a (x ∷ xs) ys = ground (arith, elem-append a xs ys)

  pub elem-select : (p : A → Bool) (a : A) (xs : List A) → elem a (select p xs) ≡ (elem a xs && p a)
  elem-select p a [] = refl
  elem-select p a (x ∷ xs) = elim (Bool-cases (x == a)) [
    | inl same ↦ ground (arith, elem-select p a xs, ap p ((e.beq_iff x a).0 same))
    | inr other ↦ ground (arith, elem-select p a xs)
  ]

  -- What holds of every element holds of one that the test finds.
  pub All-elem {κ} : (P : A → Type κ) (a : A) (xs : List A) → All P xs → elem a xs ≡ true → P a
  All-elem P a [] h m = absurd (ground arith)
  All-elem P a (x ∷ xs) (p, h) m = elim (Bool-cases (x == a)) [
    | inl same ↦ subst P ((e.beq_iff x a).0 same) p
    | inr other ↦ All-elem P a xs h (ground arith)
  ]

  pub all-elem :
      (p : A → Bool) (a : A) (xs : List A) → all p xs ≡ true → elem a xs ≡ true → p a ≡ true
  all-elem p a [] h m = absurd (ground arith)
  all-elem p a (x ∷ xs) h m = elim (Bool-cases (x == a)) [
    | inl same ↦ rw (← (e.beq_iff x a).0 same) (ground arith)
    | inr other ↦ all-elem p a xs (ground arith) (ground arith)
  ]
