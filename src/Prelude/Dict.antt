-- ===== src/Prelude/Dict.antt =====
-- Go's maps: a dictionary as an association list with at most one entry for a key.
use mathlib.Core.Path.{◌≡◌, refl, ap, subst}
use mathlib.Core.Logic.{inl, inr}
use mathlib.Core.Bool.{Bool, true}
use mathlib.Core.Option
use mathlib.Core.Option.{Option, none, some}
use mathlib.Core.List.{List, [], ◌∷◌}
use native.Mathlib.Omega.{arith}
use postbrain.Prelude.Tests.{if◌then◌else◌, Bool-cases}
use postbrain.Prelude.Keys.{Eq, ◌==◌}
use postbrain.Prelude.Lists.{All, all}

module _ {ℓ κ} {K : Type ℓ} {V : Type κ} ⦃e : Eq K⦄ where
  -- `v, ok := m[k]`
  abbrev pub get? : K → List (K × V) → Option V
  get? k [] = none
  get? k ((j, v) ∷ m) = if j == k then some v else get? k m

  -- `m[k] = v`
  abbrev pub put : K → V → List (K × V) → List (K × V)
  put k v [] = (k, v) ∷ []
  put k v ((j, w) ∷ m) = if j == k then (k, v) ∷ m else (j, w) ∷ put k v m

  -- `delete` of every key that passes a test.
  abbrev pub remove : (K → Bool) → List (K × V) → List (K × V)
  remove p [] = []
  remove p ((j, w) ∷ m) = if p j then remove p m else (j, w) ∷ remove p m

  -- The first entry of a key, changed in place.
  abbrev pub modify : K → (V → V) → List (K × V) → List (K × V)
  modify k f [] = []
  modify k f ((j, v) ∷ m) = if j == k then (j, f v) ∷ m else (j, v) ∷ modify k f m

  pub get?-put :
      (k j : K) (v : V) (m : List (K × V))
      → get? j (put k v m) ≡ (if k == j then some v else get? j m)
  get?-put k j v [] = refl
  get?-put k j v ((i, w) ∷ m) =
      ground (arith, e.beq_iff k j, e.beq_iff i k, e.beq_iff i j, get?-put k j v m)

  pub get?-remove :
      (p : K → Bool) (j : K) (m : List (K × V))
      → get? j (remove p m) ≡ (if p j then none else get? j m)
  get?-remove p j [] = ground arith
  get?-remove p j ((i, w) ∷ m) = elim (Bool-cases (i == j)) [
    | inl same ↦ ground (arith, get?-remove p j m, ap p ((e.beq_iff i j).0 same))
    | inr other ↦ ground (arith, get?-remove p j m)
  ]

  pub get?-modify :
      (k j : K) (f : V → V) (m : List (K × V))
      → get? j (modify k f m) ≡ (if k == j then Option.map f (get? j m) else get? j m)
  get?-modify k j f [] = ground arith
  get?-modify k j f ((i, v) ∷ m) = elim (Bool-cases (i == k)) [
    | inl same ↦ ground (arith, get?-modify k j f m, (e.beq_iff i k).0 same)
    | inr other ↦ elim (Bool-cases (k == j)) [
      | inl here ↦
          ground
            (arith, other, here, get?-modify k j f m, ap (λ x. i == x) ((e.beq_iff k j).0 here))
      | inr elsewhere ↦ ground (arith, other, elsewhere, get?-modify k j f m)
    ]
  ]

  -- What holds of every entry holds of one that a look-up finds.
  pub All-get? {μ} :
      (P : K × V → Type μ) (k : K) {v : V} (m : List (K × V))
      → All P m
      → get? k m ≡ some v
      → P (k, v)
  All-get? P k [] h f = absurd (ground arith)
  All-get? P k {v} ((j, w) ∷ m) (p, h) f = elim (Bool-cases (j == k)) [
    | inl same ↦ subst P (ground (arith, (e.beq_iff j k).0 same)) p
    | inr other ↦ All-get? P k m h (ground arith)
  ]

  pub all-get? :
      (p : K × V → Bool) (k : K) {v : V} (m : List (K × V))
      → all p m ≡ true
      → get? k m ≡ some v
      → p (k, v) ≡ true
  all-get? p k [] h f = absurd (ground arith)
  all-get? p k {v} ((j, w) ∷ m) h f = elim (Bool-cases (j == k)) [
    | inl same ↦
        let entry : ◌≡◌ {A = K × V} (j, w) (k, v) = ground (arith, (e.beq_iff j k).0 same) in
        rw (← entry) (ground arith)
    | inr other ↦ all-get? p k m (ground arith) (ground arith)
  ]
