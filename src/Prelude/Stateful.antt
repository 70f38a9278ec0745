-- ===== src/Prelude/Stateful.antt =====
-- Fallible calls that change a state: what was changed before an error stays changed.
use mathlib.Core.Path.{◌≡◌, refl}
use postbrain.Prelude.Results.{Result, ok, err}

abbrev pub M {ℓ κ μ} : Type ℓ → Type κ → Type μ → Type (ℓ ⊔ κ ⊔ μ)
M S E A = S → Result E A × S

abbrev pub then_do {ℓ κ μ ν} :
    {S : Type ℓ} {E : Type κ} {A : Type μ} {B : Type ν}
    → Result E A × S
    → (A → M S E B)
    → Result E B × S
then_do (ok a, s) f = f a s
then_do (err e, s) f = (err e, s)

infixl 5 ◌>>=◌ ◌>>◌
abbrev pub ◌>>=◌ {ℓ κ μ ν} :
    {S : Type ℓ} {E : Type κ} {A : Type μ} {B : Type ν} → M S E A → (A → M S E B) → M S E B
◌>>=◌ m f s = then_do (m s) f

abbrev pub ◌>>◌ {ℓ κ ν} :
    {S : Type ℓ} {E : Type κ} {B : Type ν} → M S E (Unit {0}) → M S E B → M S E B
m >> k = m >>= λ _. k

abbrev pub return {ℓ κ μ} : {S : Type ℓ} {E : Type κ} {A : Type μ} → A → M S E A
return a s = (ok a, s)

abbrev pub throw {ℓ κ μ} : {S : Type ℓ} {E : Type κ} {A : Type μ} → E → M S E A
throw e s = (err e, s)

-- `_ = f()`: the error is dropped, the changes stay.
abbrev pub ignore_error {ℓ κ μ} :
    {S : Type ℓ} {E : Type κ} {A : Type μ} → M S E A → M S E (Unit {0})
ignore_error m s = (ok tt, (m s).1)

-- A claim about a bind, by what its first part returned.
pub then_do-cases {ℓ κ μ ν ρ} :
    {S : Type ℓ} {E : Type κ} {A : Type μ} {B : Type ν} (Q : Result E B × S → Type ρ)
    (r : Result E A × S) (f : A → M S E B)
    → ((e : E) (s : S) → r ≡ (err e, s) → Q (err e, s))
    → ((a : A) (s : S) → r ≡ (ok a, s) → Q (f a s))
    → Q (then_do r f)
then_do-cases Q (ok a, s) f h k = k a s refl
then_do-cases Q (err e, s) f h k = h e s refl

-- Both parts of a bind that succeeds succeed.
pub then_do-ok {ℓ κ μ ν} :
    {S : Type ℓ} {E : Type κ} {A : Type μ} {B : Type ν} (r : Result E A × S) (f : A → M S E B)
    {b : B} {t : S}
    → then_do r f ≡ (ok b, t)
    → (a : A) × (s : S) × (r ≡ (ok a, s)) × (f a s ≡ (ok b, t))
then_do-ok (ok a, s) f h = (a, s, refl, h)
then_do-ok (err e, s) f h = cc
