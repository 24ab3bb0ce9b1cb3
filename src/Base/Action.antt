-- ===== src/Base/Action.antt =====
-- Code with a world that it changes: an error leaves the world as the steps before it made it.
use mathlib.Core.Path.{◌≡◌, refl}
use native.Mathlib.Omega.{arith}
use buzz_server.Base.Outcome.{Result, ok, err}

abbrev pub Action {ℓ κ μ} : Type κ → Type μ → Type ℓ → Type (ℓ ⊔ κ ⊔ μ)
Action S E A = S → Result E A × S

abbrev pub continue {ℓ κ μ ν} :
    {S : Type κ} {E : Type μ} {A : Type ℓ} {B : Type ν}
    → (A → Action S E B)
    → Result E A × S
    → Result E B × S
continue f (ok a, s) = f a s
continue f (err e, s) = (err e, s)

infixl 5 ◌>>=◌ ◌>>◌
abbrev pub ◌>>=◌ {ℓ κ μ ν} :
    {S : Type κ} {E : Type μ} {A : Type ℓ} {B : Type ν}
    → Action S E A
    → (A → Action S E B)
    → Action S E B
(m >>= f) s = continue f (m s)

abbrev pub ◌>>◌ {κ μ ν} :
    {S : Type κ} {E : Type μ} {B : Type ν} → Action S E (Unit {0}) → Action S E B → Action S E B
(m >> k) s = continue (λ _. k) (m s)

abbrev pub pure {ℓ κ μ} : {S : Type κ} {E : Type μ} {A : Type ℓ} → A → Action S E A
pure a s = (ok a, s)

abbrev pub fail {ℓ κ μ} : {S : Type κ} {E : Type μ} {A : Type ℓ} → E → Action S E A
fail e s = (err e, s)

-- A result with no effect, its error carried into another type.
abbrev pub lift {ℓ κ μ ν} :
    {S : Type κ} {E : Type μ} {F : Type ν} {A : Type ℓ} → (F → E) → Result F A → Action S E A
lift f (ok a) s = (ok a, s)
lift f (err e) s = (err (f e), s)

abbrev pub convert {ℓ κ μ ν} :
    {S : Type κ} {E : Type μ} {F : Type ν} {A : Type ℓ} → (F → E) → Result F A × S → Result E A × S
convert f (ok a, s) = (ok a, s)
convert f (err e, s) = (err (f e), s)

-- An action whose error is carried into another type.
abbrev pub raise {ℓ κ μ ν} :
    {S : Type κ} {E : Type μ} {F : Type ν} {A : Type ℓ} → (F → E) → Action S F A → Action S E A
raise f m s = convert f (m s)

-- Inversions of a step that has succeeded.
pub continue-eq-ok {ℓ κ μ ν} :
    {S : Type κ} {E : Type μ} {A : Type ℓ} {B : Type ν} {b : B} {t : S} (f : A → Action S E B)
    (r : Result E A × S)
    → continue f r ≡ (ok b, t)
    → (a : A) × (s : S) × (r ≡ (ok a, s)) × (f a s ≡ (ok b, t))
continue-eq-ok f (ok a, s) h = (a, s, refl, h)
continue-eq-ok f (err e, s) h = absurd (ground arith)

pub convert-eq-ok {ℓ κ μ ν} :
    {S : Type κ} {E : Type μ} {F : Type ν} {A : Type ℓ} {a : A} {t : S} (f : F → E)
    (r : Result F A × S)
    → convert f r ≡ (ok a, t)
    → r ≡ (ok a, t)
convert-eq-ok f (ok a, s) h = ground arith
convert-eq-ok f (err e, s) h = absurd (ground arith)
