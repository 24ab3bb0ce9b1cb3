-- ===== src/Base/Outcome.antt =====
-- `Result<T, E>` with `?` as the bind of a do block.
use mathlib.Core.Path.{◌≡◌, refl}
use mathlib.Core.Bool.{Bool, true, false}
use mathlib.Core.Option.{Option, none, some}
use native.Mathlib.Omega.{arith}

pub data Result {ℓ κ} (E : Type κ) (A : Type ℓ) : Type (ℓ ⊔ κ) where
  ok : A → Result E A
  err : E → Result E A

infixl 5 ◌>>=◌ ◌>>◌
abbrev pub ◌>>=◌ {ℓ κ μ} :
    {E : Type μ} {A : Type ℓ} {B : Type κ} → Result E A → (A → Result E B) → Result E B
ok a >>= f = f a
err e >>= f = err e

abbrev pub ◌>>◌ {κ μ} : {E : Type μ} {B : Type κ} → Result E (Unit {0}) → Result E B → Result E B
m >> k = m >>= λ _. k

-- `if failed { return Err(e) }`
abbrev pub fail_if {μ} : {E : Type μ} → Bool → E → Result E (Unit {0})
fail_if true e = err e
fail_if false e = ok tt

-- `option.ok_or(e)?`
abbrev pub ok_or {ℓ μ} : {E : Type μ} {A : Type ℓ} → Option A → E → Result E A
ok_or none e = err e
ok_or (some a) e = ok a

-- `result.map_err(f)?`
abbrev pub map_err {ℓ κ μ} :
    {E : Type μ} {F : Type κ} {A : Type ℓ} → (E → F) → Result E A → Result F A
map_err f (ok a) = ok a
map_err f (err e) = err (f e)

pub >>=-eq-ok {ℓ κ μ} :
    {E : Type μ} {A : Type ℓ} {B : Type κ} {r : B} (first : Result E A) (next : A → Result E B)
    → (first >>= next) ≡ ok r
    → (x : A) × (first ≡ ok x) × (next x ≡ ok r)
>>=-eq-ok (err e) next h = cc
>>=-eq-ok (ok x) next h = (x, refl, h)

-- Inversions of a step that has succeeded, for proofs where the parts stay shut.
pub ok_or-eq-ok {ℓ μ} :
    {E : Type μ} {A B : Type ℓ} (o : Option A) (e : E) (f : A → Result E B) {b : B}
    → (ok_or o e >>= f) ≡ ok b
    → (a : A) × (o ≡ some a) × (f a ≡ ok b)
ok_or-eq-ok none e f h = cc
ok_or-eq-ok (some a) e f h = (a, refl, h)

pub fail_if-eq-ok {ℓ μ} :
    {E : Type μ} {B : Type ℓ} (t : Bool) (e : E) (m : Result E B) {b : B}
    → (fail_if t e >> m) ≡ ok b
    → (t ≡ false) × (m ≡ ok b)
fail_if-eq-ok true e m h = cc
fail_if-eq-ok false e m h = (refl, h)

pub map_err-eq-ok {ℓ κ μ} :
    {E : Type μ} {F : Type κ} {A : Type ℓ} (f : E → F) (m : Result E A) {a : A}
    → map_err f m ≡ ok a
    → m ≡ ok a
map_err-eq-ok f (ok a) h = ground arith
map_err-eq-ok f (err e) h = cc
