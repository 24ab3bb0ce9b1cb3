-- ===== src/Base/Compare.antt =====
-- Derived equality of structs: pairs, lists, and whatever a pair of functions carries to them.
use mathlib.Core.Path.{◌≡◌, ap, sym, ◌∙◌}
use mathlib.Core.Logic.{◌↔◌}
use mathlib.Core.Bool.{Bool, true, false, ◌&&◌}
use mathlib.Core.List.{List, [], ◌∷◌}
use native.Mathlib.Omega.{arith}
use buzz_server.Base.Tests.{Eq, ◌==◌}

module _ {ℓ κ} {A : Type ℓ} {B : Type κ} ⦃e : Eq A⦄ ⦃d : Eq B⦄ where
  abbrev pair_beq : A × B → A × B → Bool
  pair_beq (a, b) (x, y) = a == x && b == y

  pub pair_beq_iff : (p q : A × B) → (pair_beq p q ≡ true) ↔ (p ≡ q)
  pair_beq_iff (a, b) (x, y) =
      let one : ((a == x) ≡ true) ↔ (a ≡ x) = e.eqb_iff a x in
      let two : ((b == y) ≡ true) ↔ (b ≡ y) = d.eqb_iff b y in ground arith

instance abbrev pub pair_eq {ℓ κ} : {A : Type ℓ} {B : Type κ} ⦃e : Eq A⦄ ⦃d : Eq B⦄ → Eq (A × B)
pair_eq = record { eqb = pair_beq; eqb_iff = pair_beq_iff }

module _ {ℓ} {A : Type ℓ} ⦃e : Eq A⦄ where
  abbrev list_beq : List A → List A → Bool
  list_beq [] [] = true
  list_beq (a ∷ xs) (b ∷ ys) = a == b && list_beq xs ys
  list_beq _ _ = false

  pub list_beq_iff : (p q : List A) → (list_beq p q ≡ true) ↔ (p ≡ q)
  list_beq_iff [] [] = ground arith
  list_beq_iff [] (b ∷ ys) = ground arith
  list_beq_iff (a ∷ xs) [] = ground arith
  list_beq_iff (a ∷ xs) (b ∷ ys) =
      let one : ((a == b) ≡ true) ↔ (a ≡ b) = e.eqb_iff a b in ground (arith, list_beq_iff xs ys)

instance abbrev pub list_eq {ℓ} : {A : Type ℓ} ⦃e : Eq A⦄ → Eq (List A)
list_eq = record { eqb = list_beq; eqb_iff = list_beq_iff }

-- Equality through an encoding that can be undone.
module _ {ℓ κ} {A : Type ℓ} {B : Type κ} ⦃d : Eq B⦄ (encode : A → B) (decode : B → A)
    (undo : (a : A) → decode (encode a) ≡ a) where
  pub encoded_iff : (a b : A) → ((encode a == encode b) ≡ true) ↔ (a ≡ b)
  encoded_iff a b = (
    λ h. sym (undo a) ∙ ap decode ((d.eqb_iff (encode a) (encode b)).0 h) ∙ undo b,
    λ h. (d.eqb_iff (encode a) (encode b)).1 (ap encode h),
  )

  abbrev pub encoded : Eq A
  encoded = record { eqb = λ a b. encode a == encode b; eqb_iff = encoded_iff }
