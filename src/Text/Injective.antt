-- ===== src/Text/Injective.antt =====
-- What the texts of `format!` determine: their parts can be read back.
use Prim.Native.Char.{Char, code}
use Prim.Native.String.{String, ◌++◌ as str_append}
use Prim.Native.String.append
use text.Mathlib.TextEquality.{Char-path}
use buzz_server.Base.{
  ℕ, zero, suc, ◌+◌, ◌-◌, ◌*◌, ◌/◌, ◌%◌, ◌^◌, ◌<◌, ◌≡◌, ◌∙◌, refl, sym, ap, true, false, List, [],
  ◌∷◌, ◌++◌, any, nat_eq, arith, ltb, Bool-cases, inl, inr,
}
use buzz_server.Text.{codes, contains_char}
use buzz_server.Text.Display.{snoc, digit, decimal_in, decimal}

pub codes-append : (s t : String) → codes (str_append s t) ≡ codes s ++ codes t
codes-append String.[] t = ap codes (append.nil t)
codes-append (String.◌∷◌ c s) t =
    ap codes (append.cons c s t) ∙ ap (λ xs. code c ∷ xs) (codes-append s t)

pub codes_injective : (s t : String) → codes s ≡ codes t → s ≡ t
codes_injective String.[] String.[] h = refl
codes_injective String.[] (String.◌∷◌ d t) h = absurd (ground arith)
codes_injective (String.◌∷◌ c s) String.[] h = absurd (ground arith)
codes_injective (String.◌∷◌ c s) (String.◌∷◌ d t) h =
    let tail = codes_injective s t (ground arith) in let head = Char-path c d (ground arith) in cc

pub append_cancel : (xs us vs : List ℕ) → xs ++ us ≡ xs ++ vs → us ≡ vs
append_cancel [] us vs h = h
append_cancel (x ∷ xs) us vs h = append_cancel xs us vs (ground arith)

contains_char-append : (c : ℕ) (xs us : List ℕ) → contains_char c (xs ++ (c ∷ us)) ≡ true
unfolding contains_char any
contains_char-append c [] us = ground arith
contains_char-append c (x ∷ xs) us = ground (arith, contains_char-append c xs us)

-- The last separator splits a text in one way.
pub split_last :
    (c : ℕ) (xs ys us vs : List ℕ)
    → contains_char c us ≡ false
    → contains_char c vs ≡ false
    → xs ++ (c ∷ us) ≡ ys ++ (c ∷ vs)
    → (xs ≡ ys) × (us ≡ vs)
split_last c [] [] us vs hu hv e = ground arith
split_last c [] (y ∷ ys) us vs hu hv e = absurd (ground (arith, contains_char-append c ys vs))
split_last c (x ∷ xs) [] us vs hu hv e = absurd (ground (arith, contains_char-append c xs us))
split_last c (x ∷ xs) (y ∷ ys) us vs hu hv e =
    let (same, rest) = split_last c xs ys us vs hu hv (ground arith) in (ground arith, rest)

value : ℕ → List ℕ → ℕ
value acc [] = acc
value acc (c ∷ cs) = value (acc * 10 + (c - 48)) cs

codes-snoc : (s : String) (c : Char) → codes (snoc s c) ≡ codes s ++ (code c ∷ [])
codes-snoc String.[] c = refl
codes-snoc (String.◌∷◌ d s) c = ap (λ xs. code d ∷ xs) (codes-snoc s c)

value-append : (acc c : ℕ) (xs : List ℕ) → value acc (xs ++ (c ∷ [])) ≡ value acc xs * 10 + (c - 48)
unfolding value
value-append acc c [] = refl
value-append acc c (x ∷ xs) = value-append (acc * 10 + (x - 48)) c xs

code-digit : (n : ℕ) → n < 10 → code (digit n) ≡ 48 + n
unfolding digit
code-digit zero h = refl
code-digit (suc zero) h = refl
code-digit (suc (suc zero)) h = refl
code-digit (suc (suc (suc zero))) h = refl
code-digit (suc (suc (suc (suc zero)))) h = refl
code-digit (suc (suc (suc (suc (suc zero))))) h = refl
code-digit (suc (suc (suc (suc (suc (suc zero)))))) h = refl
code-digit (suc (suc (suc (suc (suc (suc (suc zero))))))) h = refl
code-digit (suc (suc (suc (suc (suc (suc (suc (suc zero)))))))) h = refl
code-digit (suc (suc (suc (suc (suc (suc (suc (suc (suc zero))))))))) h = refl
code-digit (suc (suc (suc (suc (suc (suc (suc (suc (suc (suc n)))))))))) h = absurd (omega arith)

decimal_in_last :
    (fuel n : ℕ) → ltb n 10 ≡ true → decimal_in (suc fuel) n ≡ String.◌∷◌ (digit n) String.[]
unfolding decimal_in
decimal_in_last fuel n e = rw e refl

decimal_in_more :
    (fuel n : ℕ)
    → ltb n 10 ≡ false
    → decimal_in (suc fuel) n ≡ snoc (decimal_in fuel (n / 10)) (digit (n % 10))
unfolding decimal_in
decimal_in_more fuel n e = rw e refl

value-digit : (n : ℕ) → n < 10 → value 0 (code (digit n) ∷ []) ≡ n
unfolding value
value-digit n h = ground (arith, code-digit n h)

value-snoc :
    (s : String) (n : ℕ)
    → value 0 (codes (snoc s (digit (n % 10)))) ≡ value 0 (codes s) * 10 + n % 10
value-snoc s n =
    let d = code-digit (n % 10) (omega arith) in
    rw (codes-snoc s (digit (n % 10)), value-append 0 (code (digit (n % 10))) (codes s), d)
      (omega arith)

-- The printed digits are those of the number.
value-decimal_in : (fuel n : ℕ) → n < 10 ^ suc fuel → value 0 (codes (decimal_in (suc fuel) n)) ≡ n
value-decimal_in zero n h = rw (decimal_in_last zero n (ground arith)) (value-digit n (omega arith))
value-decimal_in (suc fuel) n h =
    let rest = value-decimal_in fuel (n / 10) (grind arith) in
    elim (Bool-cases (ltb n 10)) [
      | inl e ↦ rw (decimal_in_last (suc fuel) n e) (value-digit n (ground arith))
      | inr e ↦
          rw (decimal_in_more (suc fuel) n e)
            (value-snoc (decimal_in (suc fuel) (n / 10)) n ∙ omega (arith, rest))
    ]

pub decimal_injective :
    (m n : ℕ) → m < 2 ^ 32 → n < 2 ^ 32 → codes (decimal m) ≡ codes (decimal n) → m ≡ n
unfolding decimal
decimal_injective m n hm hn e =
    sym (value-decimal_in 9 m (omega arith)) ∙ ap (value 0) e ∙ value-decimal_in 9 n (omega arith)
