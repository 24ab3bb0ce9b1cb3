-- ===== src/Text/Display.antt =====
-- Texts as Rust's std prints and slices them.
use Prim.Native.Char.{Char, code}
use Prim.Native.String.{String}
use buzz_server.Text.{is_whitespace}
use buzz_server.Base.{
  Bool, true, false, ◌&&◌, ℕ, zero, suc, ◌/◌, ◌%◌, ltb, ◌==◌, nat_eq, if◌then◌else◌,
}

abbrev pub snoc : String → Char → String
snoc String.[] d = String.◌∷◌ d String.[]
snoc (String.◌∷◌ c s) d = String.◌∷◌ c (snoc s d)

unfoldable pub digit : ℕ → Char
digit n =
    if n == 0
    then "0"
    else if n == 1
    then "1"
    else if n == 2
    then "2"
    else if n == 3
    then "3"
    else if n == 4
    then "4"
    else if n == 5
    then "5"
    else if n == 6
    then "6"
    else if n == 7
    then "7"
    else if n == 8
    then "8"
    else "9"

unfoldable pub decimal_in : ℕ → ℕ → String
unfolding digit
decimal_in zero n = String.[]
decimal_in (suc fuel) n =
    let rest = decimal_in fuel (n / 10) in
    if ltb n 10 then String.◌∷◌ (digit n) String.[] else snoc rest (digit (n % 10))

-- Display of a u32, which has at most ten digits.
unfoldable pub decimal : ℕ → String
unfolding decimal_in
decimal n = decimal_in 10 n

-- `&text[..n]` of an ASCII text that is long enough.
unfoldable pub prefix_of : ℕ → String → String
prefix_of zero s = String.[]
prefix_of (suc n) String.[] = String.[]
prefix_of (suc n) (String.◌∷◌ c s) = String.◌∷◌ c (prefix_of n s)

-- `str::trim_start`, `str::trim_end` and `str::trim`, on the text itself.
unfoldable pub without_start : String → String
unfolding is_whitespace
without_start String.[] = String.[]
without_start (String.◌∷◌ c s) =
    let rest = without_start s in if is_whitespace (code c) then rest else String.◌∷◌ c s

abbrev pub is_blank : String → Bool
is_blank String.[] = true
is_blank (String.◌∷◌ _ _) = false

unfoldable pub without_end : String → String
unfolding is_whitespace
without_end String.[] = String.[]
without_end (String.◌∷◌ c s) =
    let rest = without_end s in
    if is_blank rest && is_whitespace (code c) then String.[] else String.◌∷◌ c rest

unfoldable pub trimmed : String → String
unfolding without_start without_end
trimmed s = without_end (without_start s)
