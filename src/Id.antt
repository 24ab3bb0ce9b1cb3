-- ===== src/Id.antt =====
-- src/id.rs: the text of a typed identifier. The uuid crate is a parameter.
use Prim.Native.Char.{code}
use Prim.Native.String.{String, ◌++◌ as str_append}
use Prim.Native.String.append
use buzz_server.Base.{
  ℕ, Bool, true, not, ◌&&◌, ◌||◌, Option, none, some, Result, ok, ◌>>=◌, ◌>>◌, fail_if, ok_or, ◌==◌,
  nat_eq, leb, all, if◌then◌else◌, ◌≡◌, ◌∙◌, refl, ap, arith,
}
use buzz_server.Text.{codes, utf8_len}

-- A UUID's simple form, and `Uuid::parse_str`.
pub record Uuids : Type 0 where
  pub simple : ℕ → String
  pub parse_str : String → Option ℕ

pub data ParseIdError : Type 0 where
  wrong_prefix : String → ParseIdError
  non_canonical invalid_uuid : ParseIdError

-- `str::strip_prefix`
unfoldable pub strip_prefix : String → String → Option String
strip_prefix String.[] s = some s
strip_prefix (String.◌∷◌ c p) String.[] = none
strip_prefix (String.◌∷◌ c p) (String.◌∷◌ d s) =
    let rest = strip_prefix p s in if code c == code d then rest else none

abbrev pub is_lower_hex : ℕ → Bool
is_lower_hex c = (leb b'0' c && leb c b'9') || (leb b'a' c && leb c b'f')

module _ (uuids : Uuids) (prefix : String) where
  -- `Display`
  unfoldable pub to_string : ℕ → String
  to_string id = str_append prefix (uuids.simple id)

  unfoldable pub from_str : String → Result ParseIdError ℕ
  unfolding strip_prefix utf8_len all
  from_str value = do
    encoded ← ok_or (strip_prefix prefix value) (wrong_prefix prefix)
    fail_if (not (utf8_len (codes encoded) == 32) || not (all is_lower_hex (codes encoded)))
        non_canonical
    ok_or (uuids.parse_str encoded) invalid_uuid

-- A UUID whose simple form is 32 lower-case hexadecimal digits that are read back.
pub record Simple (uuids : Uuids) (id : ℕ) : Type 0 where
  pub long : utf8_len (codes (uuids.simple id)) ≡ 32
  pub digits : all is_lower_hex (codes (uuids.simple id)) ≡ true
  pub read : uuids.parse_str (uuids.simple id) ≡ some id

strip_prefix-append : (p s : String) → strip_prefix p (str_append p s) ≡ some s
unfolding strip_prefix
strip_prefix-append String.[] s = ap some (append.nil s)
strip_prefix-append (String.◌∷◌ c p) s =
    ap (strip_prefix (String.◌∷◌ c p)) (append.cons c p s) ∙ ground (arith, strip_prefix-append p s)

pub from_str-to_string :
    (uuids : Uuids) (prefix : String) (id : ℕ)
    → Simple uuids id
    → from_str uuids prefix (to_string uuids prefix id) ≡ ok id
unfolding from_str to_string
from_str-to_string uuids prefix id simple =
    rw (strip_prefix-append prefix (uuids.simple id), simple.long, simple.digits, simple.read) refl
