-- ===== src/Json.antt =====
-- The values of serde_json, and how a derived reader and writer of a struct treats their members.
pub mod Files
pub mod Back
use buzz_server.Base.{
  ℕ, Bool, true, false, not, ◌&&◌, List, [], ◌∷◌, Option, none, some, String, Result, ok, err,
  ◌>>=◌, ◌>>◌, fail_if, ◌==◌, string_eq, is_some, any, leb, if◌then◌else◌, ◌≡◌, refl, arith,
}

mutual
  pub data Json : Type 0 where
    null : Json
    boolean : Bool → Json
    number : ℕ → Json
    other_number : Json
    string : String → Json
    array : Items → Json
    object : Members → Json

  pub data Items : Type 0 where
    nil : Items
    cons : Json → Items → Items

  pub data Members : Type 0 where
    end : Members
    member : String → Json → Members → Members

pub data JsonError : Type 0 where
  invalid_type out_of_range : JsonError
  missing_field unknown_field duplicate_field custom : String → JsonError

abbrev pub Read : Type 0 → Type 0
Read A = Result JsonError A

unfoldable pub lookup : String → Members → Option Json
lookup k end = none
lookup k (member j v rest) = let later = lookup k rest in if j == k then some v else later

-- `deny_unknown_fields`; a field may come once.
unfoldable pub check_members : List String → Members → Read (Unit {0})
unfolding lookup any
check_members fields end = ok tt
check_members fields (member k v rest) = do
  fail_if (not (any (λ f. f == k) fields)) (unknown_field k)
  fail_if (is_some (lookup k rest)) (duplicate_field k)
  check_members fields rest

-- A field without a default, an `Option`, and a field with a default.
abbrev pub required : {A : Type 0} → String → (Json → Read A) → Option Json → Read A
required field read none = err (missing_field field)
required field read (some v) = read v

abbrev pub optional : {A : Type 0} → (Json → Read A) → Option Json → Read (Option A)
optional read none = ok none
optional read (some null) = ok none
optional read (some v) = do a ← read v; ok (some a)

abbrev pub defaulted : {A : Type 0} → A → (Json → Read A) → Option Json → Read A
defaulted a read none = ok a
defaulted a read (some v) = read v

abbrev pub text : Json → Read String
text (string s) = ok s
text _ = err invalid_type

abbrev pub unsigned : ℕ → Json → Read ℕ
unsigned max (number n) = if leb n max then ok n else err out_of_range
unsigned max _ = err invalid_type

-- The variant of an enum without fields: its name, or an object of its name and null.
abbrev pub variant : {A : Type 0} → (String → Read A) → Json → Read A
variant named (string s) = named s
variant named (object (member s null end)) = named s
variant named _ = err invalid_type

unfoldable pub read_items : Items → Read (List String)
read_items nil = ok []
read_items (cons v rest) = do s ← text v; more ← read_items rest; ok (s ∷ more)

abbrev pub texts : Json → Read (List String)
texts (array items) = read_items items
texts _ = err invalid_type

unfoldable pub read_members : Members → Read (List (String × String))
read_members end = ok []
read_members (member k v rest) = do s ← text v; more ← read_members rest; ok ((k, s) ∷ more)

unfoldable pub write_items : List String → Items
write_items [] = nil
write_items (s ∷ rest) = cons (string s) (write_items rest)

unfoldable pub write_members : List (String × String) → Members
write_members [] = end
write_members ((k, s) ∷ rest) = member k (string s) (write_members rest)

-- What a struct writes: its fields, but for those that `skip_serializing_if` leaves out.
unfoldable pub compact : List (String × Option Json) → Members
compact [] = end
compact ((k, none) ∷ rest) = compact rest
compact ((k, some v) ∷ rest) = member k v (compact rest)

pub read_items-write_items : (l : List String) → read_items (write_items l) ≡ ok l
unfolding read_items write_items
read_items-write_items [] = refl
read_items-write_items (s ∷ rest) = rw (read_items-write_items rest) refl

pub read_members-write_members :
    (l : List (String × String)) → read_members (write_members l) ≡ ok l
unfolding read_members write_members
read_members-write_members [] = refl
read_members-write_members ((k, s) ∷ rest) = rw (read_members-write_members rest) refl

-- The field of a key, of those that a struct may write.
abbrev pub slot : String → List (String × Option Json) → Option Json
slot k [] = none
slot k ((j, o) ∷ rest) = if j == k then o else slot k rest

abbrev pub has_slot : String → List (String × Option Json) → Bool
has_slot k [] = false
has_slot k ((j, o) ∷ rest) = if j == k then true else has_slot k rest

-- Each key once, and all among the fields.
abbrev pub declared : List String → List (String × Option Json) → Bool
declared fields [] = true
declared fields ((k, o) ∷ rest) =
    any (λ f. f == k) fields && not (has_slot k rest) && declared fields rest

lookup-missing :
    (k : String) (slots : List (String × Option Json))
    → has_slot k slots ≡ false
    → lookup k (compact slots) ≡ none
unfolding lookup compact
lookup-missing k [] h = refl
lookup-missing k ((j, none) ∷ rest) h = ground (arith, lookup-missing k rest)
lookup-missing k ((j, some v) ∷ rest) h = ground (arith, lookup-missing k rest)

pub lookup-compact :
    (fields : List String) (k : String) (slots : List (String × Option Json))
    → declared fields slots ≡ true
    → lookup k (compact slots) ≡ slot k slots
unfolding lookup compact
lookup-compact fields k [] h = refl
lookup-compact fields k ((j, none) ∷ rest) h =
    ground (arith, lookup-compact fields k rest, lookup-missing k rest, string_eq.eqb_iff j k)
lookup-compact fields k ((j, some v) ∷ rest) h = ground (arith, lookup-compact fields k rest)

pub check_members-compact :
    (fields : List String) (slots : List (String × Option Json))
    → declared fields slots ≡ true
    → check_members fields (compact slots) ≡ ok tt
unfolding check_members compact
check_members-compact fields [] h = refl
check_members-compact fields ((k, none) ∷ rest) h = check_members-compact fields rest (ground arith)
check_members-compact fields ((k, some v) ∷ rest) h =
    ground (arith, check_members-compact fields rest, lookup-missing k rest)
