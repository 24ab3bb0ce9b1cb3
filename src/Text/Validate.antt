-- ===== src/Text/Validate.antt =====
-- src/error.rs, and the text checks that src/community.rs and src/agent.rs share.
use buzz_server.Base.{
  ℕ, Bool, false, ◌&&◌, ◌||◌, [], ◌∷◌, String, Result, ◌>>◌, fail_if, ltb, ◌==◌, nat_eq, all,
  length, string_eq,
}
use buzz_server.Text.{codes, trim, is_empty, is_upper, is_digit}

-- A message is a fixed text, or one that `format!` makes from a number.
pub data Message : Type 0 where
  text : String → Message
  at_most : ℕ → Message
  one_to : ℕ → Message

pub record ValidationError : Type 0 where
  pub field : String
  pub message : Message

unfoldable pub invalid : String → String → ValidationError
invalid field message = record { field = field; message = text message }

-- `validate_nonempty` of community.rs; the limit counts the characters of the trimmed value.
unfoldable pub validate_nonempty : String → String → ℕ → Result ValidationError (Unit {0})
unfolding trim is_empty invalid
validate_nonempty field value max_chars = do
  let trimmed = trim (codes value)
  fail_if (is_empty trimmed) (invalid field "must not be empty")
  fail_if (ltb max_chars (length trimmed)) (record { field = field; message = at_most max_chars })

-- `valid_environment_key` of agent.rs and launch.rs.
unfoldable pub valid_environment_key : String → Bool
unfolding is_upper is_digit all
valid_environment_key key = elim (codes key) [
  | [] ↦ false
  | c ∷ cs ↦ (is_upper c || c == b'_') && all (λ d. is_upper d || is_digit d || d == b'_') cs
]
