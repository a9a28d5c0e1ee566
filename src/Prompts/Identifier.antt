-- ===== src/Prompts/Identifier.antt =====
-- prompts/utils/identifier.utils.ts: the names that a prompt may have. `trim`, and which characters are
-- white space, are JavaScript's, and arguments.
use Prim.Native.Char.{Char, code}
use arcane_backend.Common.{
  ℕ, String, Bool, true, false, ◌&&◌, ◌||◌, ◌==◌, Result, ok, err, leb, same_number, if◌then◌else◌,
}
use arcane_backend.Exception.{
  plain_error, identifier_empty, identifier_has_outer_dot, identifier_has_two_dots,
  identifier_has_other_characters,
}

pub record TextTools : Type 0 where
  pub trim : String → String
  -- whether `\s` matches the character
  pub is_space : Char → Bool
  -- `${n}`
  pub number_to_string : ℕ → String

abbrev pub is_dot : Char → Bool
is_dot c = same_number (code c) b'.'

-- `text.startsWith(".")`
unfoldable pub starts_with_dot : String → Bool
starts_with_dot String.[] = false
starts_with_dot (String.◌∷◌ c s) = is_dot c

-- `text.endsWith(".")`
unfoldable pub ends_with_dot : String → Bool
ends_with_dot String.[] = false
ends_with_dot (String.◌∷◌ c String.[]) = is_dot c
ends_with_dot (String.◌∷◌ c (String.◌∷◌ d s)) = ends_with_dot (String.◌∷◌ d s)

-- `text.includes("..")`
unfoldable pub has_two_dots : String → Bool
unfolding starts_with_dot
has_two_dots String.[] = false
has_two_dots (String.◌∷◌ c s) = (is_dot c && starts_with_dot s) || has_two_dots s

abbrev pub is_between : ℕ → ℕ → ℕ → Bool
is_between low high c = leb low c && leb c high

module _ (t : TextTools) where
  -- `[a-zA-Z0-9._\s-]`
  unfoldable pub is_allowed : Char → Bool
  is_allowed c =
      is_between b'a' b'z' (code c)
      || is_between b'A' b'Z' (code c)
      || is_between b'0' b'9' (code c)
      || is_dot c
      || same_number (code c) b'_'
      || t.is_space c
      || same_number (code c) b'-'

  unfoldable pub all_allowed : String → Bool
  unfolding is_allowed
  all_allowed String.[] = true
  all_allowed (String.◌∷◌ c s) = is_allowed c && all_allowed s

  -- `/^[a-zA-Z0-9._\s-]+$/.test(text)`
  unfoldable pub matches_pattern : String → Bool
  unfolding all_allowed
  matches_pattern String.[] = false
  matches_pattern (String.◌∷◌ c s) = all_allowed (String.◌∷◌ c s)

  -- The tests behind `trim`.
  abbrev pub validate_trimmed : String → Result String
  validate_trimmed trimmed =
      if starts_with_dot trimmed || ends_with_dot trimmed
      then err (plain_error identifier_has_outer_dot)
      else if has_two_dots trimmed
      then err (plain_error identifier_has_two_dots)
      else if matches_pattern trimmed
      then ok trimmed
      else err (plain_error identifier_has_other_characters)

  unfoldable pub validate : String → Result String
  unfolding starts_with_dot ends_with_dot has_two_dots matches_pattern
  validate identifier =
      if identifier == "" || t.trim identifier == ""
      then err (plain_error identifier_empty)
      else validate_trimmed (t.trim identifier)
