-- ===== src/Names.antt =====
-- internal/domain/validation.go: the names of the directories of worlds and characters. `unicode.ToLower` on
-- one code point is a parameter; `strings.ToLower` maps it over a text.
pub mod Sanitized
use narrative_ai_agent.Prelude.{
  ℕ, Bool, true, false, not, ◌&&◌, ◌||◌, Option, none, some, List, [], ◌∷◌, ◌++◌, if◌then◌else◌,
  ltb, leb, ◌==◌, any, map, Result, ok, err, fail_if, ◌>>◌,
}
use narrative_ai_agent.Prelude.Text.{Text, lit, is_empty, trim_space, trim_by}

-- `ErrEmptyName`, `ErrInvalidName` and `ErrEmptyWorldDir`.
pub data NameError : Type 0 where
  empty_name : NameError
  invalid_name : NameError
  empty_world_dir : NameError

-- `translitMap`.
abbrev translit_map : List (ℕ × Text)
translit_map =
    (0x430, lit "a")
    ∷ (0x431, lit "b")
    ∷ (0x432, lit "v")
    ∷ (0x433, lit "g")
    ∷ (0x434, lit "d")
    ∷ (0x435, lit "e")
    ∷ (0x451, lit "yo")
    ∷ (0x436, lit "zh")
    ∷ (0x437, lit "z")
    ∷ (0x438, lit "i")
    ∷ (0x439, lit "y")
    ∷ (0x43a, lit "k")
    ∷ (0x43b, lit "l")
    ∷ (0x43c, lit "m")
    ∷ (0x43d, lit "n")
    ∷ (0x43e, lit "o")
    ∷ (0x43f, lit "p")
    ∷ (0x440, lit "r")
    ∷ (0x441, lit "s")
    ∷ (0x442, lit "t")
    ∷ (0x443, lit "u")
    ∷ (0x444, lit "f")
    ∷ (0x445, lit "kh")
    ∷ (0x446, lit "ts")
    ∷ (0x447, lit "ch")
    ∷ (0x448, lit "sh")
    ∷ (0x449, lit "sch")
    ∷ (0x44a, [])
    ∷ (0x44b, lit "y")
    ∷ (0x44c, [])
    ∷ (0x44d, lit "e")
    ∷ (0x44e, lit "yu")
    ∷ (0x44f, lit "ya")
    ∷ []

mapped : List (ℕ × Text) → ℕ → Option Text
mapped [] r = none
mapped ((letter, latin) ∷ rest) r =
    let later = mapped rest r in if r == letter then some latin else later

abbrev or_underscore : Option Text → Text
or_underscore (some latin) = latin
or_underscore none = lit "_"

-- What `Transliterate` writes for one lowered code point.
transliterate_rune : ℕ → Text
unfolding mapped
transliterate_rune r =
    if r == 0x20 || r == 0x9
    then lit "_"
    else if ltb r 128
    then r ∷ []
    else or_underscore (mapped translit_map r)

transliterate_lowered : Text → Text
transliterate_lowered [] = []
transliterate_lowered (r ∷ rs) = transliterate_rune r ++ transliterate_lowered rs

unfoldable pub is_letter_or_digit : ℕ → Bool
is_letter_or_digit r =
    (leb b'A' r && leb r b'Z') || (leb b'a' r && leb r b'z') || (leb b'0' r && leb r b'9')

unfoldable pub is_joint : ℕ → Bool
is_joint r = r == b'_' || r == b'-'

-- What the regular expression `nonLatin` does not match.
unfoldable pub is_latin : ℕ → Bool
is_latin r = is_letter_or_digit r || is_joint r

-- `nonLatin.ReplaceAllString(name, "_")`.
unfoldable pub clean_rune : ℕ → ℕ
clean_rune r = if is_latin r then r else b'_'

unfoldable pub has_cyrillic : Text → Bool
has_cyrillic s = any (λ r. leb 0x400 r && leb r 0x4ff) s

abbrev looks_intentional_latin : Text → Bool
looks_intentional_latin s = not (has_cyrillic s)

unfoldable validate_world_dir : Text → Result NameError (Unit {0})
unfolding trim_space has_cyrillic
validate_world_dir dir =
    fail_if (is_empty (trim_space dir)) empty_world_dir >> fail_if (has_cyrillic dir) invalid_name

module _ (to_lower : ℕ → ℕ) where
  unfoldable pub transliterate : Text → Text
  unfolding transliterate_lowered transliterate_rune
  transliterate s = transliterate_lowered (map to_lower s)

  latin_form : Text → Text
  unfolding transliterate
  latin_form name =
      if has_cyrillic name && not (looks_intentional_latin name) then transliterate name else name

  -- The name with its foreign characters replaced, and cut.
  unfoldable pub cleaned : Text → Text
  unfolding latin_form clean_rune is_latin trim_by is_joint
  cleaned name = trim_by is_joint (map clean_rune (latin_form name))

  unfoldable pub sanitize_name : Text → Result NameError Text
  unfolding cleaned trim_space
  sanitize_name name =
      let trimmed = trim_space name in
      if is_empty trimmed
      then err empty_name
      else if is_empty (cleaned trimmed)
      then err invalid_name
      else ok (map to_lower (cleaned trimmed))
