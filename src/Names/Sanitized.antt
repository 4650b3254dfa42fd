-- ===== src/Names/Sanitized.antt =====
-- What `SanitizeName` promises of a name.
use narrative_ai_agent.Prelude.{
  ℕ, ◌+◌, ◌≡◌, ◌≢◌, refl, sym, ◌∙◌, subst, ap, ap₂, Bool, true, false, not, ◌&&◌, ◌||◌, [], ◌∷◌,
  if◌then◌else◌, ltb, leb, ◌==◌, any, map, ok, arith, All, All-map, Bool-cases, inl, inr, is_ok,
}
use narrative_ai_agent.Prelude.Text.{
  Text, is_empty, is_empty_iff, is_space, trim_space, trim_by, trim_by-trim_by, trim_by-nothing,
  any-trim_by, All-trim_by, trim_by-map, trim_by-is_empty,
}
use narrative_ai_agent.Names.{
  is_letter_or_digit, is_joint, is_latin, clean_rune, has_cyrillic, latin_form, cleaned,
  sanitize_name,
}

-- `unicode.ToLower` on an ASCII letter.
abbrev pub ascii_lower : ℕ → ℕ
ascii_lower r = if leb b'A' r && leb r b'Z' then r + 32 else r

-- A character of the names that are directories.
unfoldable is_name_rune : ℕ → Bool
is_name_rune r = (leb b'a' r && leb r b'z') || (leb b'0' r && leb r b'9') || r == b'_' || r == b'-'

-- A name of lower-case Latin letters, digits, `_` and `-`, which neither begins nor ends with the
-- last two, and which is not empty.
pub record IsName (name : Text) : Type 0 where
  not_empty : name ≢ []
  runes : All (λ r. is_name_rune r ≡ true) name
  pub cut : trim_by is_joint name ≡ name

clean_rune-is_latin : (r : ℕ) → is_latin (clean_rune r) ≡ true
unfolding clean_rune is_latin is_letter_or_digit is_joint
clean_rune-is_latin r = ground arith

clean_rune-is_name_rune : (r : ℕ) → is_name_rune r ≡ true → clean_rune r ≡ r
unfolding clean_rune is_name_rune is_latin is_letter_or_digit is_joint
clean_rune-is_name_rune r h = ground arith

clean-IsName : (t : Text) → All (λ r. is_name_rune r ≡ true) t → map clean_rune t ≡ t
clean-IsName [] h = refl
clean-IsName (r ∷ rs) h = ap₂ ◌∷◌ (clean_rune-is_name_rune r h.0) (clean-IsName rs h.1)

-- No character of a name passes a test that such characters fail.
any-is_name_rune :
    (p : ℕ → Bool)
    → ((r : ℕ) → is_name_rune r ≡ true → p r ≡ false)
    → (t : Text) → All (λ r. is_name_rune r ≡ true) t
    → any p t ≡ false
any-is_name_rune p fails [] h = refl
any-is_name_rune p fails (r ∷ rs) h = rw (fails r h.0) (any-is_name_rune p fails rs h.1)

no_cyrillic : (t : Text) → All (λ r. is_name_rune r ≡ true) t → has_cyrillic t ≡ false
unfolding has_cyrillic is_name_rune
no_cyrillic t h = any-is_name_rune (λ r. leb 0x400 r && leb r 0x4ff) (λ r e. ground arith) t h

trim_space-IsName : (t : Text) → IsName t → trim_space t ≡ t
unfolding trim_space is_space is_name_rune
trim_space-IsName t h =
    trim_by-nothing is_space t (any-is_name_rune is_space (λ r e. ground arith) t h.runes)

clean_rune-kept : (r : ℕ) → not (is_joint (clean_rune r)) ≡ is_letter_or_digit r
unfolding clean_rune is_latin is_letter_or_digit is_joint
clean_rune-kept r = ground arith

letters-trim_space : (t : Text) → any is_letter_or_digit (trim_space t) ≡ any is_letter_or_digit t
unfolding trim_space is_space is_letter_or_digit
letters-trim_space t = any-trim_by is_space is_letter_or_digit (λ c e. ground arith) t

has_cyrillic-trim_space : (t : Text) → has_cyrillic (trim_space t) ≡ has_cyrillic t
unfolding trim_space is_space has_cyrillic
has_cyrillic-trim_space t =
    any-trim_by is_space (λ r. leb 0x400 r && leb r 0x4ff) (λ c e. ground arith) t

module _ (to_lower : ℕ → ℕ) (lowers : (r : ℕ) → ltb r 128 ≡ true → to_lower r ≡ ascii_lower r) where
  lower-is_name_rune : (r : ℕ) → is_name_rune r ≡ true → to_lower r ≡ r
  unfolding is_name_rune
  lower-is_name_rune r h = lowers r (ground arith) ∙ ground arith

  lower-is_latin : (r : ℕ) → is_latin r ≡ true → is_name_rune (to_lower r) ≡ true
  unfolding is_name_rune is_latin is_letter_or_digit is_joint
  lower-is_latin r h = rw (lowers r (ground arith)) (ground arith)

  lower-is_joint : (r : ℕ) → is_latin r ≡ true → is_joint (to_lower r) ≡ is_joint r
  unfolding is_latin is_letter_or_digit is_joint
  lower-is_joint r h = rw (lowers r (ground arith)) (ground arith)

  map_lower-is_name_rune : (t : Text) → All (λ r. is_name_rune r ≡ true) t → map to_lower t ≡ t
  map_lower-is_name_rune [] h = refl
  map_lower-is_name_rune (r ∷ rs) h =
      ap₂ ◌∷◌ (lower-is_name_rune r h.0) (map_lower-is_name_rune rs h.1)

  All-map_lower :
      (t : Text)
      → All (λ r. is_latin r ≡ true) t
      → All (λ r. is_name_rune r ≡ true) (map to_lower t)
  All-map_lower [] h = tt
  All-map_lower (r ∷ rs) h = (lower-is_latin r h.0, All-map_lower rs h.1)

  map-not_empty : (t : Text) → is_empty t ≡ false → map to_lower t ≢ []
  map-not_empty [] h = ground arith
  map-not_empty (r ∷ rs) h = λ e. cc

  cleaned-is_latin : (t : Text) → All (λ r. is_latin r ≡ true) (cleaned to_lower t)
  unfolding cleaned
  cleaned-is_latin t = All-trim_by is_joint _ _ (cleans (latin_form to_lower t))
    where
      cleans : (t : Text) → All (λ r. is_latin r ≡ true) (map clean_rune t)
      cleans [] = tt
      cleans (r ∷ rs) = (clean_rune-is_latin r, cleans rs)

  cleaned-cut : (t : Text) → trim_by is_joint (cleaned to_lower t) ≡ cleaned to_lower t
  unfolding cleaned
  cleaned-cut t = trim_by-trim_by is_joint (map clean_rune (latin_form to_lower t))

  lowered-IsName :
      (t : Text)
      → is_empty (cleaned to_lower t) ≡ false
      → IsName (map to_lower (cleaned to_lower t))
  lowered-IsName t h =
      let latin = cleaned-is_latin t in
      record {
        not_empty = map-not_empty (cleaned to_lower t) h;
        runes = All-map_lower (cleaned to_lower t) latin;
        cut =
            trim_by-map is_joint to_lower (cleaned to_lower t)
              (All-map _ _ (cleaned to_lower t) lower-is_joint latin)
            ∙ ap (map to_lower) (cleaned-cut t);
      }

  -- Where ToLower lowers the ASCII letters, every name that SanitizeName returns consists of
  -- lower-case Latin letters, digits, `_` and `-`, is not empty, and neither begins nor ends with `_` or `-`.
  pub sanitize_name-IsName : (t name : Text) → sanitize_name to_lower t ≡ ok name → IsName name
  unfolding sanitize_name
  sanitize_name-IsName t name h = elim (Bool-cases (is_empty (trim_space t))) [
    | inl e ↦ ground arith
    | inr e ↦ elim (Bool-cases (is_empty (cleaned to_lower (trim_space t)))) [
      | inl e' ↦ ground arith
      | inr e' ↦
          let same : map to_lower (cleaned to_lower (trim_space t)) ≡ name = ground arith in
          subst IsName same (lowered-IsName (trim_space t) e')
    ]
  ]

  -- A name of this form is kept as it is.
  IsName-kept : (name : Text) → IsName name → sanitize_name to_lower name ≡ ok name
  unfolding sanitize_name cleaned latin_form
  IsName-kept name h =
      rw
        (
          trim_space-IsName name h,
          no_cyrillic name h.runes,
          clean-IsName name h.runes,
          h.cut,
          map_lower-is_name_rune name h.runes,
        )
        (ground (arith, is_empty_iff name, h.not_empty))

  -- SanitizeName applied to a name that it has returned returns that name.
  sanitize_name-sanitize_name :
      (t name : Text) → sanitize_name to_lower t ≡ ok name → sanitize_name to_lower name ≡ ok name
  sanitize_name-sanitize_name t name h = IsName-kept name (sanitize_name-IsName t name h)

  any-clean_rune :
      (t : Text) → any (λ r. not (is_joint r)) (map clean_rune t) ≡ any is_letter_or_digit t
  any-clean_rune [] = refl
  any-clean_rune (r ∷ rs) = ap₂ ◌||◌ (clean_rune-kept r) (any-clean_rune rs)

  cleaned-is_empty :
      (t : Text)
      → has_cyrillic t ≡ false
      → not (is_empty (cleaned to_lower t)) ≡ any is_letter_or_digit t
  unfolding cleaned latin_form
  cleaned-is_empty t h = rw h (trim_by-is_empty is_joint (map clean_rune t) ∙ any-clean_rune t)

  -- Of a name without Cyrillic characters, SanitizeName makes a directory exactly where the name has a
  -- Latin letter or a digit.
  sanitize_name-is_ok :
      (t : Text)
      → has_cyrillic t ≡ false
      → is_ok (sanitize_name to_lower t) ≡ any is_letter_or_digit t
  unfolding sanitize_name
  sanitize_name-is_ok t h =
      let trimmed = trim_space t in
      let empty = cleaned-is_empty trimmed (has_cyrillic-trim_space t ∙ h) in
      elim (Bool-cases (is_empty trimmed)) [
        | inl e ↦
            let nothing : trim_space t ≡ [] = (is_empty_iff (trim_space t)).0 e in
            let letters = sym (letters-trim_space t) ∙ ap (any is_letter_or_digit) nothing in
            rw e (sym letters)
        | inr e ↦ rw e (ground (arith, empty, letters-trim_space t))
      ]
