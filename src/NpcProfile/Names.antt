-- ===== src/NpcProfile/Names.antt =====
-- The names of the sections are read back as the sections.
use narrative_ai_agent.Prelude.{
  ℕ, ◌+◌, ◌≡◌, refl, ap, ap₂, ◌∙◌, Bool, true, false, ◌&&◌, ◌||◌, [], ◌∷◌, if◌then◌else◌, leb, ltb,
  map, any, not, arith,
}
use narrative_ai_agent.Prelude.Text.{Text, trim_space, text_eq}
use narrative_ai_agent.NpcProfile.{
  SectionKind, unknown_section, canonical_section_name, match_section, kind_of, aliases,
}

-- `unicode.ToLower` on ASCII and on the Russian letters.
abbrev pub lower_letter : ℕ → ℕ
lower_letter r = if (leb b'A' r && leb r b'Z') || (leb 0x410 r && leb r 0x42f) then r + 32 else r

-- ASCII, or a Russian letter of the basic block.
abbrev pub is_plain : ℕ → Bool
is_plain r = ltb r 128 || (leb 0x410 r && leb r 0x44f)

canonical_section_name-is_plain :
    (kind : SectionKind) → any (λ r. not (is_plain r)) (canonical_section_name kind) ≡ false
unfolding canonical_section_name
canonical_section_name-is_plain unknown_section = refl
canonical_section_name-is_plain kind = refl

kind_of-canonical_section_name :
    (kind : SectionKind)
    → kind_of aliases (trim_space (map lower_letter (canonical_section_name kind))) ≡ kind
unfolding kind_of canonical_section_name trim_space text_eq
kind_of-canonical_section_name unknown_section = refl
kind_of-canonical_section_name kind = refl

module _ (to_lower : ℕ → ℕ)
    (lowers : (r : ℕ) → is_plain r ≡ true → to_lower r ≡ lower_letter r) where
  map-lowers :
      (t : Text) → any (λ r. not (is_plain r)) t ≡ false → map to_lower t ≡ map lower_letter t
  map-lowers [] h = refl
  map-lowers (r ∷ rs) h =
      let plain : is_plain r ≡ true = ground arith in
      ap₂ ◌∷◌ (lowers r plain) (map-lowers rs (ground arith))

  -- Where ToLower lowers the ASCII and the Russian letters, MatchSection reads the canonical name of a section as that
  -- section.
  match_section-canonical_section_name :
      (kind : SectionKind) → match_section to_lower (canonical_section_name kind) ≡ kind
  unfolding match_section
  match_section-canonical_section_name kind =
      let plain = map-lowers (canonical_section_name kind) (canonical_section_name-is_plain kind) in
      ap (λ t. kind_of aliases (trim_space t)) plain ∙ kind_of-canonical_section_name kind
