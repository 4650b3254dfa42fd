-- ===== src/CharacterProfile/Replacing.antt =====
-- What replacing the values of a section leaves alone.
use narrative_ai_agent.Prelude.{
  ◌≡◌, refl, Bool, not, ◌&&◌, List, [], ◌∷◌, arith, Bool-cases, inl, inr, map, keep,
}
use narrative_ai_agent.Prelude.Text.{Text, is_empty, trim_space, text_eq}
use narrative_ai_agent.CharacterProfile.{
  Section, is_enumerated, replace_value, replace_section_into, is_only,
}

-- The sections of other names.
abbrev others_than : Text → List Section → List Section
others_than name ss = keep (λ s. not (text_eq s.name name)) ss

replace_value-frame :
    (section value : Text) (ss : List Section)
    → (map Section.name (replace_value section value ss).1 ≡ map Section.name ss)
      × (others_than section (replace_value section value ss).1 ≡ others_than section ss)
unfolding replace_value
replace_value-frame section value [] = (refl, refl)
replace_value-frame section value (s ∷ ss) = elim (Bool-cases (text_eq s.name section)) [
  | inl here ↦ elim (Bool-cases (is_only s.values value)) [
    | inl same ↦ (ground arith, ground arith)
    | inr other ↦ (ground arith, ground arith)
  ]
  | inr there ↦
      let (names, rest) = replace_value-frame section value ss in
      (ground (arith, names), ground (arith, rest))
]

-- ReplaceSection makes no section and drops none: the names are the same in the same order, and the sections of other
-- names are as before, values and all.
replace_section_into-frame :
    (strict : Bool) (section value : Text) (ss : List Section)
    → let ss' = (replace_section_into strict section value ss).1 in
      (map Section.name ss' ≡ map Section.name ss)
      × (others_than (trim_space section) ss' ≡ others_than (trim_space section) ss)
unfolding replace_section_into
replace_section_into-frame strict section value ss =
    elim (Bool-cases (is_empty (trim_space section))) [
      | inl blank ↦ rw blank (refl, refl)
      | inr full ↦ elim (Bool-cases (strict && not (is_enumerated (trim_space section)))) [
        | inl unknown ↦ rw (full, unknown) (refl, refl)
        | inr fine ↦
            rw (full, fine) (replace_value-frame (trim_space section) (trim_space value) ss)
      ]
    ]
