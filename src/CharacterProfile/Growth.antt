-- ===== src/CharacterProfile/Growth.antt =====
-- Appending loses nothing, and repeats nothing.
use narrative_ai_agent.Prelude.{
  ◌≡◌, refl, sym, ap, ◌∙◌, Bool, not, ◌||◌, ◌&&◌, List, [], ◌∷◌, ◌++◌, append-nil, append_assoc,
  Bool-cases, inl, inr,
}
use narrative_ai_agent.Prelude.Text.{Text, is_empty, trim_space, text_eq}
use narrative_ai_agent.CharacterProfile.{
  Section, contains_string, is_enumerated, append_value, append_into_sections,
}

-- The same sections in the same order, each with the same values and perhaps more of them behind, and perhaps more
-- sections behind.
pub data Extends : List Section → List Section → Type 0 where
  more : (new : List Section) → Extends [] new
  longer :
      {s t : Section} {ss ts : List Section}
      → (suffix : List Text) → t.name ≡ s.name
      → t.values ≡ s.values ++ suffix
      → Extends ss ts
      → Extends (s ∷ ss) (t ∷ ts)

pub Extends-refl : (ss : List Section) → Extends ss ss
Extends-refl [] = more []
Extends-refl (s ∷ ss) = longer [] refl (sym (append-nil s.values)) (Extends-refl ss)

pub Extends-trans : {a b c : List Section} → Extends a b → Extends b c → Extends a c
Extends-trans (more new) second = more _
Extends-trans (longer suffix name values rest) (longer suffix' name' values' rest') =
    longer (suffix ++ suffix') (name' ∙ name)
      (values' ∙ ap (λ v. v ++ suffix') values ∙ append_assoc _ suffix suffix')
      (Extends-trans rest rest')

append_value-Extends :
    (section value : Text) (ss : List Section) → Extends ss (append_value section value ss).1
unfolding append_value
append_value-Extends section value [] = more _
append_value-Extends section value (s ∷ ss) = elim (Bool-cases (text_eq s.name section)) [
  | inl here ↦ elim (Bool-cases (contains_string s.values value)) [
    | inl known ↦ rw (append_value, here, known) (Extends-refl (s ∷ ss))
    | inr new ↦ rw (append_value, here, new) (longer (value ∷ []) refl refl (Extends-refl ss))
  ]
  | inr there ↦
      rw (append_value, there)
        (longer [] refl (sym (append-nil s.values)) (append_value-Extends section value ss))
]

pub append_into_sections-Extends :
    (strict : Bool) (section value : Text) (ss : List Section)
    → Extends ss (append_into_sections strict section value ss).1
unfolding append_into_sections
append_into_sections-Extends strict section value ss =
    elim (Bool-cases (is_empty (trim_space section) || is_empty (trim_space value))) [
      | inl blank ↦ rw blank (Extends-refl ss)
      | inr full ↦ elim (Bool-cases (strict && not (is_enumerated (trim_space section)))) [
        | inl unknown ↦ rw (full, unknown) (Extends-refl ss)
        | inr fine ↦
            rw (full, fine) (append_value-Extends (trim_space section) (trim_space value) ss)
      ]
    ]
