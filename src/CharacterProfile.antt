-- ===== src/CharacterProfile.antt =====
-- internal/charprofile/charprofile.go: the sections of a character's SOUL, skill and memory files, to which facts are
-- appended. The YAML library is left out.
pub mod Growth
pub mod Replacing
use narrative_ai_agent.Prelude.{
  ℕ, Bool, true, false, not, ◌&&◌, ◌||◌, List, [], ◌∷◌, ◌++◌, if◌then◌else◌, any,
}
use narrative_ai_agent.Prelude.Text.{Text, lit, is_empty, trim_space, text_eq, contains_text}

pub record Section : Type 0 where
  pub name : Text
  pub values : List Text

pub record Soul : Type 0 where
  pub name : Text
  pub soul : Text
  pub sections : List Section

-- `Base`, which `Skill` and `Memory` share.
pub record Base : Type 0 where
  pub sections : List Section

abbrev pub skill_fixed_sections : List Text
skill_fixed_sections =
    lit "Ранг"
    ∷ lit "Оружие"
    ∷ lit "Базовые способности"
    ∷ lit "Фундаментальные стихии"
    ∷ lit "Особые проявления"
    ∷ lit "Универсальные навыки"
    ∷ lit "Ограничения"
    ∷ lit "Глаза"
    ∷ lit "Доспех"
    ∷ lit "permanent party"
    ∷ []

abbrev pub memory_fixed_sections : List Text
memory_fixed_sections =
    lit "Яркие моменты" ∷ lit "Факты о мире" ∷ lit "Обещания и цели" ∷ lit "Важные люди" ∷ []

-- Exact after trimming the stored value.
unfoldable pub contains_string : List Text → Text → Bool
unfolding trim_space text_eq
contains_string haystack needle = any (λ h. text_eq (trim_space h) needle) haystack

unfoldable pub is_enumerated : Text → Bool
unfolding text_eq
is_enumerated section =
    contains_text skill_fixed_sections section || contains_text memory_fixed_sections section

-- The loop over the sections: the first one of the name gets the value, a new one is put at the end.
unfoldable pub append_value : Text → Text → List Section → Bool × List Section
unfolding contains_string text_eq
append_value section value [] = (true, record { name = section; values = value ∷ [] } ∷ [])
append_value section value (s ∷ ss) =
    let (changed, rest) = append_value section value ss in
    if text_eq s.name section
    then (if contains_string s.values value
        then (false, s ∷ ss)
        else (true, record s { values = s.values ++ (value ∷ []) } ∷ ss))
    else (changed, s ∷ rest)

unfoldable pub append_into_sections : Bool → Text → Text → List Section → Bool × List Section
unfolding append_value is_enumerated trim_space
append_into_sections strict section value sections =
    if is_empty (trim_space section) || is_empty (trim_space value)
    then (false, sections)
    else if strict && not (is_enumerated (trim_space section))
    then (false, sections)
    else append_value (trim_space section) (trim_space value) sections

abbrev is_only : List Text → Text → Bool
is_only (v ∷ []) value = text_eq v value
is_only _ value = false

unfoldable pub replace_value : Text → Text → List Section → Bool × List Section
unfolding text_eq
replace_value section value [] = (false, [])
replace_value section value (s ∷ ss) =
    let (changed, rest) = replace_value section value ss in
    if text_eq s.name section
    then (if is_only s.values value
        then (false, s ∷ ss)
        else (true, record s { values = value ∷ [] } ∷ ss))
    else (changed, s ∷ rest)

unfoldable pub replace_section_into : Bool → Text → Text → List Section → Bool × List Section
unfolding replace_value is_enumerated trim_space
replace_section_into strict section value sections =
    if is_empty (trim_space section)
    then (false, sections)
    else if strict && not (is_enumerated (trim_space section))
    then (false, sections)
    else replace_value (trim_space section) (trim_space value) sections

abbrev pub append_soul : Text → Text → Soul → Bool × Soul
append_soul section value s =
    let (changed, sections) = append_into_sections false section value s.sections in
    (changed, record s { sections = sections })

-- `Append` of Skill and of Memory.
abbrev pub append_base : Text → Text → Base → Bool × Base
append_base section value b =
    let (changed, sections) = append_into_sections true section value b.sections in
    (changed, record b { sections = sections })
