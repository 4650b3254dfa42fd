-- ===== src/NpcProfile.antt =====
-- internal/npcprofile/yaml.go: the profile of an NPC and its sections. `unicode.ToLower` is a parameter; the YAML library
-- and the templates are left out.
pub mod Names
pub mod Updates
use narrative_ai_agent.Prelude.{
  ℕ, ◌+◌, Bool, true, false, not, ◌&&◌, ◌||◌, List, [], ◌∷◌, ◌++◌, if◌then◌else◌, leb, ◌==◌, any,
  keep, map, length, take, is_nil,
}
use narrative_ai_agent.Prelude.Text.{Text, lit, is_empty, trim_space, text_eq, contains_text, join}

pub record Relation : Type 0 where
  pub target : Text
  pub note : Text

pub record Profile : Type 0 where
  pub display_name : Text
  pub file_slug : Text
  pub temperament : Text
  pub relations_gg : Text
  pub relations_npcs : List Relation
  pub abilities : List Text
  pub personal_memory : List Text
  pub current_status : Text
  pub critical_knowledge : List Text
  pub nicknames : List Text
  pub last_update : Text

pub data SectionKind : Type 0 where
  unknown_section : SectionKind
  temperament_section : SectionKind
  relations_gg_section : SectionKind
  relations_npcs_section : SectionKind
  abilities_section : SectionKind
  personal_memory_section : SectionKind
  current_status_section : SectionKind
  critical_knowledge_section : SectionKind
  nicknames_section : SectionKind
  last_update_section : SectionKind

unfoldable pub canonical_section_name : SectionKind → Text
canonical_section_name temperament_section = lit "Темперамент"
canonical_section_name relations_gg_section = lit "Отношения с ГГ"
canonical_section_name relations_npcs_section = lit "Отношения с другими NPC"
canonical_section_name abilities_section = lit "Способности"
canonical_section_name personal_memory_section = lit "Личная память/факты"
canonical_section_name current_status_section = lit "Текущий статус"
canonical_section_name critical_knowledge_section = lit "Критические знания"
canonical_section_name nicknames_section = lit "Никнеймы"
canonical_section_name last_update_section = lit "Последнее обновление"
canonical_section_name unknown_section = []

-- The cases of the switch, in their order.
abbrev aliases : List (SectionKind × List Text)
aliases =
    (temperament_section, lit "темперамент" ∷ lit "temperament" ∷ lit "temper" ∷ [])
    ∷ (
      relations_gg_section,
      lit "отношения с гг"
          ∷ lit "relations_gg"
          ∷ lit "relations gg"
          ∷ lit "relationsgg"
          ∷ lit "gg"
          ∷ lit "отношения с главным"
          ∷ lit "к гг"
          ∷ [],
    )
    ∷ (
      relations_npcs_section,
      lit "отношения с другими npc"
          ∷ lit "отношения с npc"
          ∷ lit "relations_npcs"
          ∷ lit "npc relations"
          ∷ lit "npc_relations"
          ∷ lit "отношения"
          ∷ lit "к другим npc"
          ∷ [],
    )
    ∷ (
      abilities_section,
      lit "способности" ∷ lit "abilities" ∷ lit "умения" ∷ lit "навыки" ∷ lit "skills" ∷ [],
    )
    ∷ (
      personal_memory_section,
      lit "личная память"
          ∷ lit "личная память/факты"
          ∷ lit "память"
          ∷ lit "факты"
          ∷ lit "personal memory"
          ∷ lit "personal_memory"
          ∷ lit "memory"
          ∷ [],
    )
    ∷ (
      current_status_section,
      lit "текущий статус"
          ∷ lit "статус"
          ∷ lit "current status"
          ∷ lit "current_status"
          ∷ lit "status"
          ∷ [],
    )
    ∷ (
      critical_knowledge_section,
      lit "критические знания"
          ∷ lit "знания"
          ∷ lit "секреты"
          ∷ lit "critical knowledge"
          ∷ lit "critical_knowledge"
          ∷ lit "secrets"
          ∷ [],
    )
    ∷ (
      nicknames_section,
      lit "никнеймы" ∷ lit "nicknames" ∷ lit "клички" ∷ lit "nickname" ∷ lit "прозвища" ∷ [],
    )
    ∷ (
      last_update_section,
      lit "последнее обновление"
          ∷ lit "last update"
          ∷ lit "last_update"
          ∷ lit "обновление"
          ∷ lit "update"
          ∷ [],
    )
    ∷ []

kind_of : List (SectionKind × List Text) → Text → SectionKind
unfolding text_eq
kind_of [] name = unknown_section
kind_of ((kind, names) ∷ rest) name =
    let later = kind_of rest name in if contains_text names name then kind else later

-- Two texts around the first colon, trimmed, or the whole text.
before_colon : Text → Text
before_colon [] = []
before_colon (c ∷ cs) = let rest = before_colon cs in if c == b':' then [] else c ∷ rest

after_colon : Text → Text
after_colon [] = []
after_colon (c ∷ cs) = let rest = after_colon cs in if c == b':' then cs else rest

unfoldable pub split_relation_text : Text → Text × Text
unfolding before_colon after_colon trim_space
split_relation_text s = (trim_space (before_colon s), trim_space (after_colon s))

unfoldable pub append_unique : List Text → Text → Bool × List Text
unfolding trim_space text_eq
append_unique field text =
    if is_empty (trim_space text) || contains_text field (trim_space text)
    then (false, field)
    else (true, field ++ (trim_space text ∷ []))

-- A scalar field, with the text that has been trimmed.
unfoldable pub replace_scalar : Text → Text → Bool × Text
unfolding text_eq
replace_scalar old text = if is_empty text || text_eq old text then (false, old) else (true, text)

unfoldable pub truncate_rune : Text → ℕ → Text
truncate_rune s max_runes =
    if max_runes == 0
    then []
    else if leb (length s) max_runes
    then s
    else take max_runes s ++ lit "…"

module _ (to_lower : ℕ → ℕ) where
  unfoldable pub match_section : Text → SectionKind
  unfolding kind_of trim_space
  match_section name = kind_of aliases (trim_space (map to_lower name))

  unfoldable pub fold_key : Text → Text
  unfolding trim_space
  fold_key t = map to_lower (trim_space t)

  unfoldable pub append_memory : List Text → Text → Bool × List Text
  unfolding fold_key text_eq
  append_memory memory text =
      if is_empty text || any (λ existing. text_eq (fold_key existing) (map to_lower text)) memory
      then (false, memory)
      else (true, memory ++ (text ∷ []))

  unfoldable pub put_relation : Text → Text → List Relation → Bool × List Relation
  unfolding fold_key text_eq
  put_relation target note [] = (true, record { target = target; note = note } ∷ [])
  put_relation target note (r ∷ rs) =
      let (changed, rest) = put_relation target note rs in
      if text_eq (fold_key r.target) (fold_key target)
      then (if text_eq r.note note then (false, r ∷ rs) else (true, record r { note = note } ∷ rs))
      else (changed, r ∷ rest)

  unfoldable pub update_relation : List Relation → Text → Bool × List Relation
  unfolding put_relation split_relation_text
  update_relation relations text =
      let (target, note) = split_relation_text text in
      if is_empty text || is_empty target
      then (false, relations)
      else put_relation target note relations

  -- With the text that has been trimmed.
  unfoldable pub update_trimmed : SectionKind → Text → Profile → Bool × Profile
  unfolding replace_scalar append_unique append_memory update_relation
  update_trimmed temperament_section text p =
      let (changed, new) = replace_scalar p.temperament text in
      (changed, record p { temperament = new })
  update_trimmed relations_gg_section text p =
      let (changed, new) = replace_scalar p.relations_gg text in
      (changed, record p { relations_gg = new })
  update_trimmed current_status_section text p =
      let (changed, new) = replace_scalar p.current_status text in
      (changed, record p { current_status = new })
  update_trimmed last_update_section text p =
      let (changed, new) = replace_scalar p.last_update text in
      (changed, record p { last_update = new })
  update_trimmed abilities_section text p =
      let (changed, new) = append_unique p.abilities text in (changed, record p { abilities = new })
  update_trimmed personal_memory_section text p =
      let (changed, new) = append_memory p.personal_memory text in
      (changed, record p { personal_memory = new })
  update_trimmed critical_knowledge_section text p =
      let (changed, new) = append_unique p.critical_knowledge text in
      (changed, record p { critical_knowledge = new })
  update_trimmed nicknames_section text p =
      let (changed, new) = append_unique p.nicknames text in (changed, record p { nicknames = new })
  update_trimmed relations_npcs_section text p =
      let (changed, new) = update_relation p.relations_npcs text in
      (changed, record p { relations_npcs = new })
  update_trimmed unknown_section text p = (false, p)

  unfoldable pub update_section : SectionKind → Text → Profile → Bool × Profile
  unfolding update_trimmed trim_space
  update_section kind text p = update_trimmed kind (trim_space text) p

labelled : Text → Text → Text
unfolding trim_space
labelled label field =
    if is_empty (trim_space field) then [] else label ++ trim_space field ++ lit "\n"

targets : List Relation → List Text
unfolding trim_space
targets relations = keep (λ t. not (is_empty t)) (map (λ r. trim_space r.target) relations)

unfoldable pub build_compact : Profile → Text
unfolding labelled targets trim_space join
build_compact p = trim_space (
    lit "## "
    ++ trim_space p.display_name
    ++ lit "\n"
    ++ labelled (lit "Темперамент: ") p.temperament
    ++ labelled (lit "К ГГ: ") p.relations_gg
    ++ labelled (lit "Текущий статус: ") p.current_status
    ++ (if is_nil (targets p.relations_npcs)
        then []
        else lit "Связи: " ++ join (lit ", ") (targets p.relations_npcs) ++ lit "\n")
    ++ labelled (lit "Свежее: ") p.last_update)

unfoldable pub build_one_line : Profile → Text
unfolding truncate_rune trim_space
build_one_line p = trim_space (
    trim_space p.display_name
    ++ (if is_empty (trim_space p.temperament)
        then []
        else lit "\n" ++ truncate_rune (trim_space p.temperament) 120 ++ lit ".")
    ++ (if is_empty (trim_space p.current_status)
        then []
        else lit "\nСейчас: " ++ truncate_rune (trim_space p.current_status) 120))
