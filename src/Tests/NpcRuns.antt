-- ===== src/Tests/NpcRuns.antt =====
-- The NPC tool at concrete inputs.
use narrative_ai_agent.Prelude.{
  ◌≡◌, refl, Bool, true, false, Option, none, some, List, [], ◌∷◌, Result, ok, err,
}
use narrative_ai_agent.Prelude.Text.{Text, lit, is_empty, trim_space, trim_by, text_eq}
use narrative_ai_agent.Names.{transliterate}
use narrative_ai_agent.NpcProfile.{Profile}
use narrative_ai_agent.NpcProfile.Names.{lower_letter}
use narrative_ai_agent.WorldRegistry.{Entry}
use narrative_ai_agent.Tools.Npc.{NewProfile, NpcFiles, file_slug_of, create_npc}
use narrative_ai_agent.Tools.Npc.Roster.{create_npc-forgets}

-- A YAML library that reads one body and writes another.
abbrev pub unmarshal : Text → Result Text (List Entry)
unmarshal body = if_iruka (text_eq body (lit "iruka"))
  where
    if_iruka : Bool → Result Text (List Entry)
    if_iruka true =
        ok (record { slug = lit "iruka"; display_name = lit "Iruka"; nicknames = [] } ∷ [])
    if_iruka false = err (lit "not YAML")

abbrev pub marshal : List Entry → Result Text Text
marshal es = ok (lit "roster")

abbrev pub iruka : Profile
iruka = record {
  display_name = lit "Iruka";
  file_slug = lit "iruka";
  temperament = lit "kind";
  relations_gg = [];
  relations_npcs = [];
  abilities = lit "traps" ∷ [];
  personal_memory = [];
  current_status = [];
  critical_knowledge = [];
  nicknames = [];
  last_update = [];
}

abbrev pub found_in : Bool → Result Text (Option Profile)
found_in true = ok (some iruka)
found_in false = ok none

abbrev pub files : Text → NpcFiles
files roster = record {
  profiles = λ world slug. found_in (text_eq slug (lit "iruka"));
  rosters = λ world. ok roster;
  profile_fault = λ world slug. false;
  roster_fault = λ world. false;
}

abbrev mizuki : NewProfile
mizuki = record {
  display_name = lit "Мизуки Сэнсэй";
  nicknames = [];
  temperament = lit "cold";
  relations = lit "Iruka: envy\n";
  abilities = lit "- shuriken" ∷ [];
  personal_memory = [];
  current_status = [];
  critical_knowledge = lit "- the scroll";
  last_update = [];
}

mizuki_slug :
    file_slug_of lower_letter text_eq unmarshal marshal true (lit "Мизуки Сэнсэй")
    ≡ lit "mizuki-sensey"
unfolding file_slug_of trim_space trim_by transliterate
mizuki_slug = refl

garbled_is_given : is_empty (trim_space (lit "garbled")) ≡ false
unfolding trim_space trim_by
garbled_is_given = refl

slug_is_given : is_empty (trim_space (lit "mizuki-sensey")) ≡ false
unfolding trim_space trim_by
slug_is_given = refl

create_npc-forgets_example :
    let (result, t) =
      create_npc lower_letter text_eq unmarshal marshal true
        (lit "leaf")
        mizuki
        (files (lit "garbled")) in
    (result ≡ ok tt) × (t.rosters (lit "leaf") ≡ ok (lit "roster"))
unfolding text_eq
create_npc-forgets_example =
    create_npc-forgets lower_letter text_eq unmarshal marshal (files (lit "garbled")) (lit "leaf")
      (lit "garbled") (lit "not YAML") (lit "roster") (lit "mizuki-sensey") mizuki refl refl
      garbled_is_given refl mizuki_slug slug_is_given refl refl refl refl
