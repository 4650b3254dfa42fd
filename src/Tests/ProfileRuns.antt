-- ===== src/Tests/ProfileRuns.antt =====
-- The profiles of characters and NPCs at concrete inputs.
use narrative_ai_agent.Prelude.{◌≡◌, refl, true, false, [], ◌∷◌}
use narrative_ai_agent.Prelude.Text.{lit, trim_space, trim_by, text_eq}
use narrative_ai_agent.CharacterProfile.{append_into_sections}
use narrative_ai_agent.NpcProfile.{Profile, relations_npcs_section, update_section}
use narrative_ai_agent.NpcProfile.Names.{lower_letter}
use narrative_ai_agent.NpcProfile.Updates.{update_section-again}

-- The rank is a section of the skill file, and a strict append takes it all the same.
rank_is_taken :
    append_into_sections true (lit "Ранг") (lit "генин") []
    ≡ (true, record { name = lit "Ранг"; values = lit "генин" ∷ [] } ∷ [])
unfolding append_into_sections trim_space trim_by text_eq
rank_is_taken = refl

abbrev hinata : Profile
hinata = record {
  display_name = lit "Hinata";
  file_slug = lit "hinata";
  temperament = lit "quiet";
  relations_gg = [];
  relations_npcs = record { target = lit "Neji"; note = lit "cousin" } ∷ [];
  abilities = [];
  personal_memory = [];
  current_status = [];
  critical_knowledge = [];
  nicknames = [];
  last_update = [];
}

update_section-again_example :
    let p' = (update_section lower_letter relations_npcs_section (lit "neji: rival") hinata).1 in
    update_section lower_letter relations_npcs_section (lit "neji: rival") p' ≡ (false, p')
update_section-again_example =
    update_section-again lower_letter relations_npcs_section (lit "neji: rival") hinata

-- The note of the relation is replaced, up to the case of the target.
neji_is_a_rival :
    (update_section lower_letter relations_npcs_section (lit "neji: rival") hinata).1.relations_npcs
    ≡ record { target = lit "Neji"; note = lit "rival" } ∷ []
unfolding update_section trim_space trim_by text_eq
neji_is_a_rival = refl
