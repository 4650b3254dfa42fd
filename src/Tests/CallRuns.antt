-- ===== src/Tests/CallRuns.antt =====
-- The calls of the tools at concrete inputs.
use narrative_ai_agent.Prelude.{
  ◌≡◌, refl, ℕ, zero, suc, true, false, none, some, List, [], ◌∷◌, ok, err,
}
use narrative_ai_agent.Prelude.Int.{pos}
use narrative_ai_agent.Prelude.Text.{Text, lit, trim_space, trim_by, text_eq}
use narrative_ai_agent.CharacterProfile.{Section}
use narrative_ai_agent.Repositories.{Store, StateSnapshot, Info}
use narrative_ai_agent.Directives.{Args, get}
use narrative_ai_agent.Tools.Archive.{wired}
use narrative_ai_agent.Tools.Npc.{NpcFiles}
use narrative_ai_agent.Tools.Npc.Memory.{Kept}
use narrative_ai_agent.Tools.Character.{CharacterFiles, memory_file}
use narrative_ai_agent.Tools.Character.Facts.{Has}
use narrative_ai_agent.Tools.Maintain.{Maintenance, maintain_npcs, maintain_listed}
use narrative_ai_agent.Tools.Maintain.Shrinks.{Shrunk, maintain_npcs-Shrunk}
use narrative_ai_agent.Tools.Calls.{
  refuse, World, Backend, Fields, text_value, bool_value, said, field, to_texts,
}
use narrative_ai_agent.Tools.Calls.Scenes.{call_update_state}
use narrative_ai_agent.Tools.Calls.Dispatch.{dispatch_named, handled, handlers}
use narrative_ai_agent.Tools.Calls.Directives.{run_directive, directive_handlers}
use narrative_ai_agent.Tools.Calls.Agree.{as_fields, run_directive-dispatch_named}
use narrative_ai_agent.Tools.Calls.Clears.{call_update_state-clears}
use narrative_ai_agent.Tools.Calls.Kept.Runs.{
  Event, tool_event, text_event, run_events, run_events-Kept,
}
use narrative_ai_agent.Tests.StagingRuns.{reads_story}
use narrative_ai_agent.Tests.StoreRuns.{konoha, snapshot, store, idle, lower_letter}
use narrative_ai_agent.Tests.NpcRuns.{iruka, files, unmarshal, marshal}

-- A model that forgets everything that is personal.
abbrev forgetful : Maintenance
forgetful = record {
  list_children = λ dir. ok (lit "iruka.yaml" ∷ []);
  save_npc = λ p. ok (lit "a long profile");
  load_npc = λ body. ok (record iruka { personal_memory = [] });
  summarize_npc = some (λ name world body. ok (lit "short"));
  summarize_lore = none;
  save_memory = λ m. ok (lit "memory");
  load_memory = λ body. ok (record { sections = [] });
  summarize_memory = none;
  marshal_chronicle = λ c. ok (lit "chronicle");
}

abbrev backend : Backend
backend = record {
  to_lower = lower_letter;
  equal_fold = text_eq;
  read_roster = unmarshal;
  write_roster = marshal;
  render = λ st. ok (lit "body");
  hooks = wired (λ c. ok (lit "chronicle")) none;
  show_int = λ n. lit "n";
  read_staging = reads_story;
  staging_files = λ world. ok (lit "y");
  maintenance = forgetful;
}

abbrev people : List Section
people = record { name = lit "Важные люди"; values = lit "Ирука" ∷ [] } ∷ []

abbrev character_files : CharacterFiles
character_files = record {
  souls = λ c. err (lit "no soul");
  skills = λ c. ok (record { sections = [] });
  memories = λ c. ok (record { sections = people });
  inventories = λ c. ok (record { currency = []; items = [] });
  file_fault = λ kind c. false;
}

abbrev registry : Info
registry = record {
  active_character = lit "naruto";
  active_world = konoha;
  characters = [];
  worlds = [];
}

abbrev played : Store
played = record (store idle) {
  info = ok registry;
  states = λ w. ok (record (snapshot idle) { location = lit "полигон"; npcs = lit "iruka" ∷ [] });
}

abbrev world : World
world = record {
  store = played;
  npcs = files (lit "iruka");
  characters = character_files;
  day = pos 1;
  chats = lit "1" ∷ [];
  searches = λ query. none;
  turn_counter = 3;
  rate_window = 5;
}

abbrev memory_args : Args
memory_args = (lit "section", lit "Важные люди") ∷ (lit "append", lit "Хината") ∷ []

abbrev npc_fields : Fields
npc_fields =
    (lit "npc", text_value (lit "iruka"))
    ∷ (lit "section", text_value (lit "abilities"))
    ∷ (lit "append", text_value (lit "seals"))
    ∷ []

abbrev events : List Event
events =
    tool_event (lit "update_npc") (ok npc_fields)
    ∷ text_event konoha (record { kind = lit "update_memory"; args = memory_args; raw = [] } ∷ [])
    ∷ tool_event (lit "end_scene") (err (lit "no JSON"))
    ∷ []

run_events-Kept_example :
    Kept (run_events backend events world).npcs (lit "leaf") (lit "iruka") iruka
    × Has (run_events backend events world).characters memory_file (lit "naruto") people
unfolding text_eq
run_events-Kept_example =
    run_events-Kept backend events world (lit "leaf") (lit "iruka") iruka memory_file (lit "naruto")
      people (refl, (tt, (refl, tt))) refl refl

run_directive-dispatch_named_example :
    (run_directive backend
      (directive_handlers backend konoha)
      (lit "update_memory")
      memory_args
      world).1
    ≡ (dispatch_named backend (lit "update_memory") (ok (as_fields memory_args)) world).1
unfolding text_eq get trim_space trim_by
run_directive-dispatch_named_example =
    run_directive-dispatch_named backend konoha (lit "update_memory") memory_args world refl refl

abbrev stage_fields : Fields
stage_fields = (lit "next", text_value (lit "w")) ∷ []

update_stage_unknown :
    dispatch_named backend (lit "update_stage") (ok stage_fields) world
    ≡ (err (said (lit "unknown tool: update_stage")), world)
unfolding dispatch_named handled handlers text_eq refuse
update_stage_unknown = refl

-- The call says nothing about who is there.
abbrev moment_fields : Fields
moment_fields = (lit "moment", text_value (lit "утро")) ∷ (lit "in_flight", bool_value true) ∷ []

call_update_state-clears_example :
    (st' : StateSnapshot) × ((call_update_state backend moment_fields world).1.store.states konoha
      ≡ ok st')
    × (st'.location ≡ [])
    × (st'.npcs ≡ [])
    × (st'.day ≡ pos 1)
unfolding field to_texts text_eq
call_update_state-clears_example =
    call_update_state-clears backend moment_fields world registry
      (record (snapshot idle) { location = lit "полигон"; npcs = lit "iruka" ∷ [] }) refl refl
      (λ e. cc) refl (λ x. (lit "body", refl)) refl

-- 25 memories, which is as many as a profile may not have.
abbrev many : ℕ → List Text
many zero = []
many (suc n) = lit "m" ∷ many n

abbrev full_files : NpcFiles
full_files = record (files (lit "iruka")) {
  profiles = λ w slug. ok (some (record iruka { personal_memory = many 25 }));
}

maintain_npcs-Shrunk_example : Shrunk full_files (maintain_npcs forgetful konoha full_files).1
maintain_npcs-Shrunk_example = maintain_npcs-Shrunk forgetful konoha full_files

iruka_forgets :
    (maintain_npcs forgetful konoha full_files).1.profiles konoha (lit "iruka")
    ≡ ok (some (record iruka { personal_memory = [] }))
unfolding maintain_npcs maintain_listed text_eq
iruka_forgets = refl
