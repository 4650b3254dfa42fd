-- ===== src/Tools/Calls/Kept/Runs.antt =====
-- Sequences of calls and directives.
use narrative_ai_agent.Prelude.{◌≡◌, false, some, List, [], ◌∷◌, All, Result, ok, err}
use narrative_ai_agent.Prelude.Text.{Text, lit, text_eq}
use narrative_ai_agent.CharacterProfile.{Section}
use narrative_ai_agent.NpcProfile.{Profile}
use narrative_ai_agent.Directives.{ExtractedCommand}
use narrative_ai_agent.Tools.Npc.Memory.{Kept}
use narrative_ai_agent.Tools.Character.{CharacterFile}
use narrative_ai_agent.Tools.Character.Facts.{sections_of, Has}
use narrative_ai_agent.Tools.Calls.{Fields, World, Backend, refuse}
use narrative_ai_agent.Tools.Calls.Dispatch.{dispatch_named}
use narrative_ai_agent.Tools.Calls.Directives.{
  execute_extracted_commands, run_directive, directive_handlers,
}
use narrative_ai_agent.Tools.Calls.Kept.{Keeps, Keeps-refl, Keeps-trans}
use narrative_ai_agent.Tools.Calls.Kept.Handlers.{handlers-Safe}
use narrative_ai_agent.Tools.Calls.Kept.Written.{directive_handlers-Safe}

-- What the model does: it calls a tool, with arguments that can be read or not, or it writes directives.
pub data Event : Type 0 where
  tool_event : Text → Result Text Fields → Event
  text_event : Text → List ExtractedCommand → Event

-- A call that does not end the day.
abbrev pub GoesOn : Event → Type 0
GoesOn (tool_event name args) = text_eq (lit "end_day") name ≡ false
GoesOn (text_event world commands) = Unit

module _ (b : Backend) where
  unfoldable pub run_event : Event → World → World
  unfolding dispatch_named execute_extracted_commands
  run_event (tool_event name args) w = (dispatch_named b name args w).1
  run_event (text_event world commands) w = (execute_extracted_commands b world commands w).1

  unfoldable pub run_events : List Event → World → World
  unfolding run_event
  run_events [] w = w
  run_events (event ∷ events) w = run_events events (run_event event w)

  execute-Keeps :
      (world : Text) (commands : List ExtractedCommand) (w : World)
      → Keeps w (execute_extracted_commands b world commands w).1
  unfolding execute_extracted_commands
  execute-Keeps world [] w = Keeps-refl w
  execute-Keeps world (c ∷ cs) w =
      let v = (run_directive b (directive_handlers b world) c.kind c.args w).1 in
      Keeps-trans w v (execute_extracted_commands b world cs v).1
        ((directive_handlers-Safe b world c.kind c.args).keeps w) (execute-Keeps world cs v)

  run_event-Keeps : (event : Event) (w : World) → GoesOn event → Keeps w (run_event event w)
  unfolding run_event dispatch_named refuse
  run_event-Keeps (tool_event name (err e)) w goes_on = Keeps-refl w
  run_event-Keeps (tool_event name (ok args)) w goes_on =
      (handlers-Safe b name args goes_on).keeps w
  run_event-Keeps (text_event world commands) w goes_on = execute-Keeps world commands w

  run_events-Keeps :
      (events : List Event) (w : World) → All GoesOn events → Keeps w (run_events events w)
  unfolding run_events
  run_events-Keeps [] w go_on = Keeps-refl w
  run_events-Keeps (event ∷ events) w go_on =
      Keeps-trans w (run_event event w) (run_events events (run_event event w))
        (run_event-Keeps event w go_on.0) (run_events-Keeps events (run_event event w) go_on.1)

  -- Whatever tools the model calls and whatever directives it writes, as long as it does not end the day: an NPC that has
  -- a profile keeps its name, its slug, its abilities, memories, critical knowledge and nicknames, and a file of a
  -- character that loads keeps its sections and their values. New ones only come behind.
  pub run_events-Kept :
      (events : List Event) (w : World)
      → (world slug : Text) (p : Profile) (kind : CharacterFile) (character : Text)
        (ss : List Section)
      → All GoesOn events
      → w.npcs.profiles world slug ≡ ok (some p)
      → sections_of kind character w.characters ≡ some ss
      → Kept (run_events events w).npcs world slug p
        × Has (run_events events w).characters kind character ss
  run_events-Kept events w world slug p kind character ss go_on holds found =
      let (npcs, characters) = run_events-Keeps events w go_on in
      (npcs world slug p holds, characters kind character ss found)
