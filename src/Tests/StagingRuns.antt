-- ===== src/Tests/StagingRuns.antt =====
-- A small story graph, and the tools on a store that holds it.
use narrative_ai_agent.Prelude.{◌≡◌, refl, ◌⊎◌, true, some, [], ◌∷◌, Result, ok, err}
use narrative_ai_agent.Prelude.Int.{pos, ◌+ℤ◌}
use narrative_ai_agent.Prelude.Text.{Text, lit, trim_space, text_eq, atoi}
use narrative_ai_agent.Staging.Days.{
  StagingFile, StageYaml, TimelineYaml, TransitionYaml, parse_days_range,
}
use narrative_ai_agent.Staging.Graph.{IsLoaded, load-IsLoaded, apply_pending-total}
use narrative_ai_agent.Staging.Validation.{IsClosed, validate-IsClosed}
use narrative_ai_agent.Staging.{
  Staging, StageRuntime, load, load_enabled, validate, validate_enabled, update_stage,
  advance_timeline, apply_pending, unknown_transition, to_stage,
}

abbrev pub point : Text → Text → TimelineYaml
point days info = record { days = days; info = info; description = lit "d" }

abbrev edge : Text → TransitionYaml
edge id = record { id = id; requirements = lit "r" ∷ [] }

abbrev pub prologue : StageYaml
prologue = record {
  id = lit "p";
  name = lit "Prologue";
  description = [];
  timeline = point (lit "1-2") (lit "i") ∷ point (lit "3") (lit "j") ∷ [];
  next = edge (lit "w") ∷ [];
}

abbrev pub war : StageYaml
war = record {
  id = lit "w";
  name = lit "War";
  description = [];
  timeline = [];
  next = edge (lit "p") ∷ [];
}

abbrev pub story : StagingFile
story = record { enabled = true; init = lit "p" ∷ []; stages = prologue ∷ war ∷ [] }

abbrev pub reads_story : Text → Result Text StagingFile
reads_story body = ok story

range_runs : parse_days_range (lit " 3 - 14 ") ≡ some (pos 3, pos 14)
unfolding parse_days_range trim_space atoi
range_runs = refl

story_valid : validate story ≡ ok tt
unfolding validate validate_enabled parse_days_range trim_space text_eq atoi
story_valid = refl

validate-IsClosed_example : IsClosed story.stages
validate-IsClosed_example = validate-IsClosed story refl story_valid

dangling_refused :
    validate (record story { stages = record prologue { next = edge (lit "x") ∷ [] } ∷ war ∷ [] })
    ≡ err (unknown_transition (lit "p") (lit "x"))
unfolding validate validate_enabled parse_days_range trim_space text_eq atoi
dangling_refused = refl

abbrev pub at_start : StageRuntime
at_start = record { current = lit "p"; timeline_index = pos 0; next = lit "w" }

-- The graph at the start, with the war pending.
abbrev pub pending_graph : Staging
pending_graph = record {
  enabled = true;
  current = to_stage prologue;
  timeline_index = pos 0;
  next = lit "w";
  raw = story;
}

pub graph_loads : load reads_story (ok (lit "y")) at_start ≡ ok pending_graph
unfolding load load_enabled to_stage validate validate_enabled parse_days_range trim_space text_eq
    atoi
graph_loads = refl

load-IsLoaded_example : IsLoaded pending_graph
load-IsLoaded_example =
    load-IsLoaded reads_story (ok (lit "y")) at_start pending_graph graph_loads refl

graph_updates : update_stage pending_graph (lit "w") ≡ ok pending_graph
unfolding update_stage to_stage trim_space text_eq
graph_updates = refl

-- The graph after one step along the timeline.
abbrev second_point : Staging
second_point = record pending_graph { timeline_index = pos 1 }

graph_advances : advance_timeline pending_graph ≡ ok second_point
unfolding advance_timeline to_stage ◌+ℤ◌
graph_advances = refl

apply_pending-total_example :
    (t : Staging) × (apply_pending pending_graph ≡ ok t)
    × IsLoaded t
    × (t.next ≡ [])
    × ((pending_graph.next ≡ []) × (t ≡ pending_graph)
        ⊎ (t.current.id ≡ pending_graph.next) × (t.timeline_index ≡ pos 0))
apply_pending-total_example = apply_pending-total pending_graph load-IsLoaded_example
