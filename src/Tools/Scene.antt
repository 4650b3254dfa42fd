-- ===== src/Tools/Scene.antt =====
-- internal/usecase/tools/files/state.go: `AppendEvent`, `AppendHistoryToState`, `EndScene` and `RotatePlan`.
-- `strings.ToLower` and the layout of a time are parameters.
use narrative_ai_agent.Prelude.{
  ℕ, ◌-◌, Bool, Option, none, some, List, [], ◌∷◌, ◌++◌, if◌then◌else◌, keep, length, map, Result,
  ok, err,
}
use narrative_ai_agent.Prelude.Text.{Text, lit, is_empty, trim_space, contains_text}
use narrative_ai_agent.Repositories.{
  Info, Action, no_active_world, empty_world, pure, raise, ◌>>=◌, ◌>>◌, load_state, save_state,
}
use narrative_ai_agent.Repositories.Files.{append_event, replace_events}

-- `EndSceneResult`.
pub record EndSceneResult : Type 0 where
  pub kept_npcs : List Text
  pub pruned_npcs_len : ℕ

abbrev active_of : Result Text Info → Text
active_of (ok info) = info.active_world
active_of (err e) = []

-- `time.Time` as the text of `at.UTC().Format("2006-01-02 15:04")`.
abbrev history_entry : Text → Text → Text
history_entry at summary = lit "[history сжато " ++ at ++ lit " UTC]" ++ lit "\n" ++ summary

unfoldable append_history_to_state : Text → Text → Text → Action (Unit {0})
unfolding trim_space load_state save_state ◌>>=◌
append_history_to_state world summary at =
    if is_empty (trim_space summary)
    then pure tt
    else if is_empty world
    then raise empty_world
    else do
      st ← load_state world
      save_state world (record st { events = st.events ++ (history_entry at summary ∷ []) })

unfoldable pub rotate_plan : Text → List Text → Action (Unit {0})
unfolding replace_events
rotate_plan world events = replace_events world events

module _ (lower : Text → Text) where
  unfoldable append_event_tool : Text → Action (Unit {0})
  unfolding append_event
  append_event_tool text s =
      (if is_empty (active_of s.info)
          then raise no_active_world
          else append_event lower (active_of s.info) text)
        s

  -- The lowered and trimmed name of an NPC is one of the party's.
  unfoldable pub in_party : List Text → Text → Bool
  unfolding trim_space
  in_party party n = contains_text (map (λ p. lower (trim_space p)) party) (lower (trim_space n))

  pruned : List Text → List Text → List Text
  unfolding in_party
  pruned party roster = keep (in_party party) roster

  unfoldable pub end_scene : Text → Option (List Text) → Action EndSceneResult
  unfolding pruned load_state save_state ◌>>=◌
  end_scene world party = if is_empty world then raise empty_world else do
    st ← load_state world
    elim party [
      | none ↦ pure (record { kept_npcs = st.npcs; pruned_npcs_len = 0 })
      | some names ↦ do
        save_state world (record st { npcs = pruned names st.npcs })
        pure (record {
          kept_npcs = pruned names st.npcs;
          pruned_npcs_len = length st.npcs - length (pruned names st.npcs);
        })
    ]
