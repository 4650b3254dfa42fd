-- ===== src/Tools/State.antt =====
-- internal/usecase/tools/files/state.go: `UpdateState`, which writes the scene and grows the day's log.
-- `strings.ToLower` and the template of state.yaml are parameters.
pub mod Events
use narrative_ai_agent.Prelude.{
  Bool, true, false, ◌||◌, Option, none, some, List, [], ◌∷◌, ◌++◌, if◌then◌else◌, Result, ok, err,
  map,
}
use narrative_ai_agent.Prelude.Int.{ℤ}
use narrative_ai_agent.Prelude.Text.{Text, is_empty, trim_space, contains_text}
use narrative_ai_agent.Repositories.{
  Store, StateSnapshot, Info, Action, Error, no_active_world, render_failed, pure, raise, lift,
  ◌>>=◌, ◌>>◌, load_state, save_state,
}

-- `tools.StateSnapshot`; `none` is a nil slice.
pub record StateUpdate : Type 0 where
  pub world : Text
  pub day : ℤ
  pub in_flight : Bool
  pub location : Text
  pub moment : Text
  pub npcs : Option (List Text)
  pub append_events : List Text

abbrev or_npcs : List Text → Option (List Text) → List Text
or_npcs old none = old
or_npcs old (some new) = new

module _ (lower : Text → Text) (render : StateSnapshot → Result Text Text) where
  abbrev pub normalise_event_key : Text → Text
  normalise_event_key s = lower (trim_space s)

  -- The loop over the new events, with the keys that have been seen.
  unfoldable pub add_events : List Text → List Text → List Text → List Text
  add_events seen events [] = events
  add_events seen events (e ∷ es) =
      let key = normalise_event_key e in
      let skip = is_empty key || contains_text seen key in
      add_events (if skip then seen else key ∷ seen) (if skip then events else events ++ (e ∷ []))
        es

  unfoldable pub updated : StateUpdate → Text → StateSnapshot → StateSnapshot
  unfolding add_events
  updated snap world st = record st {
    world = world;
    day = snap.day;
    in_flight = snap.in_flight;
    location = snap.location;
    moment = snap.moment;
    npcs = or_npcs st.npcs snap.npcs;
    events = add_events (map normalise_event_key st.events) st.events snap.append_events;
  }

  rendered : StateSnapshot → Result Error Text
  rendered st = elim (render st) [ ok body ↦ ok body | err e ↦ err (render_failed e) ]

  update_named : StateUpdate → Text → Action (Unit {0})
  unfolding rendered updated
  update_named snap world = do
    st ← load_state world
    body ← lift (rendered (updated snap world st))
    save_state world (updated snap world st)

  -- The active world of the registry stands in for an empty one; a registry that cannot be read has
  -- none.
  active_world : Result Text Info → Text
  active_world (ok info) = info.active_world
  active_world (err e) = []

  world_or_active : Text → Result Text Info → Text
  unfolding active_world
  world_or_active [] info = active_world info
  world_or_active (c ∷ cs) info = c ∷ cs

  unfoldable pub update_state : StateUpdate → Action (Unit {0})
  unfolding update_named world_or_active
  update_state snap s =
      let world = world_or_active snap.world s.info in
      (if is_empty world then raise no_active_world else update_named snap world) s
