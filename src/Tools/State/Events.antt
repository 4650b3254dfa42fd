-- ===== src/Tools/State/Events.antt =====
-- The day's log does not repeat itself.
use narrative_ai_agent.Prelude.{
  ◌≡◌, ◌≢◌, refl, sym, ◌∙◌, false, ◌||◌, List, [], ◌∷◌, ◌++◌, Result, ok, err, arith, map,
  append-nil, append_assoc, Bool-cases, inl, inr,
}
use narrative_ai_agent.Prelude.Text.{Text, is_empty, is_empty_iff, contains_text, text_eq_refl}
use narrative_ai_agent.Repositories.{
  Store, StateSnapshot, Info, ◌>>=◌, raise, lift, load_state, save_state, state_file,
}
use narrative_ai_agent.Tools.State.{
  StateUpdate, normalise_event_key, add_events, updated, update_named, update_state, rendered,
  world_or_active, active_world,
}

module _ (lower : Text → Text) (render : StateSnapshot → Result Text Text) where
  -- Events whose keys are not blank, were not seen before and differ from each other.
  abbrev pub AreNew : List Text → List Text → Type 0
  AreNew seen [] = Unit
  AreNew seen (e ∷ es) =
      let key = normalise_event_key lower render e in
      (key ≢ []) × (contains_text seen key ≡ false) × AreNew (key ∷ seen) es

  add_events-AreNew :
      (seen events es : List Text)
      → (new : List Text) × (add_events lower render seen events es ≡ events ++ new)
        × AreNew seen new
  unfolding add_events
  add_events-AreNew seen events [] = ([], sym (append-nil events), tt)
  add_events-AreNew seen events (e ∷ es) =
      let key = normalise_event_key lower render e in
      elim (Bool-cases (is_empty key || contains_text seen key)) [
        | inl skip ↦ rw (add_events, skip) (add_events-AreNew seen events es)
        | inr fresh ↦
            let (new, grown, are_new) = add_events-AreNew (key ∷ seen) (events ++ (e ∷ [])) es in
            (
              e ∷ new,
              rw (add_events, fresh) (grown ∙ append_assoc events (e ∷ []) new),
              (ground (arith, is_empty_iff key), ground arith, are_new),
            )
      ]

  world_or_active-named :
      (world : Text) (info : Result Text Info)
      → world ≢ []
      → world_or_active lower render world info ≡ world
  unfolding world_or_active
  world_or_active-named [] info h = ground arith
  world_or_active-named (c ∷ cs) info h = refl

  update_state-saves :
      (snap : StateUpdate) (s : Store) (st : StateSnapshot) (body : Text)
      → snap.world ≢ []
      → s.states snap.world ≡ ok st
      → render (updated lower render snap snap.world st) ≡ ok body
      → s.write_fault (state_file snap.world) ≡ false
      → let (result, t) = update_state lower render snap s in
        (result ≡ ok tt) × (t.states snap.world ≡ ok (updated lower render snap snap.world st))
  unfolding update_state update_named rendered load_state save_state lift raise ◌>>=◌
  update_state-saves snap s st body named loads renders writes = ground (
    arith,
    world_or_active-named snap.world s.info named,
    is_empty_iff snap.world,
    text_eq_refl snap.world,
  )

  world_or_active-active :
      (world : Text) (info : Result Text Info) (found : Info)
      → world ≡ []
      → info ≡ ok found
      → world_or_active lower render world info ≡ found.active_world
  unfolding world_or_active active_world
  world_or_active-active [] (ok info) found none_given loads = ground arith
  world_or_active-active [] (err e) found none_given loads = ground arith
  world_or_active-active (c ∷ cs) info found none_given loads = ground arith

  -- Without a world, the active one is meant.
  pub update_state-saves_active :
      (snap : StateUpdate) (s : Store) (info : Info) (st : StateSnapshot) (body : Text)
      → snap.world ≡ []
      → s.info ≡ ok info
      → info.active_world ≢ []
      → s.states info.active_world ≡ ok st
      → render (updated lower render snap info.active_world st) ≡ ok body
      → s.write_fault (state_file info.active_world) ≡ false
      → let (result, t) = update_state lower render snap s in
        (result ≡ ok tt)
        × (t.states info.active_world ≡ ok (updated lower render snap info.active_world st))
  unfolding update_state update_named rendered load_state save_state lift raise ◌>>=◌
  update_state-saves_active snap s info st body none_given known named loads renders writes =
      ground (
        arith,
        world_or_active-active snap.world s.info info none_given known,
        is_empty_iff info.active_world,
        text_eq_refl info.active_world,
      )

  -- Where the world is named, its state loads, renders and can be written, `UpdateState` succeeds: it
  -- keeps the events of the day in front of the new ones, and each new one has a key, lowered and
  -- trimmed, that is not blank and that no event before it has. The stage of the world is as before.
  pub update_state-AreNew :
      (snap : StateUpdate) (s : Store) (st : StateSnapshot) (body : Text)
      → snap.world ≢ []
      → s.states snap.world ≡ ok st
      → render (updated lower render snap snap.world st) ≡ ok body
      → s.write_fault (state_file snap.world) ≡ false
      → let (result, t) = update_state lower render snap s in
        (result ≡ ok tt)
        × (st' : StateSnapshot) × (new : List Text) × (t.states snap.world ≡ ok st')
        × (st'.events ≡ st.events ++ new)
        × AreNew (map (normalise_event_key lower render) st.events) new
        × (st'.stage ≡ st.stage)
  unfolding updated
  update_state-AreNew snap s st body named loads renders writes =
      let keys = map (normalise_event_key lower render) st.events in
      let (new, grown, are_new) = add_events-AreNew keys st.events snap.append_events in
      let (done, saved) = update_state-saves snap s st body named loads renders writes in
      (done, updated lower render snap snap.world st, new, saved, grown, are_new, refl)
