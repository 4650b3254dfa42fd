-- ===== src/Tools/Calls/Clears.antt =====
-- What the call of `update_state` makes of the scene.
use narrative_ai_agent.Prelude.{
  ◌≡◌, ◌≢◌, refl, ap, ◌∙◌, Bool, true, false, some, [], map, Result, ok, err, arith,
}
use narrative_ai_agent.Prelude.Text.{Text, lit}
use narrative_ai_agent.Repositories.{Store, StateSnapshot, Info, state_file}
use narrative_ai_agent.Tools.State.{StateUpdate, updated, update_state}
use narrative_ai_agent.Tools.State.Events.{update_state-saves_active}
use narrative_ai_agent.Tools.Calls.{
  Refusal, Payload, refuse, Fields, field, to_text, to_texts, to_bool, World, Do, done, ◌>>=◌, ◌>>◌,
  go_on, needs, is_full, Backend,
}
use narrative_ai_agent.Tools.Calls.Scenes.{
  call_update_state, run_scene_update, scene_update, recorded,
}

needs-given :
    {A : Type 0} (there : Bool) (what : Text) (m : Do A) (w : World)
    → there ≡ true
    → (needs there what >> m) w ≡ m w
unfolding ◌>>=◌ needs done refuse
needs-given true what m w given = refl
needs-given false what m w given = ground (arith, given)

go_on-done :
    {A B : Type 0} (r : Result Refusal A) (a : B) (w : World) → (go_on r (λ u. done a) w).1 ≡ w
unfolding done
go_on-done (ok u) a w = refl
go_on-done (err e) a w = refl

then_done : {A B : Type 0} (m : Do A) (a : B) (w : World) → ((m >> done a) w).1 ≡ (m w).1
unfolding ◌>>=◌
then_done m a w = go_on-done (m w).0 a (m w).1

module _ (b : Backend) where
  -- The update that a call asks for.
  abbrev asked : Fields → World → StateUpdate
  asked args w =
      scene_update b (to_bool (field (lit "in_flight") args)) (to_text (field (lit "moment") args))
        (some (to_texts (field (lit "npcs") args))) (to_texts (field (lit "events") args)) w.day

  call_update_state-store :
      (args : Fields) (w : World)
      → is_full (to_text (field (lit "moment") args)) ≡ true
      → (call_update_state b args w).1.store
        ≡ (update_state (map b.to_lower) b.render (asked args w) w.store).1
  unfolding call_update_state run_scene_update
  call_update_state-store args w given =
      let run =
        run_scene_update b (to_bool (field (lit "in_flight") args))
          (to_text (field (lit "moment") args)) (some (to_texts (field (lit "npcs") args)))
          (to_texts (field (lit "events") args)) in
      let answer =
        recorded b (to_text (field (lit "moment") args)) (to_texts (field (lit "npcs") args)) in
      ap (λ (r : Result Refusal Payload × World). r.1.store)
        (needs-given (is_full (to_text (field (lit "moment") args)))
          (lit "update_state requires moment") (run >> done answer) w given)
      ∙ ap (λ (v : World). v.store) (then_done run answer w)

  -- Where the state of the active world loads, renders and can be written, a call of update_state with a moment leaves a
  -- state without a location, whatever location was there, whose NPCs are those of the call alone: a call that leaves
  -- them out empties the scene.
  pub call_update_state-clears :
      (args : Fields) (w : World) (info : Info) (st : StateSnapshot)
      → is_full (to_text (field (lit "moment") args)) ≡ true
      → w.store.info ≡ ok info
      → info.active_world ≢ []
      → w.store.states info.active_world ≡ ok st
      → ((x : StateSnapshot) → (body : Text) × (b.render x ≡ ok body))
      → w.store.write_fault (state_file info.active_world) ≡ false
      → (st' : StateSnapshot) × ((call_update_state b args w).1.store.states info.active_world
          ≡ ok st')
        × (st'.location ≡ [])
        × (st'.npcs ≡ to_texts (field (lit "npcs") args))
        × (st'.day ≡ w.day)
  unfolding scene_update updated
  call_update_state-clears args w info st given known named loads renders writes =
      let snap = asked args w in
      let after = updated (map b.to_lower) b.render snap info.active_world st in
      let (body, rendered) = renders after in
      let (returned, saved) =
        update_state-saves_active (map b.to_lower) b.render snap w.store info st body refl known
          named loads rendered writes in
      (
        after,
        ap (λ (t : Store). t.states info.active_world) (call_update_state-store args w given)
            ∙ saved,
        refl,
        refl,
        refl,
      )
