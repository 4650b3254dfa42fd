-- ===== src/Repositories/Files.antt =====
-- internal/repository/yaml: the registry of worlds, and the plan, the lore, the canon and the state file of a
-- world. `strings.ToLower` is a parameter of `append_event`.
use narrative_ai_agent.Prelude.{
  Bool, true, false, not, ◌&&◌, ◌||◌, List, [], ◌∷◌, ◌++◌, if◌then◌else◌, ltb, length, is_nil, any,
  ok,
}
use narrative_ai_agent.Prelude.Int.{ℤ}
use narrative_ai_agent.Prelude.Text.{Text, lit, text_eq, is_empty, trim_space}
use narrative_ai_agent.Staging.{no_runtime}
use narrative_ai_agent.Repositories.{
  StateSnapshot, Info, Action, info_file, plan_file, lore_file, bad_plan, empty_entry, pure, raise,
  ◌>>=◌, loaded, write, update, load_state, save_state,
}

unfoldable pub load_info : Action Info
load_info s = (loaded s.info, s)

unfoldable pub save_info : Info → Action (Unit {0})
unfolding write
save_info info =
    write info_file (λ s. record s { info = ok info; info_exists = true; info_blank = false })

unfoldable pub load_plan : Text → Action Text
load_plan world s = (loaded (s.plans world), s)

unfoldable pub save_plan : Text → Text → Action (Unit {0})
unfolding write
save_plan world body =
    write (plan_file world) (λ s. record s { plans = update s.plans world (ok body) })

unfoldable pub bullets : List Text → Text
unfolding trim_space
bullets [] = []
bullets (e ∷ es) = lit "- " ++ trim_space e ++ lit "\n" ++ bullets es

unfoldable pub plan_body : List Text → Text
unfolding bullets
plan_body events = lit "## План\n" ++ bullets events

unfoldable pub replace_events : Text → List Text → Action (Unit {0})
unfolding plan_body save_plan
replace_events world events =
    if not (is_nil events) && (ltb (length events) 3 || ltb 5 (length events))
    then raise (bad_plan (length events))
    else save_plan world (plan_body events)

unfoldable pub load_lore : Text → Action Text
load_lore world s = (loaded (s.lores world), s)

unfoldable pub save_lore : Text → Text → Action (Unit {0})
unfolding write
save_lore world body =
    write (lore_file world) (λ s. record s { lores = update s.lores world (ok body) })

-- `strings.HasSuffix(current, "\n")`.
abbrev pub ends_line : Text → Bool
ends_line [] = false
ends_line (c ∷ []) = text_eq (c ∷ []) (lit "\n")
ends_line (c ∷ d ∷ cs) = ends_line (d ∷ cs)

abbrev with_line_end : Text → Text
with_line_end current =
    if not (is_empty current) && not (ends_line current) then current ++ lit "\n" else current

unfoldable pub append_entry : Text → Text → Text → Action (Unit {0})
unfolding trim_space load_lore save_lore ◌>>=◌
append_entry world header bullet =
    if is_empty (trim_space header) || is_empty (trim_space bullet) then raise empty_entry else do
      current ← load_lore world
      save_lore world (
          with_line_end current
          ++ lit "\n## "
          ++ trim_space header
          ++ lit "\n- "
          ++ trim_space bullet
          ++ lit "\n")

unfoldable pub load_canon : Text → Action Text
load_canon world s = (loaded (s.canons world), s)

-- The zero value with the fields that `EnsureExists` sets.
abbrev fresh_state : Text → ℤ → Bool → StateSnapshot
fresh_state world day in_flight = record {
  world = world;
  day = day;
  in_flight = in_flight;
  daytime = [];
  location = [];
  moment = [];
  npcs = [];
  current = [];
  events = [];
  stage = no_runtime;
}

unfoldable pub exists_state : Text → Action Bool
exists_state world s = (loaded (s.state_exists world), s)

unfoldable pub ensure_exists : Text → ℤ → Bool → Action (Unit {0})
unfolding exists_state save_state ◌>>=◌ pure
ensure_exists world day in_flight = do
  there ← exists_state world
  if there then pure tt else save_state world (fresh_state world day in_flight)

module _ (lower : Text → Text) where
  unfoldable pub same_event : Text → Text → Bool
  unfolding trim_space text_eq
  same_event event existing = text_eq (lower (trim_space existing)) (lower event)

  unfoldable pub append_event : Text → Text → Action (Unit {0})
  unfolding same_event trim_space load_state save_state ◌>>=◌ pure
  append_event world event = do
    snap ← load_state world
    if is_empty (trim_space event) || any (same_event (trim_space event)) snap.events
        then pure tt
        else save_state world (record snap { events = snap.events ++ (trim_space event ∷ []) })
