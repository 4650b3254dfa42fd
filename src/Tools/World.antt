-- ===== src/Tools/World.antt =====
-- internal/usecase/tools/files/world.go: leaving the active world for another one, and returning to a parked
-- world. `unicode.ToLower` and the decimal rendering of an int are parameters.
pub mod Effects
pub mod Frame
pub mod Registry
use narrative_ai_agent.Prelude.{
  ℕ, Bool, true, false, not, ◌&&◌, Option, none, some, List, [], ◌∷◌, ◌++◌, if◌then◌else◌, Result,
  ok, err,
}
use narrative_ai_agent.Prelude.Int.{ℤ, pos, negsuc, ◌+ℤ◌}
use narrative_ai_agent.Prelude.Text.{
  Text, lit, is_empty, trim_space, atoi, contains_text, has_infix,
}
use narrative_ai_agent.Names.{NameError, sanitize_name}
use narrative_ai_agent.Chronicle.{Chronicle}
use narrative_ai_agent.Repositories.{
  Store, StateSnapshot, Info, Action, Error, of_name, bad_days, negative_days, pure, raise, lift,
  ◌>>=◌, ◌>>◌, load_state, save_state, save_chronicle, invalidate,
}
use narrative_ai_agent.Repositories.Files.{
  load_info, save_info, load_plan, save_plan, save_lore, load_canon, replace_events, ensure_exists,
}

-- `tools.LeaveResult`.
pub record LeaveResult : Type 0 where
  pub from_world : Text
  pub from_day : ℤ
  pub new_world : Text
  pub new_world_init : Bool

abbrev pub new_empty_chronicle : Chronicle
new_empty_chronicle = record { periods = []; days = [] }

abbrev pub blank_lore : Text → Text
blank_lore dir = lit "# Мир " ++ dir ++ lit "\nКанон актуален, если игрок не вносит изменения.\n"

abbrev pub first_events : List Text
first_events =
    lit "вводная сцена: знакомство с миром"
    ∷ lit "первая зацепка / конфликт"
    ∷ lit "первая развилка"
    ∷ []

unfoldable pub initialise_blank_world : Text → Action (Unit {0})
unfolding ensure_exists save_lore save_chronicle replace_events ◌>>=◌
initialise_blank_world dir = do
  ensure_exists dir (pos 1) true
  save_lore dir (blank_lore dir)
  save_chronicle dir new_empty_chronicle
  replace_events dir first_events

abbrev pub or_same : Text → Text → Text
or_same old [] = old
or_same old (c ∷ cs) = c ∷ cs

abbrev pub listed : Text → List Text → List Text
listed world worlds = if contains_text worlds world then worlds else worlds ++ (world ∷ [])

abbrev pub switched : Text → Text → Info → Info
switched to_world character info = record info {
  active_character = or_same info.active_character character;
  active_world = to_world;
  worlds = listed to_world info.worlds;
}

unfoldable pub switch_active : Text → Text → Action (Unit {0})
unfolding load_info save_info ◌>>=◌
switch_active to_world character = do info ← load_info; save_info (switched to_world character info)

-- A call whose error is dropped, with what Go's zero string stands in for.
unfoldable pub or_empty : Action Text → Action Text
or_empty call s = let (r, s') = call s in (ok (elim r [ ok body ↦ body | err e ↦ [] ]), s')

unfoldable pub dropping_error : {A : Type 0} → Action A → Action (Unit {0})
dropping_error call s = let (r, s') = call s in (ok tt, s')

abbrev pub named : Result NameError Text → Result Error Text
named (ok name) = ok name
named (err e) = err (of_name e)

abbrev frozen_mark : Text
frozen_mark = lit "[заморожено]"

abbrev pub frozen : Text → Text → Text
frozen to plan = plan ++ lit "\n[заморожено: переход в " ++ to ++ lit "]\n"

abbrev pub is_unfrozen : Text → Bool
is_unfrozen plan = not (is_empty plan) && not (has_infix frozen_mark plan)

unfoldable pub freeze_plan : Text → Text → Action (Unit {0})
unfolding load_plan save_plan ◌>>=◌ has_infix or_empty dropping_error
freeze_plan from to = do
  plan ← or_empty (load_plan from)
  if is_unfrozen plan then dropping_error (save_plan from (frozen to plan)) else pure tt

abbrev or_moment : Text → Text
or_moment [] = lit "мгновение"
or_moment (c ∷ cs) = c ∷ cs

abbrev leave_note : Text → Text → Text
leave_note to skip_note =
    lit "Уход в мир " ++ to ++ lit ". Прошло времени: " ++ or_moment skip_note ++ lit "."

abbrev pub parked : Text → Text → StateSnapshot → StateSnapshot
parked to skip_note snap = record snap { in_flight = false; moment = leave_note to skip_note }

abbrev when : Bool → Action (Unit {0}) → Action (Unit {0})
when test call = if test then call else pure tt

abbrev pub left : Text → Text → StateSnapshot → Text → LeaveResult
left from to snap canon = record {
  from_world = from;
  from_day = snap.day;
  new_world = to;
  new_world_init = is_empty canon;
}

unfoldable pub is_negative : ℤ → Bool
is_negative (pos n) = false
is_negative (negsuc n) = true

unfoldable pub parsed_days : Text → Result Error ℤ
unfolding trim_space atoi is_negative
parsed_days days = elim (atoi (trim_space days)) [
  | none ↦ err bad_days
  | some d ↦ if is_negative d then err negative_days else ok d
]

module _ (to_lower : ℕ → ℕ) (show_int : ℤ → Text) where
  -- From the sanitized names on.
  unfoldable pub leave_named : Text → Text → Text → Text → Action LeaveResult
  unfolding load_state save_state freeze_plan load_canon initialise_blank_world switch_active
      invalidate ◌>>=◌ or_empty
  leave_named from to skip_note character = do
    snap ← load_state from
    save_state from (parked to skip_note snap)
    freeze_plan from to
    canon ← or_empty (load_canon to)
    when (is_empty canon) (initialise_blank_world to)
    switch_active to character
    invalidate (lit "leave_world")
    pure (left from to snap canon)

  unfoldable pub leave : Text → Text → Text → Text → Action LeaveResult
  unfolding sanitize_name leave_named ◌>>=◌
  leave from_world to_world skip_note character = do
    from ← lift (named (sanitize_name to_lower from_world))
    to ← lift (named (sanitize_name to_lower to_world))
    leave_named from to skip_note character

  abbrev pub return_note : Text → ℤ → ℤ → Text
  return_note world d cur =
      lit "Возврат в мир "
      ++ world
      ++ lit ". Прошло "
      ++ show_int d
      ++ lit " дн. с последней записи (день "
      ++ show_int cur
      ++ lit ")."

  abbrev pub re_entered : Text → ℤ → StateSnapshot → StateSnapshot
  re_entered world d snap = record snap {
    day = snap.day +ℤ d;
    in_flight = true;
    moment = return_note world d snap.day;
  }

  unfoldable pub return_world : Text → Text → Action Text
  unfolding sanitize_name parsed_days load_state save_state switch_active ◌>>=◌
  return_world world days = do
    dir ← lift (named (sanitize_name to_lower world))
    d ← lift (parsed_days days)
    snap ← load_state dir
    save_state dir (re_entered dir d snap)
    switch_active dir []
    pure (return_note dir d snap.day)
