-- ===== src/Tools/World/Frame.antt =====
-- Rules for what leaving and returning keep, whether they succeed or fail.
use narrative_ai_agent.Prelude.{ℕ, ◌≡◌, refl, true, List, [], Result, ok, err, arith}
use narrative_ai_agent.Prelude.Int.{ℤ, pos}
use narrative_ai_agent.Prelude.Text.{Text, lit, is_empty}
use narrative_ai_agent.Names.{NameError, sanitize_name}
use narrative_ai_agent.Chronicle.{Chronicle}
use narrative_ai_agent.Repositories.{
  Store, StateSnapshot, Action, save_state, save_chronicle, invalidate,
}
use narrative_ai_agent.Repositories.Files.{
  load_info, load_plan, save_plan, save_lore, load_canon, replace_events, ensure_exists,
  exists_state,
}
use narrative_ai_agent.Repositories.Keeps.{
  Keeps, Keeps-pure, Keeps-raise, Keeps-lift, Keeps-if, Keeps-bind, Keeps-load_state,
  Keeps-of_reads, Keeps-bind_lift,
}
use narrative_ai_agent.Tools.World.{
  initialise_blank_world, switch_active, freeze_plan, leave_named, leave, return_world, frozen,
  or_empty, dropping_error, left, named, is_unfrozen, first_events,
}

module _ {P : Store → Type 0} where
  Keeps-load_plan : (world : Text) → Keeps P (load_plan world)
  unfolding load_plan
  Keeps-load_plan world = Keeps-of_reads (load_plan world) (λ s. refl)

  Keeps-load_canon : (world : Text) → Keeps P (load_canon world)
  unfolding load_canon
  Keeps-load_canon world = Keeps-of_reads (load_canon world) (λ s. refl)

  pub Keeps-load_info : Keeps P load_info
  unfolding load_info
  Keeps-load_info = Keeps-of_reads load_info (λ s. refl)

  Keeps-exists_state : (world : Text) → Keeps P (exists_state world)
  unfolding exists_state
  Keeps-exists_state world = Keeps-of_reads (exists_state world) (λ s. refl)

-- The writes that leaving and returning consist of keep `P`.
pub record Allows (P : Store → Type 0) (world : Text) : Type 0 where
  pub states : (snap : StateSnapshot) → Keeps P (save_state world snap)
  pub plans : (body : Text) → Keeps P (save_plan world body)
  pub lores : (body : Text) → Keeps P (save_lore world body)
  pub chronicles : (c : Chronicle) → Keeps P (save_chronicle world c)

named_ok : (r : Result NameError Text) {dir : Text} → named r ≡ ok dir → r ≡ ok dir
named_ok (ok name) h = ground arith
named_ok (err e) h = cc

module _ (P : Store → Type 0)
    (switches : (to character : Text) → Keeps P (switch_active to character))
    (tells : (reason : Text) → Keeps P (invalidate reason)) where
  ensure_exists-Keeps : (world : Text) → Allows P world → Keeps P (ensure_exists world (pos 1) true)
  unfolding ensure_exists
  ensure_exists-Keeps world allowed =
      Keeps-bind _ _ (Keeps-exists_state world)
        λ there. Keeps-if _ _ _ (Keeps-pure tt) (allowed.states _)

  or_empty-Keeps : (call : Action Text) → Keeps P call → Keeps P (or_empty call)
  unfolding or_empty
  or_empty-Keeps call h = record { at = λ s. h.at s }

  dropping_error-Keeps :
      {A : Type 0} (call : Action A) → Keeps P call → Keeps P (dropping_error call)
  unfolding dropping_error
  dropping_error-Keeps call h = record { at = λ s. h.at s }

  replace_events-Keeps :
      (world : Text) (events : List Text) → Allows P world → Keeps P (replace_events world events)
  unfolding replace_events
  replace_events-Keeps world events allowed = Keeps-if _ _ _ (Keeps-raise _) (allowed.plans _)

  initialise_blank_world-Keeps :
      (world : Text) → Allows P world → Keeps P (initialise_blank_world world)
  unfolding initialise_blank_world
  initialise_blank_world-Keeps world allowed =
      Keeps-bind _ _ (ensure_exists-Keeps world allowed) λ _. Keeps-bind _ _ (allowed.lores _) λ _.
        Keeps-bind _ _ (allowed.chronicles _) λ _. replace_events-Keeps world first_events allowed

  freeze_plan-Keeps : (from to : Text) → Allows P from → Keeps P (freeze_plan from to)
  unfolding freeze_plan
  freeze_plan-Keeps from to allowed =
      Keeps-bind _ _ (or_empty-Keeps _ (Keeps-load_plan from)) λ plan.
        Keeps-if (is_unfrozen plan) _ _ (dropping_error-Keeps _ (allowed.plans (frozen to plan)))
          (Keeps-pure tt)

  leave_named-Keeps :
      (to_lower : ℕ → ℕ) (show_int : ℤ → Text) (from to skip_note character : Text)
      → Allows P from
      → Allows P to
      → Keeps P (leave_named to_lower show_int from to skip_note character)
  unfolding leave_named
  leave_named-Keeps to_lower show_int from to skip_note character old new =
      Keeps-bind _ _ (Keeps-load_state from) λ snap. Keeps-bind _ _ (old.states _) λ _.
        Keeps-bind _ _ (freeze_plan-Keeps from to old) λ _.
          Keeps-bind _ _ (or_empty-Keeps _ (Keeps-load_canon to)) λ canon.
            Keeps-bind _ _
              (Keeps-if (is_empty canon) _ _ (initialise_blank_world-Keeps to new) (Keeps-pure tt))
              λ _. Keeps-bind _ _ (switches to character) λ _.
                Keeps-bind _ _ (tells (lit "leave_world")) λ _. Keeps-pure (left from to snap canon)

  pub return_world-Keeps :
      (to_lower : ℕ → ℕ) (show_int : ℤ → Text) (world days : Text)
      → ((dir : Text) → sanitize_name to_lower world ≡ ok dir → Allows P dir)
      → Keeps P (return_world to_lower show_int world days)
  unfolding return_world
  return_world-Keeps to_lower show_int world days allowed = Keeps-bind_lift _ _ λ dir e.
      Keeps-bind _ _ (Keeps-lift _) λ d. Keeps-bind _ _ (Keeps-load_state dir) λ snap.
        Keeps-bind _ _ ((allowed dir (named_ok _ e)).states _)
          λ _. Keeps-bind _ _ (switches dir []) λ _. Keeps-pure _

  pub leave-Keeps :
      (to_lower : ℕ → ℕ) (show_int : ℤ → Text) (from_world to_world skip_note character : Text)
      → ((dir : Text) → sanitize_name to_lower from_world ≡ ok dir → Allows P dir)
      → ((dir : Text) → sanitize_name to_lower to_world ≡ ok dir → Allows P dir)
      → Keeps P (leave to_lower show_int from_world to_world skip_note character)
  unfolding leave
  leave-Keeps to_lower show_int from_world to_world skip_note character old new =
      Keeps-bind_lift _ _ λ from e. Keeps-bind_lift _ _ λ to e'.
        leave_named-Keeps to_lower show_int from to skip_note character (old from (named_ok _ e))
          (new to (named_ok _ e'))
