-- ===== src/Tools/World/Effects.antt =====
-- What leaving a world and returning to one change, where they succeed.
use narrative_ai_agent.Prelude.{
  ℕ, ◌≡◌, refl, ap, ◌∙◌, Bool, true, false, ◌||◌, [], ◌∷◌, ok, err, arith, inl, inr, some, is_ok,
  Result-cases,
}
use narrative_ai_agent.Prelude.Int.{ℤ}
use narrative_ai_agent.Prelude.Text.{Text, lit, is_empty, text_eq, text_eq_refl, trim_space, atoi}
use narrative_ai_agent.Names.{sanitize_name}
use narrative_ai_agent.Repositories.{
  Store, File, StateSnapshot, Info, Error, lift, write, ◌>>=◌, load_state, save_state,
  save_chronicle, invalidate, state_file, info_file, plan_file, lore_file, chronicle_file,
  update-same, update,
}
use narrative_ai_agent.Repositories.Files.{
  load_info, save_info, load_plan, save_plan, save_lore, load_canon, replace_events, ensure_exists,
  exists_state, plan_body,
}
use narrative_ai_agent.Tools.World.{
  initialise_blank_world, switched, switch_active, freeze_plan, leave_named, leave, return_world,
  parked, re_entered, blank_lore, new_empty_chronicle, or_empty, return_note, dropping_error, left,
  first_events, parsed_days, is_negative,
}

-- Every file can be written.
abbrev pub Writable : Store → Type 0
Writable s = (file : File) → s.write_fault file ≡ false

module _ (to_lower : ℕ → ℕ) (show_int : ℤ → Text) where
  -- Where the name of the world is one, the days are a number that is not negative, and the state and the
  -- registry load and can be written, ReturnWorld moves the day of the world on by that number, puts the scene in
  -- flight with the note that it answers, and makes the world the active one, which is listed.
  return_world-re_enters :
      (s : Store) (world days dir : Text) (d : ℤ) (snap : StateSnapshot) (info : Info)
      → sanitize_name to_lower world ≡ ok dir
      → atoi (trim_space days) ≡ some d
      → is_negative d ≡ false
      → s.states dir ≡ ok snap
      → s.info ≡ ok info
      → Writable s
      → let (result, t) = return_world to_lower show_int world days s in
        (result ≡ ok (return_note to_lower show_int dir d snap.day))
        × (t.states dir ≡ ok (re_entered to_lower show_int dir d snap))
        × (t.info ≡ ok (switched dir [] info))
  unfolding return_world parsed_days load_state save_state switch_active load_info save_info lift
      ◌>>=◌ write
  return_world-re_enters s world days dir d snap info named number counts loads known writable =
      ground (arith, writable (state_file dir), writable info_file, text_eq_refl dir)

  -- ReturnWorld fails and changes nothing where the days are not a number, or are negative.
  return_world-refuses :
      (s : Store) (world days : Text) (e : Error)
      → parsed_days days ≡ err e
      → is_ok (return_world to_lower show_int world days s).0 ≡ false
        × ((return_world to_lower show_int world days s).1 ≡ s)
  unfolding return_world lift ◌>>=◌
  return_world-refuses s world days e refused = elim (Result-cases (sanitize_name to_lower world)) [
    | inl (dir, named) ↦ rw (named, refused) (refl, refl)
    | inr (e', unnamed) ↦ rw unnamed (refl, refl)
  ]

  freeze_plan-ok :
      (from to : Text) (s : Store)
      → let (result, t) = freeze_plan from to s in
        (result ≡ ok tt) × (t ≡ record s { plans = t.plans })
  unfolding freeze_plan load_plan save_plan or_empty dropping_error ◌>>=◌ write
  freeze_plan-ok from to s = ground arith

  initialise_blank_world-ok :
      (dir : Text) (s : Store) (there : Bool)
      → s.state_exists dir ≡ ok there
      → Writable s
      → let (result, t) = initialise_blank_world dir s in
        (result ≡ ok tt)
        × (t ≡ record s {
          states = t.states;
          state_exists = t.state_exists;
          lores = update s.lores dir (ok (blank_lore dir));
          chronicles = update s.chronicles dir (ok new_empty_chronicle);
          plans = update s.plans dir (ok (plan_body first_events));
        })
  unfolding initialise_blank_world ensure_exists exists_state save_state save_lore save_chronicle
      replace_events save_plan ◌>>=◌ write
  initialise_blank_world-ok dir s there known writable = ground (
    arith,
    writable (state_file dir),
    writable (lore_file dir),
    writable (chronicle_file dir),
    writable (plan_file dir),
  )

  -- Leave into a world that has a canon succeeds where the two names are names, the state of the world that is left
  -- and the registry load, and every file can be written: the world that is left is out of flight with the
  -- note of the leave, the other world is the active one, which is listed, no chronicle or lore changes, and
  -- the cache is told.
  pub leave-enters :
      (s : Store) (from_world to_world skip_note character from to canon : Text)
      (snap : StateSnapshot) (info : Info)
      → sanitize_name to_lower from_world ≡ ok from
      → sanitize_name to_lower to_world ≡ ok to
      → s.states from ≡ ok snap
      → s.info ≡ ok info
      → s.canons to ≡ ok canon
      → is_empty canon ≡ false
      → Writable s
      → let (result, t) = leave to_lower show_int from_world to_world skip_note character s in
        (result ≡ ok (left from to snap canon))
        × (t.states from ≡ ok (parked to skip_note snap))
        × (t.info ≡ ok (switched to character info))
        × (t.chronicles ≡ s.chronicles)
        × (t.lores ≡ s.lores)
        × (t.invalidations ≡ lit "leave_world" ∷ s.invalidations)
  unfolding leave leave_named load_state save_state load_canon or_empty switch_active load_info
      save_info invalidate lift ◌>>=◌ write
  leave-enters s from_world to_world skip_note character from to canon snap info is_from is_to loads
        known found canonical writable =
      ground (
        arith,
        writable (state_file from),
        writable info_file,
        text_eq_refl from,
        freeze_plan-ok from to,
      )

  exists-after_save :
      (s : Store) (from to : Text) (there : Bool)
      → s.state_exists to ≡ ok there
      → update s.state_exists from (ok true) to ≡ ok (text_eq to from || there)
  exists-after_save s from to there known = ground arith

  abbrev saved : Text → Text → Text → StateSnapshot → Store → Store
  saved from to skip_note snap s = record s {
    states = update s.states from (ok (parked to skip_note snap));
    state_exists = update s.state_exists from (ok true);
  }

  leave_named-blank :
      (s s' : Store) (from to skip_note character : Text) (snap : StateSnapshot) (info : Info)
      → s.states from ≡ ok snap
      → s.canons to ≡ ok []
      → s.write_fault (state_file from) ≡ false
      → initialise_blank_world to (freeze_plan from to (saved from to skip_note snap s)).1
        ≡ (ok tt, s')
      → s'.info ≡ ok info
      → s'.write_fault info_file ≡ false
      → leave_named to_lower show_int from to skip_note character s ≡ (
        ok (left from to snap []),
        record s' {
          info = ok (switched to character info);
          info_exists = true;
          info_blank = false;
          invalidations = lit "leave_world" ∷ s'.invalidations;
        },
      )
  unfolding leave_named load_state save_state load_canon or_empty switch_active load_info save_info
      invalidate lift ◌>>=◌ write
  leave_named-blank s s' from to skip_note character snap info loads found writable blank known
        writable' =
      ground (arith, freeze_plan-ok from to (saved from to skip_note snap s))

  leave_named-erases :
      (s : Store) (skip_note character from to : Text) (snap : StateSnapshot) (info : Info)
      (there : Bool)
      → s.states from ≡ ok snap
      → s.info ≡ ok info
      → s.canons to ≡ ok []
      → s.state_exists to ≡ ok there
      → Writable s
      → let (result, t) = leave_named to_lower show_int from to skip_note character s in
        (result ≡ ok (left from to snap []))
        × (t.chronicles to ≡ ok new_empty_chronicle)
        × (t.lores to ≡ ok (blank_lore to))
        × (t.plans to ≡ ok (plan_body first_events))
        × (t.canons to ≡ ok [])
        × (t.info ≡ ok (switched to character info))
  leave_named-erases s skip_note character from to snap info there loads known found exists
        writable =
      let before = (freeze_plan from to (saved from to skip_note snap s)).1 in
      let after = (initialise_blank_world to before).1 in
      let kept = (freeze_plan-ok from to (saved from to skip_note snap s)).1 in
      let exists' = exists-after_save s from to there exists in
      let (fine, blank) =
        initialise_blank_world-ok to before (text_eq to from || there)
          (ap (λ t. t.state_exists to) kept ∙ exists')
          (λ file. ap (λ t. t.write_fault file) kept ∙ writable file) in
      let run =
        leave_named-blank s after from to skip_note character snap info loads found (writable _)
          (ap (λ r. (r, after)) fine) (ap (λ t. t.info) blank ∙ ap (λ t. t.info) kept ∙ known)
          (ap (λ t. t.write_fault info_file) blank
            ∙ ap (λ t. t.write_fault info_file) kept
            ∙ writable _) in
      (
        ap (λ r. r.0) run,
        ap (λ r. r.1.chronicles to) run
            ∙ ap (λ t. t.chronicles to) blank
            ∙ update-same before.chronicles to _,
        ap (λ r. r.1.lores to) run ∙ ap (λ t. t.lores to) blank ∙ update-same before.lores to _,
        ap (λ r. r.1.plans to) run ∙ ap (λ t. t.plans to) blank ∙ update-same before.plans to _,
        ap (λ r. r.1.canons to) run
            ∙ ap (λ t. t.canons to) blank
            ∙ ap (λ t. t.canons to) kept
            ∙ found,
        ap (λ r. r.1.info) run,
      )

  -- Leave into a world without a canon, be it a new one or one that has been played, replaces its chronicle by an
  -- empty one, its lore by the blank one and its plan by the first events, and it still has no canon, so
  -- that the next Leave into it does the same. The two names are names, the state of the world that is
  -- left and the registry load, and every file can be written.
  pub leave-erases :
      (s : Store) (from_world to_world skip_note character from to : Text) (snap : StateSnapshot)
      (info : Info) (there : Bool)
      → sanitize_name to_lower from_world ≡ ok from
      → sanitize_name to_lower to_world ≡ ok to
      → s.states from ≡ ok snap
      → s.info ≡ ok info
      → s.canons to ≡ ok []
      → s.state_exists to ≡ ok there
      → Writable s
      → let (result, t) = leave to_lower show_int from_world to_world skip_note character s in
        (result ≡ ok (left from to snap []))
        × (t.chronicles to ≡ ok new_empty_chronicle)
        × (t.lores to ≡ ok (blank_lore to))
        × (t.plans to ≡ ok (plan_body first_events))
        × (t.canons to ≡ ok [])
        × (t.info ≡ ok (switched to character info))
  unfolding leave lift ◌>>=◌
  leave-erases s from_world to_world skip_note character from to snap info there is_from is_to loads
        known found exists writable =
      let run =
        leave_named-erases s skip_note character from to snap info there loads known found exists
          writable in
      ground (arith, run)
