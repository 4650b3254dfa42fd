-- ===== src/SystemState/Persistence.antt =====
-- The calls on system_state.md: what they write is read back, and what stays true of the counters.
use narrative_ai_agent.Prelude.{
  ◌-◌, ◌≤◌, ◌≡◌, refl, subst, ap, ◌∙◌, Bool, false, List, [], ◌∷◌, ◌++◌, length, length-append,
  length-drop, Result, ok, err, arith, Bool-cases, inl, inr, Result-cases,
}
use narrative_ai_agent.Prelude.Int.{pos, ◌≤ℤ◌, +ℤ_parts}
use narrative_ai_agent.Prelude.Text.{Text, is_empty}
use narrative_ai_agent.SystemState.{
  SystemState, CompactionEvent, SystemFile, SystemError, append_compaction_event, load_system,
  save_system, init_session, bump_session, append_compaction, record_autosave, load_change_save,
  touch_session, set_session_context, max_compaction_history, parsed, change_save, unmarshalled,
  unwritten, saved_as,
}

-- A call of the bot that changes the file.
pub data StateCall (Time : Type 0) : Type 0 where
  start_call : Text → Text → Text → Time → StateCall Time
  bump_call : Bool → Time → StateCall Time
  compaction_call : CompactionEvent Time → StateCall Time
  autosave_call : Text → Time → StateCall Time

module _ (Time : Type 0) (zero_time : Time) (parse : Text → Result Text (SystemState Time))
    (marshal : SystemState Time → Result Text Text) where
  abbrev load_file : SystemFile → Result SystemError (SystemState Time)
  load_file file = load_system Time zero_time parse marshal file

  unfoldable pub run_call :
      StateCall Time → SystemFile → Result SystemError (SystemState Time) × SystemFile
  run_call (start_call character world chat_id now) file =
      init_session Time zero_time parse marshal character world chat_id now file
  run_call (bump_call is_freeform now) file =
      bump_session Time zero_time parse marshal is_freeform now file
  run_call (compaction_call ev) file = append_compaction Time zero_time parse marshal ev file
  run_call (autosave_call hash now) file =
      record_autosave Time zero_time parse marshal hash now file

  abbrev pub change_of : StateCall Time → SystemState Time → SystemState Time
  change_of (start_call character world chat_id now) state =
      set_session_context Time zero_time parse marshal character world chat_id now state
  change_of (bump_call is_freeform now) state =
      touch_session Time zero_time parse marshal is_freeform now state
  change_of (compaction_call ev) state = record state {
    compaction =
        append_compaction_event Time zero_time parse marshal state.compaction ev
          max_compaction_history;
  }
  change_of (autosave_call hash now) state = record state {
    autosave = saved_as Time zero_time parse marshal hash now state.autosave;
  }

  run_call-change :
      (call : StateCall Time) (file : SystemFile)
      → run_call call file ≡ load_change_save Time zero_time parse marshal (change_of call) file
  unfolding run_call init_session bump_session append_compaction record_autosave
  run_call-change (start_call character world chat_id now) file = refl
  run_call-change (bump_call is_freeform now) file = refl
  run_call-change (compaction_call ev) file = refl
  run_call-change (autosave_call hash now) file = refl

  -- Either the call answers the state that the file held, changed, and the file holds it afterwards, or the call
  -- fails and the file is as before.
  pub data Outcome (change : SystemState Time → SystemState Time) (file : SystemFile)
      (result : Result SystemError (SystemState Time)) (file' : SystemFile) : Type 0 where
    changed :
        (old : SystemState Time)
        → load_file file ≡ ok old
        → result ≡ ok (change old)
        → load_file file' ≡ ok (change old)
        → Outcome change file result file'
    failed : (e : SystemError) → result ≡ err e → file' ≡ file → Outcome change file result file'

  -- Counts that fit together: no more turns of the player than turns, and a history of at most fifty events, no more
  -- than have been counted.
  pub record IsCounted (st : SystemState Time) : Type 0 where
    pub turns : st.session.freeform_turn_count ≤ℤ st.session.turn_count
    pub cap : length st.compaction.history ≤ 50
    pub counted : pos (length st.compaction.history) ≤ℤ st.compaction.total_compactions

  change_of-IsCounted :
      (call : StateCall Time) (st : SystemState Time) → IsCounted st → IsCounted (change_of call st)
  unfolding set_session_context touch_session append_compaction_event
  change_of-IsCounted (start_call character world chat_id now) st h = record {
    turns = h.turns;
    cap = h.cap;
    counted = h.counted;
  }
  change_of-IsCounted (bump_call is_freeform now) st h = record {
    turns = ground (
      arith,
      h.turns,
      +ℤ_parts st.session.turn_count (pos 1),
      +ℤ_parts st.session.freeform_turn_count (pos 1),
    );
    cap = h.cap;
    counted = h.counted;
  }
  change_of-IsCounted (compaction_call ev) st h =
      let old = st.compaction.history in
      let longer = length-append old (ev ∷ []) in
      record {
        turns = h.turns;
        cap =
            ground (
              arith,
              h.cap,
              longer,
              length-drop (length (old ++ (ev ∷ [])) - 50) (old ++ (ev ∷ [])),
            );
        counted = ground (
          arith,
          h.counted,
          h.cap,
          longer,
          length-drop (length (old ++ (ev ∷ [])) - 50) (old ++ (ev ∷ [])),
          +ℤ_parts st.compaction.total_compactions (pos 1),
        );
      }
  change_of-IsCounted (autosave_call [] now) st h = record {
    turns = h.turns;
    cap = h.cap;
    counted = h.counted;
  }
  change_of-IsCounted (autosave_call (c ∷ cs) now) st h = record {
    turns = h.turns;
    cap = h.cap;
    counted = h.counted;
  }

  -- The YAML library reads back what it writes, and writes no empty body.
  module _
      (reads_back : (st : SystemState Time) (body : Text)
        → marshal st ≡ ok body
        → (is_empty body ≡ false) × (parse body ≡ ok st)) where
    reload :
        (st : SystemState Time) (body : Text) (file : SystemFile)
        → marshal st ≡ ok body
        → load_file (record file { body = ok body }) ≡ ok st
    unfolding load_system parsed
    reload st body file m = let (full, parses) = reads_back st body m in rw (full, parses) refl

    change_save-Outcome :
        (change : SystemState Time → SystemState Time) (file : SystemFile)
        (r : Result SystemError (SystemState Time))
        → load_file file ≡ r
        → let (result, file') = change_save Time zero_time parse marshal change file r in
          Outcome change file result file'
    unfolding change_save save_system
    change_save-Outcome change file (err e) loads = failed e refl refl
    change_save-Outcome change file (ok old) loads = elim (Result-cases (marshal (change old))) [
      | inr (e, m) ↦ failed (unmarshalled e) (ground arith) (ground arith)
      | inl (body, m) ↦ elim (Bool-cases file.write_fault) [
        | inl w ↦ failed unwritten (ground arith) (ground arith)
        | inr w ↦
            let file' = (change_save Time zero_time parse marshal change file (ok old)).1 in
            let written : file' ≡ record file { body = ok body } = ground arith in
            changed old loads (ground arith)
              (ap load_file written ∙ reload (change old) body file m)
      ]
    ]

    pub run_call-Outcome :
        (call : StateCall Time) (file : SystemFile)
        → let (result, file') = run_call call file in Outcome (change_of call) file result file'
    unfolding load_change_save
    run_call-Outcome call file =
        rw (run_call-change call file)
          (change_save-Outcome (change_of call) file (load_file file) refl)

    abbrev pub run_calls : List (StateCall Time) → SystemFile → SystemFile
    run_calls [] file = file
    run_calls (call ∷ calls) file = run_calls calls (run_call call file).1

    step :
        (call : StateCall Time) (file : SystemFile) (st : SystemState Time)
        → load_file file ≡ ok st
        → IsCounted st
        → (st' : SystemState Time) × (load_file (run_call call file).1 ≡ ok st') × IsCounted st'
    step call file st loads h = elim (run_call-Outcome call file) [
      | changed old was result now ↦
          let same : st ≡ old = ground arith in
          (change_of call old, now, change_of-IsCounted call old (subst IsCounted same h))
      | failed e result same ↦ (st, ap load_file same ∙ loads, h)
    ]

    -- Where the YAML library reads back what it writes, and writes no empty body, the counts of the file fit together
    -- after any sequence of calls, failed ones included, if they did before.
    pub run_calls-IsCounted :
        (calls : List (StateCall Time)) (file : SystemFile) (st : SystemState Time)
        → load_file file ≡ ok st
        → IsCounted st
        → (st' : SystemState Time) × (load_file (run_calls calls file) ≡ ok st') × IsCounted st'
    run_calls-IsCounted [] file st loads h = (st, loads, h)
    run_calls-IsCounted (call ∷ calls) file st loads h =
        let (st', loads', h') = step call file st loads h in
        run_calls-IsCounted calls (run_call call file).1 st' loads' h'
