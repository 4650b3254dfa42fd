-- ===== src/SystemState.antt =====
-- internal/domain/system_state.go and internal/usecase/systemstate.go: the session counters, the log of compactions and
-- the autosaves, kept in system_state.md. `time.Time` and the YAML library are parameters.
pub mod History
pub mod Persistence
use narrative_ai_agent.Prelude.{
  ℕ, ◌+◌, ◌-◌, Bool, true, false, List, [], ◌∷◌, ◌++◌, if◌then◌else◌, ltb, length, drop, Result, ok,
  err, ◌>>=◌,
}
use narrative_ai_agent.Prelude.Int.{ℤ, pos, negsuc, ◌+ℤ◌}
use narrative_ai_agent.Prelude.Text.{Text, is_empty}

pub record SessionState (Time : Type 0) : Type 0 where
  pub started_at : Time
  pub last_active : Time
  pub turn_count : ℤ
  pub freeform_turn_count : ℤ
  pub chat_id : Text
  pub character : Text
  pub world : Text

pub record CompactionEvent (Time : Type 0) : Type 0 where
  pub at : Time
  pub trigger : Text
  pub role : Text
  pub before_tokens : ℤ
  pub after_tokens : ℤ
  pub dropped_turns : ℤ
  pub kept_recent : ℤ

pub record CompactionLog (Time : Type 0) : Type 0 where
  pub total_compactions : ℤ
  pub last_compaction_at : Time
  pub history : List (CompactionEvent Time)

pub record AutosaveState (Time : Type 0) : Type 0 where
  pub last_hash : Text
  pub last_save_at : Time
  pub total_saves : ℤ

pub record SystemState (Time : Type 0) : Type 0 where
  pub session : SessionState Time
  pub compaction : CompactionLog Time
  pub autosave : AutosaveState Time

-- `if maxEntries < 1 { maxEntries = 1 }`.
abbrev pub at_least_one : ℤ → ℕ
at_least_one (pos n) = if ltb n 1 then 1 else n
at_least_one (negsuc n) = 1

-- `c.History[len(c.History)-maxEntries:]`, where the history is longer.
abbrev pub trimmed_history {ℓ} : {A : Type ℓ} → ℕ → List A → List A
trimmed_history cap events =
    if ltb cap (length events) then drop (length events - cap) events else events

-- The file: what a read gives, the empty body for a missing file, and whether it can be written.
pub record SystemFile : Type 0 where
  pub body : Result Text Text
  pub write_fault : Bool

-- A read, a parse, a marshal or a write has failed.
pub data SystemError : Type 0 where
  unread : Text → SystemError
  unparsed_state : Text → SystemError
  unmarshalled : Text → SystemError
  unwritten : SystemError

abbrev pub max_compaction_history : ℤ
max_compaction_history = pos 50

module _ (Time : Type 0) (zero_time : Time) (parse : Text → Result Text (SystemState Time))
    (marshal : SystemState Time → Result Text Text) where
  unfoldable pub append_compaction_event :
      CompactionLog Time → CompactionEvent Time → ℤ → CompactionLog Time
  append_compaction_event c ev max_entries = record {
    total_compactions = c.total_compactions +ℤ pos 1;
    last_compaction_at = ev.at;
    history = trimmed_history (at_least_one max_entries) (c.history ++ (ev ∷ []));
  }

  abbrev pub default_system_state : SystemState Time
  default_system_state = record {
    session = record {
      started_at = zero_time;
      last_active = zero_time;
      turn_count = pos 0;
      freeform_turn_count = pos 0;
      chat_id = [];
      character = [];
      world = [];
    };
    compaction = record { total_compactions = pos 0; last_compaction_at = zero_time; history = [] };
    autosave = record { last_hash = []; last_save_at = zero_time; total_saves = pos 0 };
  }

  parsed : Text → Result SystemError (SystemState Time)
  parsed body =
      if is_empty body
      then ok default_system_state
      else elim (parse body) [ ok st ↦ ok st | err e ↦ err (unparsed_state e) ]

  unfoldable pub load_system : SystemFile → Result SystemError (SystemState Time)
  unfolding parsed
  load_system file = elim file.body [ ok body ↦ parsed body | err e ↦ err (unread e) ]

  unfoldable pub save_system :
      SystemState Time → SystemFile → Result SystemError (Unit {0}) × SystemFile
  save_system st file = elim (marshal st) [
    | err e ↦ (err (unmarshalled e), file)
    | ok body ↦
        if file.write_fault then (err unwritten, file) else (ok tt, record file { body = ok body })
  ]

  unfoldable pub touch_session : Bool → Time → SystemState Time → SystemState Time
  touch_session is_freeform now state =
      let session = state.session in
      record state {
        session = record session {
          last_active = now;
          turn_count = session.turn_count +ℤ pos 1;
          freeform_turn_count =
              if is_freeform
              then session.freeform_turn_count +ℤ pos 1
              else session.freeform_turn_count;
        };
      }

  unfoldable pub set_session_context :
      Text → Text → Text → Time → SystemState Time → SystemState Time
  set_session_context character world chat_id now state = record state {
    session = record state.session {
      started_at = now;
      character = character;
      world = world;
      chat_id = chat_id;
    };
  }

  -- From the state that was read on.
  unfoldable pub change_save :
      (SystemState Time → SystemState Time)
      → SystemFile
      → Result SystemError (SystemState Time)
      → Result SystemError (SystemState Time) × SystemFile
  unfolding save_system
  change_save change file (err e) = (err e, file)
  change_save change file (ok st) =
      let (r, file') = save_system (change st) file in
      (elim r [ ok u ↦ ok (change st) | err e ↦ err e ], file')

  -- The state that is read, changed and written, with the file: the shape of the four calls.
  unfoldable pub load_change_save :
      (SystemState Time → SystemState Time)
      → SystemFile
      → Result SystemError (SystemState Time) × SystemFile
  unfolding load_system change_save
  load_change_save change file = change_save change file (load_system file)

  unfoldable pub init_session :
      Text → Text → Text → Time → SystemFile → Result SystemError (SystemState Time) × SystemFile
  unfolding load_change_save set_session_context
  init_session character world chat_id now file =
      load_change_save (set_session_context character world chat_id now) file

  -- `BumpSession` answers nothing but an error; here the answer is the state that it has saved.
  unfoldable pub bump_session :
      Bool → Time → SystemFile → Result SystemError (SystemState Time) × SystemFile
  unfolding load_change_save touch_session
  bump_session is_freeform now file = load_change_save (touch_session is_freeform now) file

  unfoldable pub append_compaction :
      CompactionEvent Time → SystemFile → Result SystemError (SystemState Time) × SystemFile
  unfolding load_change_save append_compaction_event
  append_compaction ev file =
      load_change_save
        (λ state. record state {
          compaction = append_compaction_event state.compaction ev max_compaction_history;
        })
        file

  -- The hash of a commit without changes is empty, and is not counted.
  abbrev saved_as : Text → Time → AutosaveState Time → AutosaveState Time
  saved_as [] now autosave = autosave
  saved_as (c ∷ cs) now autosave = record {
    last_hash = c ∷ cs;
    last_save_at = now;
    total_saves = autosave.total_saves +ℤ pos 1;
  }

  unfoldable pub record_autosave :
      Text → Time → SystemFile → Result SystemError (SystemState Time) × SystemFile
  unfolding load_change_save
  record_autosave hash now file =
      load_change_save (λ state. record state { autosave = saved_as hash now state.autosave }) file
