-- ===== src/Tests/SystemRuns.antt =====
-- The technical state, the git operator and the roster of a world at concrete inputs.
use narrative_ai_agent.Prelude.{
  ℕ, ◌≡◌, refl, arith, Bool, true, false, none, some, List, [], ◌∷◌, ◌&&◌, is_nil, ◌≤◌, ◌<◌, Result,
  ok, err, length, keep, map, if◌then◌else◌, ◌==◌,
}
use narrative_ai_agent.Prelude.Int.{ℤ, pos, eqb_ℤ, eqb_ℤ_iff, ◌+ℤ◌}
use narrative_ai_agent.Prelude.Text.{Text, lit, is_empty, trim_space, trim_by, text_eq, has_infix}
use narrative_ai_agent.Names.Sanitized.{ascii_lower}
use narrative_ai_agent.SystemState.{
  SystemState, SessionState, AutosaveState, CompactionEvent, CompactionLog, SystemFile,
  append_compaction_event, load_system,
}
use narrative_ai_agent.SystemState.History.{
  last_of, append_events, append_events-last, append_compaction_event-bounded,
}
use narrative_ai_agent.SystemState.Persistence.{
  bump_call, compaction_call, run_calls, IsCounted, run_calls-IsCounted,
}
use narrative_ai_agent.Git.{Command, Answer, Operator, Log, sync_rebase, push}
use narrative_ai_agent.Git.Pushing.{sync_rebase-pushed}
use narrative_ai_agent.Git.Saving.{
  Saver, counted, run_auto_save, maybe_auto_save, replies, maybe_auto_save-due,
}
use narrative_ai_agent.WorldRegistry.{Entry, add, is_exact, match_any_field, lookup, wanted}
use narrative_ai_agent.WorldRegistry.Matching.{first, only, or_else, lookup-first_or_only}

-- A time is a number here.
abbrev now : ℕ
now = 7

-- A library that writes and reads the states in which nothing has been compacted or saved, and no session has a name.
abbrev session_only : ℕ → ℕ → ℕ → ℕ → SystemState ℕ
session_only started active turns freeform = record {
  session = record {
    started_at = started;
    last_active = active;
    turn_count = pos turns;
    freeform_turn_count = pos freeform;
    chat_id = [];
    character = [];
    world = [];
  };
  compaction = record { total_compactions = pos 0; last_compaction_at = 0; history = [] };
  autosave = record { last_hash = []; last_save_at = 0; total_saves = pos 0 };
}

abbrev initial : SystemState ℕ
initial = session_only 0 0 0 0

abbrev parse : Text → Result Text (SystemState ℕ)
parse (started ∷ active ∷ turns ∷ freeform ∷ []) = ok (session_only started active turns freeform)
parse _ = err (lit "unknown")

abbrev is_unnamed : SessionState ℕ → Bool
is_unnamed s = is_empty s.chat_id && is_empty s.character && is_empty s.world

abbrev is_unused : CompactionLog ℕ → AutosaveState ℕ → Bool
is_unused c a =
    eqb_ℤ c.total_compactions (pos 0)
    && c.last_compaction_at == 0
    && is_nil c.history
    && is_empty a.last_hash
    && a.last_save_at == 0
    && eqb_ℤ a.total_saves (pos 0)

abbrev written : SessionState ℕ → ℤ → ℤ → Result Text Text
written s (pos turns) (pos freeform) = ok (s.started_at ∷ s.last_active ∷ turns ∷ freeform ∷ [])
written s _ _ = err (lit "negative")

abbrev marshal : SystemState ℕ → Result Text Text
marshal st =
    if is_unnamed st.session && is_unused st.compaction st.autosave
    then written st.session st.session.turn_count st.session.freeform_turn_count
    else err (lit "full")

reads_back :
    (st : SystemState ℕ) (body : Text)
    → marshal st ≡ ok body
    → (is_empty body ≡ false) × (parse body ≡ ok st)
reads_back st body e = ground (
  arith,
  eqb_ℤ_iff st.compaction.total_compactions (pos 0),
  eqb_ℤ_iff st.autosave.total_saves (pos 0),
)

abbrev event : CompactionEvent ℕ
event = record {
  at = now;
  trigger = lit "t";
  role = lit "narrative";
  before_tokens = pos 9;
  after_tokens = pos 5;
  dropped_turns = pos 2;
  kept_recent = pos 3;
}

append_compaction_event-bounded_example :
    length (append_compaction_event ℕ 0 parse marshal initial.compaction event (pos 0)).history ≤ 1
append_compaction_event-bounded_example =
    append_compaction_event-bounded ℕ 0 parse marshal initial.compaction event (pos 0)

append_events-last_example :
    let log =
      append_events ℕ 0 parse marshal initial.compaction (event ∷ event ∷ event ∷ []) (pos 2) in
    (log.history ≡ last_of 2 (event ∷ event ∷ event ∷ []))
    × (log.total_compactions ≡ pos 0 +ℤ pos 3)
append_events-last_example =
    append_events-last ℕ 0 parse marshal initial.compaction (event ∷ event ∷ event ∷ []) (pos 2)
      refl

abbrev new_file : SystemFile
new_file = record { body = ok []; write_fault = false }

new_file_loads : load_system ℕ 0 parse marshal new_file ≡ ok initial
unfolding load_system
new_file_loads = refl

initial-IsCounted : IsCounted ℕ 0 parse marshal initial
initial-IsCounted = record { turns = omega arith; cap = omega arith; counted = omega arith }

run_calls-IsCounted_example :
    (st' : SystemState ℕ) × (load_system ℕ 0 parse marshal (
        run_calls ℕ 0 parse marshal reads_back
          (bump_call true now ∷ compaction_call event ∷ [])
          new_file)
      ≡ ok st')
    × IsCounted ℕ 0 parse marshal st'
run_calls-IsCounted_example =
    run_calls-IsCounted ℕ 0 parse marshal reads_back
      (bump_call true now ∷ compaction_call event ∷ []) new_file initial new_file_loads
      initial-IsCounted

-- A git that rejects the first push.
abbrev stubborn : Log → Command → Answer
stubborn (before ∷ []) command = record { output = []; failure = some (lit "[rejected]") }
stubborn log command = record { output = []; failure = none }

abbrev operator : Operator
operator = record {
  remote = lit "o";
  branch = lit "m";
  author = lit "a";
  email = lit "e";
  remote_disabled = false;
}

abbrev after_retry : Log
after_retry =
    push stubborn operator
    ∷ (lit "rebase" ∷ lit "o/m" ∷ [])
    ∷ (lit "fetch" ∷ lit "o" ∷ [])
    ∷ push stubborn operator
    ∷ (lit "pull" ∷ lit "--rebase" ∷ lit "o" ∷ lit "m" ∷ [])
    ∷ []

pushed_at_last : sync_rebase stubborn operator [] ≡ (ok tt, after_retry)
unfolding sync_rebase has_infix
pushed_at_last = refl

sync_rebase-pushed_example :
    (before : Log) × (after_retry ≡ push stubborn operator ∷ before)
    × ((stubborn before (push stubborn operator)).failure ≡ none)
sync_rebase-pushed_example = sync_rebase-pushed stubborn operator [] after_retry pushed_at_last

abbrev saver : Saver
saver = record { count = 4; log = []; file = new_file }

three_positive : 0 < 3
three_positive = omega arith

maybe_auto_save-due_example :
    (k : ℕ) × (k < 3)
    × (maybe_auto_save ℕ 0 parse marshal stubborn
          (λ n. [])
          (λ e. [])
          3
          (some operator)
          true
          false
          now
          (replies ℕ 0 parse marshal stubborn
            (λ n. [])
            (λ e. [])
            3
            operator
            true
            false
            now
            three_positive
            k
            saver)
        ≡ run_auto_save ℕ 0 parse marshal stubborn
            (λ n. [])
            (λ e. [])
            operator
            true
            false
            now
            (counted ℕ 0 parse marshal stubborn
              (λ n. [])
              (λ e. [])
              (replies ℕ 0 parse marshal stubborn
                (λ n. [])
                (λ e. [])
                3
                operator
                true
                false
                now
                three_positive
                k
                saver)))
maybe_auto_save-due_example =
    maybe_auto_save-due ℕ 0 parse marshal stubborn (λ n. []) (λ e. []) 3 operator true false now
      three_positive saver

abbrev hinata : Entry
hinata = record {
  slug = lit "hinata";
  display_name = lit "Hinata Hyuga";
  nicknames = lit "Hina" ∷ [];
}

abbrev iruka : Entry
iruka = record { slug = lit "iruka"; display_name = lit "Iruka"; nicknames = [] }

abbrev roster : List Entry
roster = hinata ∷ iruka ∷ []

abbrev same_text : Text → Text → Bool
same_text a b = text_eq (map ascii_lower a) (map ascii_lower b)

abbrev query : Text
query = lit " hyuga "

query_is_wanted : is_empty (wanted ascii_lower same_text query) ≡ false
unfolding wanted trim_space trim_by
query_is_wanted = refl

lookup-first_or_only_example :
    lookup ascii_lower same_text roster query
    ≡ or_else
        (first (
          keep (λ e. is_exact ascii_lower same_text e (wanted ascii_lower same_text query)) roster))
        (only (
          keep
            (λ e. match_any_field ascii_lower same_text e (wanted ascii_lower same_text query))
            roster))
lookup-first_or_only_example =
    lookup-first_or_only ascii_lower same_text roster query (refl, (refl, tt)) query_is_wanted

hyuga_is_hinata : lookup ascii_lower same_text roster query ≡ some hinata
unfolding lookup wanted trim_space trim_by text_eq has_infix
hyuga_is_hinata = refl

iruka_added : add ascii_lower same_text [] iruka ≡ ok (iruka ∷ [])
unfolding add trim_space trim_by
iruka_added = refl
