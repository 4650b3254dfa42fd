-- ===== src/Tests/StoreRuns.antt =====
-- The tools on a store with two worlds.
use narrative_ai_agent.Prelude.{
  List, ℕ, ◌+◌, leb, ◌&&◌, if◌then◌else◌, map, ◌++◌, ◌≡◌, refl, subst, true, false, none, some, [],
  ◌∷◌, Result, ok, err, arith,
}
use narrative_ai_agent.Prelude.Int.{◌+ℤ◌, ◌-ℤ◌, ◌≤ℤ◌, add_int, max_int, pos}
use narrative_ai_agent.Prelude.Text.{Text, lit, trim_space, text_eq, atoi}
use narrative_ai_agent.Chronicle.{
  DayEntry, Chronicle, ChronicleError, append_day, last_period_end, closed_before, window_size,
}
use narrative_ai_agent.Chronicle.Compression.{IsWellFormed}
use narrative_ai_agent.Staging.{
  StageRuntime, update_stage, load, load_enabled, to_stage, validate, validate_enabled,
}
use narrative_ai_agent.Staging.Days.{parse_days_range}
use narrative_ai_agent.Repositories.{
  Store, StateSnapshot, out_of_fuel, load_state, save_state, load_chronicle, or_skip, ◌>>=◌,
}
use narrative_ai_agent.Repositories.Keeps.{Avoids}
use narrative_ai_agent.Repositories.Sound.{IsSound}
use narrative_ai_agent.Tools.Compress.{Summarizer, chronicle_compress_after_archive}
use narrative_ai_agent.Tools.Compress.Termination.{chronicle_compress_after_archive-Avoids}
use narrative_ai_agent.Tools.Archive.{archive_chronicle_day, wired}
use narrative_ai_agent.Tools.Archive.Day.{archive_chronicle_day-IsSound}
use narrative_ai_agent.Tools.State.{StateUpdate, normalise_event_key, add_events, update_state}
use narrative_ai_agent.Tools.State.Events.{AreNew, update_state-AreNew}
use narrative_ai_agent.Tools.Stage.{update_stage_tool}
use narrative_ai_agent.Tools.Stage.Effects.{
  SameStates, update_call, advance_call, apply_call, run_calls, run_calls-SameStates,
}
use narrative_ai_agent.Tests.StagingRuns.{reads_story}

abbrev pub konoha : Text
konoha = lit "k"

abbrev story_body : Text → Result Text Text
story_body world = ok (lit "y")

abbrev open_day : DayEntry
open_day = record { number = pos 1; text = lit "one" }

abbrev young : Chronicle
young = record { periods = []; days = open_day ∷ [] }

abbrev pub snapshot : StageRuntime → StateSnapshot
snapshot rt = record {
  world = konoha;
  day = pos 1;
  in_flight = true;
  daytime = [];
  location = [];
  moment = [];
  npcs = [];
  current = [];
  events = lit "e" ∷ [];
  stage = rt;
}

abbrev pub store : StageRuntime → Store
store rt = record {
  info = ok (record { active_character = []; active_world = konoha; characters = []; worlds = [] });
  info_exists = true;
  info_blank = false;
  states = λ w. ok (snapshot rt);
  chronicles = λ w. ok young;
  state_exists = λ w. ok true;
  plans = λ w. ok [];
  lores = λ w. ok [];
  canons = λ w. ok [];
  others = λ path. ok [];
  write_fault = λ f. false;
  invalidations = [];
  commits = [];
}

abbrev pub idle : StageRuntime
idle = record { current = lit "p"; timeline_index = pos 0; next = [] }

abbrev summarize : Summarizer
summarize world start end body = ok (lit "summary")

abbrev pub marshal : Chronicle → Result ChronicleError Text
marshal c = ok (lit "yaml")

young-IsWellFormed : IsWellFormed young
young-IsWellFormed = record { ordered = tt; outside = (tt, tt) }

store-IsSound : IsSound (store idle)
store-IsSound = record {
  well_formed =
      λ w c e. let same : young ≡ c = ground arith in subst IsWellFormed same young-IsWellFormed;
}

day_30_fits : pos 30 +ℤ window_size ≤ℤ max_int
unfolding ◌+ℤ◌ max_int
day_30_fits = omega arith

chronicle_compress_after_archive-Avoids_example :
    Avoids out_of_fuel (chronicle_compress_after_archive marshal (some summarize) konoha (pos 30))
chronicle_compress_after_archive-Avoids_example =
    chronicle_compress_after_archive-Avoids marshal (some summarize) konoha (pos 30) day_30_fits

-- A chronicle that is closed up to 2 ^ 63 - 2: the end of the next window wraps around, and the loop goes on.
abbrev last_days : Chronicle
last_days = record {
  periods = record { from = pos 1; to = pos 9223372036854775806; memory = lit "m" } ∷ [];
  days = record { number = pos 9223372036854775807; text = lit "z" } ∷ [];
}

the_last_day_loops :
    (chronicle_compress_after_archive marshal
      (some summarize)
      konoha
      (pos 9223372036854775807)
      (record (store idle) { chronicles = λ w. ok last_days })).0
    ≡ err out_of_fuel
unfolding chronicle_compress_after_archive last_period_end add_int max_int ◌+ℤ◌ ◌-ℤ◌ or_skip
    load_chronicle ◌>>=◌
the_last_day_loops = refl

day_2_is_open :
    (c : Chronicle)
    → (store idle).chronicles konoha ≡ ok c
    → closed_before (pos 2) (last_period_end c) ≡ false
unfolding closed_before last_period_end
day_2_is_open c e =
    let same : young ≡ c = ground arith in
    subst (λ d. closed_before (pos 2) (last_period_end d) ≡ false) same refl

archive_chronicle_day-IsSound_example :
    IsSound
      (archive_chronicle_day
        (wired marshal (some summarize))
        konoha
        (pos 2)
        (lit "two")
        (store idle)).1
archive_chronicle_day-IsSound_example =
    archive_chronicle_day-IsSound marshal (some summarize) (store idle) konoha (pos 2) (lit "two")
      store-IsSound day_2_is_open

day_1_refused : (append_day young (pos 1) (lit "two")).1 ≡ false
unfolding append_day trim_space
day_1_refused = refl

-- The war is a valid transition from the prologue, and the tool answers `true`.
update_answers_true :
    (update_stage_tool reads_story story_body konoha (lit "w") (store idle)).0 ≡ ok true
unfolding update_stage_tool load load_enabled to_stage validate validate_enabled parse_days_range
    trim_space text_eq atoi update_stage load_state save_state ◌>>=◌
update_answers_true = refl

run_calls-SameStates_example : SameStates (store idle) (
    run_calls reads_story story_body
      (update_call (lit "w") ∷ advance_call ∷ apply_call ∷ [])
      konoha
      (store idle))
run_calls-SameStates_example =
    run_calls-SameStates reads_story story_body
      (update_call (lit "w") ∷ advance_call ∷ apply_call ∷ []) konoha (store idle) (snapshot idle)
      refl refl

abbrev pub lower_letter : ℕ → ℕ
lower_letter c = if leb b'A' c && leb c b'Z' then c + 32 else c

abbrev lower_ascii : Text → Text
lower_ascii t = map lower_letter t

abbrev template : StateSnapshot → Result Text Text
template st = ok (lit "body")

-- The event `e` is there already, `f` comes twice, and one event is blank.
abbrev turn : StateUpdate
turn = record {
  world = konoha;
  day = pos 1;
  in_flight = true;
  location = lit "l";
  moment = lit "m";
  npcs = none;
  append_events = lit " E" ∷ lit "F" ∷ lit " " ∷ lit "f " ∷ [];
}

f_added :
    add_events lower_ascii template (lit "e" ∷ []) (lit "e" ∷ []) turn.append_events
    ≡ lit "e" ∷ lit "F" ∷ []
unfolding add_events trim_space text_eq
f_added = refl

update_state-AreNew_example :
    let (result, t) = update_state lower_ascii template turn (store idle) in
    (result ≡ ok tt)
    × (st' : StateSnapshot) × (new : List Text) × (t.states konoha ≡ ok st')
    × (st'.events ≡ (lit "e" ∷ []) ++ new)
    × AreNew lower_ascii template
        (map (normalise_event_key lower_ascii template) (lit "e" ∷ []))
        new
    × (st'.stage ≡ idle)
update_state-AreNew_example =
    update_state-AreNew lower_ascii template turn (store idle) (snapshot idle) (lit "body")
      (λ e. cc) refl refl refl
