-- ===== src/Tools/Archive.antt =====
-- internal/usecase/tools/files/state.go: `ArchiveChronicleDay`, which ends a day.
pub mod Day
use narrative_ai_agent.Prelude.{
  ◌≡◌, ◌≢◌, refl, sym, subst, Bool, true, false, Option, none, some, List, [], ◌∷◌, if◌then◌else◌,
  Result, ok, err, arith, Bool-cases, inl, inr,
}
use narrative_ai_agent.Prelude.Int.{ℤ, pos, ◌+ℤ◌}
use narrative_ai_agent.Prelude.Text.{Text, lit, is_empty, trim_space, text_eq, text_eq_refl}
use narrative_ai_agent.Tools.Compress.{Summarizer, chronicle_compress_after_archive}
use narrative_ai_agent.Chronicle.{
  Chronicle, ChronicleError, append_day, last_period_end, closed_before,
}
use narrative_ai_agent.Chronicle.Compression.{IsWellFormed, append_day-IsWellFormed}
use narrative_ai_agent.Repositories.{
  Store, StateSnapshot, Action, Error, pure, ◌>>=◌, ◌>>◌, or_skip, load_state, save_state,
  load_chronicle, save_chronicle, invalidate, state_file, chronicle_file,
}
use narrative_ai_agent.Repositories.Keeps.{
  Keeps, Keeps-pure, Keeps-if, Keeps-bind, Keeps-or_skip, Keeps-load_state,
}
use narrative_ai_agent.Repositories.Sound.{
  IsSound, save_chronicle-IsSound, save_state-IsSound, invalidate-IsSound, Keeps-loaded_chronicle,
}

-- The hooks that may be wired: the compression of the chronicle, and the world-state cache.
pub record Hooks : Type 0 where
  pub compress : Option (Text → ℤ → Action (Unit {0}))
  pub invalidates : Bool

run_compress : Option (Text → ℤ → Action (Unit {0})) → Text → ℤ → Action (Unit {0})
run_compress none world day = pure tt
run_compress (some hook) world day = or_skip (hook world day) (λ _. pure tt)

-- The next day begins: the counter moves on, the scene is in flight, the events are cleared.
abbrev pub next_day : ℤ → StateSnapshot → StateSnapshot
next_day day st = record st { day = day +ℤ pos 1; in_flight = true; events = [] }

bump_state : Text → ℤ → Action (Unit {0})
bump_state world day =
    if is_empty world then pure tt else do st ← load_state world; save_state world (next_day day st)

-- From the append on.
archive_appended : Hooks → Text → ℤ → Chronicle × Bool → Action (Unit {0})
unfolding run_compress bump_state
archive_appended hooks world day (c, false) = pure tt
archive_appended hooks world day (c, true) = do
  save_chronicle world c
  run_compress hooks.compress world day
  bump_state world day
  if hooks.invalidates then invalidate (lit "end_day") else pure tt

unfoldable pub archive_chronicle_day : Hooks → Text → ℤ → Text → Action (Unit {0})
unfolding archive_appended
archive_chronicle_day hooks world day summary =
    if is_empty (trim_space summary)
    then pure tt
    else do c ← load_chronicle world; archive_appended hooks world day (append_day c day summary)

-- `files.New` wires the compression hook of the memory tool, and `main` the cache of the GM.
abbrev pub wired : (Chronicle → Result ChronicleError Text) → Option Summarizer → Hooks
wired marshal summarizer = record {
  compress = some (chronicle_compress_after_archive marshal summarizer);
  invalidates = true;
}
