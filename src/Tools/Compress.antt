-- ===== src/Tools/Compress.antt =====
-- internal/usecase/tools/files/memory.go: which days of a chronicle are compressed, and when. The
-- summarizer, which asks a language model, and the YAML text that it is shown are parameters.
pub mod Frame
pub mod Termination
pub mod Windows
use narrative_ai_agent.Prelude.{
  ℕ, zero, suc, ◌+◌, Bool, true, false, Option, none, some, List, [], ◌∷◌, if◌then◌else◌, Result,
  ok, err, keep, is_nil, ◌||◌,
}
use narrative_ai_agent.Prelude.Int.{ℤ, pos, ltb_ℤ, leb_ℤ, max_ℤ, add_int, ◌+ℤ◌, ◌-ℤ◌, pos_part}
use narrative_ai_agent.Prelude.Text.{Text, is_empty, trim_space}
use narrative_ai_agent.Chronicle.{
  DayEntry, Chronicle, ChronicleError, sorted_days, last_period_end, compress_window, within,
  window_size,
}
use narrative_ai_agent.Repositories.{
  Action, Error, of_chronicle, summarizer_failed, out_of_fuel, pure, raise, lift, ◌>>=◌, ◌>>◌,
  or_skip, load_chronicle, save_chronicle,
}

-- `SummarizeChronicle(world, start, end, chronicle)`.
abbrev pub Summarizer : Type 0
Summarizer = Text → ℤ → ℤ → Text → Result Text Text

-- The first day that no period covers yet, if `start` lies before it.
window_start : ℤ → Option ℤ → ℤ
window_start start none = start
window_start start (some last_end) =
    if leb_ℤ start last_end then add_int last_end (pos 1) else start

last_number : ℤ → List DayEntry → ℤ
last_number n [] = n
last_number n (d ∷ ds) = last_number d.number ds

-- The first and the last day of a window of two days or more.
window_span : List DayEntry → Option (ℤ × ℤ)
unfolding last_number
window_span [] = none
window_span (d ∷ []) = none
window_span (d ∷ e ∷ ds) = some (d.number, last_number e.number ds)

summarized : Result Text Text → Result Error Text
summarized (ok body) = ok body
summarized (err e) = err (summarizer_failed e)

wrapped : {A : Type 0} → Result ChronicleError A → Result Error A
wrapped (ok a) = ok a
wrapped (err e) = err (of_chronicle e)

start_after : Option ℤ → ℤ
start_after none = pos 1
start_after (some last_end) = add_int last_end (pos 1)

-- The rounds that the loop may take: one for each day at most, where no end of a window wraps around.
abbrev rounds : ℤ → ℤ → ℕ
rounds start_from end_at = pos_part (end_at -ℤ start_from) + 1

module _ (marshal : Chronicle → Result ChronicleError Text) where
  -- From the reload of the chronicle on. A summary that is blank compresses nothing.
  compress_span : Summarizer → Text → Chronicle → Option (ℤ × ℤ) → Action Bool
  unfolding summarized wrapped
  compress_span summarize world c none = pure false
  compress_span summarize world c (some (start, end)) = do
    body ← load_chronicle world
    raw ← lift (wrapped (marshal body))
    summary ← lift (summarized (summarize world start end raw))
    let memory = trim_space summary
    if is_empty memory then pure false else do
      c' ← lift (wrapped (compress_window c start end memory))
      save_chronicle world c'
      pure true

  unfoldable pub chronicle_compress_window : Option Summarizer → Text → ℤ → ℤ → Action Bool
  unfolding compress_span window_start window_span
  chronicle_compress_window none world start end = pure false
  chronicle_compress_window (some summarize) world start end =
      if ltb_ℤ end start then pure false else do
        c ← load_chronicle world
        let from = window_start start (last_period_end c)
        if ltb_ℤ end from
            then pure false
            else compress_span summarize world c
                (window_span (keep (λ d. within from end d.number) (sorted_days c)))

  -- `for wEnd := …; wEnd <= endAt; wEnd += window`. The end of a window wraps around as an `int` does; to run out of
  -- fuel stands for a loop that goes on.
  compress_windows : ℕ → Summarizer → Text → ℤ → ℤ → ℤ → Action (Unit {0})
  unfolding chronicle_compress_window
  compress_windows zero summarize world start_from w_end end_at = raise out_of_fuel
  compress_windows (suc fuel) summarize world start_from w_end end_at =
      let next =
        compress_windows fuel summarize world start_from (add_int w_end window_size) end_at in
      if leb_ℤ w_end end_at
      then (do
        chronicle_compress_window (some summarize) world
            (max_ℤ (w_end -ℤ window_size +ℤ pos 1) start_from) w_end
        next)
      else pure tt

  after_archive : Summarizer → Text → ℤ → Chronicle → Action (Unit {0})
  unfolding compress_windows start_after
  after_archive summarize world end_at c =
      let start_from = start_after (last_period_end c) in
      if is_nil c.days || ltb_ℤ end_at start_from
      then pure tt
      else compress_windows (rounds start_from end_at) summarize world start_from
          (add_int start_from (window_size -ℤ pos 1)) end_at

  -- The hook that runs after a day has been archived. A chronicle that cannot be read is skipped.
  unfoldable pub chronicle_compress_after_archive : Option Summarizer → Text → ℤ → Action (Unit {0})
  unfolding after_archive
  chronicle_compress_after_archive none world day = pure tt
  chronicle_compress_after_archive (some summarize) world day =
      or_skip (load_chronicle world) (after_archive summarize world day)
