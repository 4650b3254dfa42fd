-- ===== src/Tools/Compress/Windows.antt =====
-- Compression keeps the chronicles of the store well-formed, and its loop ends.
use narrative_ai_agent.Prelude.{
  ℕ, zero, suc, ◌≡◌, true, false, Option, none, some, Result, ok, err, arith,
}
use narrative_ai_agent.Prelude.Int.{ℤ, add_int}
use narrative_ai_agent.Prelude.Text.{Text, trim_space}
use narrative_ai_agent.Chronicle.{Chronicle, ChronicleError, window_size}
use narrative_ai_agent.Chronicle.Compression.{IsWellFormed, compress_window-IsWellFormed}
use narrative_ai_agent.Repositories.{out_of_fuel}
use narrative_ai_agent.Repositories.Sound.{IsSound, save_chronicle-IsSound, Keeps-loaded_chronicle}
use narrative_ai_agent.Repositories.Keeps.{
  Keeps, Keeps-raise, Keeps-pure, Keeps-lift, Keeps-if, Keeps-bind, Keeps-bind_lift, Keeps-or_skip,
  Keeps-load_chronicle, keeps_rules,
}
use narrative_ai_agent.Tools.Compress.{
  Summarizer, wrapped, compress_span, chronicle_compress_window, compress_windows,
  chronicle_compress_after_archive,
}

module _ (marshal : Chronicle → Result ChronicleError Text) (summarize : Summarizer) where
  compress_span-IsSound :
      (w : Text) (c : Chronicle) (span : Option (ℤ × ℤ))
      → IsWellFormed c
      → Keeps IsSound (compress_span marshal summarize w c span)
  unfolding compress_span
  compress_span-IsSound w c none h = search keeps_rules
  compress_span-IsSound w c (some (start, end)) h = Keeps-bind _ _ (Keeps-load_chronicle w) λ body.
      Keeps-bind _ _ (Keeps-lift _) λ raw. Keeps-bind _ _ (Keeps-lift _) λ summary.
        Keeps-if _ _ _ (Keeps-pure false) (
          Keeps-bind_lift _ _ λ c' e.
            Keeps-bind _ _
              (save_chronicle-IsSound w c' (
                compress_window-IsWellFormed c c' start end (trim_space summary) h
                  (of_wrapped _ e)))
              λ u. Keeps-pure true)
    where
      of_wrapped :
          (r : Result ChronicleError Chronicle) {c' : Chronicle} → wrapped r ≡ ok c' → r ≡ ok c'
      of_wrapped (ok a) q = ground arith
      of_wrapped (err x) q = cc

  chronicle_compress_window-IsSound :
      (w : Text) (start end : ℤ)
      → Keeps IsSound (chronicle_compress_window marshal (some summarize) w start end)
  unfolding chronicle_compress_window
  chronicle_compress_window-IsSound w start end = Keeps-if _ _ _ (Keeps-pure false) (
      Keeps-loaded_chronicle w _
        λ c h. Keeps-if _ _ _ (Keeps-pure false) (compress_span-IsSound w c _ h))

  compress_windows-IsSound :
      (fuel : ℕ) (w : Text) (start_from w_end end_at : ℤ)
      → Keeps IsSound (compress_windows marshal fuel summarize w start_from w_end end_at)
  unfolding compress_windows
  compress_windows-IsSound zero w start_from w_end end_at = Keeps-raise out_of_fuel
  compress_windows-IsSound (suc fuel) w start_from w_end end_at =
      Keeps-if _ _ _
        (Keeps-bind _ _ (chronicle_compress_window-IsSound w _ w_end)
          (λ _. compress_windows-IsSound fuel w start_from (add_int w_end window_size) end_at))
        (Keeps-pure tt)

module _ (marshal : Chronicle → Result ChronicleError Text) where
  -- The compression hook keeps every chronicle of the store well-formed, whatever the summarizer
  -- answers and wherever it stops.
  pub chronicle_compress_after_archive-IsSound :
      (summarizer : Option Summarizer) (w : Text) (day : ℤ)
      → Keeps IsSound (chronicle_compress_after_archive marshal summarizer w day)
  unfolding chronicle_compress_after_archive
  chronicle_compress_after_archive-IsSound none w day = Keeps-pure tt
  chronicle_compress_after_archive-IsSound (some f) w day =
      Keeps-or_skip _ _ (Keeps-load_chronicle w)
        λ c. Keeps-if _ _ _ (Keeps-pure tt) (compress_windows-IsSound marshal f _ w _ _ day)
