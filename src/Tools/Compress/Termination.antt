-- ===== src/Tools/Compress/Termination.antt =====
-- The loop over the windows ends before its fuel does.
use narrative_ai_agent.Prelude.{
  ℕ, zero, suc, ◌+◌, ◌≤◌, ◌<◌, ◌≢◌, true, false, ◌||◌, Option, none, some, Result, ok, err, arith,
  is_nil, Bool-cases, inl, inr,
}
use narrative_ai_agent.Prelude.Int.{
  ℤ, pos, ltb_ℤ, leb_ℤ, ◌+ℤ◌, ◌-ℤ◌, ◌≤ℤ◌, max_int, add_int_below, pos_part, neg_part, +ℤ_parts,
  -ℤ_parts,
}
use narrative_ai_agent.Prelude.Text.{Text}
use narrative_ai_agent.Chronicle.{Chronicle, ChronicleError, window_size, last_period_end}
use narrative_ai_agent.Repositories.{out_of_fuel, load_chronicle, save_chronicle}
use narrative_ai_agent.Repositories.Keeps.{
  Avoids, Avoids-pure, Avoids-lift, Avoids-if, Avoids-bind, Avoids-or_skip,
}
use narrative_ai_agent.Tools.Compress.{
  Summarizer, summarized, wrapped, compress_span, chronicle_compress_window, compress_windows,
  start_after, rounds, chronicle_compress_after_archive,
}

Avoids-load_chronicle : (w : Text) → Avoids out_of_fuel (load_chronicle w)
unfolding load_chronicle
Avoids-load_chronicle w = record { never = λ s h. ground arith }

Avoids-save_chronicle : (w : Text) (c : Chronicle) → Avoids out_of_fuel (save_chronicle w c)
unfolding save_chronicle
Avoids-save_chronicle w c = record { never = λ s h. ground arith }

wrapped-ne : {A : Type 0} (r : Result ChronicleError A) → wrapped r ≢ err out_of_fuel
unfolding wrapped
wrapped-ne (ok a) h = cc
wrapped-ne (err e) h = cc

summarized-ne : (r : Result Text Text) → summarized r ≢ err out_of_fuel
unfolding summarized
summarized-ne (ok a) h = cc
summarized-ne (err e) h = cc

module _ (marshal : Chronicle → Result ChronicleError Text) (summarize : Summarizer) where
  compress_span-Avoids :
      (w : Text) (c : Chronicle) (span : Option (ℤ × ℤ))
      → Avoids out_of_fuel (compress_span marshal summarize w c span)
  unfolding compress_span
  compress_span-Avoids w c none = Avoids-pure false
  compress_span-Avoids w c (some (start, end)) = Avoids-bind _ _ (Avoids-load_chronicle w) λ body.
      Avoids-bind _ _ (Avoids-lift _ (wrapped-ne _)) λ raw.
        Avoids-bind _ _ (Avoids-lift _ (summarized-ne _)) λ summary.
          Avoids-if _ _ _ (Avoids-pure false) (
            Avoids-bind _ _ (Avoids-lift _ (wrapped-ne _))
              λ c'. Avoids-bind _ _ (Avoids-save_chronicle w c') λ u. Avoids-pure true)

  chronicle_compress_window-Avoids :
      (w : Text) (start end : ℤ)
      → Avoids out_of_fuel (chronicle_compress_window marshal (some summarize) w start end)
  unfolding chronicle_compress_window
  chronicle_compress_window-Avoids w start end = Avoids-if _ _ _ (Avoids-pure false) (
      Avoids-bind _ _ (Avoids-load_chronicle w)
        λ c. Avoids-if _ _ _ (Avoids-pure false) (compress_span-Avoids w c _))

  compress_windows-Avoids :
      (fuel : ℕ) (w : Text) (start_from w_end end_at : ℤ)
      → 0 < fuel
      → end_at +ℤ window_size ≤ℤ max_int
      → pos_part end_at + neg_part w_end + 2 ≤ pos_part w_end + neg_part end_at + fuel
      → Avoids out_of_fuel (compress_windows marshal fuel summarize w start_from w_end end_at)
  unfolding compress_windows
  compress_windows-Avoids zero w start_from w_end end_at p top h = elim p [ ]
  compress_windows-Avoids (suc fuel) w start_from w_end end_at p top h =
      elim (Bool-cases (leb_ℤ w_end end_at)) [
        | inr e ↦ rw e (Avoids-pure tt)
        | inl e ↦
            let le : w_end ≤ℤ end_at = ground arith in
            let below : w_end +ℤ window_size ≤ℤ max_int =
              omega (arith, +ℤ_parts w_end window_size, +ℤ_parts end_at window_size) in
            rw (e, add_int_below w_end window_size below)
              (Avoids-bind _ _ (chronicle_compress_window-Avoids w _ w_end) λ _.
                compress_windows-Avoids fuel w start_from (w_end +ℤ window_size) end_at
                  (omega arith) top (omega (arith, +ℤ_parts w_end window_size)))
      ]

module _ (marshal : Chronicle → Result ChronicleError Text) where
  -- For a day that is at least a window of 30 days below the largest int, the compression hook ends by its own
  -- test: whatever the summarizer answers and whatever periods the chronicle has, no end of a window wraps around, and
  -- the loop over the windows takes at most one round for each day.
  pub chronicle_compress_after_archive-Avoids :
      (summarizer : Option Summarizer) (w : Text) (day : ℤ)
      → day +ℤ window_size ≤ℤ max_int
      → Avoids out_of_fuel (chronicle_compress_after_archive marshal summarizer w day)
  unfolding chronicle_compress_after_archive
  chronicle_compress_after_archive-Avoids none w day top = Avoids-pure tt
  chronicle_compress_after_archive-Avoids (some f) w day top = Avoids-or_skip _ _ λ c.
      let start = start_after (last_period_end c) in
      elim (Bool-cases (is_nil c.days || ltb_ℤ day start)) [
        | inl e ↦ rw e (Avoids-pure tt)
        | inr e ↦
            let le : start ≤ℤ day = ground arith in
            let width = window_size -ℤ pos 1 in
            let below : start +ℤ width ≤ℤ max_int = omega (
              arith,
              +ℤ_parts start width,
              +ℤ_parts day window_size,
              -ℤ_parts window_size (pos 1),
            ) in
            rw (e, add_int_below start width below)
              (compress_windows-Avoids marshal f (rounds start day) w start (start +ℤ width) day
                (omega arith) top
                (omega
                  (arith, +ℤ_parts start width, -ℤ_parts window_size (pos 1), -ℤ_parts day start)))
      ]
