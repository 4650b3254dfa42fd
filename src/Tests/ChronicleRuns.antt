-- ===== src/Tests/ChronicleRuns.antt =====
-- Chronicles and days, at concrete inputs.
use narrative_ai_agent.Prelude.{
  ◌≡◌, ◌≢◌, refl, inr, true, false, none, some, [], ◌∷◌, Result, ok, arith, if◌then◌else◌,
}
use narrative_ai_agent.Prelude.Int.{ℤ, pos, negsuc}
use narrative_ai_agent.Prelude.Text.{Text, lit, trim_space, atoi, text_eq}
use narrative_ai_agent.Chronicle.{
  Period, DayEntry, Chronicle, sorted_days, last_day, append_day, compress_window, closed_before,
  last_period_end,
}
use narrative_ai_agent.Chronicle.File.{ChronicleFile, to_file}
use narrative_ai_agent.Chronicle.Compression.{
  IsWellFormed, compressed, compress_window-IsWellFormed, append_day-of_closed,
}

abbrev day_entry : ℤ → Text → DayEntry
day_entry n t = record { number = n; text = t }

abbrev first_month : Period
first_month = record { from = pos 1; to = pos 30; memory = lit "the first month" }

-- One closed month and two open days, out of order.
abbrev sample : Chronicle
sample = record {
  periods = first_month ∷ [];
  days = day_entry (pos 33) (lit "b") ∷ day_entry (pos 31) (lit "a") ∷ [];
}

sample-IsWellFormed : IsWellFormed sample
sample-IsWellFormed = record {
  ordered = (omega arith, omega arith, tt);
  outside = ((inr (omega arith), tt), ((inr (omega arith), tt), tt));
}

trimmed : trim_space (lit " \t a b\n") ≡ lit "a b"
unfolding trim_space
trimmed = refl

parsed :
    (atoi (lit "+12") ≡ some (pos 12))
    × (atoi (lit "-3") ≡ some (negsuc 2))
    × (atoi (lit "1x") ≡ none)
unfolding atoi
parsed = (refl, refl, refl)

sample_sorted :
    sorted_days sample ≡ day_entry (pos 31) (lit "a") ∷ day_entry (pos 33) (lit "b") ∷ []
unfolding sorted_days
sample_sorted = refl

sample_last : last_day sample ≡ some (pos 33)
unfolding last_day
sample_last = refl

abbrev after_april : Chronicle
after_april = compressed sample (pos 31) (pos 33) (lit " april ")

sample_compressed : compress_window sample (pos 31) (pos 33) (lit " april ") ≡ ok after_april
unfolding compress_window last_period_end trim_space
sample_compressed = refl

sample_appended : (append_day sample (pos 32) (lit " c ")).1 ≡ true
unfolding append_day trim_space
sample_appended = refl

compress_window-IsWellFormed_example : IsWellFormed after_april
compress_window-IsWellFormed_example =
    compress_window-IsWellFormed sample after_april (pos 31) (pos 33) (lit " april ")
      sample-IsWellFormed sample_compressed

day_32_is_open : closed_before (pos 32) (last_period_end sample) ≡ false
unfolding closed_before last_period_end
day_32_is_open = refl

some_text : trim_space (lit "again") ≢ []
unfolding trim_space
some_text h = cc

append_day-of_closed_example :
    ((append_day sample (pos 30) (lit "again")).1 ≡ true)
    × ¬ IsWellFormed (append_day sample (pos 30) (lit "again")).0
append_day-of_closed_example =
    append_day-of_closed sample (pos 30) (lit "again") sample-IsWellFormed refl (omega arith)
      some_text

abbrev marshal_sample : ChronicleFile → Result Text Text
marshal_sample f = ok (lit "yaml")

-- The sample with white space around a text.
abbrev untrimmed : ChronicleFile
untrimmed = record {
  file_periods = first_month ∷ [];
  file_days = day_entry (pos 33) (lit " b\n") ∷ day_entry (pos 31) (lit "a") ∷ [];
}

abbrev unmarshal_sample : Text → Result Text ChronicleFile
unmarshal_sample body = if text_eq body (lit "hand") then ok untrimmed else ok (to_file sample)
