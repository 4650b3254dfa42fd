-- ===== src/Tools/Archive/Day.antt =====
-- The end of a day: what `ArchiveChronicleDay` does with the hooks that `files.New` wires.
use narrative_ai_agent.Prelude.{
  ◌≡◌, Bool, true, false, Option, Result, ok, arith, Bool-cases, inl, inr,
}
use narrative_ai_agent.Prelude.Int.{ℤ}
use narrative_ai_agent.Prelude.Text.{Text, lit, is_empty, trim_space}
use narrative_ai_agent.Chronicle.{
  Chronicle, ChronicleError, append_day, last_period_end, closed_before,
}
use narrative_ai_agent.Chronicle.Compression.{IsWellFormed, append_day-IsWellFormed}
use narrative_ai_agent.Repositories.{Store, pure, ◌>>=◌, or_skip, load_chronicle, invalidate}
use narrative_ai_agent.Repositories.Keeps.{
  Keeps, Keeps-pure, Keeps-if, Keeps-bind, Keeps-or_skip, Keeps-load_state,
}
use narrative_ai_agent.Repositories.Sound.{
  IsSound, save_chronicle-IsSound, save_state-IsSound, invalidate-IsSound, load_chronicle-bind,
}
use narrative_ai_agent.Tools.Compress.{Summarizer}
use narrative_ai_agent.Tools.Compress.Windows.{chronicle_compress_after_archive-IsSound}
use narrative_ai_agent.Tools.Archive.{
  next_day, bump_state, archive_appended, archive_chronicle_day, wired,
}

bump_state-IsSound : (w : Text) (day : ℤ) → Keeps IsSound (bump_state w day)
unfolding bump_state
bump_state-IsSound w day =
    Keeps-if _ _ _ (Keeps-pure tt)
      (Keeps-bind _ _ (Keeps-load_state w) λ st. save_state-IsSound w (next_day day st))

module _ (marshal : Chronicle → Result ChronicleError Text) (o : Option Summarizer) where
  archive_appended-IsSound :
      (w : Text) (day : ℤ) (c : Chronicle) (added : Bool)
      → IsWellFormed c
      → Keeps IsSound (archive_appended (wired marshal o) w day (c, added))
  unfolding archive_appended or_skip invalidate
  archive_appended-IsSound w day c false h = Keeps-pure tt
  archive_appended-IsSound w day c true h = Keeps-bind _ _ (save_chronicle-IsSound w c h) λ _.
      Keeps-bind _ _
        (Keeps-or_skip _ _ (chronicle_compress_after_archive-IsSound marshal o w day)
          λ _. Keeps-pure tt)
        λ _. Keeps-bind _ _ (bump_state-IsSound w day) λ _. invalidate-IsSound (lit "end_day")

  -- Ending a day keeps every chronicle of the store well-formed, if the day comes after every closed
  -- period of its world.
  pub archive_chronicle_day-IsSound :
      (s : Store) (w : Text) (day : ℤ) (summary : Text)
      → IsSound s
      → ((c : Chronicle) → s.chronicles w ≡ ok c → closed_before day (last_period_end c) ≡ false)
      → IsSound (archive_chronicle_day (wired marshal o) w day summary s).1
  unfolding archive_chronicle_day
  archive_chronicle_day-IsSound s w day summary sound after =
      elim (Bool-cases (is_empty (trim_space summary))) [
        | inl e ↦ rw e (unfold pure in sound)
        | inr e ↦ rw e (
            load_chronicle-bind IsSound w
              (λ c. archive_appended (wired marshal o) w day (append_day c day summary)) s sound
              λ c found.
                (archive_appended-IsSound w day _ (append_day c day summary).1 (
                    append_day-IsWellFormed c day summary (sound.well_formed w c found)
                      (after c found))).at
                  s sound)
      ]

  -- A day that the chronicle does not take, because its summary is blank, its number is not positive
  -- or it is recorded already, ends with no error and changes nothing.
  pub archive_chronicle_day-refused :
      (s : Store) (w : Text) (day : ℤ) (summary : Text) (c : Chronicle)
      → s.chronicles w ≡ ok c
      → (append_day c day summary).1 ≡ false
      → archive_chronicle_day (wired marshal o) w day summary s ≡ (ok tt, s)
  unfolding archive_chronicle_day load_chronicle ◌>>=◌
  archive_chronicle_day-refused s w day summary c found refused = ground arith
