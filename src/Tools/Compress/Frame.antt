-- ===== src/Tools/Compress/Frame.antt =====
-- What compression leaves alone: everything that saving the chronicle of its world leaves alone.
use narrative_ai_agent.Prelude.{
  ℕ, zero, suc, ◌≡◌, ◌≢◌, refl, true, false, Option, none, some, Result, arith, Bool-cases, inl,
  inr,
}
use narrative_ai_agent.Prelude.Int.{ℤ, add_int}
use narrative_ai_agent.Prelude.Text.{Text, text_eq_iff}
use narrative_ai_agent.Chronicle.{Chronicle, ChronicleError, window_size}
use narrative_ai_agent.Repositories.{Store, out_of_fuel, save_chronicle, chronicle_file}
use narrative_ai_agent.Repositories.Keeps.{
  Keeps, Keeps-pure, Keeps-raise, Keeps-lift, Keeps-if, Keeps-bind, Keeps-or_skip,
  Keeps-load_chronicle,
}
use narrative_ai_agent.Tools.Compress.{
  Summarizer, compress_span, chronicle_compress_window, compress_windows,
  chronicle_compress_after_archive,
}

module _ (marshal : Chronicle → Result ChronicleError Text) (P : Store → Type 0) (w : Text)
    (saves : (c : Chronicle) → Keeps P (save_chronicle w c)) where
  compress_span-Keeps :
      (f : Summarizer) (c : Chronicle) (span : Option (ℤ × ℤ))
      → Keeps P (compress_span marshal f w c span)
  unfolding compress_span
  compress_span-Keeps f c none = Keeps-pure false
  compress_span-Keeps f c (some (start, end)) = Keeps-bind _ _ (Keeps-load_chronicle w) λ body.
      Keeps-bind _ _ (Keeps-lift _) λ raw. Keeps-bind _ _ (Keeps-lift _) λ summary.
        Keeps-if _ _ _ (Keeps-pure false)
          (Keeps-bind _ _ (Keeps-lift _) λ c'. Keeps-bind _ _ (saves c') λ u. Keeps-pure true)

  compress_windows-Keeps :
      (fuel : ℕ) (f : Summarizer) (start_from w_end end_at : ℤ)
      → Keeps P (compress_windows marshal fuel f w start_from w_end end_at)
  unfolding compress_windows chronicle_compress_window
  compress_windows-Keeps zero f start_from w_end end_at = Keeps-raise out_of_fuel
  compress_windows-Keeps (suc fuel) f start_from w_end end_at =
      Keeps-if _ _ _
        (Keeps-bind _ _
          (Keeps-if _ _ _ (Keeps-pure false) (
            Keeps-bind _ _ (Keeps-load_chronicle w)
              λ c. Keeps-if _ _ _ (Keeps-pure false) (compress_span-Keeps f c _)))
          λ _. compress_windows-Keeps fuel f start_from (add_int w_end window_size) end_at)
        (Keeps-pure tt)

  hook-Keeps :
      (o : Option Summarizer) (day : ℤ) → Keeps P (chronicle_compress_after_archive marshal o w day)
  unfolding chronicle_compress_after_archive
  hook-Keeps none day = Keeps-pure tt
  hook-Keeps (some f) day =
      Keeps-or_skip _ _ (Keeps-load_chronicle w)
        λ c. Keeps-if _ _ _ (Keeps-pure tt) (compress_windows-Keeps _ f _ _ day)

-- Two stores that differ at most in the chronicle of one world.
pub record SameBut (w : Text) (s t : Store) : Type 0 where
  pub info : t.info ≡ s.info
  pub info_exists : t.info_exists ≡ s.info_exists
  pub info_blank : t.info_blank ≡ s.info_blank
  pub files : t.others ≡ s.others
  pub commits : t.commits ≡ s.commits
  pub states : t.states ≡ s.states
  pub state_exists : t.state_exists ≡ s.state_exists
  pub others : (v : Text) → v ≢ w → t.chronicles v ≡ s.chronicles v
  pub plans : t.plans ≡ s.plans
  pub lores : t.lores ≡ s.lores
  pub canons : t.canons ≡ s.canons
  pub faults : t.write_fault ≡ s.write_fault
  pub invalidations : t.invalidations ≡ s.invalidations

SameBut-refl : (w : Text) (s : Store) → SameBut w s s
SameBut-refl w s = record {
  info = refl;
  info_exists = refl;
  info_blank = refl;
  files = refl;
  commits = refl;
  states = refl;
  state_exists = refl;
  others = λ v n. refl;
  plans = refl;
  lores = refl;
  canons = refl;
  faults = refl;
  invalidations = refl;
}

save_chronicle-SameBut :
    (w : Text) (s : Store) (c : Chronicle) → Keeps (SameBut w s) (save_chronicle w c)
unfolding save_chronicle
save_chronicle-SameBut w s c = record {
  at = λ t h. elim (Bool-cases (t.write_fault (chronicle_file w))) [
    | inl e ↦ rw e h
    | inr e ↦ rw e (record {
      info = h.info;
      info_exists = h.info_exists;
      info_blank = h.info_blank;
      files = h.files;
      commits = h.commits;
      states = h.states;
      state_exists = h.state_exists;
      others = λ v n. ground (arith, text_eq_iff v w, h.others v n);
      plans = h.plans;
      lores = h.lores;
      canons = h.canons;
      faults = h.faults;
      invalidations = h.invalidations;
    })
  ];
}

-- The compression hook changes at most the chronicle of its world: the other chronicles, all world
-- states, the registry and the other files stay as they are, whether it succeeds or fails.
pub chronicle_compress_after_archive-SameBut :
    (marshal : Chronicle → Result ChronicleError Text) (o : Option Summarizer) (w : Text) (day : ℤ)
    (s : Store)
    → SameBut w s (chronicle_compress_after_archive marshal o w day s).1
chronicle_compress_after_archive-SameBut marshal o w day s =
    (hook-Keeps marshal (SameBut w s) w (save_chronicle-SameBut w s) o day).at s (SameBut-refl w s)
