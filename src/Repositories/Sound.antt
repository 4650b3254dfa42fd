-- ===== src/Repositories/Sound.antt =====
-- Chronicles of the store that are well-formed, whatever world they belong to.
use narrative_ai_agent.Prelude.{◌≡◌, refl, subst, inl, inr, Result, ok, err, arith, Bool-cases}
use narrative_ai_agent.Prelude.Text.{Text, text_eq}
use narrative_ai_agent.Chronicle.{Chronicle}
use narrative_ai_agent.Chronicle.Compression.{IsWellFormed}
use narrative_ai_agent.Repositories.{
  Store, StateSnapshot, Action, save_state, invalidate, state_file, continue, loaded, ◌>>=◌,
  load_chronicle, save_chronicle, chronicle_file,
}
use narrative_ai_agent.Repositories.Keeps.{Keeps}

-- Every chronicle that can be loaded is well-formed.
pub record IsSound (s : Store) : Type 0 where
  pub well_formed : (w : Text) (c : Chronicle) → s.chronicles w ≡ ok c → IsWellFormed c

pub save_chronicle-IsSound :
    (w : Text) (c : Chronicle) → IsWellFormed c → Keeps IsSound (save_chronicle w c)
unfolding save_chronicle
save_chronicle-IsSound w c h = record {
  at = λ s sound. elim (Bool-cases (s.write_fault (chronicle_file w))) [
    | inl e ↦ rw e sound
    | inr e ↦ rw e (record {
      well_formed = λ v d q. elim (Bool-cases (text_eq v w)) [
        | inl f ↦ let same : c ≡ d = ground arith in subst IsWellFormed same h
        | inr f ↦ sound.well_formed v d (ground arith)
      ];
    })
  ];
}

-- What follows a load may use what has been loaded.
pub load_chronicle-bind :
    {A : Type 0} (P : Store → Type 0) (w : Text) (f : Chronicle → Action A) (s : Store)
    → P s
    → ((c : Chronicle) → s.chronicles w ≡ ok c → P (f c s).1)
    → P ((load_chronicle w >>= f) s).1
unfolding load_chronicle ◌>>=◌
load_chronicle-bind P w f s h k = step (s.chronicles w) refl
  where
    step : (r : Result Text Chronicle) → s.chronicles w ≡ r → P (continue (loaded r) f s).1
    step (ok c) e = k c e
    step (err x) e = h

pub Keeps-loaded_chronicle :
    {A : Type 0} (w : Text) (f : Chronicle → Action A)
    → ((c : Chronicle) → IsWellFormed c → Keeps IsSound (f c))
    → Keeps IsSound (load_chronicle w >>= f)
Keeps-loaded_chronicle w f h = record {
  at = λ s sound.
      load_chronicle-bind IsSound w f s sound λ c e. (h c (sound.well_formed w c e)).at s sound;
}

pub save_state-IsSound : (w : Text) (snap : StateSnapshot) → Keeps IsSound (save_state w snap)
unfolding save_state
save_state-IsSound w snap = record {
  at = λ s sound. elim (Bool-cases (s.write_fault (state_file w))) [
    | inl e ↦ rw e sound
    | inr e ↦ rw e (record { well_formed = sound.well_formed })
  ];
}

pub invalidate-IsSound : (reason : Text) → Keeps IsSound (invalidate reason)
unfolding invalidate
invalidate-IsSound reason = record { at = λ s sound. record { well_formed = sound.well_formed } }
