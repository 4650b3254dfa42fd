-- ===== src/Repositories/Keeps.antt =====
-- Invariants of actions: a rule for each way to build one.
use narrative_ai_agent.Prelude.{
  ◌≡◌, ◌≢◌, refl, sym, subst, arith, Bool, true, false, if◌then◌else◌, Result, ok, err, Bool-cases,
  inl, inr,
}
use narrative_ai_agent.Prelude.Text.{Text}
use narrative_ai_agent.Repositories.{
  Store, Error, File, Action, write, pure, raise, lift, continue, skip, or_skip, load_state,
  load_chronicle, ◌>>=◌,
}

-- The action keeps `P`, whether it returns or fails.
pub record Keeps {A : Type 0} (P : Store → Type 0) (m : Action A) : Type 0 where
  pub at : (s : Store) → P s → P (m s).1

module _ {P : Store → Type 0} where
  pub Keeps-pure : {R : Type 0} (r : R) → Keeps P (pure r)
  unfolding pure
  Keeps-pure r = record { at = λ store holds. holds }

  pub Keeps-raise : {R : Type 0} (failure : Error) → Keeps P (raise {A = R} failure)
  unfolding raise
  Keeps-raise failure = record { at = λ store holds. holds }

  pub Keeps-lift : {R : Type 0} (value : Result Error R) → Keeps P (lift value)
  unfolding lift
  Keeps-lift value = record { at = λ store holds. holds }

  pub Keeps-if :
      {R : Type 0} (test : Bool) (then_call else_call : Action R)
      → Keeps P then_call
      → Keeps P else_call
      → Keeps P (if test then then_call else else_call)
  Keeps-if true then_call else_call first second = first
  Keeps-if false then_call else_call first second = second

  pub Keeps-bind :
      {R S : Type 0} (call : Action R) (next : R → Action S)
      → Keeps P call
      → ((r : R) → Keeps P (next r))
      → Keeps P (call >>= next)
  unfolding ◌>>=◌
  Keeps-bind {R} call next first second = record {
    at = λ store holds.
        let (r, store') = call store in continue_keeps r store' (first.at store holds);
  }
    where
      continue_keeps : (r : Result Error R) (store : Store) → P store → P (continue r next store).1
      continue_keeps (ok r) store holds = (second r).at store holds
      continue_keeps (err e) store holds = holds

  -- The rest of the block may use that the call did not fail.
  pub Keeps-bind_lift :
      {R S : Type 0} (value : Result Error R) (next : R → Action S)
      → ((r : R) → value ≡ ok r → Keeps P (next r))
      → Keeps P (lift value >>= next)
  unfolding ◌>>=◌
  Keeps-bind_lift (ok r) next second = second r refl
  Keeps-bind_lift (err e) next second = record { at = λ store holds. holds }

  -- An action that only reads the store keeps everything.
  pub Keeps-of_reads : {A : Type 0} (m : Action A) → ((s : Store) → (m s).1 ≡ s) → Keeps P m
  Keeps-of_reads m h = record { at = λ s p. subst P (sym (h s)) p }

  pub Keeps-or_skip :
      {A : Type 0} (m : Action A) (f : A → Action (Unit {0}))
      → Keeps P m
      → ((a : A) → Keeps P (f a))
      → Keeps P (or_skip m f)
  unfolding or_skip
  Keeps-or_skip {A} m f hm hf = record {
    at = λ s h. let (r, s') = m s in skip_keeps r s' (hm.at s h);
  }
    where
      skip_keeps : (r : Result Error A) (s : Store) → P s → P (skip r f s).1
      skip_keeps (ok a) s h = (hf a).at s h
      skip_keeps (err e) s h = h

  pub Keeps-load_state : (w : Text) → Keeps P (load_state w)
  unfolding load_state
  Keeps-load_state w = Keeps-of_reads (load_state w) (λ s. refl)

  pub Keeps-load_chronicle : (w : Text) → Keeps P (load_chronicle w)
  unfolding load_chronicle
  Keeps-load_chronicle w = Keeps-of_reads (load_chronicle w) (λ s. refl)

  pub Keeps-write :
      (file : File) (change : Store → Store)
      → ((s : Store) → P s → P (change s))
      → Keeps P (write file change)
  unfolding write
  Keeps-write file change kept = record {
    at = λ s h. elim (Bool-cases (s.write_fault file)) [ inl e ↦ rw e h | inr e ↦ rw e (kept s h) ];
  }

pub ruleset keeps_rules = (
  Keeps-pure, Keeps-raise, Keeps-lift, Keeps-if, Keeps-bind, Keeps-or_skip, Keeps-load_state,
  Keeps-load_chronicle,
)

-- The action never fails with `e`.
pub record Avoids {A : Type 0} (e : Error) (m : Action A) : Type 0 where
  pub never : (s : Store) → (m s).0 ≢ err e

module _ {e : Error} where
  pub Avoids-pure : {A : Type 0} (a : A) → Avoids e (pure a)
  unfolding pure
  Avoids-pure a = record { never = λ s h. cc }

  pub Avoids-lift : {A : Type 0} (r : Result Error A) → r ≢ err e → Avoids e (lift r)
  unfolding lift
  Avoids-lift r h = record { never = λ s. h }

  pub Avoids-if :
      {A : Type 0} (b : Bool) (m k : Action A)
      → Avoids e m
      → Avoids e k
      → Avoids e (if b then m else k)
  Avoids-if true m k hm hk = hm
  Avoids-if false m k hm hk = hk

  pub Avoids-bind :
      {A B : Type 0} (m : Action A) (f : A → Action B)
      → Avoids e m
      → ((a : A) → Avoids e (f a))
      → Avoids e (m >>= f)
  unfolding ◌>>=◌
  Avoids-bind {A} m f hm hf = record { never = λ s. let (r, s') = m s in step r s' (hm.never s) }
    where
      step : (r : Result Error A) (s : Store) → r ≢ err e → (continue r f s).0 ≢ err e
      step (ok a) s h = (hf a).never s
      step (err x) s h = λ q. h (ground arith)

  pub Avoids-or_skip :
      {A : Type 0} (m : Action A) (f : A → Action (Unit {0}))
      → ((a : A) → Avoids e (f a))
      → Avoids e (or_skip m f)
  unfolding or_skip
  Avoids-or_skip {A} m f hf = record { never = λ s. let (r, s') = m s in step r s' }
    where
      step : (r : Result Error A) (s : Store) → (skip r f s).0 ≢ err e
      step (ok a) s = (hf a).never s
      step (err x) s = λ q. cc

pub ruleset avoids_rules = (Avoids-pure, Avoids-lift, Avoids-if, Avoids-bind, Avoids-or_skip)
