-- ===== src/Tools/World/Registry.antt =====
-- The registry of worlds under the calls of the world tool, and what these calls leave alone.
use narrative_ai_agent.Prelude.{
  ℕ, ◌≡◌, ◌≢◌, ◌⊎◌, refl, sym, ap, ◌∙◌, subst, true, List, [], ◌∷◌, ◌++◌, ok, arith, Bool-cases,
  inl, inr,
}
use narrative_ai_agent.Prelude.Int.{ℤ}
use narrative_ai_agent.Prelude.Text.{Text, contains_text, text_eq_refl}
use narrative_ai_agent.Names.{sanitize_name}
use narrative_ai_agent.Repositories.{
  Store, Info, save_state, save_chronicle, invalidate, update-other,
}
use narrative_ai_agent.Repositories.Files.{save_info, save_plan, save_lore}
use narrative_ai_agent.Repositories.Keeps.{Keeps, Keeps-bind, Keeps-write}
use narrative_ai_agent.Tools.World.{switched, switch_active, leave, return_world, listed}
use narrative_ai_agent.Tools.World.Frame.{Allows, leave-Keeps, return_world-Keeps, Keeps-load_info}

-- Two stores that agree on everything of one world.
pub record SameWorld (world : Text) (s t : Store) : Type 0 where
  pub state : t.states world ≡ s.states world
  pub exists : t.state_exists world ≡ s.state_exists world
  pub chronicle : t.chronicles world ≡ s.chronicles world
  pub plan : t.plans world ≡ s.plans world
  pub lore : t.lores world ≡ s.lores world
  pub canon : t.canons world ≡ s.canons world

SameWorld-refl : (world : Text) (s : Store) → SameWorld world s s
SameWorld-refl world s = record {
  state = refl;
  exists = refl;
  chronicle = refl;
  plan = refl;
  lore = refl;
  canon = refl;
}

Allows-SameWorld : (world dir : Text) (s : Store) → world ≢ dir → Allows (SameWorld world s) dir
unfolding save_state save_plan save_lore save_chronicle
Allows-SameWorld world dir s differs = record {
  states = λ snap. Keeps-write _ _ λ t h. record {
    state = update-other t.states dir _ world differs ∙ h.state;
    exists = update-other t.state_exists dir _ world differs ∙ h.exists;
    chronicle = h.chronicle;
    plan = h.plan;
    lore = h.lore;
    canon = h.canon;
  };
  plans = λ body. Keeps-write _ _ λ t h. record {
    state = h.state;
    exists = h.exists;
    chronicle = h.chronicle;
    plan = update-other t.plans dir _ world differs ∙ h.plan;
    lore = h.lore;
    canon = h.canon;
  };
  lores = λ body. Keeps-write _ _ λ t h. record {
    state = h.state;
    exists = h.exists;
    chronicle = h.chronicle;
    plan = h.plan;
    lore = update-other t.lores dir _ world differs ∙ h.lore;
    canon = h.canon;
  };
  chronicles = λ c. Keeps-write _ _ λ t h. record {
    state = h.state;
    exists = h.exists;
    chronicle = update-other t.chronicles dir _ world differs ∙ h.chronicle;
    plan = h.plan;
    lore = h.lore;
    canon = h.canon;
  };
}

switch_active-SameWorld :
    (world : Text) (s : Store) (to character : Text)
    → Keeps (SameWorld world s) (switch_active to character)
unfolding switch_active save_info
switch_active-SameWorld world s to character = Keeps-bind _ _ Keeps-load_info λ info.
    Keeps-write _ _ λ t h. record {
      state = h.state;
      exists = h.exists;
      chronicle = h.chronicle;
      plan = h.plan;
      lore = h.lore;
      canon = h.canon;
    }

invalidate-SameWorld :
    (world : Text) (s : Store) (reason : Text) → Keeps (SameWorld world s) (invalidate reason)
unfolding invalidate
invalidate-SameWorld world s reason = record {
  at = λ t h. record {
    state = h.state;
    exists = h.exists;
    chronicle = h.chronicle;
    plan = h.plan;
    lore = h.lore;
    canon = h.canon;
  };
}

-- Leave touches at most the two worlds that its names stand for: of every other world the state, the chronicle,
-- the plan, the lore and the canon stay as they are, whether it succeeds or fails.
leave-SameWorld :
    (to_lower : ℕ → ℕ) (show_int : ℤ → Text) (from_world to_world skip_note character world : Text)
    (s : Store)
    → sanitize_name to_lower from_world ≢ ok world
    → sanitize_name to_lower to_world ≢ ok world
    → SameWorld world s (leave to_lower show_int from_world to_world skip_note character s).1
leave-SameWorld to_lower show_int from_world to_world skip_note character world s differs differs' =
    (leave-Keeps (SameWorld world s) (switch_active-SameWorld world s)
        (invalidate-SameWorld world s) to_lower show_int from_world to_world skip_note character
        (λ dir e. Allows-SameWorld world dir s (λ q. differs (e ∙ ap ok (sym q))))
        (λ dir e. Allows-SameWorld world dir s (λ q. differs' (e ∙ ap ok (sym q))))).at
      s (SameWorld-refl world s)

-- The active world, where there is one, is listed.
pub record IsListed (s : Store) : Type 0 where
  pub active :
      (info : Info)
      → s.info ≡ ok info
      → (info.active_world ≡ []) ⊎ (contains_text info.worlds info.active_world ≡ true)

contains_text-append :
    (world : Text) (worlds : List Text) → contains_text (worlds ++ (world ∷ [])) world ≡ true
contains_text-append world [] = rw (text_eq_refl world) refl
contains_text-append world (w ∷ ws) = ground (arith, contains_text-append world ws)

contains_text-listed :
    (world : Text) (worlds : List Text) → contains_text (listed world worlds) world ≡ true
contains_text-listed world worlds = elim (Bool-cases (contains_text worlds world)) [
  | inl e ↦ rw (e, e) refl
  | inr e ↦ rw e (contains_text-append world worlds)
]

switch_active-IsListed : (to character : Text) → Keeps IsListed (switch_active to character)
unfolding switch_active save_info
switch_active-IsListed to character = Keeps-bind _ _ Keeps-load_info λ info. Keeps-write _ _ λ s h.
    record {
      active = λ info' e.
          let same : switched to character info ≡ info' = ground arith in
          inr (
            subst (λ i. contains_text i.worlds i.active_world ≡ true) same
              (contains_text-listed to info.worlds));
    }

Allows-IsListed : (world : Text) → Allows IsListed world
unfolding save_state save_plan save_lore save_chronicle
Allows-IsListed world = record {
  states = λ snap. Keeps-write _ _ λ s h. record { active = h.active };
  plans = λ body. Keeps-write _ _ λ s h. record { active = h.active };
  lores = λ body. Keeps-write _ _ λ s h. record { active = h.active };
  chronicles = λ c. Keeps-write _ _ λ s h. record { active = h.active };
}

invalidate-IsListed : (reason : Text) → Keeps IsListed (invalidate reason)
unfolding invalidate
invalidate-IsListed reason = record { at = λ s h. record { active = h.active } }

-- A call of the world tool.
pub data Move : Type 0 where
  leaving : Text → Text → Text → Text → Move
  returning : Text → Text → Move

module _ (to_lower : ℕ → ℕ) (show_int : ℤ → Text) where
  abbrev run_move : Move → Store → Store
  run_move (leaving from_world to_world skip_note character) s =
      (leave to_lower show_int from_world to_world skip_note character s).1
  run_move (returning world days) s = (return_world to_lower show_int world days s).1

  -- The calls one after the other, the failed ones included.
  abbrev pub run_moves : List Move → Store → Store
  run_moves [] s = s
  run_moves (m ∷ ms) s = run_moves ms (run_move m s)

  run_move-IsListed : (m : Move) (s : Store) → IsListed s → IsListed (run_move m s)
  run_move-IsListed (leaving from_world to_world skip_note character) s h =
      (leave-Keeps IsListed switch_active-IsListed invalidate-IsListed to_lower show_int from_world
          to_world skip_note character (λ dir e. Allows-IsListed dir)
          (λ dir e. Allows-IsListed dir)).at
        s h
  run_move-IsListed (returning world days) s h =
      (return_world-Keeps IsListed switch_active-IsListed invalidate-IsListed to_lower show_int
          world days (λ dir e. Allows-IsListed dir)).at
        s h

  -- After any sequence of Leave and ReturnWorld, failed calls included, the active world of the registry is one
  -- that the registry lists, if it was before.
  pub run_moves-IsListed : (ms : List Move) (s : Store) → IsListed s → IsListed (run_moves ms s)
  run_moves-IsListed [] s h = h
  run_moves-IsListed (m ∷ ms) s h = run_moves-IsListed ms (run_move m s) (run_move-IsListed m s h)
