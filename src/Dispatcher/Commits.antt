-- ===== src/Dispatcher/Commits.antt =====
-- The commands that change worlds, with the commit that they ask for.
use narrative_ai_agent.Prelude.{
  ℕ, ◌≡◌, ◌⊎◌, refl, ap, ◌∙◌, true, false, Option, none, some, List, ◌∷◌, ◌++◌, Result, ok, err,
  arith, inl, inr, Option-cases,
}
use narrative_ai_agent.Prelude.Text.{Text, lit, is_empty, join}
use narrative_ai_agent.Names.{sanitize_name}
use narrative_ai_agent.Repositories.{
  Store, StateSnapshot, Info, Action, Error, pure, ◌>>=◌, save_state, save_chronicle, invalidate,
  continue,
}
use narrative_ai_agent.Repositories.Files.{load_info, save_info, save_plan, save_lore}
use narrative_ai_agent.Repositories.Keeps.{
  Keeps, Keeps-pure, Keeps-raise, Keeps-if, Keeps-bind, Keeps-of_reads, Keeps-write,
}
use narrative_ai_agent.Tools.Archive.{Hooks}
use narrative_ai_agent.Tools.World.{switch_active, switched, parked, left}
use narrative_ai_agent.Tools.World.Effects.{Writable, leave-enters}
use narrative_ai_agent.Tools.World.Frame.{Allows, leave-Keeps, return_world-Keeps, Keeps-load_info}
use narrative_ai_agent.Session.{
  Seeds, start, start_in, ensure_registry, read_other, sync_of, state_md, context_of, check_sync,
  zero_info,
}
use narrative_ai_agent.Dispatcher.{GitAnswers, Outside, commit, cmd_leave, cmd_return, left_reply}

-- The commits that have been asked for are these.
abbrev Committed : List Text → Store → Type 0
Committed commits s = s.commits ≡ commits

Allows-Committed : (commits : List Text) (world : Text) → Allows (Committed commits) world
unfolding save_state save_plan save_lore save_chronicle
Allows-Committed commits world = record {
  states = λ snap. Keeps-write _ _ λ s h. h;
  plans = λ body. Keeps-write _ _ λ s h. h;
  lores = λ body. Keeps-write _ _ λ s h. h;
  chronicles = λ c. Keeps-write _ _ λ s h. h;
}

save_info-Committed :
    (commits : List Text) (info : Info) → Keeps (Committed commits) (save_info info)
unfolding save_info
save_info-Committed commits info = Keeps-write _ _ λ s h. h

switch_active-Committed :
    (commits : List Text) (to character : Text)
    → Keeps (Committed commits) (switch_active to character)
unfolding switch_active
switch_active-Committed commits to character =
    Keeps-bind _ _ Keeps-load_info λ info. save_info-Committed commits (switched to character info)

invalidate-Committed :
    (commits : List Text) (reason : Text) → Keeps (Committed commits) (invalidate reason)
unfolding invalidate
invalidate-Committed commits reason = record { at = λ s h. h }

read_other-Committed :
    (commits : List Text) (path : Text) → Keeps (Committed commits) (read_other path)
unfolding read_other
read_other-Committed commits path = Keeps-of_reads (read_other path) (λ s. refl)

sync_of-Committed :
    (commits : List Text) (world state : Text) → Keeps (Committed commits) (sync_of world state)
unfolding sync_of
sync_of-Committed commits world state = Keeps-of_reads (sync_of world state) (λ s. refl)

start_in-Committed : (commits : List Text) (info : Info) → Keeps (Committed commits) (start_in info)
unfolding start_in
start_in-Committed commits info = Keeps-if (is_empty info.active_world) _ _ (Keeps-raise _) (
    Keeps-bind _ _ (read_other-Committed commits (state_md info.active_world)) λ state.
      Keeps-bind _ _ (sync_of-Committed commits info.active_world state)
        λ flags. Keeps-pure (context_of info state flags))

ensure_registry-Committed : (commits : List Text) → Keeps (Committed commits) ensure_registry
unfolding ensure_registry
ensure_registry-Committed commits = record {
  at = λ s. (Keeps-if _ _ _ (Keeps-pure tt) (save_info-Committed commits zero_info)).at s;
}

start-Committed : (commits : List Text) → Keeps (Committed commits) start
unfolding start
start-Committed commits =
    Keeps-bind _ _ (ensure_registry-Committed commits)
      λ _. Keeps-bind _ _ Keeps-load_info λ info. start_in-Committed commits info

abbrev with_commit : Option GitAnswers → Text → List Text → List Text
with_commit none message commits = commits
with_commit (some git) message commits = message ∷ commits

-- A command that commits once where it succeeds, if git is there, and not at all where it fails.
pub record CommitsIfOk (git : Option GitAnswers) (call : Action Text) : Type 0 where
  pub commits :
      (s : Store)
      → ((e : Error) × ((call s).0 ≡ err e) × ((call s).1.commits ≡ s.commits))
        ⊎ ((reply : Text) × (message : Text) × ((call s).0 ≡ ok reply)
            × ((call s).1.commits ≡ with_commit git message s.commits))

module _ (git : Option GitAnswers) where
  CommitsIfOk-commit :
      (message reply : Text) → CommitsIfOk git (commit git message >>= λ _. pure reply)
  unfolding ◌>>=◌ pure commit
  CommitsIfOk-commit message reply = record { commits = λ s. inr (at_git git s) }
    where
      at_git :
          (g : Option GitAnswers) (s : Store)
          → (reply' : Text) × (message' : Text) × (((commit g message >>= λ _. pure reply) s).0
              ≡ ok reply')
            × (((commit g message >>= λ _. pure reply) s).1.commits
                ≡ with_commit g message' s.commits)
      at_git none s = (reply, message, refl, refl)
      at_git (some answers) s = (reply, message, refl, refl)

  -- What comes before the commit asks for none.
  CommitsIfOk-bind :
      {A : Type 0} (call : Action A) (next : A → Action Text)
      → ((commits : List Text) → Keeps (Committed commits) call)
      → ((a : A) → CommitsIfOk git (next a))
      → CommitsIfOk git (call >>= next)
  unfolding ◌>>=◌
  CommitsIfOk-bind {A} call next keeps committing = record {
    commits = λ s. let (r, s') = call s in step s r s' ((keeps s.commits).at s refl);
  }
    where
      step :
          (s : Store) (r : Result Error A) (s' : Store)
          → s'.commits ≡ s.commits
          → ((e : Error) × ((continue r next s').0 ≡ err e)
              × ((continue r next s').1.commits ≡ s.commits))
            ⊎ ((reply : Text) × (message : Text) × ((continue r next s').0 ≡ ok reply)
                × ((continue r next s').1.commits ≡ with_commit git message s.commits))
      step s (err e) s' same = inl (e, refl, same)
      step s (ok a) s' same = elim ((committing a).commits s') [
        | inl (e, fails, kept) ↦ inl (e, fails, kept ∙ same)
        | inr (reply, message, answers, added) ↦
            inr (reply, message, answers, added ∙ ap (with_commit git message) same)
      ]

module _ (to_lower : ℕ → ℕ) (seeds : Seeds) (hooks : Hooks) (o : Outside) where
  -- /leave into a world commits once where it succeeds, if git is there, and not at all where it fails.
  cmd_leave-CommitsIfOk :
      (to : Text) (words : List Text)
      → CommitsIfOk o.git (cmd_leave to_lower seeds hooks o (to ∷ words))
  unfolding cmd_leave
  cmd_leave-CommitsIfOk to words = CommitsIfOk-bind o.git start _ start-Committed λ sc.
      CommitsIfOk-bind o.git _ _
        (λ commits.
          leave-Keeps (Committed commits) (switch_active-Committed commits)
            (invalidate-Committed commits) to_lower o.show_int sc.world to (join (lit " ") words)
            sc.character (λ dir e. Allows-Committed commits dir)
            (λ dir e. Allows-Committed commits dir))
        λ res.
          CommitsIfOk-commit o.git (lit "world leave: " ++ sc.world ++ lit " -> " ++ to)
            (left_reply to_lower seeds hooks o res)

  -- /return to a world commits once where it succeeds, if git is there, and not at all where it fails.
  cmd_return-CommitsIfOk :
      (world days : Text) (rest : List Text)
      → CommitsIfOk o.git (cmd_return to_lower seeds hooks o (world ∷ days ∷ rest))
  unfolding cmd_return
  cmd_return-CommitsIfOk world days rest =
      CommitsIfOk-bind o.git _ _
        (λ commits.
          return_world-Keeps (Committed commits) (switch_active-Committed commits)
            (invalidate-Committed commits) to_lower o.show_int world days
            (λ dir e. Allows-Committed commits dir))
        λ note. CommitsIfOk-commit o.git (lit "world return: " ++ world) note

  start-reads :
      (s : Store) (info : Info) (body : Text)
      → s.info_exists ≡ true
      → s.info_blank ≡ false
      → s.info ≡ ok info
      → is_empty info.active_world ≡ false
      → s.others (state_md info.active_world) ≡ ok body
      → start s ≡ (ok (context_of info body (check_sync body (s.chronicles info.active_world))), s)
  unfolding start ensure_registry load_info start_in read_other sync_of ◌>>=◌ pure
  start-reads s info body there full known active found = ground arith

  -- /leave end to end: from a session in an active world, into a world that has a canon, where every file can be written,
  -- the command answers, the world that was active is parked with its day, the new one is the active one
  -- with the same character, no chronicle changes, and the cache is told.
  pub cmd_leave-enters :
      (s : Store) (info : Info) (body to_world to canon : Text) (words : List Text)
      (snap : StateSnapshot)
      → s.info_exists ≡ true
      → s.info_blank ≡ false
      → s.info ≡ ok info
      → is_empty info.active_world ≡ false
      → s.others (state_md info.active_world) ≡ ok body
      → sanitize_name to_lower info.active_world ≡ ok info.active_world
      → sanitize_name to_lower to_world ≡ ok to
      → s.states info.active_world ≡ ok snap
      → s.canons to ≡ ok canon
      → is_empty canon ≡ false
      → Writable s
      → let (result, t) = cmd_leave to_lower seeds hooks o (to_world ∷ words) s in
        (result ≡ ok (left_reply to_lower seeds hooks o (left info.active_world to snap canon)))
        × (t.states info.active_world ≡ ok (parked to (join (lit " ") words) snap))
        × (t.info ≡ ok (switched to info.active_character info))
        × (t.chronicles ≡ s.chronicles)
        × (t.invalidations ≡ lit "leave_world" ∷ s.invalidations)
  unfolding cmd_leave ◌>>=◌ pure commit
  cmd_leave-enters s info body to_world to canon words snap there full known active found is_from
        is_to loads canonical filled writable =
      let started = start-reads s info body there full known active found in
      let (left_ok, parked_ok, entered, chronicles, lores, told) =
        leave-enters to_lower o.show_int s info.active_world to_world (join (lit " ") words)
          info.active_character info.active_world to canon snap info is_from is_to loads known
          canonical filled writable in
      elim (Option-cases o.git) [
        | inl e ↦ ground (arith, started, left_ok, parked_ok, entered, chronicles, told)
        | inr (git, e) ↦ ground (arith, started, left_ok, parked_ok, entered, chronicles, told)
      ]
