-- ===== src/Session/Bootstrap.antt =====
-- The first launch, and what a session start before it does.
use narrative_ai_agent.Prelude.{ℕ, ◌≡◌, Bool, false, err, arith}
use narrative_ai_agent.Repositories.{
  Store, info_file, no_session, already_launched, raise, write, ◌>>=◌,
}
use narrative_ai_agent.Repositories.Files.{load_info, save_info}
use narrative_ai_agent.Session.{
  Seeds, CharacterSpec, WorldSpec, ensure_registry, start_in, start, launch,
}

-- A session that is started before the first launch says that there is no session, and leaves an info.yaml behind with
-- which every later launch is refused, where info.yaml can be written.
pub start-locks_launch :
    (to_lower : ℕ → ℕ) (seeds : Seeds) (repos_wired : Bool) (s : Store) (char : CharacterSpec)
    (world : WorldSpec)
    → s.info_exists ≡ false
    → s.write_fault info_file ≡ false
    → let (result, t) = start s in
      (result ≡ err no_session)
      × (launch to_lower seeds repos_wired char world t ≡ (err already_launched, t))
unfolding start ensure_registry load_info save_info start_in launch write raise ◌>>=◌
start-locks_launch to_lower seeds repos_wired s char world fresh writes = ground arith
