-- ===== src/Tools/Npc/Roster.antt =====
-- What create_npc does to a roster that cannot be read.
use narrative_ai_agent.Prelude.{
  ℕ, ◌≡◌, refl, Bool, true, false, none, List, [], ◌∷◌, Result, ok, err,
}
use narrative_ai_agent.Prelude.Text.{Text, is_empty, trim_space}
use narrative_ai_agent.Repositories.{update-same}
use narrative_ai_agent.WorldRegistry.{Entry, load_registry, add, is_taken, sort, insert}
use narrative_ai_agent.Tools.Npc.{
  NewProfile, NpcFiles, profile_of, save_profile, load_roster, save_roster, added_to, enlist,
  enlist_saved, create_new, create_found, create_npc, file_slug_of,
}

module _ (to_lower : ℕ → ℕ) (equal_fold : Text → Text → Bool)
    (unmarshal : Text → Result Text (List Entry)) (marshal : List Entry → Result Text Text) where
  -- The entry of a new NPC, its slug and its name trimmed.
  abbrev pub new_entry : Text → NewProfile → Entry
  new_entry slug new = record {
    slug = trim_space slug;
    display_name = trim_space (trim_space new.display_name);
    nicknames = new.nicknames;
  }

  -- create_npc of a new NPC in a world whose roster cannot be parsed succeeds and replaces the roster, whatever it held,
  -- by one that has the new NPC alone, where the two files can be written and the one entry is
  -- marshalled.
  pub create_npc-forgets :
      (s : NpcFiles) (world body problem body' slug : Text) (new : NewProfile)
      → is_empty world ≡ false
      → s.rosters world ≡ ok body
      → is_empty (trim_space body) ≡ false
      → unmarshal body ≡ err problem
      → file_slug_of to_lower equal_fold unmarshal marshal true new.display_name ≡ slug
      → is_empty (trim_space slug) ≡ false
      → s.profiles world slug ≡ ok none
      → s.profile_fault world slug ≡ false
      → s.roster_fault world ≡ false
      → marshal (new_entry slug new ∷ []) ≡ ok body'
      → let (result, t) = create_npc to_lower equal_fold unmarshal marshal true world new s in
        (result ≡ ok tt) × (t.rosters world ≡ ok body')
  unfolding create_npc create_found create_new save_profile enlist_saved enlist load_roster
      load_registry added_to add is_taken sort insert save_roster profile_of
  create_npc-forgets s world body problem body' slug new named held full broken named_as slug_full
        fresh writes roster_writes marshals =
      rw (named_as, fresh, writes, named, held, full, broken, slug_full, marshals, roster_writes)
        (refl, update-same s.rosters world (ok body'))
