-- ===== src/Tools/Calls/Kept.antt =====
-- What a step of a call loses: no step but the maintenance of the files loses a fact.
pub mod Growing
pub mod Handlers
pub mod Written
pub mod Runs
use narrative_ai_agent.Prelude.{
  ◌≡◌, refl, sym, ap, ◌∙◌, subst, ◌⊎◌, inl, inr, Bool, true, false, not, ◌&&◌, Bool-cases, Option,
  none, some, List, [], ◌∷◌, All, if◌then◌else◌, Result, ok, err, arith,
}
use narrative_ai_agent.Prelude.Text.{Text, lit, trim_space, text_eq}
use narrative_ai_agent.CharacterProfile.{Section}
use narrative_ai_agent.CharacterProfile.Growth.{Extends, Extends-trans}
use narrative_ai_agent.NpcProfile.{Profile}
use narrative_ai_agent.Repositories.{Action}
use narrative_ai_agent.Session.{start}
use narrative_ai_agent.Tools.Npc.{NewProfile, NpcFiles}
use narrative_ai_agent.Tools.Npc.Memory.{
  Kept, Grows-refl, Grows-trans, NpcCall, create_call, update_call, run_call, run_call-Kept,
}
use narrative_ai_agent.Tools.Character.{
  CharacterFile, CharacterFiles, Call, append_soul_tool, append_skill_tool, append_memory_tool,
  append_inventory_item, remove_inventory_item, set_currency_tool, remove_currency_tool,
}
use narrative_ai_agent.Tools.Character.Facts.{
  sections_of, Has, Grown, Grown-refl, CharacterCall, soul_call, skill_call, memory_call, item_call,
  drop_item_call, currency_call, drop_currency_call, run_character_call, run_character_call-Grown,
}
use narrative_ai_agent.Tools.Calls.{
  Refusal, said, Payload, Fields, World, Do, done, refuse, ◌>>=◌, ◌>>◌, go_on, attempt, on_store,
  on_npcs, on_characters, needs, current_world, is_full, Backend,
}
use narrative_ai_agent.Tools.Calls.People.{run_create_npc, run_update_npc, with_character}

-- Every profile of an NPC and every section of a character's file is still there, with perhaps more.
abbrev pub Keeps : World → World → Type 0
Keeps w v =
    ((world slug : Text) (p : Profile)
      → w.npcs.profiles world slug ≡ ok (some p)
      → Kept v.npcs world slug p)
    × Grown w.characters v.characters

pub Keeps-refl : (w : World) → Keeps w w
Keeps-refl w = (λ world slug p holds. (p, holds, Grows-refl p), Grown-refl w.characters)

pub Keeps-trans : (u v w : World) → Keeps u v → Keeps v w → Keeps u w
Keeps-trans u v w (npcs, characters) (npcs', characters') = (
  λ world slug p holds.
      let (q, holds', grows) = npcs world slug p holds in
      let (r, holds'', grows') = npcs' world slug q holds' in
      (r, holds'', Grows-trans p q r grows grows'),
  λ kind character ss found.
      let (ss', found', extends) = characters kind character ss found in
      let (ss'', found'', extends') = characters' kind character ss' found' in
      (ss'', found'', Extends-trans extends extends'),
)

-- A call after which they all are.
pub record Safe {A : Type 0} (m : Do A) : Type 0 where
  pub keeps : (w : World) → Keeps w (m w).1

pub refuse-Safe : {A : Type 0} (e : Refusal) → Safe {A = A} (refuse e)
unfolding refuse
refuse-Safe e = record { keeps = λ w. Keeps-refl w }

module _ {A : Type 0} where
  pub done-Safe : (a : A) → Safe (done a)
  unfolding done
  done-Safe a = record { keeps = λ w. Keeps-refl w }

  pub on_store-Safe : (act : Action A) → Safe (on_store act)
  unfolding on_store
  on_store-Safe act = record {
    keeps = λ w. (λ world slug p holds. (p, holds, Grows-refl p), Grown-refl w.characters);
  }

  pub on_characters-Safe :
      (act : Call A) → ((s : CharacterFiles) → Grown s (act s).1) → Safe (on_characters act)
  unfolding on_characters
  on_characters-Safe act grows = record {
    keeps = λ w. (λ world slug p holds. (p, holds, Grows-refl p), grows w.characters);
  }

module _ {A B : Type 0} where
  go_on-Safe :
      (r : Result Refusal A) (f : A → Do B) (u v : World)
      → Keeps u v
      → ((a : A) → Safe (f a))
      → Keeps u (go_on r f v).1
  go_on-Safe (ok a) f u v first later = Keeps-trans u v (f a v).1 first ((later a).keeps v)
  go_on-Safe (err e) f u v first later = first

  pub bind-Safe : (m : Do A) (f : A → Do B) → Safe m → ((a : A) → Safe (f a)) → Safe (m >>= f)
  unfolding ◌>>=◌
  bind-Safe m f first later = record {
    keeps = λ w. go_on-Safe (m w).0 f w (m w).1 (first.keeps w) later;
  }

  pub attempt-Safe :
      (m : Do A) (f : Result Refusal A → Do B)
      → Safe m
      → ((r : Result Refusal A) → Safe (f r))
      → Safe (attempt m f)
  unfolding attempt
  attempt-Safe m f first later = record {
    keeps = λ w.
        Keeps-trans w (m w).1 (f (m w).0 (m w).1).1 (first.keeps w) ((later (m w).0).keeps (m w).1);
  }

pub needs-Safe : (there : Bool) (what : Text) → Safe (needs there what)
unfolding needs
needs-Safe true what = done-Safe tt
needs-Safe false what = refuse-Safe (said what)

pub current_world-Safe : Safe current_world
unfolding current_world
current_world-Safe = record { keeps = λ w. Keeps-refl w }

module _ (b : Backend) where
  pub run_create_npc-Safe : (world : Text) (spec : NewProfile) → Safe (run_create_npc b world spec)
  unfolding run_create_npc run_call on_npcs
  run_create_npc-Safe world spec = record {
    keeps = λ w. (
      λ w' slug p holds.
          run_call-Kept b.to_lower b.equal_fold b.read_roster b.write_roster true
            (create_call world spec) w.npcs w' slug p holds,
      Grown-refl w.characters,
    );
  }

  pub run_update_npc-Safe :
      (world npc section value : Text) → Safe (run_update_npc b world npc section value)
  unfolding run_update_npc run_call on_npcs
  run_update_npc-Safe world npc section value = record {
    keeps = λ w. (
      λ w' slug p holds.
          run_call-Kept b.to_lower b.equal_fold b.read_roster b.write_roster true
            (update_call world npc section value) w.npcs w' slug p holds,
      Grown-refl w.characters,
    );
  }

  pub with_character-Safe :
      {A : Type 0} (act : Text → Call A)
      → ((character : Text) (s : CharacterFiles) → Grown s (act character s).1)
      → Safe (with_character b act)
  unfolding with_character
  with_character-Safe act grows =
      bind-Safe (on_store start) _ (on_store-Safe start)
        (λ sc. on_characters-Safe (act sc.character) (grows sc.character))

-- How a call is put together.
pub ruleset steps =
    (bind-Safe, attempt-Safe, needs-Safe, current_world-Safe, on_store-Safe, done-Safe)
