-- ===== src/Tests/WorldRuns.antt =====
-- Names, the world tool, the session start and the commands on a store with a few worlds.
use narrative_ai_agent.Prelude.{
  ◌≡◌, refl, true, false, none, List, [], ◌∷◌, ok, err, inr, map, keep, All, subst, arith,
}
use narrative_ai_agent.Prelude.Int.{ℤ}
use narrative_ai_agent.Prelude.Text.{Text, lit, trim_space, text_eq, trim_by, join, contains_text}
use narrative_ai_agent.Names.{sanitize_name, has_cyrillic, is_letter_or_digit}
use narrative_ai_agent.Names.Sanitized.{IsName, ascii_lower, sanitize_name-IsName}
use narrative_ai_agent.Repositories.{Store, Info, no_session, already_launched}
use narrative_ai_agent.Repositories.Files.{plan_body, replace_events}
use narrative_ai_agent.Repositories.Plan.{IsLine, parse_plan_events, replace_events-parse}
use narrative_ai_agent.Tools.Archive.{Hooks}
use narrative_ai_agent.Tools.World.{
  left, leave, switched, parked, blank_lore, first_events, new_empty_chronicle,
}
use narrative_ai_agent.Tools.World.Effects.{leave-erases}
use narrative_ai_agent.Tools.World.Registry.{
  IsListed, leaving, returning, run_moves, run_moves-IsListed,
}
use narrative_ai_agent.Tools.Scene.{in_party}
use narrative_ai_agent.Session.{Seeds, start, launch, check_sync, CharacterSpec, WorldSpec}
use narrative_ai_agent.Session.Bootstrap.{start-locks_launch}
use narrative_ai_agent.Dispatcher.{Outside, cmd_leave, left_reply}
use narrative_ai_agent.Dispatcher.Commits.{cmd_leave-enters}
use narrative_ai_agent.Tests.StoreRuns.{konoha, store, idle, snapshot}

naruto_is_a_name :
    sanitize_name ascii_lower (lit " наруто Uzumaki-1 ") ≡ ok (lit "naruto_uzumaki-1")
unfolding sanitize_name trim_space trim_by has_cyrillic is_letter_or_digit
naruto_is_a_name = refl

sanitize_name-IsName_example : IsName (lit "naruto_uzumaki-1")
sanitize_name-IsName_example =
    sanitize_name-IsName ascii_lower (λ r e. refl) (lit " наруто Uzumaki-1 ")
      (lit "naruto_uzumaki-1") naruto_is_a_name

k_is_a_name : sanitize_name ascii_lower konoha ≡ ok konoha
unfolding sanitize_name trim_space trim_by has_cyrillic is_letter_or_digit
k_is_a_name = refl

abbrev suna : Text
suna = lit "suna"

suna_is_a_name : sanitize_name ascii_lower suna ≡ ok suna
unfolding sanitize_name trim_space trim_by has_cyrillic is_letter_or_digit
suna_is_a_name = refl

abbrev ascii_text : Text → Text
ascii_text t = map ascii_lower t

abbrev show_int : ℤ → Text
show_int n = lit "1"

abbrev registered : Info
registered = record {
  active_character = lit "naruto";
  active_world = konoha;
  characters = lit "naruto" ∷ [];
  worlds = konoha ∷ [];
}

abbrev listed_store : Store
listed_store = record (store idle) { info = ok registered }

-- Suna has been played, but has no canon.
leave-erases_example :
    let (result, t) = leave ascii_lower show_int konoha suna [] [] listed_store in
    (result ≡ ok (left konoha suna (snapshot idle) []))
    × (t.chronicles suna ≡ ok new_empty_chronicle)
    × (t.lores suna ≡ ok (blank_lore suna))
    × (t.plans suna ≡ ok (plan_body first_events))
    × (t.canons suna ≡ ok [])
    × (t.info ≡ ok (switched suna [] registered))
leave-erases_example =
    leave-erases ascii_lower show_int listed_store konoha suna [] [] konoha suna (snapshot idle)
      registered true k_is_a_name suna_is_a_name refl refl refl refl (λ file. refl)

listed_store-IsListed : IsListed listed_store
unfolding text_eq
listed_store-IsListed = record {
  active = λ info e.
      let same : registered ≡ info = ground arith in
      inr (subst (λ i. contains_text i.worlds i.active_world ≡ true) same refl);
}

run_moves-IsListed_example : IsListed (
    run_moves ascii_lower show_int
      (leaving konoha suna [] [] ∷ returning konoha (lit "3") ∷ [])
      listed_store)
run_moves-IsListed_example =
    run_moves-IsListed ascii_lower show_int
      (leaving konoha suna [] [] ∷ returning konoha (lit "3") ∷ []) listed_store
      listed_store-IsListed

-- Suna has a canon.
abbrev with_canon : Store
with_canon = record listed_store { canons = λ w. ok (lit "canon") }

abbrev seeds : Seeds
seeds = record { soul = λ c. []; skill = λ c. []; memory = λ c. []; inventory = λ c. [] }

abbrev hooks : Hooks
hooks = record { compress = none; invalidates = true }

abbrev outside : Outside
outside = record {
  git = none;
  tools_wired = true;
  me = λ c w s. (ok [], s);
  maintain_npcs = λ w s. (ok [], s);
  maintain_lore = λ w s. (ok false, s);
  reload = λ s. (ok tt, s);
  gm_wired = false;
  reset_conversations = λ s. (ok tt, s);
  reply = λ m s. (ok [], s);
  verbose_save = false;
  show_int = show_int;
  show_git_error = λ e. [];
  show_error = λ e. [];
  help = [];
}

cmd_leave-enters_example :
    let (result, t) = cmd_leave ascii_lower seeds hooks outside (suna ∷ []) with_canon in
    (result
      ≡ ok (
          left_reply ascii_lower seeds hooks outside
            (left konoha suna (snapshot idle) (lit "canon"))))
    × (t.states konoha ≡ ok (parked suna (join (lit " ") []) (snapshot idle)))
    × (t.info ≡ ok (switched suna (lit "naruto") registered))
    × (t.chronicles ≡ with_canon.chronicles)
    × (t.invalidations ≡ lit "leave_world" ∷ with_canon.invalidations)
cmd_leave-enters_example =
    cmd_leave-enters ascii_lower seeds hooks outside with_canon registered [] suna suna
      (lit "canon") [] (snapshot idle) refl refl refl refl refl k_is_a_name suna_is_a_name refl refl
      refl (λ file. refl)

-- The header is day 2, the chronicle ends with day 1.
state_is_ahead : check_sync (lit "День 2 (утро)") ((store idle).chronicles konoha) ≡ (true, false)
unfolding check_sync
state_is_ahead = refl

abbrev empty_store : Store
empty_store = record (store idle) { info_exists = false }

abbrev hero : CharacterSpec
hero = record { display_name = lit "H"; dir = lit "h"; true_nature = []; philosophy = [] }

abbrev village : WorldSpec
village = record { display_name = lit "V"; dir = lit "v"; is_known = false; canon = [] }

start-locks_launch_example :
    let (result, t) = start empty_store in
    (result ≡ err no_session)
    × (launch ascii_lower seeds false hero village t ≡ (err already_launched, t))
start-locks_launch_example =
    start-locks_launch ascii_lower seeds false empty_store hero village refl refl

abbrev three_events : List Text
three_events = lit " a b" ∷ lit "- c" ∷ lit "d " ∷ []

three_events-IsLine : All IsLine three_events
unfolding trim_space trim_by
three_events-IsLine = (
  record { one_line = (refl, (refl, (refl, (refl, tt)))); not_blank = refl },
  (
    record { one_line = (refl, (refl, (refl, tt))); not_blank = refl },
    (record { one_line = (refl, (refl, tt)); not_blank = refl }, tt),
  ),
)

replace_events-parse_example :
    let (result, t) = replace_events konoha three_events listed_store in
    (result ≡ ok tt)
    × (body : Text) × (t.plans konoha ≡ ok body)
    × (parse_plan_events body ≡ map trim_space three_events)
replace_events-parse_example =
    replace_events-parse listed_store konoha three_events refl three_events-IsLine refl

a_is_kept : keep (in_party ascii_text (lit " a" ∷ [])) (lit "A" ∷ lit "b" ∷ []) ≡ lit "A" ∷ []
unfolding in_party trim_space text_eq trim_by
a_is_kept = refl
