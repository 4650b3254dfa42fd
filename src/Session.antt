-- ===== src/Session.antt =====
-- internal/usecase/sessionstart.go and internal/usecase/firstlaunch.go: the start of a session, with the check that state
-- and chronicle agree on the day, and the first launch. The seeds of the files, which the YAML library
-- renders, and `unicode.ToLower` are parameters.
pub mod Bootstrap
use narrative_ai_agent.Prelude.{
  ℕ, ◌+◌, ◌-◌, ◌*◌, Bool, true, false, ◌&&◌, ◌||◌, not, keep, Option, none, some, List, [], ◌∷◌,
  ◌++◌, if◌then◌else◌, leb, length, drop, Result, ok, err,
}
use narrative_ai_agent.Prelude.Int.{ℤ, pos, ltb_ℤ, eqb_ℤ}
use narrative_ai_agent.Prelude.Text.{Text, lit, is_empty, trim_space, has_prefix, contains_text}
use narrative_ai_agent.Names.{sanitize_name}
use narrative_ai_agent.Chronicle.{Chronicle, last_day}
use narrative_ai_agent.Repositories.{
  Store, Info, Action, Error, other_file, info_file, canon_file, lore_file, plan_file,
  chronicle_file, no_session, already_launched, pure, raise, lift, ◌>>=◌, ◌>>◌, loaded, write,
  update, save_chronicle,
}
use narrative_ai_agent.Repositories.Files.{
  load_info, save_info, save_plan, save_lore, bullets, ensure_exists,
}
use narrative_ai_agent.Tools.World.{named, new_empty_chronicle, blank_lore, first_events}

pub record SessionContext : Type 0 where
  pub character : Text
  pub world : Text
  pub state : Text
  pub sync_state_ahead : Bool
  pub sync_chronicle_ahead : Bool

-- The part of the text behind the first occurrence of `mark`: strings.Index and strings.CutPrefix.
after_mark : Text → Text → Option Text
unfolding has_prefix
after_mark mark [] = none
after_mark mark (c ∷ cs) =
    let later = after_mark mark cs in
    if has_prefix mark (c ∷ cs) then some (drop (length mark) (c ∷ cs)) else later

-- The number that the leading digits make, from the number so far on.
digits_onto : ℕ → Text → ℕ
digits_onto n [] = n
digits_onto n (c ∷ cs) =
    let more = digits_onto (n * 10 + (c - b'0')) cs in if leb b'0' c && leb c b'9' then more else n

leading_number : Text → Option ℕ
unfolding digits_onto
leading_number [] = none
leading_number (c ∷ cs) = if leb b'0' c && leb c b'9' then some (digits_onto 0 (c ∷ cs)) else none

-- The day of the header "День N".
unfoldable pub day_header : Text → Option ℕ
unfolding after_mark leading_number
day_header s = elim (after_mark (lit "День ") s) [ none ↦ none | some rest ↦ leading_number rest ]

-- A chronicle that cannot be read or parsed counts as empty.
unfoldable pub chronicle_day : Result Text Chronicle → Option ℤ
unfolding last_day
chronicle_day (ok c) = last_day c
chronicle_day (err e) = none

-- Whether the state is ahead, and whether the chronicle is.
unfoldable pub sync_flags : Option ℕ → Option ℤ → Bool × Bool
sync_flags none none = (false, false)
sync_flags none (some mem) = (false, true)
sync_flags (some day) none = (true, false)
sync_flags (some day) (some mem) =
    if eqb_ℤ (pos day) mem then (false, false) else (ltb_ℤ mem (pos day), ltb_ℤ (pos day) mem)

unfoldable pub check_sync : Text → Result Text Chronicle → Bool × Bool
unfolding sync_flags day_header chronicle_day
check_sync state chronicle = sync_flags (day_header state) (chronicle_day chronicle)

abbrev pub zero_info : Info
zero_info = record { active_character = []; active_world = []; characters = []; worlds = [] }

unfoldable pub ensure_registry : Action (Unit {0})
unfolding save_info
ensure_registry s = (if s.info_exists && not s.info_blank then pure tt else save_info zero_info) s

-- `ReadRaw` of a file that belongs to no repository.
unfoldable pub read_other : Text → Action Text
read_other path s = (loaded (s.others path), s)

abbrev pub state_md : Text → Text
state_md world = lit "worlds/" ++ world ++ lit "/state.md"

unfoldable pub sync_of : Text → Text → Action (Bool × Bool)
unfolding check_sync
sync_of world state s = (ok (check_sync state (s.chronicles world)), s)

abbrev pub context_of : Info → Text → Bool × Bool → SessionContext
context_of info state (state_ahead, chronicle_ahead) = record {
  character = info.active_character;
  world = info.active_world;
  state = state;
  sync_state_ahead = state_ahead;
  sync_chronicle_ahead = chronicle_ahead;
}

unfoldable pub start_in : Info → Action SessionContext
unfolding read_other sync_of ◌>>=◌
start_in info = if is_empty info.active_world then raise no_session else do
  state ← read_other (state_md info.active_world)
  flags ← sync_of info.active_world state
  pure (context_of info state flags)

unfoldable pub start : Action SessionContext
unfolding ensure_registry load_info start_in ◌>>=◌
start = do ensure_registry; info ← load_info; start_in info

-- `mergeUnique`: the primary first, then the others, each once and none empty.
merge_into : List Text → List Text → List Text
merge_into out [] = out
merge_into out (e ∷ es) =
    merge_into (if is_empty e || contains_text out e then out else out ++ (e ∷ [])) es

nonempty_of : List Text → List Text
nonempty_of extras = keep (λ e. not (is_empty e)) extras

unfoldable merge_unique : List Text → Text → List Text
unfolding merge_into nonempty_of
merge_unique extras [] = nonempty_of extras
merge_unique extras (c ∷ cs) = merge_into ((c ∷ cs) ∷ []) extras

unfoldable build_info : Text → Text → List Text → List Text → Info
unfolding merge_unique
build_info active_char active_world all_chars all_worlds = record {
  active_character = active_char;
  active_world = active_world;
  characters = merge_unique all_chars active_char;
  worlds = merge_unique all_worlds active_world;
}

pub record CharacterSpec : Type 0 where
  pub display_name : Text
  pub dir : Text
  pub true_nature : Text
  pub philosophy : Text

pub record WorldSpec : Type 0 where
  pub display_name : Text
  pub dir : Text
  pub is_known : Bool
  pub canon : Text

-- The bodies of the four files of a new character.
pub record Seeds : Type 0 where
  pub soul : CharacterSpec → Text
  pub skill : CharacterSpec → Text
  pub memory : CharacterSpec → Text
  pub inventory : CharacterSpec → Text

unfoldable write_other : Text → Text → Action (Unit {0})
unfolding write
write_other path body =
    write (other_file path) (λ s. record s { others = update s.others path (ok body) })

unfoldable ensure_dir : Text → Action (Unit {0})
unfolding write
ensure_dir path = write (other_file path) (λ s. s)

unfoldable write_character : Seeds → Text → CharacterSpec → Action (Unit {0})
unfolding write_other ensure_dir ◌>>=◌
write_character seeds dir c = do
  ensure_dir (lit "characters/" ++ dir)
  write_other (lit "characters/" ++ dir ++ lit "/SOUL.yaml") (seeds.soul c)
  write_other (lit "characters/" ++ dir ++ lit "/skill.yaml") (seeds.skill c)
  write_other (lit "characters/" ++ dir ++ lit "/memory.yaml") (seeds.memory c)
  write_other (lit "characters/" ++ dir ++ lit "/inventory.yaml") (seeds.inventory c)

unfoldable write_canon : Text → Text → Action (Unit {0})
unfolding write
write_canon world body =
    write (canon_file world) (λ s. record s { canons = update s.canons world (ok body) })

abbrev canon_body : WorldSpec → Text
canon_body w =
    lit "# "
    ++ trim_space w.display_name
    ++ lit " — канон/сценарий\n"
    ++ trim_space w.canon
    ++ lit "\n"

abbrev default_plan : Text → Text
default_plan dir =
    lit "# План: "
    ++ dir
    ++ lit
        "\n\n- День +1: вводная сцена: знакомство с миром\n- День +2: первая зацепка / конфликт\n- День +3: первая развилка\n"

abbrev default_staging : Text → Text
default_staging dir =
    lit "# Staging for world: "
    ++ dir
    ++ lit
        "\n# Set `enabled: true` and fill `init` + `stages` to switch this world to a staged story arc.\nenabled: false\ninit: []\nstages: []\n"

-- `repos_wired` tells whether the repository of the world states is there; the commands run without it.
unfoldable write_world : Bool → Text → WorldSpec → Action (Unit {0})
unfolding ensure_dir write_canon ensure_exists save_lore save_plan save_chronicle write_other ◌>>=◌
    trim_space
write_world repos_wired dir w = do
  ensure_dir (lit "worlds/" ++ dir ++ lit "/characters")
  write_canon dir (canon_body w)
  if repos_wired then ensure_exists dir (pos 1) true else pure tt
  save_lore dir (blank_lore (trim_space w.display_name))
  save_plan dir (default_plan dir)
  save_chronicle dir new_empty_chronicle
  write_other (lit "worlds/" ++ dir ++ lit "/staging.yaml") (default_staging dir)

module _ (to_lower : ℕ → ℕ) (seeds : Seeds) (repos_wired : Bool) where
  create : CharacterSpec → WorldSpec → Action (Unit {0})
  unfolding sanitize_name write_character write_world save_info build_info ◌>>=◌
  create char world = do
    char_dir ← lift (named (sanitize_name to_lower char.dir))
    world_dir ← lift (named (sanitize_name to_lower world.dir))
    write_character seeds char_dir char
    write_world repos_wired world_dir world
    save_info (build_info char_dir world_dir [] [])

  unfoldable pub launch : CharacterSpec → WorldSpec → Action (Unit {0})
  unfolding create
  launch char world s = (if s.info_exists then raise already_launched else create char world) s
