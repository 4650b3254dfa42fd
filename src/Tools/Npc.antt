-- ===== src/Tools/Npc.antt =====
-- internal/usecase/tools/files/npc.go over internal/repository/yaml/npc_yaml.go: the files of the NPCs of a
-- world and their roster. The YAML library and the template of a profile are parameters; logs are left out.
pub mod Memory
pub mod Roster
use narrative_ai_agent.Prelude.{
  ℕ, Bool, true, false, not, ◌&&◌, ◌||◌, Option, none, some, List, [], ◌∷◌, ◌++◌, if◌then◌else◌,
  leb, ◌==◌, map, keep, Result, ok, err,
}
use narrative_ai_agent.Prelude.Text.{Text, lit, is_empty, trim_space, trim_by, has_prefix}
use narrative_ai_agent.Names.{transliterate}
use narrative_ai_agent.Repositories.{update}
use narrative_ai_agent.Repositories.Plan.{lines}
use narrative_ai_agent.NpcProfile.{
  Relation, Profile, SectionKind, unknown_section, split_relation_text, match_section,
  update_section, build_compact, build_one_line,
}
use narrative_ai_agent.WorldRegistry.{Entry, RegistryError, load_registry, sort, lookup, add}

-- `tools.NPCProfile`, as create_npc gets it.
pub record NewProfile : Type 0 where
  pub display_name : Text
  pub nicknames : List Text
  pub temperament : Text
  pub relations : Text
  pub abilities : List Text
  pub personal_memory : Text
  pub current_status : Text
  pub critical_knowledge : Text
  pub last_update : Text

pub data NpcError : Type 0 where
  npc_exists : NpcError
  npc_not_found : NpcError
  unloaded : Text → NpcError
  unsaved : NpcError
  no_profile : NpcError
  template_failed : Text → NpcError

-- The level of detail of a view.
pub data Lod : Type 0 where
  lod_full : Lod
  lod_compact : Lod
  lod_one_line : Lod

pub record SearchResult : Type 0 where
  pub display_name : Text
  pub slug : Text
  pub temperament : Text
  pub current_status : Text
  pub source : Text

-- What a Load of each profile gives, `none` for a missing or blank file; the body of each roster; and which of
-- the files can be written.
pub record NpcFiles : Type 0 where
  pub profiles : Text → Text → Result Text (Option Profile)
  pub rosters : Text → Result Text Text
  pub profile_fault : Text → Text → Bool
  pub roster_fault : Text → Bool

-- The letters of a file name.
unfoldable is_slug_rune : ℕ → Bool
is_slug_rune r = (leb b'a' r && leb r b'z') || (leb b'0' r && leb r b'9') || r == b'-'

abbrev hyphenated : ℕ → ℕ
hyphenated r = if r == b' ' then b'-' else r

abbrev is_hyphen : ℕ → Bool
is_hyphen r = r == b'-'

abbrev or_npc : Text → Text
or_npc [] = lit "npc"
or_npc (c ∷ cs) = c ∷ cs

-- `strings.TrimPrefix(t, "- ")`.
unfoldable trim_dash : Text → Text
trim_dash [] = []
trim_dash (c ∷ []) = c ∷ []
trim_dash (c ∷ d ∷ cs) = if c == b'-' && d == b' ' then cs else c ∷ d ∷ cs

-- The facts of a text, one on each line.
unfoldable facts_of : Text → List Text
unfolding lines trim_space trim_dash
facts_of text =
    keep (λ t. not (is_empty t)) (map (λ l. trim_space (trim_dash (trim_space l))) (lines text))

unfoldable abilities_of : List Text → List Text
unfolding trim_space trim_dash
abilities_of abilities =
    keep (λ t. not (is_empty t)) (map (λ a. trim_space (trim_dash a)) abilities)

relation_of : Text → Relation
unfolding split_relation_text
relation_of line =
    let (target, note) = split_relation_text line in record { target = target; note = note }

unfoldable relations_of : Text → List Relation
unfolding lines relation_of trim_space
relations_of text =
    keep (λ r. not (is_empty r.target)) (map (λ l. relation_of (trim_space l)) (lines text))

unfoldable pub profile_of : Text → NewProfile → Profile
unfolding relations_of facts_of abilities_of trim_space
profile_of slug p = record {
  display_name = trim_space p.display_name;
  file_slug = slug;
  temperament = trim_space p.temperament;
  relations_gg = [];
  relations_npcs = relations_of p.relations;
  abilities = abilities_of p.abilities;
  personal_memory = facts_of p.personal_memory;
  current_status = trim_space p.current_status;
  critical_knowledge = facts_of p.critical_knowledge;
  nicknames = p.nicknames;
  last_update = trim_space p.last_update;
}

abbrev pub roster_of : Option (List Entry) × Option RegistryError → List Entry
roster_of (some es, none) = es
roster_of _ = []

-- `NPCProfileYaml.Load`: a blank file is no profile.
unfoldable pub load_profile : Text → Text → NpcFiles → Result NpcError Profile
load_profile world slug s = elim (s.profiles world slug) [
  | err e ↦ err (unloaded e)
  | ok found ↦ elim found [ none ↦ err no_profile | some p ↦ ok p ]
]

unfoldable pub save_profile :
    Text → Text → Profile → NpcFiles → Result NpcError (Unit {0}) × NpcFiles
save_profile world slug p s = if s.profile_fault world slug then (err unsaved, s) else (
  ok tt,
  record s { profiles = update s.profiles world (update (s.profiles world) slug (ok (some p))) },
)

module _ (to_lower : ℕ → ℕ) (equal_fold : Text → Text → Bool)
    (unmarshal : Text → Result Text (List Entry)) (marshal : List Entry → Result Text Text)
    (fs_wired : Bool) where
  -- `sanitizeName` of npc.go.
  unfoldable pub file_slug_of : Text → Text
  unfolding transliterate is_slug_rune trim_by trim_space
  file_slug_of s =
      let lowered = map hyphenated (map to_lower (trim_space s)) in
      or_npc (trim_by is_hyphen (keep is_slug_rune (transliterate to_lower lowered)))

  -- The roster, empty where it cannot be read.
  unfoldable pub load_roster : Text → NpcFiles → List Entry
  unfolding load_registry
  load_roster world s =
      if not fs_wired || is_empty world
      then []
      else roster_of (load_registry unmarshal world (s.rosters world))

  unfoldable pub save_roster : Text → List Entry → NpcFiles → NpcFiles
  unfolding sort
  save_roster world es s = if not fs_wired || is_empty world then s else elim (marshal (sort es)) [
    | err e ↦ s
    | ok body ↦
        if s.roster_fault world then s else record s { rosters = update s.rosters world (ok body) }
  ]

  abbrev pub entry_of : Text → Profile → Entry
  entry_of slug p = record { slug = slug; display_name = p.display_name; nicknames = p.nicknames }

  -- A slug that the roster has leaves the roster as it is.
  unfoldable pub added_to : List Entry → Entry → List Entry
  unfolding add
  added_to es e = elim (add to_lower equal_fold es e) [ ok es' ↦ es' | err e' ↦ es ]

  -- From the saved profile on.
  unfoldable pub enlist : Text → Text → Profile → NpcFiles → NpcFiles
  unfolding load_roster save_roster added_to
  enlist world slug p s = save_roster world (added_to (load_roster world s) (entry_of slug p)) s

  unfoldable pub enlist_saved :
      Text
      → Text
      → Profile
      → Result NpcError (Unit {0}) × NpcFiles
      → Result NpcError (Unit {0}) × NpcFiles
  unfolding enlist
  enlist_saved world slug p (err e, t) = (err e, t)
  enlist_saved world slug p (ok u, t) = (ok tt, enlist world slug p t)

  unfoldable pub create_new :
      Text → Text → NewProfile → NpcFiles → Result NpcError (Unit {0}) × NpcFiles
  unfolding save_profile profile_of enlist_saved
  create_new world slug p s =
      enlist_saved world slug (profile_of slug p) (save_profile world slug (profile_of slug p) s)

  -- From the look-up of the file on.
  unfoldable pub create_found :
      Text
      → Text
      → NewProfile
      → Result Text (Option Profile)
      → NpcFiles
      → Result NpcError (Unit {0}) × NpcFiles
  unfolding create_new
  create_found world slug p (err e) s = (err (unloaded e), s)
  create_found world slug p (ok (some old)) s = (err npc_exists, s)
  create_found world slug p (ok none) s = create_new world slug p s

  unfoldable pub create_npc : Text → NewProfile → NpcFiles → Result NpcError (Unit {0}) × NpcFiles
  unfolding file_slug_of create_found
  create_npc world p s =
      let slug = file_slug_of p.display_name in create_found world slug p (s.profiles world slug) s

  unfoldable pub resolve_slug : Text → Text → NpcFiles → Result NpcError Text
  unfolding load_roster lookup
  resolve_slug world name s = elim (lookup to_lower equal_fold (load_roster world s) name) [
    | none ↦ err npc_not_found
    | some e ↦ ok e.slug
  ]

  not_found : NpcError → NpcError
  not_found no_profile = npc_not_found
  not_found e = e

  view : (Profile → Result Text Text) → Lod → Profile → Result NpcError Text
  unfolding build_compact build_one_line
  view build_markdown lod_full p = elim (build_markdown p) [
    | ok body ↦ ok body
    | err e ↦ err (template_failed e)
  ]
  view build_markdown lod_compact p = ok (build_compact p)
  view build_markdown lod_one_line p = ok (build_one_line p)

  unfoldable load_lod :
      (Profile → Result Text Text) → Text → Text → Lod → NpcFiles → Result NpcError Text
  unfolding resolve_slug load_profile not_found view
  load_lod build_markdown world npc lod s = elim (resolve_slug world npc s) [
    | err e ↦ err e
    | ok slug ↦ elim (load_profile world slug s) [
      | err e ↦ err (not_found e)
      | ok p ↦ view build_markdown lod p
    ]
  ]

  -- The profile with the section updated is written where it has changed.
  unfoldable pub save_if : Text → Text → Bool × Profile → NpcFiles → Result NpcError Bool × NpcFiles
  unfolding save_profile
  save_if world slug (changed, p) s =
      if changed
      then (let (r, t) = save_profile world slug p s in
          (elim r [ ok u ↦ ok true | err e ↦ err e ], t))
      else (ok false, s)

  abbrev pub is_unknown : SectionKind → Bool
  is_unknown unknown_section = true
  is_unknown _ = false

  unfoldable pub update_loaded :
      Text
      → Text
      → Text
      → Text
      → Result NpcError Profile
      → NpcFiles
      → Result NpcError Bool × NpcFiles
  unfolding match_section update_section save_if
  update_loaded world slug section append_text (err e) s = (err e, s)
  update_loaded world slug section append_text (ok p) s =
      let kind = match_section to_lower section in
      if is_unknown kind
      then (ok false, s)
      else save_if world slug (update_section to_lower kind append_text p) s

  -- `NPCProfileYaml.UpdateSection`.
  unfoldable pub update_profile :
      Text → Text → Text → Text → NpcFiles → Result NpcError Bool × NpcFiles
  unfolding load_profile update_loaded
  update_profile world slug section append_text s =
      update_loaded world slug section append_text (load_profile world slug s) s

  unfoldable pub update_resolved :
      Text → Result NpcError Text → Text → Text → NpcFiles → Result NpcError (Unit {0}) × NpcFiles
  unfolding update_profile
  update_resolved world (err e) section append_text s = (err e, s)
  update_resolved world (ok slug) section append_text s =
      let (r, t) = update_profile world slug section append_text s in
      (elim r [ ok changed ↦ ok tt | err e ↦ err e ], t)

  unfoldable pub update_npc :
      Text → Text → Text → Text → NpcFiles → Result NpcError (Unit {0}) × NpcFiles
  unfolding resolve_slug update_resolved
  update_npc world npc section append_text s =
      update_resolved world (resolve_slug world npc s) section append_text s

  found_as : Entry → Profile → SearchResult
  found_as e p = record {
    display_name = e.display_name;
    slug = e.slug;
    temperament = p.temperament;
    current_status = p.current_status;
    source = lit "yaml";
  }

  unfoldable pub search : Text → Text → NpcFiles → Result NpcError SearchResult
  unfolding load_roster lookup load_profile found_as
  search world query s = elim (lookup to_lower equal_fold (load_roster world s) query) [
    | none ↦ err npc_not_found
    | some e ↦ elim (load_profile world e.slug s) [
      | err e' ↦ err npc_not_found
      | ok p ↦ ok (found_as e p)
    ]
  ]
