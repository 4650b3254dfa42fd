-- ===== src/Tools/Maintain.antt =====
-- internal/usecase/tools/files/memory.go: the files that a language model rewrites when they have grown. The models, the
-- YAML library and the listing of a directory are parameters; `none` is a summarizer that is not wired.
pub mod Shrinks
use narrative_ai_agent.Prelude.{
  ℕ, suc, ◌==◌, ltb, leb, Bool, true, false, not, ◌&&◌, ◌||◌, Option, none, some, List, [], ◌∷◌,
  ◌++◌, if◌then◌else◌, length, Result, ok, err,
}
use narrative_ai_agent.Prelude.Text.{Text, lit, is_empty, trim_space, has_infix, byte_len}
use narrative_ai_agent.Prelude.Find.{cut_suffix}
use narrative_ai_agent.Chronicle.{Chronicle, ChronicleError}
use narrative_ai_agent.CharacterProfile.{Base}
use narrative_ai_agent.NpcProfile.{Profile}
use narrative_ai_agent.Repositories.{Action, pure, lift, ◌>>=◌, ◌>>◌, Error, summarizer_failed}
use narrative_ai_agent.Repositories.Files.{load_lore, save_lore, ends_line}
use narrative_ai_agent.Tools.World.{new_empty_chronicle}
use narrative_ai_agent.Tools.Npc.{NpcFiles, NpcError, load_profile, save_profile}
use narrative_ai_agent.Tools.Character.{CharacterFiles, put_memory, memory_file}

-- The limits of the three passes.
abbrev pub npc_personal_memory_limit : ℕ
npc_personal_memory_limit = 25

abbrev lore_maintain_threshold : ℕ
lore_maintain_threshold = 500

abbrev character_memory_maintain_bytes : ℕ
character_memory_maintain_bytes = 4096

pub record Maintenance : Type 0 where
  -- The names in the directory of a world's characters.
  pub list_children : Text → Result Text (List Text)
  pub save_npc : Profile → Result Text Text
  pub load_npc : Text → Result Text Profile
  pub summarize_npc : Option (Text → Text → Text → Result Text Text)
  pub summarize_lore : Option (Text → Text → Result Text Text)
  pub save_memory : Base → Result Text Text
  pub load_memory : Text → Result Text Base
  pub summarize_memory : Option (Text → Text → Text → Text → Result Text Text)
  pub marshal_chronicle : Chronicle → Result ChronicleError Text

pub data MaintainError : Type 0 where
  of_npc : NpcError → MaintainError
  unrendered : Text → MaintainError
  unsummarized : Text → MaintainError
  unparsed : Text → MaintainError
  unread_memory : Text → MaintainError
  unwritten_memory : MaintainError
  unlisted : Text → MaintainError

-- A body of the model that is worth reading: one that is there and shorter.
abbrev is_shorter : Text → Text → Bool
is_shorter new old = not (is_empty new) && ltb (byte_len new) (byte_len old)

-- `lineCount`.
abbrev line_ends : Text → ℕ
line_ends [] = 0
line_ends (c ∷ cs) = if c == b'\n' then suc (line_ends cs) else line_ends cs

unfoldable line_count : Text → ℕ
line_count s = if is_empty s || ends_line s then line_ends s else suc (line_ends s)

-- The new body of a lore that is too long, if the model has a good one.
unfoldable new_lore :
    Option (Text → Text → Result Text Text) → Text → Text → Result Error (Option Text)
unfolding trim_space line_count has_infix
new_lore summarizer world body =
    if is_empty (trim_space body) || leb (line_count body) lore_maintain_threshold
    then ok none
    else elim summarizer [
      | none ↦ ok none
      | some summarize ↦ elim (summarize world body) [
        | err e ↦ err (summarizer_failed e)
        | ok new ↦
            if is_shorter new body && has_infix (lit "## ") new then ok (some new) else ok none
      ]
    ]

abbrev pub save_lore_if : Text → Option Text → Action Bool
unfolding save_lore ◌>>=◌ pure
save_lore_if world none = pure false
save_lore_if world (some new) = do save_lore world new; pure true

unfoldable pub maintain_lore : Option (Text → Text → Result Text Text) → Text → Action Bool
unfolding new_lore load_lore ◌>>=◌ lift
maintain_lore summarizer world = do
  body ← load_lore world
  found ← lift (new_lore summarizer world body)
  save_lore_if world found

module _ (m : Maintenance) where
  -- The profile that the model makes of one with too many memories.
  unfoldable pub condensed : Text → Profile → Result MaintainError (Option Profile)
  condensed world p = elim m.summarize_npc [
    | none ↦ ok none
    | some summarize ↦ elim (m.save_npc p) [
      | err e ↦ err (unrendered e)
      | ok body ↦ elim (summarize p.display_name world body) [
        | err e ↦ err (unsummarized e)
        | ok new ↦
            if is_shorter new body
            then elim (m.load_npc new) [ err e ↦ err (unparsed e) | ok q ↦ ok (some q) ]
            else ok none
      ]
    ]
  ]

  abbrev pub written : Result NpcError (Unit {0}) × NpcFiles → Result MaintainError Bool × NpcFiles
  written (err e, t) = (err (of_npc e), t)
  written (ok u, t) = (ok true, t)

  unfoldable pub write_condensed :
      Text
      → Text
      → Profile
      → Result MaintainError (Option Profile)
      → NpcFiles
      → Result MaintainError Bool × NpcFiles
  unfolding save_profile
  write_condensed world slug p (err e) s = (err e, s)
  write_condensed world slug p (ok none) s = (ok false, s)
  write_condensed world slug p (ok (some q)) s =
      if leb (length p.personal_memory) (length q.personal_memory)
      then (ok false, s)
      else written (save_profile world slug q s)

  unfoldable pub maintain_loaded :
      Text → Text → Result NpcError Profile → NpcFiles → Result MaintainError Bool × NpcFiles
  unfolding condensed write_condensed
  maintain_loaded world slug (err e) s = (err (of_npc e), s)
  maintain_loaded world slug (ok p) s =
      if ltb (length p.personal_memory) npc_personal_memory_limit
      then (ok false, s)
      else write_condensed world slug p (condensed world p) s

  unfoldable pub maintain_one : Text → Text → NpcFiles → Result MaintainError Bool × NpcFiles
  unfolding load_profile maintain_loaded
  maintain_one world slug s = maintain_loaded world slug (load_profile world slug s) s

  unfoldable pub slugs_of : List Text → List Text
  unfolding cut_suffix
  slugs_of [] = []
  slugs_of (name ∷ names) = elim (cut_suffix (lit ".yaml") name) [
    | none ↦ slugs_of names
    | some slug ↦ slug ∷ slugs_of names
  ]

  unfoldable pub list_slugs : Text → Result MaintainError (List Text)
  unfolding slugs_of
  list_slugs world = elim (m.list_children (lit "worlds/" ++ world ++ lit "/characters")) [
    | err e ↦ err (unlisted e)
    | ok names ↦ ok (slugs_of names)
  ]

  -- The slugs that have been rewritten; an error of one profile is passed over.
  unfoldable pub maintain_all : Text → List Text → NpcFiles → List Text × NpcFiles
  unfolding maintain_one
  maintain_all world [] s = ([], s)
  maintain_all world (slug ∷ slugs) s =
      let (r, t) = maintain_one world slug s in
      let (touched, u) = maintain_all world slugs t in
      (elim r [ ok changed ↦ if changed then slug ∷ touched else touched | err e ↦ touched ], u)

  unfoldable pub maintain_listed :
      Text
      → Result MaintainError (List Text)
      → NpcFiles
      → Result MaintainError (List Text) × NpcFiles
  unfolding maintain_all
  maintain_listed world (err e) s = (err e, s)
  maintain_listed world (ok slugs) s =
      let (touched, t) = maintain_all world slugs s in (ok touched, t)

  unfoldable pub maintain_npcs : Text → NpcFiles → Result MaintainError (List Text) × NpcFiles
  unfolding list_slugs
  maintain_npcs world s = maintain_listed world (list_slugs world) s

  -- The chronicle as the model is shown it: empty where it cannot be loaded or written.
  chronicle_body : Result Text Chronicle → Text
  chronicle_body r =
      elim (m.marshal_chronicle (elim r [ ok c ↦ c | err e ↦ new_empty_chronicle ])) [
        | ok body ↦ body
        | err e ↦ []
      ]

  unfoldable rewritten_memory : Text → Text → Text → Base → Result MaintainError (Option Base)
  rewritten_memory world character chronicle memory = elim m.summarize_memory [
    | none ↦ ok none
    | some summarize ↦ elim (m.save_memory memory) [
      | err e ↦ err (unrendered e)
      | ok body ↦
          if ltb (byte_len body) character_memory_maintain_bytes
          then ok none
          else elim (summarize world character body chronicle) [
            | err e ↦ err (unsummarized e)
            | ok new ↦
                if is_shorter new body
                then elim (m.load_memory new) [ err e ↦ err (unparsed e) | ok b ↦ ok (some b) ]
                else ok none
          ]
    ]
  ]

  abbrev pub write_memory :
      Text
      → Result MaintainError (Option Base)
      → CharacterFiles
      → Result MaintainError Bool × CharacterFiles
  write_memory character (err e) s = (err e, s)
  write_memory character (ok none) s = (ok false, s)
  write_memory character (ok (some b)) s =
      if s.file_fault memory_file character
      then (err unwritten_memory, s)
      else (ok true, put_memory character b s)

  abbrev pub maintain_memory_loaded :
      Text
      → Text
      → Text
      → Result Text Base
      → CharacterFiles
      → Result MaintainError Bool × CharacterFiles
  unfolding rewritten_memory
  maintain_memory_loaded world character chronicle (err e) s = (err (unread_memory e), s)
  maintain_memory_loaded world character chronicle (ok memory) s =
      write_memory character (rewritten_memory world character chronicle memory) s

  -- A summarizer that is not wired is asked for first, before the memory is loaded.
  unfoldable pub maintain_character_memory :
      Text
      → Text
      → Result Text Chronicle
      → CharacterFiles
      → Result MaintainError Bool × CharacterFiles
  unfolding chronicle_body
  maintain_character_memory world character chronicle s = elim m.summarize_memory [
    | none ↦ (ok false, s)
    | some summarize ↦
        maintain_memory_loaded world character (chronicle_body chronicle) (s.memories character) s
  ]
