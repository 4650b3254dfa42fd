-- ===== src/Repositories.antt =====
-- internal/repository: the state of the world files behind the repository interfaces, and the
-- snapshot types of internal/domain. The store holds what `Load` of a repository returns, an error
-- included. Which `Save` fails, and how, is fixed by `write_fault`.
pub mod Files
pub mod Keeps
pub mod Plan
pub mod Sound
use narrative_ai_agent.Prelude.{
  ◌≡◌, ◌≢◌, refl, arith, Bool-cases, inl, inr, ℕ, Bool, true, false, Option, none, some, List, [],
  ◌∷◌, ◌++◌, if◌then◌else◌, Result, ok, err,
}
use narrative_ai_agent.Prelude.Int.{ℤ, pos}
use narrative_ai_agent.Prelude.Text.{Text, text_eq, text_eq_iff, text_eq_refl}
use narrative_ai_agent.Names.{NameError}
use narrative_ai_agent.Chronicle.{Chronicle, ChronicleError}
use narrative_ai_agent.Staging.{StageRuntime, StagingError}

pub record StateSnapshot : Type 0 where
  pub world : Text
  pub day : ℤ
  pub in_flight : Bool
  pub daytime : Text
  pub location : Text
  pub moment : Text
  pub npcs : List Text
  pub current : Text
  pub events : List Text
  -- `domain.StageState` has the fields of `staging.StageRuntime`.
  pub stage : StageRuntime

pub record Info : Type 0 where
  pub active_character : Text
  pub active_world : Text
  pub characters : List Text
  pub worlds : List Text

pub data File : Type 0 where
  info_file : File
  state_file : Text → File
  chronicle_file : Text → File
  plan_file : Text → File
  lore_file : Text → File
  canon_file : Text → File
  other_file : Text → File

pub data Error : Type 0 where
  load_failed : Text → Error
  save_failed : File → Error
  of_chronicle : ChronicleError → Error
  of_staging : StagingError → Error
  summarizer_failed : Text → Error
  empty_world : Error
  empty_next : Error
  no_active_world : Error
  render_failed : Text → Error
  out_of_fuel : Error
  of_name : NameError → Error
  bad_days : Error
  negative_days : Error
  bad_plan : ℕ → Error
  empty_entry : Error
  already_launched : Error
  no_session : Error
  git_failed : Error

pub record Store : Type 0 where
  pub info : Result Text Info
  -- Whether info.yaml is there, and whether its body is empty or cannot be read.
  pub info_exists : Bool
  pub info_blank : Bool
  pub states : Text → Result Text StateSnapshot
  pub chronicles : Text → Result Text Chronicle
  -- Whether the file of a world's state is there; a missing one is loaded as the empty state.
  pub state_exists : Text → Result Text Bool
  pub plans : Text → Result Text Text
  pub lores : Text → Result Text Text
  pub canons : Text → Result Text Text
  -- The bodies of the files that belong to no repository, by path; a missing one is empty.
  pub others : Text → Result Text Text
  pub write_fault : File → Bool
  -- The reasons with which the world-state hook has been called, the latest first.
  pub invalidations : List Text
  -- The messages of the git commits that the commands have asked for, the latest first.
  pub commits : List Text

-- A call on the repositories. What was written before an error stays written.
abbrev pub Action : Type 0 → Type 0
Action A = Store → Result Error A × Store

unfoldable pub pure : {A : Type 0} → A → Action A
pure a s = (ok a, s)

unfoldable pub raise : {A : Type 0} → Error → Action A
raise e s = (err e, s)

unfoldable pub lift : {A : Type 0} → Result Error A → Action A
lift r s = (r, s)

abbrev pub continue : {A B : Type 0} → Result Error A → (A → Action B) → Action B
continue (ok a) f s = f a s
continue (err e) f s = (err e, s)

infixl 5 ◌>>=◌ ◌>>◌
unfoldable pub ◌>>=◌ : {A B : Type 0} → Action A → (A → Action B) → Action B
unfolding pure raise lift
◌>>=◌ m f s = let (r, s') = m s in continue r f s'

abbrev pub ◌>>◌ : {A B : Type 0} → Action A → Action B → Action B
m >> k = m >>= λ _. k

abbrev skip : {A : Type 0} → Result Error A → (A → Action (Unit {0})) → Action (Unit {0})
skip (ok a) f s = f a s
skip (err e) f s = (ok tt, s)

-- `if err != nil { return nil }`: an error of the first call ends the second one without an error.
unfoldable pub or_skip : {A : Type 0} → Action A → (A → Action (Unit {0})) → Action (Unit {0})
or_skip m f s = let (r, s') = m s in skip r f s'

abbrev pub update {ℓ} : {V : Type ℓ} → (Text → V) → Text → V → Text → V
update f k v j = if text_eq j k then v else f j

pub update-other {ℓ} :
    {V : Type ℓ} (f : Text → V) (k : Text) (v : V) (j : Text) → j ≢ k → update f k v j ≡ f j
update-other f k v j differs = elim (Bool-cases (text_eq j k)) [
  | inl e ↦ ground (arith, differs, text_eq_iff j k)
  | inr e ↦ rw e refl
]

pub update-same {ℓ} : {V : Type ℓ} (f : Text → V) (k : Text) (v : V) → update f k v k ≡ v
update-same f k v = rw (text_eq_refl k) refl

abbrev pub loaded : {A : Type 0} → Result Text A → Result Error A
loaded (ok a) = ok a
loaded (err e) = err (load_failed e)

-- The write succeeds unless the file is faulty.
unfoldable pub write : File → (Store → Store) → Action (Unit {0})
write file change s = if s.write_fault file then (err (save_failed file), s) else (ok tt, change s)

unfoldable pub load_state : Text → Action StateSnapshot
load_state world s = (loaded (s.states world), s)

unfoldable pub save_state : Text → StateSnapshot → Action (Unit {0})
unfolding write
save_state world snap = write (state_file world) (λ s. record s {
  states = update s.states world (ok snap);
  state_exists = update s.state_exists world (ok true);
})

unfoldable pub load_chronicle : Text → Action Chronicle
load_chronicle world s = (loaded (s.chronicles world), s)

unfoldable pub save_chronicle : Text → Chronicle → Action (Unit {0})
unfolding write
save_chronicle world c =
    write (chronicle_file world) (λ s. record s { chronicles = update s.chronicles world (ok c) })

-- The hook that drops the cached world state.
unfoldable pub invalidate : Text → Action (Unit {0})
invalidate reason s = (ok tt, record s { invalidations = reason ∷ s.invalidations })
