-- ===== src/Staging.antt =====
-- internal/staging/staging.go: the staged story graph of a world. The graph is read from
-- staging.yaml; the pointer into it (current stage, timeline index, pending stage) is the caller's.
pub mod Days
pub mod Validation
pub mod Graph
use narrative_ai_agent.Prelude.{
  ◌≡◌, Bool, true, false, ◌&&◌, ◌||◌, Option, none, some, List, [], ◌∷◌, ◌++◌, if◌then◌else◌,
  Result, ok, err, ◌>>=◌, ◌>>◌, fail_if, not, map, any, length, is_nil,
}
use narrative_ai_agent.Prelude.Int.{ℤ, pos, ltb_ℤ, leb_ℤ, ◌+ℤ◌}
use narrative_ai_agent.Prelude.Text.{Text, lit, is_empty, trim_space, text_eq, contains_text}
use narrative_ai_agent.Staging.Days.{
  StagingFile, StageYaml, TimelineYaml, TransitionYaml, parse_days_range,
}

pub record TimelinePoint : Type 0 where
  pub days : Text
  pub info : Text
  pub description : Text

pub record Transition : Type 0 where
  pub id : Text
  pub requirements : List Text

pub record Stage : Type 0 where
  pub id : Text
  pub name : Text
  pub description : Text
  pub timeline : List TimelinePoint
  pub next : List Transition

-- The pointer into the graph that state.yaml keeps.
pub record StageRuntime : Type 0 where
  pub current : Text
  pub timeline_index : ℤ
  pub next : Text

pub record Staging : Type 0 where
  pub enabled : Bool
  pub current : Stage
  pub timeline_index : ℤ
  pub next : Text
  pub raw : StagingFile

pub data StagingError : Type 0 where
  read_failed : Text → StagingError
  parse_failed : Text → StagingError
  init_empty : StagingError
  empty_stage_id : StagingError
  duplicate_stage_id : Text → StagingError
  empty_name : Text → StagingError
  empty_info : Text → StagingError
  empty_description : Text → StagingError
  invalid_days : Text → StagingError
  no_transitions : Text → StagingError
  empty_transition_id : Text → StagingError
  unknown_transition : Text → Text → StagingError
  no_requirements : Text → StagingError
  mixed_days : StagingError
  unknown_init : Text → StagingError
  current_not_found : Text → StagingError
  empty_next_id : StagingError
  invalid_transition : Text → Text → StagingError
  last_timeline_point : StagingError
  pending_not_found : Text → StagingError

-- The zero values of Go.
abbrev no_stage : Stage
no_stage = record { id = []; name = []; description = []; timeline = []; next = [] }

abbrev pub no_runtime : StageRuntime
no_runtime = record { current = []; timeline_index = pos 0; next = [] }

abbrev pub disabled : Staging
disabled = record {
  enabled = false;
  current = no_stage;
  timeline_index = pos 0;
  next = [];
  raw = record { enabled = false; init = []; stages = [] };
}

to_point : TimelineYaml → TimelinePoint
to_point y = record {
  days = trim_space y.days;
  info = trim_space y.info;
  description = trim_space y.description;
}

to_transition : TransitionYaml → Transition
to_transition y = record { id = trim_space y.id; requirements = map trim_space y.requirements }

unfoldable pub to_stage : StageYaml → Stage
unfolding to_point to_transition
to_stage y = record {
  id = trim_space y.id;
  name = trim_space y.name;
  description = trim_space y.description;
  timeline = map to_point y.timeline;
  next = map to_transition y.next;
}

-- A look-up in the map that `buildStageMap` fills: of two stages with one id the later one stays.
pub stage_map : List StageYaml → Text → Option Stage
stage_map [] id = none
stage_map (y ∷ ys) id = elim (stage_map ys id) [
  | some s ↦ some s
  | none ↦ if text_eq (trim_space y.id) id then some (to_stage y) else none
]

pub has_transition : List Transition → Text → Bool
has_transition ts id = any (λ t. text_eq t.id id) ts

is_some : Option Stage → Bool
is_some none = false
is_some (some s) = true

pub repair_next : Text → (Text → Option Stage) → Stage → Text
unfolding is_some has_transition
repair_next next stages current =
    if is_empty next
    then []
    else if is_some (stages next)
    then (if has_transition current.next next then next else [])
    else []

pub repair_index : ℤ → Stage → ℤ
repair_index idx current =
    if ltb_ℤ idx (pos 0) || leb_ℤ (pos (length current.timeline)) idx then pos 0 else idx

first_init : List Text → Result StagingError Text
first_init [] = err init_empty
first_init (id ∷ _) = ok id

current_id : Text → List Text → Result StagingError Text
unfolding first_init
current_id [] init = first_init init
current_id (c ∷ cs) init = ok (c ∷ cs)

find_current : Text → Option Stage → Result StagingError Stage
find_current id none = err (current_not_found id)
find_current id (some s) = ok s

unfoldable pub runtime : Staging → StageRuntime
runtime s =
    if s.enabled
    then record { current = s.current.id; timeline_index = s.timeline_index; next = s.next }
    else no_runtime

unfoldable pub update_stage : Staging → Text → Result StagingError Staging
unfolding has_transition
update_stage s next_id =
    if is_empty next_id
    then err empty_next_id
    else if has_transition s.current.next next_id
    then ok (record s { next = next_id })
    else err (invalid_transition next_id s.current.id)

unfoldable pub advance_timeline : Staging → Result StagingError Staging
advance_timeline s =
    if leb_ℤ (pos (length s.current.timeline)) (s.timeline_index +ℤ pos 1)
    then err last_timeline_point
    else ok (record s { timeline_index = s.timeline_index +ℤ pos 1 })

enter_stage : Staging → Option Stage → Result StagingError Staging
enter_stage s none = err (pending_not_found s.next)
enter_stage s (some stage) = ok (record s { current = stage; timeline_index = pos 0; next = [] })

-- The graph after `ApplyPending`; `pending_runtime` is the value that it returns.
unfoldable pub apply_pending : Staging → Result StagingError Staging
unfolding enter_stage stage_map
apply_pending s = if is_empty s.next then ok s else enter_stage s (stage_map s.raw.stages s.next)

abbrev pub pending_runtime : Staging → StageRuntime
pending_runtime s = record {
  current = s.current.id;
  timeline_index = s.timeline_index;
  next = s.next;
}

-- `validateStagingFile`: the ids first.
pub validate_ids : List Text → List StageYaml → Result StagingError (List Text)
validate_ids ids [] = ok ids
validate_ids ids (y ∷ ys) =
    let id = trim_space y.id in
    let rest = validate_ids (id ∷ ids) ys in
    if is_empty id
    then err empty_stage_id
    else if contains_text ids id
    then err (duplicate_stage_id id)
    else rest

-- Whether points with days, and points without, have been seen.
pub record SeenDays : Type 0 where
  pub has_days : Bool
  pub no_days : Bool

valid_days : Text → Bool
valid_days days = elim (parse_days_range days) [ none ↦ false | some r ↦ true ]

validate_points : Text → SeenDays → List TimelineYaml → Result StagingError SeenDays
unfolding valid_days
validate_points stage seen [] = ok seen
validate_points stage seen (p ∷ ps) =
    let rest =
      validate_points stage
        (if is_empty p.days
          then record seen { no_days = true }
          else record seen { has_days = true })
        ps in
    if is_empty (trim_space p.info)
    then err (empty_info stage)
    else if is_empty (trim_space p.description)
    then err (empty_description stage)
    else if is_empty p.days || valid_days p.days
    then rest
    else err (invalid_days p.days)

pub validate_transitions : List Text → Text → List TransitionYaml → Result StagingError (Unit {0})
validate_transitions ids stage [] = ok tt
validate_transitions ids stage (t ∷ ts) =
    let rest = validate_transitions ids stage ts in
    if is_empty (trim_space t.id)
    then err (empty_transition_id stage)
    else if not (contains_text ids t.id)
    then err (unknown_transition stage t.id)
    else if is_nil t.requirements
    then err (no_requirements stage)
    else rest

-- One round of the loop over the stages.
pub validate_stage : List Text → SeenDays → StageYaml → Result StagingError SeenDays
unfolding validate_points validate_transitions
validate_stage ids seen y = do
  fail_if (is_empty (trim_space y.name)) (empty_name y.id)
  seen' ← validate_points y.id seen y.timeline
  fail_if (is_nil y.next) (no_transitions y.id)
  validate_transitions ids y.id y.next
  ok seen'

pub validate_stages : List Text → SeenDays → List StageYaml → Result StagingError SeenDays
validate_stages ids seen [] = ok seen
validate_stages ids seen (y ∷ ys) = do
  seen' ← validate_stage ids seen y
  validate_stages ids seen' ys

validate_init : List Text → List Text → Result StagingError (Unit {0})
validate_init ids [] = ok tt
validate_init ids (i ∷ is) =
    let rest = validate_init ids is in if contains_text ids i then rest else err (unknown_init i)

unfoldable pub validate_enabled : StagingFile → Result StagingError (Unit {0})
unfolding validate_ids validate_stages validate_stage validate_init
validate_enabled raw = do
  fail_if (is_nil raw.init) init_empty
  ids ← validate_ids [] raw.stages
  seen ← validate_stages ids (record { has_days = false; no_days = false }) raw.stages
  fail_if (seen.has_days && seen.no_days) mixed_days
  validate_init ids raw.init

unfoldable pub validate : StagingFile → Result StagingError (Unit {0})
validate raw = if raw.enabled then validate_enabled raw else ok tt

-- `Load` on a staging.yaml that is enabled.
unfoldable pub load_enabled : StagingFile → StageRuntime → Result StagingError Staging
unfolding current_id find_current repair_next repair_index stage_map
load_enabled raw rt = do
  validate raw
  id ← current_id rt.current raw.init
  current ← find_current id (stage_map raw.stages id)
  ok (record {
    enabled = true;
    current = current;
    timeline_index = repair_index rt.timeline_index current;
    next = repair_next rt.next (stage_map raw.stages) current;
    raw = raw;
  })

-- The parsed file; `none` where the body is blank.
of_body : Option StagingFile → StageRuntime → Result StagingError Staging
of_body none rt = ok disabled
of_body (some raw) rt = if raw.enabled then load_enabled raw rt else ok disabled

module _ (unmarshal : Text → Result Text StagingFile) where
  parse_body : Text → Result StagingError (Option StagingFile)
  parse_body body =
      if is_empty (trim_space body)
      then ok none
      else elim (unmarshal body) [ ok raw ↦ ok (some raw) | err e ↦ err (parse_failed e) ]

  -- The file store gives the body of staging.yaml.
  unfoldable pub load : Result Text Text → StageRuntime → Result StagingError Staging
  unfolding parse_body of_body
  load (err e) rt = err (read_failed e)
  load (ok body) rt = do file ← parse_body body; of_body file rt
