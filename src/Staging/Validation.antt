-- ===== src/Staging/Validation.antt =====
-- What a validated staging.yaml guarantees of its graph.
use narrative_ai_agent.Prelude.{
  ◌≡◌, refl, sym, ap, ◌∙◌, subst, ◌⊎◌, inl, inr, Bool, true, false, ◌||◌, some, List, [], ◌∷◌, ok,
  >>=-eq-ok, arith, map, any, Bool-cases, Option-cases, Result-cases,
}
use narrative_ai_agent.Prelude.Text.{
  Text, text_eq, text_eq_iff, trim_space, trim_space-trim_space, contains_text,
}
use narrative_ai_agent.Staging.Days.{StagingFile, StageYaml, TransitionYaml}
use narrative_ai_agent.Staging.{
  Stage, to_transition, SeenDays, to_stage, stage_map, has_transition, validate_ids,
  validate_transitions, validate_stage, validate_stages, validate_enabled, validate,
}

abbrev has_id : List StageYaml → Text → Bool
has_id ys x = any (λ y. text_eq (trim_space y.id) x) ys

has_id-trimmed : (ys : List StageYaml) (x : Text) → has_id ys x ≡ true → trim_space x ≡ x
has_id-trimmed [] x h = cc
has_id-trimmed (y ∷ ys) x h = elim (Bool-cases (text_eq (trim_space y.id) x)) [
  | inl e ↦ subst (λ t. trim_space t ≡ t) ((text_eq_iff _ _).0 e) (trim_space-trim_space y.id)
  | inr e ↦ has_id-trimmed ys x (ground arith)
]

has_id-stage_map :
    (ys : List StageYaml) (x : Text) → has_id ys x ≡ true → (s : Stage) × (stage_map ys x ≡ some s)
unfolding stage_map
has_id-stage_map [] x h = cc
has_id-stage_map (y ∷ ys) x h = elim (Option-cases (stage_map ys x)) [
  | inr (s, e) ↦ (s, rw e)
  | inl e ↦ elim (Bool-cases (text_eq (trim_space y.id) x)) [
    | inl f ↦ (to_stage y, rw e (rw f))
    | inr f ↦ let (s, g) = has_id-stage_map ys x (ground arith) in cc
  ]
]

-- A stage that the map gives for an id carries that id.
pub stage_map-id : (ys : List StageYaml) (x : Text) (s : Stage) → stage_map ys x ≡ some s → s.id ≡ x
unfolding stage_map to_stage
stage_map-id [] x s h = cc
stage_map-id (y ∷ ys) x s h = elim (Option-cases (stage_map ys x)) [
  | inr (s', e) ↦ stage_map-id ys x s (ground arith)
  | inl e ↦ ground (arith, text_eq_iff (trim_space y.id) x)
]

validate_ids-has_id :
    (acc : List Text) (ys : List StageYaml) {ids : List Text} (x : Text)
    → validate_ids acc ys ≡ ok ids
    → contains_text ids x ≡ true
    → (contains_text acc x ≡ true) ⊎ (has_id ys x ≡ true)
unfolding validate_ids
validate_ids-has_id acc [] x h c = inl (ground arith)
validate_ids-has_id acc (y ∷ ys) x h c =
    elim (validate_ids-has_id (trim_space y.id ∷ acc) ys x (ground arith) c) [
      | inl e ↦ elim (Bool-cases (text_eq (trim_space y.id) x)) [
        | inl f ↦ inr (ground arith)
        | inr f ↦ inl (ground arith)
      ]
      | inr e ↦ inr (ground arith)
    ]

-- The transition was listed under a known id.
abbrev IsListed : List Text → Text → Type 0
IsListed ids x = (w : Text) × (contains_text ids w ≡ true) × (x ≡ trim_space w)

validate_transitions-IsListed :
    (ids : List Text) (stage : Text) (ts : List TransitionYaml) (x : Text)
    → validate_transitions ids stage ts ≡ ok tt
    → any (λ (t : TransitionYaml). text_eq (trim_space t.id) x) ts ≡ true
    → IsListed ids x
unfolding validate_transitions
validate_transitions-IsListed ids stage [] x h c = cc
validate_transitions-IsListed ids stage (t ∷ ts) x h c =
    elim (Bool-cases (text_eq (trim_space t.id) x)) [
      | inl e ↦ (t.id, ground arith, sym ((text_eq_iff _ _).0 e))
      | inr e ↦ validate_transitions-IsListed ids stage ts x (ground arith) (ground arith)
    ]

-- The transitions of the stage that the map holds were checked.
has_transition-to_stage :
    (y : StageYaml) (x : Text)
    → has_transition (to_stage y).next x
      ≡ any (λ (t : TransitionYaml). text_eq (trim_space t.id) x) y.next
unfolding to_stage has_transition
has_transition-to_stage y x = go y.next
  where
    go :
        (ts : List TransitionYaml)
        → any (λ t. text_eq t.id x) (map to_transition ts)
          ≡ any (λ (t : TransitionYaml). text_eq (trim_space t.id) x) ts
    go [] = refl
    go (t ∷ ts) = ap (λ b. text_eq (trim_space t.id) x || b) (go ts)

validate_stage-transitions :
    (ids : List Text) (seen : SeenDays) (y : StageYaml) {seen' : SeenDays}
    → validate_stage ids seen y ≡ ok seen'
    → validate_transitions ids y.id y.next ≡ ok tt
unfolding validate_stage
validate_stage-transitions ids seen y h = ground arith

validate_stages-cons :
    (ids : List Text) (seen : SeenDays) (y : StageYaml) (ys : List StageYaml) {end : SeenDays}
    → validate_stages ids seen (y ∷ ys) ≡ ok end
    → (mid : SeenDays) × (validate_stage ids seen y ≡ ok mid)
      × (validate_stages ids mid ys ≡ ok end)
unfolding validate_stages
validate_stages-cons ids seen y ys h =
    >>=-eq-ok (validate_stage ids seen y) (λ s. validate_stages ids s ys) h

validate_stages-IsListed :
    (ids : List Text) (seen : SeenDays) (ys : List StageYaml) {end : SeenDays} (id x : Text)
    (s : Stage)
    → validate_stages ids seen ys ≡ ok end
    → stage_map ys id ≡ some s
    → has_transition s.next x ≡ true
    → IsListed ids x
unfolding stage_map
validate_stages-IsListed ids seen [] id x s h m t = cc
validate_stages-IsListed ids seen (y ∷ ys) id x s h m t =
    let (mid, here, later) = validate_stages-cons ids seen y ys h in
    elim (Option-cases (stage_map ys id)) [
      | inr (s', e) ↦ validate_stages-IsListed ids mid ys id x s later (ground arith) t
      | inl e ↦
          let same : to_stage y ≡ s = ground arith in
          validate_transitions-IsListed ids y.id y.next x
            (validate_stage-transitions ids seen y here)
            (sym (has_transition-to_stage y x)
              ∙ subst (λ r. has_transition r.next x ≡ true) (sym same) t)
    ]

-- Every transition out of a stage of the map leads to a stage of the map.
abbrev pub IsClosed : List StageYaml → Type 0
IsClosed ys =
    (id x : Text) (s : Stage)
    → stage_map ys id ≡ some s
    → has_transition s.next x ≡ true
    → (u : Stage) × (stage_map ys x ≡ some u)

listed-stage_map :
    (ys : List StageYaml) (ids : List Text) (x : Text)
    → validate_ids [] ys ≡ ok ids
    → IsListed ids x
    → (u : Stage) × (stage_map ys x ≡ some u)
listed-stage_map ys ids x h (w, c, e) = elim (validate_ids-has_id [] ys w h c) [
  | inl n ↦ cc
  | inr k ↦
      let (u, found) = has_id-stage_map ys w k in
      (u, subst (λ v. stage_map ys v ≡ some u) (sym (e ∙ has_id-trimmed ys w k)) found)
]

abbrev none_seen : SeenDays
none_seen = record { has_days = false; no_days = false }

validate_enabled-parts :
    (raw : StagingFile)
    → validate_enabled raw ≡ ok tt
    → (ids : List Text) × (seen : SeenDays) × (validate_ids [] raw.stages ≡ ok ids)
      × (validate_stages ids none_seen raw.stages ≡ ok seen)
unfolding validate_enabled
validate_enabled-parts raw h = elim (Result-cases (validate_ids [] raw.stages)) [
  | inr (x, e) ↦ ground arith
  | inl (ids, e) ↦ elim (Result-cases (validate_stages ids none_seen raw.stages)) [
    | inr (x, f) ↦ ground arith
    | inl (seen, f) ↦ (ids, seen, e, f)
  ]
]

-- In the graph of an enabled file that passes the validation, every transition of every stage leads
-- to a stage.
pub validate-IsClosed :
    (raw : StagingFile) → raw.enabled ≡ true → validate raw ≡ ok tt → IsClosed raw.stages
unfolding validate_enabled
validate-IsClosed raw on h id x s m t =
    let (ids, seen, e, f) = validate_enabled-parts raw (unfold validate in rw on at h) in
    listed-stage_map raw.stages ids x e
      (validate_stages-IsListed ids none_seen raw.stages id x s f m t)
