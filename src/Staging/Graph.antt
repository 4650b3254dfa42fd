-- ===== src/Staging/Graph.antt =====
-- The pointer into the graph: what `Load` establishes and the operations keep.
use mathlib.Core.Bool.{false≢true}
use narrative_ai_agent.Prelude.{
  ◌≡◌, refl, sym, ap, ◌∙◌, subst, ◌⊎◌, inl, inr, true, false, not, ◌||◌, Option, none, some, [],
  Result, ok, err, >>=-eq-ok, arith, length, Bool-cases, Option-cases, Result-cases,
}
use narrative_ai_agent.Prelude.Int.{ℤ, pos, ltb_ℤ, leb_ℤ, ◌+ℤ◌, ◌≤ℤ◌, ◌<ℤ◌, +ℤ_parts}
use narrative_ai_agent.Prelude.Text.{Text, is_empty, is_empty_iff}
use narrative_ai_agent.Staging.Days.{StagingFile}
use narrative_ai_agent.Staging.Validation.{stage_map-id, IsClosed, validate-IsClosed}
use narrative_ai_agent.Staging.{
  Stage, Staging, StageRuntime, stage_map, has_transition, repair_next, repair_index, current_id,
  is_some, update_stage, advance_timeline, apply_pending, validate, load, parse_body, of_body,
  disabled, load_enabled,
}

-- The index is a point of the timeline, or the start.
abbrev IsIndex : ℤ → Stage → Type 0
IsIndex i s = (pos 0 ≤ℤ i) × ((i ≡ pos 0) ⊎ (i <ℤ pos (length s.timeline)))

-- No pending stage, or one to which a transition of the current stage leads.
abbrev IsPending : Text → Stage → Type 0
IsPending next s = (next ≡ []) ⊎ (has_transition s.next next ≡ true)

pub record IsLoaded (s : Staging) : Type 0 where
  is_enabled : s.enabled ≡ true
  pub known : stage_map s.raw.stages s.current.id ≡ some s.current
  pub index : IsIndex s.timeline_index s.current
  pub pending : IsPending s.next s.current
  pub closed : IsClosed s.raw.stages

repair_index-IsIndex : (i : ℤ) (s : Stage) → IsIndex (repair_index i s) s
unfolding repair_index
repair_index-IsIndex i s =
    elim (Bool-cases (ltb_ℤ i (pos 0) || leb_ℤ (pos (length s.timeline)) i)) [
      | inl e ↦ rw e (omega arith, inl refl)
      | inr e ↦ rw e (ground arith, inr (ground arith))
    ]

repair_next-IsPending :
    (next : Text) (stages : Text → Option Stage) (s : Stage)
    → IsPending (repair_next next stages s) s
unfolding repair_next
repair_next-IsPending next stages s =
    elim (Bool-cases (is_empty next || not (is_some (stages next)))) [
      | inl e ↦ inl (ground arith)
      | inr e ↦ elim (Bool-cases (has_transition s.next next)) [
        | inl f ↦ inr (ground arith)
        | inr f ↦ inl (ground arith)
      ]
    ]

load_enabled-parts :
    (raw : StagingFile) (rt : StageRuntime) (s : Staging)
    → load_enabled raw rt ≡ ok s
    → (id : Text) × (current : Stage) × (validate raw ≡ ok tt)
      × (stage_map raw.stages id ≡ some current)
      × (s ≡ record {
        enabled = true;
        current = current;
        timeline_index = repair_index rt.timeline_index current;
        next = repair_next rt.next (stage_map raw.stages) current;
        raw = raw;
      })
unfolding load_enabled
load_enabled-parts raw rt s h = elim (Result-cases (validate raw)) [
  | inr (x, e) ↦ ground arith
  | inl (u, e) ↦ elim (Result-cases (current_id rt.current raw.init)) [
    | inr (x, f) ↦ ground arith
    | inl (id, f) ↦ elim (Option-cases (stage_map raw.stages id)) [
      | inl g ↦ ground arith
      | inr (current, g) ↦ (id, current, e, g, ground arith)
    ]
  ]
]

load_enabled-IsLoaded :
    (raw : StagingFile) (rt : StageRuntime) (s : Staging)
    → raw.enabled ≡ true
    → load_enabled raw rt ≡ ok s
    → IsLoaded s
load_enabled-IsLoaded raw rt s on h =
    let (id, current, valid, found, result) = load_enabled-parts raw rt s h in
    rw result (record {
      is_enabled = refl;
      known =
          subst (λ k. stage_map raw.stages k ≡ some current)
            (sym (stage_map-id raw.stages id current found)) found;
      index = repair_index-IsIndex rt.timeline_index current;
      pending = repair_next-IsPending rt.next (stage_map raw.stages) current;
      closed = validate-IsClosed raw on valid;
    })

of_body-IsLoaded :
    (file : Option StagingFile) (rt : StageRuntime) (s : Staging)
    → of_body file rt ≡ ok s
    → s.enabled ≡ true
    → IsLoaded s
unfolding of_body
of_body-IsLoaded none rt s h on = absurd (false≢true (ap (λ t. t.enabled) same ∙ on))
  where
    same : disabled ≡ s
    same = ground arith
of_body-IsLoaded (some raw) rt s h on = elim (Bool-cases raw.enabled) [
  | inl e ↦ load_enabled-IsLoaded raw rt s e (ground arith)
  | inr e ↦ ground arith
]

-- If `Load` gives an enabled graph, whatever the runtime pointer, the current stage is in the file,
-- the index and the pending stage are valid, and no transition of any stage dangles.
pub load-IsLoaded :
    (unmarshal : Text → Result Text StagingFile) (body : Result Text Text) (rt : StageRuntime)
    (s : Staging)
    → load unmarshal body rt ≡ ok s
    → s.enabled ≡ true
    → IsLoaded s
unfolding load
load-IsLoaded unmarshal (err e) rt s h on = cc
load-IsLoaded unmarshal (ok body) rt s h on =
    let (file, parsed, rest) = >>=-eq-ok (parse_body unmarshal body) (λ file. of_body file rt) h in
    of_body-IsLoaded file rt s rest on

-- `UpdateStage` keeps the pointer into a loaded graph valid.
pub update_stage-IsLoaded :
    (s t : Staging) (next : Text) → IsLoaded s → update_stage s next ≡ ok t → IsLoaded t
unfolding update_stage
update_stage-IsLoaded s t next h e =
    let same : t ≡ record s { next = next } = ground arith in
    rw same (record {
      is_enabled = h.is_enabled;
      known = h.known;
      index = h.index;
      pending = inr (ground arith);
      closed = h.closed;
    })

-- `AdvanceTimeline` keeps the pointer into a loaded graph valid.
pub advance_timeline-IsLoaded :
    (s t : Staging)
    → IsLoaded s
    → advance_timeline s ≡ ok t
    → IsLoaded t × (t.timeline_index ≡ s.timeline_index +ℤ pos 1)
unfolding advance_timeline
advance_timeline-IsLoaded s t h e =
    let same : t ≡ record s { timeline_index = s.timeline_index +ℤ pos 1 } = ground arith in
    let after : leb_ℤ (pos (length s.current.timeline)) (s.timeline_index +ℤ pos 1) ≡ false =
      ground arith in
    rw same (
      record {
        is_enabled = h.is_enabled;
        known = h.known;
        index = (omega (arith, +ℤ_parts), inr (ground arith));
        pending = h.pending;
        closed = h.closed;
      },
      refl,
    )

pending_transition :
    (s : Staging)
    → IsLoaded s
    → is_empty s.next ≡ false
    → has_transition s.current.next s.next ≡ true
pending_transition s h e = elim h.pending [
  | inl n ↦ absurd (ground (arith, is_empty_iff s.next))
  | inr t ↦ t
]

-- From a loaded graph `ApplyPending` never fails. With no pending stage it changes nothing; otherwise
-- it enters the pending stage, at the start of its timeline and with nothing pending. The result is a
-- loaded graph.
pub apply_pending-total :
    (s : Staging)
    → IsLoaded s
    → (t : Staging) × (apply_pending s ≡ ok t)
      × IsLoaded t
      × (t.next ≡ [])
      × ((s.next ≡ []) × (t ≡ s) ⊎ (t.current.id ≡ s.next) × (t.timeline_index ≡ pos 0))
unfolding apply_pending
apply_pending-total s h = elim (Bool-cases (is_empty s.next)) [
  | inl e ↦ let nothing = (is_empty_iff s.next).0 e in (s, rw e, h, nothing, inl (nothing, refl))
  | inr e ↦
      let there = pending_transition s h e in
      let (u, found) = h.closed s.current.id s.next s.current h.known there in
      (
        record s { current = u; timeline_index = pos 0; next = [] },
        rw (e, found),
        record {
          is_enabled = h.is_enabled;
          known =
              subst (λ k. stage_map s.raw.stages k ≡ some u)
                (sym (stage_map-id s.raw.stages s.next u found)) found;
          index = (omega arith, inl refl);
          pending = inl refl;
          closed = h.closed;
        },
        refl,
        inr (stage_map-id s.raw.stages s.next u found, refl),
      )
]
