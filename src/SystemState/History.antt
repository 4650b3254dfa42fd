-- ===== src/SystemState/History.antt =====
-- The log of compactions against a list of all events, of which it keeps the last ones.
use narrative_ai_agent.Prelude.{
  ℕ, zero, suc, ◌+◌, ◌-◌, ◌≤◌, ◌≡◌, refl, sym, ap, ◌∙◌, List, [], ◌∷◌, ◌++◌, append-nil,
  append_assoc, ltb, length, length-append, length-drop, take, drop, take-append-drop, Result,
  arith, Bool-cases, inl, inr,
}
use narrative_ai_agent.Prelude.Int.{ℤ, pos, ◌+ℤ◌, +ℤ_parts, eq_of_parts}
use narrative_ai_agent.Prelude.Text.{Text}
use narrative_ai_agent.SystemState.{
  SystemState, CompactionEvent, CompactionLog, at_least_one, trimmed_history,
  append_compaction_event,
}

module _ {ℓ} {A : Type ℓ} where
  -- The last elements, at most `k` of them.
  abbrev pub last_of : ℕ → List A → List A
  last_of k xs = drop (length xs - k) xs

  drop-append :
      (front : List A) (n : ℕ) (back : List A)
      → drop (length front + n) (front ++ back) ≡ drop n back
  drop-append [] n back = let same : 0 + n ≡ n = omega arith in ap (λ m. drop m back) same
  drop-append (x ∷ front) n back =
      let same : suc (length front) + n ≡ suc (length front + n) = omega arith in
      ap (λ m. drop m (x ∷ front ++ back)) same ∙ drop-append front n back

  drop-nil : (n : ℕ) → drop {A = A} n [] ≡ []
  drop-nil zero = refl
  drop-nil (suc n) = refl

  length-last_of : (k : ℕ) (xs : List A) → length (last_of k xs) ≤ k
  length-last_of k xs = omega (arith, length-drop (length xs - k) xs)

  trimmed_history-last_of : (k : ℕ) (xs : List A) → trimmed_history k xs ≡ last_of k xs
  trimmed_history-last_of k xs = elim (Bool-cases (ltb k (length xs))) [
    | inl e ↦ rw e refl
    | inr e ↦
        let none_dropped : zero ≡ length xs - k = ground arith in
        rw e (ap (λ n. drop n xs) none_dropped)
  ]

  -- What is in front of a back that is long enough does not matter.
  last_of-back :
      (k : ℕ) (front back : List A) → k ≤ length back → last_of k (front ++ back) ≡ last_of k back
  last_of-back k front back enough =
      ap (λ n. drop n (front ++ back)) (omega (arith, length-append front back))
      ∙ drop-append front (length back - k) back

  last_of-last_of : (k : ℕ) (xs ys : List A) → last_of k (last_of k xs ++ ys) ≡ last_of k (xs ++ ys)
  last_of-last_of k xs ys = elim (Bool-cases (ltb k (length xs))) [
    | inl longer ↦
        let d = length xs - k in
        let split =
          ap (λ l. l ++ ys) (sym (take-append-drop d xs))
          ∙ append_assoc (take d xs) (drop d xs) ys in
        let enough : k ≤ length (last_of k xs ++ ys) =
          ground (arith, length-append (last_of k xs) ys, length-drop d xs) in
        sym (ap (last_of k) split ∙ last_of-back k (take d xs) (last_of k xs ++ ys) enough)
    | inr shorter ↦ let whole : length xs - k ≡ zero = ground arith in rw whole refl
  ]

module _ (Time : Type 0) (zero_time : Time) (parse : Text → Result Text (SystemState Time))
    (marshal : SystemState Time → Result Text Text) where
  -- A cap on the history of any state, whatever its length before: no more entries than the cap, which is at
  -- least one, and the new event is the last of them.
  append_compaction_event-last_of :
      (c : CompactionLog Time) (ev : CompactionEvent Time) (max_entries : ℤ)
      → (append_compaction_event Time zero_time parse marshal c ev max_entries).history
        ≡ last_of (at_least_one max_entries) (c.history ++ (ev ∷ []))
  unfolding append_compaction_event
  append_compaction_event-last_of c ev max_entries =
      trimmed_history-last_of (at_least_one max_entries) (c.history ++ (ev ∷ []))

  -- After AppendCompactionEvent, whatever the log was, the history is not longer than the cap, one entry at least.
  pub append_compaction_event-bounded :
      (c : CompactionLog Time) (ev : CompactionEvent Time) (max_entries : ℤ)
      → length (append_compaction_event Time zero_time parse marshal c ev max_entries).history
        ≤ at_least_one max_entries
  append_compaction_event-bounded c ev max_entries =
      rw (append_compaction_event-last_of c ev max_entries)
        (length-last_of (at_least_one max_entries) (c.history ++ (ev ∷ [])))

  -- The events appended one after the other.
  abbrev pub append_events :
      CompactionLog Time → List (CompactionEvent Time) → ℤ → CompactionLog Time
  append_events c [] max_entries = c
  append_events c (ev ∷ evs) max_entries =
      append_events (append_compaction_event Time zero_time parse marshal c ev max_entries) evs
        max_entries

  append_events-history :
      (all : List (CompactionEvent Time)) (evs : List (CompactionEvent Time))
      (c : CompactionLog Time) (max_entries : ℤ)
      → c.history ≡ last_of (at_least_one max_entries) all
      → (append_events c evs max_entries).history ≡ last_of (at_least_one max_entries) (all ++ evs)
  append_events-history all [] c max_entries h =
      h ∙ ap (last_of (at_least_one max_entries)) (sym (append-nil all))
  append_events-history all (ev ∷ evs) c max_entries h =
      let k = at_least_one max_entries in
      append_events-history (all ++ (ev ∷ [])) evs _ max_entries (
        append_compaction_event-last_of c ev max_entries
        ∙ ap (λ l. last_of k (l ++ (ev ∷ []))) h
        ∙ last_of-last_of k all (ev ∷ []))
      ∙ ap (last_of k) (append_assoc all (ev ∷ []) evs)

  append_events-total :
      (evs : List (CompactionEvent Time)) (c : CompactionLog Time) (max_entries : ℤ)
      → (append_events c evs max_entries).total_compactions
        ≡ c.total_compactions +ℤ pos (length evs)
  unfolding append_compaction_event
  append_events-total [] c max_entries =
      eq_of_parts _ _ (omega (arith, +ℤ_parts c.total_compactions (pos 0)))
  append_events-total (ev ∷ evs) c max_entries =
      append_events-total evs _ max_entries
      ∙ eq_of_parts _ _ (
          omega (
            arith,
            +ℤ_parts (c.total_compactions +ℤ pos 1) (pos (length evs)),
            +ℤ_parts c.total_compactions (pos 1),
            +ℤ_parts c.total_compactions (pos (suc (length evs))),
          ))

  -- From an empty log on, whatever the cap, the log keeps the last events of all that have been appended, as many as
  -- the cap allows, in their order, and counts all of them.
  pub append_events-last :
      (c : CompactionLog Time) (evs : List (CompactionEvent Time)) (max_entries : ℤ)
      → c.history ≡ []
      → ((append_events c evs max_entries).history ≡ last_of (at_least_one max_entries) evs)
        × ((append_events c evs max_entries).total_compactions
            ≡ c.total_compactions +ℤ pos (length evs))
  append_events-last c evs max_entries none_yet = (
    append_events-history [] evs c max_entries (none_yet ∙ sym (drop-nil _)),
    append_events-total evs c max_entries,
  )
