-- ===== src/WorldRegistry/Matching.antt =====
-- What `Lookup` answers: the first exact match, whichever field it is of, or else the only partial one. The comment of the
-- source ranks the fields, a slug before a display name before a nickname; the code goes by the order of the entries.
use narrative_ai_agent.Prelude.{
  ℕ, ◌≡◌, refl, Bool, true, false, not, ◌&&◌, Option, none, some, List, [], ◌∷◌, if◌then◌else◌,
  keep, All, map, arith, Bool-cases, Option-cases, inl, inr,
}
use narrative_ai_agent.Prelude.Text.{Text, is_empty, trim_space}
use narrative_ai_agent.WorldRegistry.{
  Entry, is_exact, match_any_field, first_exact, partial_from, lookup, wanted, zero_entry,
}

abbrev pub first : List Entry → Option Entry
first [] = none
first (e ∷ es) = some e

abbrev pub only : List Entry → Option Entry
only (e ∷ []) = some e
only _ = none

abbrev pub or_else : Option Entry → Option Entry → Option Entry
or_else none other = other
or_else (some e) other = some e

module _ (to_lower : ℕ → ℕ) (equal_fold : Text → Text → Bool) where
  first_exact-first :
      (es : List Entry) (want : Text)
      → first_exact to_lower equal_fold es want
        ≡ first (keep (λ e. is_exact to_lower equal_fold e want) es)
  unfolding first_exact
  first_exact-first [] want = refl
  first_exact-first (e ∷ es) want = ground (arith, first_exact-first es want)

  -- The first exact match is what Lookup answers.
  pub lookup-exact :
      (es : List Entry) (name : Text) (x : Entry) (rest : List Entry)
      → is_empty (wanted to_lower equal_fold name) ≡ false
      → keep (λ e. is_exact to_lower equal_fold e (wanted to_lower equal_fold name)) es ≡ x ∷ rest
      → lookup to_lower equal_fold es name ≡ some x
  unfolding lookup
  lookup-exact es name x rest given found =
      rw (given, first_exact-first es (wanted to_lower equal_fold name), found) refl

  pub wanted-is_empty :
      (name : Text) → is_empty (wanted to_lower equal_fold name) ≡ is_empty (trim_space name)
  unfolding wanted
  wanted-is_empty name = map-is_empty (trim_space name)
    where
      map-is_empty : (t : Text) → is_empty (map to_lower t) ≡ is_empty t
      map-is_empty [] = refl
      map-is_empty (c ∷ cs) = refl

  abbrev HasSlug : Entry → Type 0
  HasSlug e = is_empty e.slug ≡ false

  -- A second match has been found.
  partial_from-ambiguous :
      (hit : Entry) (es : List Entry) (want : Text)
      → partial_from to_lower equal_fold hit true es want ≡ none
  unfolding partial_from
  partial_from-ambiguous hit [] want = ground arith
  partial_from-ambiguous hit (e ∷ es) want =
      let hit' =
        if match_any_field to_lower equal_fold e want && is_empty hit.slug then e else hit in
      let again = partial_from-ambiguous hit' es want in
      elim (Bool-cases (match_any_field to_lower equal_fold e want && not (is_empty hit.slug))) [
        | inl m ↦ rw (partial_from, m) again
        | inr m ↦ rw (partial_from, m) again
      ]

  partial_from-hit :
      (hit : Entry) (es : List Entry) (want : Text)
      → HasSlug hit
      → partial_from to_lower equal_fold hit false es want
        ≡ only (hit ∷ keep (λ e. match_any_field to_lower equal_fold e want) es)
  unfolding partial_from
  partial_from-hit hit [] want h = ground arith
  partial_from-hit hit (e ∷ es) want h =
      elim (Bool-cases (match_any_field to_lower equal_fold e want)) [
        | inl m ↦ rw (partial_from, m, h) (partial_from-ambiguous hit es want)
        | inr m ↦ rw (partial_from, m) (partial_from-hit hit es want h)
      ]

  partial_from-only :
      (es : List Entry) (want : Text)
      → All (λ e. is_empty e.slug ≡ false) es
      → partial_from to_lower equal_fold zero_entry false es want
        ≡ only (keep (λ e. match_any_field to_lower equal_fold e want) es)
  unfolding partial_from
  partial_from-only [] want h = refl
  partial_from-only (e ∷ es) want h =
      elim (Bool-cases (match_any_field to_lower equal_fold e want)) [
        | inl m ↦ rw (partial_from, m) (partial_from-hit e es want h.0)
        | inr m ↦ rw (partial_from, m) (partial_from-only es want h.1)
      ]

  -- In a registry whose slugs are not empty, Lookup of a name that is not blank answers the first entry with a slug,
  -- display name or nickname that is the name up to case, whichever of the three it is. Where there is none it answers the entry of which
  -- a name contains the name, or is contained in it, if there is exactly one, and nothing otherwise.
  pub lookup-first_or_only :
      (es : List Entry) (name : Text)
      → All (λ e. is_empty e.slug ≡ false) es
      → is_empty (wanted to_lower equal_fold name) ≡ false
      → lookup to_lower equal_fold es name
        ≡ or_else
            (first
              (keep (λ e. is_exact to_lower equal_fold e (wanted to_lower equal_fold name)) es))
            (only (
              keep
                (λ e. match_any_field to_lower equal_fold e (wanted to_lower equal_fold name))
                es))
  unfolding lookup
  lookup-first_or_only es name slugs given =
      let want = wanted to_lower equal_fold name in
      let exact = keep (λ e. is_exact to_lower equal_fold e want) es in
      elim (Option-cases (first exact)) [
        | inl none_exact ↦
            rw (given, first_exact-first es want, none_exact) (partial_from-only es want slugs)
        | inr (e, found) ↦ rw (given, first_exact-first es want, found) refl
      ]
