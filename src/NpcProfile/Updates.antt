-- ===== src/NpcProfile/Updates.antt =====
-- Updates of a profile: repeating one changes nothing, and nothing that a list holds is lost.
use narrative_ai_agent.Prelude.{
  ℕ, zero, suc, ◌+◌, ◌≤◌, ◌≡◌, refl, ap, ◌∙◌, Bool, true, false, ◌||◌, List, [], ◌∷◌, ◌++◌, any,
  map, length, length-append, take, arith, Bool-cases, inl, inr,
}
use narrative_ai_agent.Prelude.Text.{
  Text, lit, is_empty, trim_space, trim_space-trim_space, text_eq, text_eq_refl, contains_text,
}
use narrative_ai_agent.NpcProfile.{
  Relation, Profile, SectionKind, unknown_section, temperament_section, relations_gg_section,
  relations_npcs_section, abilities_section, personal_memory_section, current_status_section,
  critical_knowledge_section, nicknames_section, last_update_section, split_relation_text,
  append_unique, replace_scalar, append_memory, fold_key, put_relation, update_relation,
  update_trimmed, update_section, truncate_rune,
}

contains_text-append : (field : List Text) (t : Text) → contains_text (field ++ (t ∷ [])) t ≡ true
contains_text-append [] t = rw (text_eq_refl t) refl
contains_text-append (x ∷ xs) t = ground (arith, contains_text-append xs t)

replace_scalar-again :
    (old text : Text)
    → let new = (replace_scalar old text).1 in replace_scalar new text ≡ (false, new)
unfolding replace_scalar
replace_scalar-again old text = ground (arith, text_eq_refl text)

append_unique-again :
    (field : List Text) (text : Text)
    → let field' = (append_unique field text).1 in append_unique field' text ≡ (false, field')
unfolding append_unique
append_unique-again field text = ground (arith, contains_text-append field (trim_space text))

module _ (to_lower : ℕ → ℕ) where
  abbrev is_remembered : Text → List Text → Bool
  is_remembered text memory =
      any (λ existing. text_eq (fold_key to_lower existing) (map to_lower text)) memory

  is_remembered-append :
      (memory : List Text) (text : Text)
      → trim_space text ≡ text
      → is_remembered text (memory ++ (text ∷ [])) ≡ true
  unfolding fold_key
  is_remembered-append [] text trimmed = rw (trimmed, text_eq_refl (map to_lower text)) refl
  is_remembered-append (m ∷ ms) text trimmed =
      ap (◌||◌ (text_eq (fold_key to_lower m) (map to_lower text)))
        (is_remembered-append ms text trimmed)
      ∙ or_true (text_eq (fold_key to_lower m) (map to_lower text))
    where
      or_true : (b : Bool) → b || true ≡ true
      or_true true = refl
      or_true false = refl

  append_memory-again :
      (memory : List Text) (text : Text)
      → trim_space text ≡ text
      → let memory' = (append_memory to_lower memory text).1 in
        append_memory to_lower memory' text ≡ (false, memory')
  unfolding append_memory
  append_memory-again memory text trimmed = ground (arith, is_remembered-append memory text trimmed)

  put_relation-again :
      (target note : Text) (rs : List Relation)
      → let rs' = (put_relation to_lower target note rs).1 in
        put_relation to_lower target note rs' ≡ (false, rs')
  unfolding put_relation
  put_relation-again target note [] =
      ground (arith, text_eq_refl (fold_key to_lower target), text_eq_refl note)
  put_relation-again target note (r ∷ rs) =
      ground (arith, text_eq_refl note, put_relation-again target note rs)

  update_relation-again :
      (relations : List Relation) (text : Text)
      → let relations' = (update_relation to_lower relations text).1 in
        update_relation to_lower relations' text ≡ (false, relations')
  unfolding update_relation
  update_relation-again relations text =
      let (target, note) = split_relation_text text in
      elim (Bool-cases (is_empty text || is_empty (split_relation_text text).0)) [
        | inl nothing ↦ rw nothing refl
        | inr something ↦ rw something (put_relation-again target note relations)
      ]

  -- An update of a section, whatever the section and the text, answers false when it is repeated, and changes nothing
  -- then.
  pub update_section-again :
      (kind : SectionKind) (text : Text) (p : Profile)
      → let p' = (update_section to_lower kind text p).1 in
        update_section to_lower kind text p' ≡ (false, p')
  unfolding update_section update_trimmed
  update_section-again temperament_section text p =
      ap (λ r. (r.0, record p { temperament = r.1 }))
        (replace_scalar-again p.temperament (trim_space text))
  update_section-again relations_gg_section text p =
      ap (λ r. (r.0, record p { relations_gg = r.1 }))
        (replace_scalar-again p.relations_gg (trim_space text))
  update_section-again current_status_section text p =
      ap (λ r. (r.0, record p { current_status = r.1 }))
        (replace_scalar-again p.current_status (trim_space text))
  update_section-again last_update_section text p =
      ap (λ r. (r.0, record p { last_update = r.1 }))
        (replace_scalar-again p.last_update (trim_space text))
  update_section-again abilities_section text p =
      ap (λ r. (r.0, record p { abilities = r.1 }))
        (append_unique-again p.abilities (trim_space text))
  update_section-again critical_knowledge_section text p =
      ap (λ r. (r.0, record p { critical_knowledge = r.1 }))
        (append_unique-again p.critical_knowledge (trim_space text))
  update_section-again nicknames_section text p =
      ap (λ r. (r.0, record p { nicknames = r.1 }))
        (append_unique-again p.nicknames (trim_space text))
  update_section-again personal_memory_section text p =
      ap (λ r. (r.0, record p { personal_memory = r.1 }))
        (append_memory-again p.personal_memory (trim_space text) (trim_space-trim_space text))
  update_section-again relations_npcs_section text p =
      ap (λ r. (r.0, record p { relations_npcs = r.1 }))
        (update_relation-again p.relations_npcs (trim_space text))
  update_section-again unknown_section text p = refl

length-take : {A : Type 0} (n : ℕ) (xs : List A) → length (take n xs) ≤ n
length-take zero xs = omega arith
length-take (suc n) [] = omega arith
length-take (suc n) (x ∷ xs) = omega (arith, length-take n xs)

-- truncateRune gives at most one rune more than the limit.
truncate_rune-bounded :
    (s : Text) (max_runes : ℕ) → length (truncate_rune s max_runes) ≤ max_runes + 1
unfolding truncate_rune
truncate_rune-bounded s max_runes =
    ground (arith, length-take max_runes s, length-append (take max_runes s) (lit "…"))
