-- ===== src/Tools/Npc/Memory.antt =====
-- What no call of the NPC tool loses.
use narrative_ai_agent.Prelude.{
  ℕ, ◌≡◌, refl, sym, subst, ap, ◌∙◌, Bool, true, false, ◌||◌, Option, none, some, List, [], ◌∷◌,
  ◌++◌, append-nil, append_assoc, any, map, Result, ok, err, arith, Bool-cases, inl, inr,
}
use narrative_ai_agent.Prelude.Text.{
  Text, is_empty, trim_space, text_eq, text_eq_iff, contains_text,
}
use narrative_ai_agent.NpcProfile.{
  Profile, SectionKind, unknown_section, temperament_section, relations_gg_section,
  relations_npcs_section, abilities_section, personal_memory_section, current_status_section,
  critical_knowledge_section, nicknames_section, last_update_section, match_section, append_unique,
  append_memory, fold_key, update_trimmed, update_section,
}
use narrative_ai_agent.WorldRegistry.{Entry}
use narrative_ai_agent.Tools.Npc.{
  NewProfile, NpcFiles, enlist_saved, profile_of, load_profile, save_profile, save_roster, enlist,
  create_new, create_npc, create_found, NpcError, update_loaded, update_resolved, save_if,
  is_unknown, update_profile, update_npc, resolve_slug, file_slug_of,
}

-- The first list is the front of the second.
pub record Starts (xs ys : List Text) : Type 0 where
  pub rest : List Text
  pub split : ys ≡ xs ++ rest

Starts-refl : (xs : List Text) → Starts xs xs
Starts-refl xs = record { rest = []; split = sym (append-nil xs) }

Starts-snoc : (xs : List Text) (t : Text) → Starts xs (xs ++ (t ∷ []))
Starts-snoc xs t = record { rest = t ∷ []; split = refl }

Starts-trans : {xs ys zs : List Text} → Starts xs ys → Starts ys zs → Starts xs zs
Starts-trans {xs} first second = record {
  rest = first.rest ++ second.rest;
  split =
      second.split
      ∙ ap (λ v. v ++ second.rest) first.split
      ∙ append_assoc xs first.rest second.rest;
}

-- The same NPC, and the four lists of what it can do, what it remembers, what it knows and how it is called, with perhaps
-- more behind.
abbrev pub Grows : Profile → Profile → Type 0
Grows p p' =
    (p'.display_name ≡ p.display_name)
    × (p'.file_slug ≡ p.file_slug)
    × Starts p.abilities p'.abilities
    × Starts p.personal_memory p'.personal_memory
    × Starts p.critical_knowledge p'.critical_knowledge
    × Starts p.nicknames p'.nicknames

pub Grows-refl : (p : Profile) → Grows p p
Grows-refl p = (refl, refl, Starts-refl _, Starts-refl _, Starts-refl _, Starts-refl _)

pub Grows-trans : (p q r : Profile) → Grows p q → Grows q r → Grows p r
Grows-trans p q r (name, slug, abilities, memory, knowledge, nicknames)
      (name', slug', abilities', memory', knowledge', nicknames') =
    (
      name' ∙ name,
      slug' ∙ slug,
      Starts-trans abilities abilities',
      Starts-trans memory memory',
      Starts-trans knowledge knowledge',
      Starts-trans nicknames nicknames',
    )

append_unique-Starts : (field : List Text) (text : Text) → Starts field (append_unique field text).1
unfolding append_unique
append_unique-Starts field text =
    elim (Bool-cases (is_empty (trim_space text) || contains_text field (trim_space text))) [
      | inl known ↦ rw known (Starts-refl field)
      | inr new ↦ rw new (Starts-snoc field (trim_space text))
    ]

module _ (to_lower : ℕ → ℕ) where
  append_memory-Starts :
      (memory : List Text) (text : Text) → Starts memory (append_memory to_lower memory text).1
  unfolding append_memory
  append_memory-Starts memory text =
      elim (Bool-cases
        (is_empty text || any (λ m. text_eq (fold_key to_lower m) (map to_lower text)) memory)) [
          | inl known ↦ rw known (Starts-refl memory)
          | inr new ↦ rw new (Starts-snoc memory text)
        ]

  update_trimmed-Grows :
      (kind : SectionKind) (text : Text) (p : Profile)
      → Grows p (update_trimmed to_lower kind text p).1
  unfolding update_trimmed
  update_trimmed-Grows temperament_section text p = Grows-refl p
  update_trimmed-Grows relations_gg_section text p = Grows-refl p
  update_trimmed-Grows current_status_section text p = Grows-refl p
  update_trimmed-Grows last_update_section text p = Grows-refl p
  update_trimmed-Grows relations_npcs_section text p = Grows-refl p
  update_trimmed-Grows unknown_section text p = Grows-refl p
  update_trimmed-Grows abilities_section text p = (
    refl,
    refl,
    append_unique-Starts p.abilities text,
    Starts-refl _,
    Starts-refl _,
    Starts-refl _,
  )
  update_trimmed-Grows personal_memory_section text p = (
    refl,
    refl,
    Starts-refl _,
    append_memory-Starts p.personal_memory text,
    Starts-refl _,
    Starts-refl _,
  )
  update_trimmed-Grows critical_knowledge_section text p = (
    refl,
    refl,
    Starts-refl _,
    Starts-refl _,
    append_unique-Starts p.critical_knowledge text,
    Starts-refl _,
  )
  update_trimmed-Grows nicknames_section text p = (
    refl,
    refl,
    Starts-refl _,
    Starts-refl _,
    Starts-refl _,
    append_unique-Starts p.nicknames text,
  )

-- The file holds a profile that has grown from this one.
abbrev pub Kept : NpcFiles → Text → Text → Profile → Type 0
Kept s world slug p = (p' : Profile) × (s.profiles world slug ≡ ok (some p')) × Grows p p'

-- A profile that is written over none, or over one that it grows from, keeps every profile.
save_profile-Kept :
    (w sl : Text) (new : Profile) (s : NpcFiles) (world slug : Text) (p : Profile)
    → s.profiles world slug ≡ ok (some p)
    → ((old : Profile) → s.profiles w sl ≡ ok (some old) → Grows old new)
    → Kept (save_profile w sl new s).1 world slug p
unfolding save_profile
save_profile-Kept w sl new s world slug p holds grows = elim (Bool-cases (s.profile_fault w sl)) [
  | inl faulty ↦ rw faulty (p, holds, Grows-refl p)
  | inr writes ↦ elim (Bool-cases (text_eq world w)) [
    | inr elsewhere ↦ rw (writes, elsewhere) (p, holds, Grows-refl p)
    | inl here ↦
        let same_world : world ≡ w = (text_eq_iff world w).0 here in
        elim (Bool-cases (text_eq slug sl)) [
          | inr other ↦
              rw (writes, here, other)
                (p, ap (λ v. s.profiles v slug) (sym same_world) ∙ holds, Grows-refl p)
          | inl this ↦
              let same_slug : slug ≡ sl = (text_eq_iff slug sl).0 this in
              let old =
                ap (λ v. s.profiles v sl) (sym same_world)
                ∙ ap (s.profiles world) (sym same_slug)
                ∙ holds in
              rw (writes, here, this) (new, refl, grows p old)
        ]
  ]
]

-- A call of a tool that changes the files.
pub data NpcCall : Type 0 where
  create_call : Text → NewProfile → NpcCall
  update_call : Text → Text → Text → Text → NpcCall

module _ (to_lower : ℕ → ℕ) (equal_fold : Text → Text → Bool)
    (unmarshal : Text → Result Text (List Entry)) (marshal : List Entry → Result Text Text)
    (fs_wired : Bool) where
  enlist_saved-profiles :
      (world slug : Text) (p : Profile) (r : Result NpcError (Unit {0})) (t : NpcFiles)
      → (enlist_saved to_lower equal_fold unmarshal marshal fs_wired world slug p (r, t)).1.profiles
        ≡ t.profiles
  unfolding enlist_saved enlist save_roster
  enlist_saved-profiles world slug p (err e) t = refl
  enlist_saved-profiles world slug p (ok u) t = ground arith

  create_new-Kept :
      (w sl : Text) (new : NewProfile) (s : NpcFiles) (world slug : Text) (p : Profile)
      → s.profiles w sl ≡ ok none
      → s.profiles world slug ≡ ok (some p)
      → Kept (create_new to_lower equal_fold unmarshal marshal fs_wired w sl new s).1 world slug p
  unfolding create_new
  create_new-Kept w sl new s world slug p missing holds =
      let made = profile_of sl new in
      let saved = save_profile-Kept w sl made s world slug p holds (λ old there. ground arith) in
      let (r, t) = save_profile w sl made s in
      subst (λ f. (p' : Profile) × (f world slug ≡ ok (some p')) × Grows p p')
        (sym (enlist_saved-profiles w sl made r t)) saved

  create_found-Kept :
      (w sl : Text) (new : NewProfile) (found : Result Text (Option Profile)) (s : NpcFiles)
      (world slug : Text) (p : Profile)
      → s.profiles w sl ≡ found
      → s.profiles world slug ≡ ok (some p)
      → Kept
          (create_found to_lower equal_fold unmarshal marshal fs_wired w sl new found s).1
          world
          slug
          p
  unfolding create_found
  create_found-Kept w sl new (err e) s world slug p look holds = (p, holds, Grows-refl p)
  create_found-Kept w sl new (ok (some old)) s world slug p look holds = (p, holds, Grows-refl p)
  create_found-Kept w sl new (ok none) s world slug p look holds =
      create_new-Kept w sl new s world slug p look holds

  save_if-Kept :
      (w sl : Text) (changed : Bool) (new : Profile) (s : NpcFiles) (world slug : Text)
      (p : Profile)
      → s.profiles world slug ≡ ok (some p)
      → ((old : Profile) → s.profiles w sl ≡ ok (some old) → Grows old new)
      → Kept
          (save_if to_lower equal_fold unmarshal marshal fs_wired w sl (changed, new) s).1
          world
          slug
          p
  unfolding save_if
  save_if-Kept w sl true new s world slug p holds grows =
      save_profile-Kept w sl new s world slug p holds grows
  save_if-Kept w sl false new s world slug p holds grows = (p, holds, Grows-refl p)

  update_loaded-Kept :
      (w sl section text : Text) (found : Result NpcError Profile) (s : NpcFiles)
      (world slug : Text) (p : Profile)
      → load_profile w sl s ≡ found
      → s.profiles world slug ≡ ok (some p)
      → Kept
          (update_loaded to_lower equal_fold unmarshal marshal fs_wired w sl section text found s).1
          world
          slug
          p
  unfolding update_loaded update_section load_profile
  update_loaded-Kept w sl section text (err e) s world slug p look holds = (p, holds, Grows-refl p)
  update_loaded-Kept w sl section text (ok old) s world slug p look holds =
      let kind = match_section to_lower section in
      elim (Bool-cases (is_unknown to_lower equal_fold unmarshal marshal fs_wired kind)) [
        | inl unknown ↦ rw unknown (p, holds, Grows-refl p)
        | inr known ↦ rw known (
            save_if-Kept w sl (update_section to_lower kind text old).0
              (update_section to_lower kind text old).1 s world slug p holds
              (λ old' there.
                let same : old ≡ old' = ground arith in
                subst (λ o. Grows o (update_section to_lower kind text old).1) same
                  (update_trimmed-Grows to_lower kind (trim_space text) old)))
      ]

  update_resolved-Kept :
      (w : Text) (sl : Result NpcError Text) (section text : Text) (s : NpcFiles)
      (world slug : Text) (p : Profile)
      → s.profiles world slug ≡ ok (some p)
      → Kept
          (update_resolved to_lower equal_fold unmarshal marshal fs_wired w sl section text s).1
          world
          slug
          p
  unfolding update_resolved update_profile
  update_resolved-Kept w (err e) section text s world slug p holds = (p, holds, Grows-refl p)
  update_resolved-Kept w (ok sl) section text s world slug p holds =
      update_loaded-Kept w sl section text (load_profile w sl s) s world slug p refl holds

  unfoldable pub run_call : NpcCall → NpcFiles → NpcFiles
  run_call (create_call w new) s =
      (create_npc to_lower equal_fold unmarshal marshal fs_wired w new s).1
  run_call (update_call w npc section text) s =
      (update_npc to_lower equal_fold unmarshal marshal fs_wired w npc section text s).1

  pub run_call-Kept :
      (call : NpcCall) (s : NpcFiles) (world slug : Text) (p : Profile)
      → s.profiles world slug ≡ ok (some p)
      → Kept (run_call call s) world slug p
  unfolding run_call create_npc update_npc
  run_call-Kept (create_call w new) s world slug p holds =
      let sl = file_slug_of to_lower equal_fold unmarshal marshal fs_wired new.display_name in
      create_found-Kept w sl new (s.profiles w sl) s world slug p refl holds
  run_call-Kept (update_call w npc section text) s world slug p holds =
      update_resolved-Kept w (resolve_slug to_lower equal_fold unmarshal marshal fs_wired w npc s)
        section text s world slug p holds
