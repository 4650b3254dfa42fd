-- ===== src/Tools/Maintain/Shrinks.antt =====
-- What the maintenance of the NPCs does to their profiles.
use narrative_ai_agent.Prelude.{
  ◌≤◌, ◌<◌, ltb, leb, ◌≡◌, refl, sym, subst, ap, ◌∙◌, ◌⊎◌, Option, none, some, List, [], ◌∷◌,
  length, Result, ok, err, arith, Bool-cases, inl, inr,
}
use narrative_ai_agent.Prelude.Text.{Text, text_eq, text_eq_iff}
use narrative_ai_agent.NpcProfile.{Profile}
use narrative_ai_agent.Tools.Npc.{NpcFiles, NpcError, load_profile, save_profile}
use narrative_ai_agent.Tools.Maintain.{
  Maintenance, MaintainError, npc_personal_memory_limit, condensed, written, write_condensed,
  maintain_loaded, maintain_one, maintain_all, maintain_listed, maintain_npcs,
}

-- A profile with the limit of memories or more, and one with fewer of them.
pub record Condensed (before after : Result Text (Option Profile)) : Type 0 where
  pub old : Profile
  pub new : Profile
  pub was : before ≡ ok (some old)
  pub is : after ≡ ok (some new)
  pub full : npc_personal_memory_limit ≤ length old.personal_memory
  pub fewer : length new.personal_memory < length old.personal_memory

abbrev pub Shrunk : NpcFiles → NpcFiles → Type 0
Shrunk s t =
    (world slug : Text)
    → (t.profiles world slug ≡ s.profiles world slug)
      ⊎ Condensed (s.profiles world slug) (t.profiles world slug)

Shrunk-refl : (s : NpcFiles) → Shrunk s s
Shrunk-refl s world slug = inl refl

Condensed-trans :
    {a b c : Result Text (Option Profile)} → Condensed a b → Condensed b c → Condensed a c
Condensed-trans first second =
    let same : first.new ≡ second.old = ground (arith, first.is, second.was) in
    record {
      old = first.old;
      new = second.new;
      was = first.was;
      is = second.is;
      full = first.full;
      fewer =
          let shorter : length second.new.personal_memory < length first.new.personal_memory =
            subst (λ p. length second.new.personal_memory < length p.personal_memory) (sym same)
              second.fewer in
          omega (arith, first.fewer, shorter);
    }

Shrunk-trans : (s t u : NpcFiles) → Shrunk s t → Shrunk t u → Shrunk s u
Shrunk-trans s t u first second world slug = elim (first world slug) [
  | inl same ↦ elim (second world slug) [
    | inl same' ↦ inl (same' ∙ same)
    | inr shrunk ↦ inr (subst (λ r. Condensed r (u.profiles world slug)) same shrunk)
  ]
  | inr shrunk ↦ elim (second world slug) [
    | inl same' ↦ inr (subst (λ r. Condensed (s.profiles world slug) r) (sym same') shrunk)
    | inr shrunk' ↦ inr (Condensed-trans shrunk shrunk')
  ]
]

-- A shorter profile is written over a full one.
save_profile-Shrunk :
    (w sl : Text) (p q : Profile) (s : NpcFiles)
    → s.profiles w sl ≡ ok (some p)
    → npc_personal_memory_limit ≤ length p.personal_memory
    → length q.personal_memory < length p.personal_memory
    → Shrunk s (save_profile w sl q s).1
unfolding save_profile
save_profile-Shrunk w sl p q s holds full fewer world slug =
    elim (Bool-cases (s.profile_fault w sl)) [
      | inl faulty ↦ rw faulty (inl refl)
      | inr writes ↦ elim (Bool-cases (text_eq world w)) [
        | inr elsewhere ↦ rw (writes, elsewhere) (inl refl)
        | inl here ↦ elim (Bool-cases (text_eq slug sl)) [
          | inr other ↦
              rw (writes, here, other)
                (inl (ap (λ v. s.profiles v slug) (sym ((text_eq_iff world w).0 here))))
          | inl this ↦
              let was =
                ap (λ v. s.profiles v slug) ((text_eq_iff world w).0 here)
                ∙ ap (s.profiles w) ((text_eq_iff slug sl).0 this)
                ∙ holds in
              rw (writes, here, this)
                (inr
                  (record { old = p; new = q; was = was; is = refl; full = full; fewer = fewer }))
        ]
      ]
    ]

module _ (m : Maintenance) where
  written-files : (r : Result NpcError (Unit {0}) × NpcFiles) → (written m r).1 ≡ r.1
  written-files (err e, t) = refl
  written-files (ok u, t) = refl

  write_condensed-Shrunk :
      (w sl : Text) (p : Profile) (r : Result MaintainError (Option Profile)) (s : NpcFiles)
      → s.profiles w sl ≡ ok (some p)
      → npc_personal_memory_limit ≤ length p.personal_memory
      → Shrunk s (write_condensed m w sl p r s).1
  unfolding write_condensed
  write_condensed-Shrunk w sl p (err e) s holds full = Shrunk-refl s
  write_condensed-Shrunk w sl p (ok none) s holds full = Shrunk-refl s
  write_condensed-Shrunk w sl p (ok (some q)) s holds full =
      elim (Bool-cases (leb (length p.personal_memory) (length q.personal_memory))) [
        | inl more ↦ rw more (Shrunk-refl s)
        | inr fewer ↦ rw fewer (
            subst (λ t. Shrunk s t) (sym (written-files (save_profile w sl q s)))
              (save_profile-Shrunk w sl p q s holds full (ground arith)))
      ]

  maintain_loaded-Shrunk :
      (w sl : Text) (found : Result NpcError Profile) (s : NpcFiles)
      → load_profile w sl s ≡ found
      → Shrunk s (maintain_loaded m w sl found s).1
  unfolding maintain_loaded load_profile
  maintain_loaded-Shrunk w sl (err e) s look = Shrunk-refl s
  maintain_loaded-Shrunk w sl (ok p) s look =
      elim (Bool-cases (ltb (length p.personal_memory) npc_personal_memory_limit)) [
        | inl few ↦ rw few (Shrunk-refl s)
        | inr many ↦
            rw many
              (write_condensed-Shrunk w sl p (condensed m w p) s (ground arith) (ground arith))
      ]

  maintain_all-Shrunk :
      (w : Text) (slugs : List Text) (s : NpcFiles) → Shrunk s (maintain_all m w slugs s).1
  unfolding maintain_all maintain_one
  maintain_all-Shrunk w [] s = Shrunk-refl s
  maintain_all-Shrunk w (slug ∷ slugs) s =
      let t = (maintain_one m w slug s).1 in
      Shrunk-trans s t (maintain_all m w slugs t).1
        (maintain_loaded-Shrunk w slug (load_profile w slug s) s refl)
        (maintain_all-Shrunk w slugs t)

  maintain_listed-Shrunk :
      (w : Text) (r : Result MaintainError (List Text)) (s : NpcFiles)
      → Shrunk s (maintain_listed m w r s).1
  unfolding maintain_listed
  maintain_listed-Shrunk w (err e) s = Shrunk-refl s
  maintain_listed-Shrunk w (ok slugs) s = maintain_all-Shrunk w slugs s

  -- The maintenance of the NPCs of a world leaves each profile as it is, or it puts one with fewer memories in the place
  -- of one that had 25 of them or more. It neither adds nor removes a profile, whatever the model answers.
  pub maintain_npcs-Shrunk : (world : Text) (s : NpcFiles) → Shrunk s (maintain_npcs m world s).1
  unfolding maintain_npcs
  maintain_npcs-Shrunk world s = maintain_listed-Shrunk world _ s
