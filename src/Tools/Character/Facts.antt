-- ===== src/Tools/Character/Facts.antt =====
-- No call on the files of a character loses a fact.
use narrative_ai_agent.Prelude.{
  ◌≡◌, refl, sym, ap, ◌∙◌, subst, Bool, true, false, if◌then◌else◌, Option, none, some, List,
  Result, ok, err, Bool-cases, inl, inr,
}
use narrative_ai_agent.Prelude.Int.{ℤ}
use narrative_ai_agent.Prelude.Text.{
  Text, is_empty, trim_space, text_eq, contains_text, text_eq_iff,
}
use narrative_ai_agent.CharacterProfile.{
  Section, Soul, Base, append_soul, append_base, skill_fixed_sections, memory_fixed_sections,
}
use narrative_ai_agent.CharacterProfile.Growth.{Extends, Extends-refl, append_into_sections-Extends}
use narrative_ai_agent.Inventory.{Inventory, Item}
use narrative_ai_agent.Repositories.{update}
use narrative_ai_agent.Tools.Character.{
  CharacterFile, soul_file, skill_file, memory_file, inventory_file, CharacterError, CharacterFiles,
  Call, change_file, put_soul, put_skill, put_memory, put_inventory, append_soul_section,
  append_skill_section, append_memory_section, change_inventory, fail, with_section, with_name,
  append_soul_tool, append_skill_tool, append_memory_tool, append_inventory_item,
  remove_inventory_item, set_currency_tool, remove_currency_tool,
}

-- The sections of a file, where it loads and has sections.
abbrev pub sections_in : {A : Type 0} → (A → List Section) → Result Text A → Option (List Section)
sections_in sections (ok a) = some (sections a)
sections_in sections (err e) = none

abbrev pub sections_of : CharacterFile → Text → CharacterFiles → Option (List Section)
sections_of soul_file character s = sections_in (λ (a : Soul). a.sections) (s.souls character)
sections_of skill_file character s = sections_in (λ (a : Base). a.sections) (s.skills character)
sections_of memory_file character s = sections_in (λ (a : Base). a.sections) (s.memories character)
sections_of inventory_file character s = none

-- The file has these sections, with perhaps more values and more sections behind.
abbrev pub Has : CharacterFiles → CharacterFile → Text → List Section → Type 0
Has s kind character ss =
    (ss' : List Section) × (sections_of kind character s ≡ some ss') × Extends ss ss'

-- The second files have whatever sections the first ones have.
abbrev pub Grown : CharacterFiles → CharacterFiles → Type 0
Grown s t =
    (kind : CharacterFile) (character : Text) (ss : List Section)
    → sections_of kind character s ≡ some ss
    → Has t kind character ss

pub Grown-refl : (s : CharacterFiles) → Grown s s
Grown-refl s kind character ss found = (ss, found, Extends-refl ss)

some-eq : {A : Type 0} {x y : A} → some x ≡ some y → x ≡ y
some-eq h = cc

-- What a file has after a write of a value that extends what it had.
put-Has :
    {A : Type 0} (sections : A → List Section) (old : Text → Result Text A) (w : Text) (a a' : A)
    (character : Text) (ss : List Section)
    → old w ≡ ok a
    → Extends (sections a) (sections a')
    → sections_in sections (old character) ≡ some ss
    → (ss' : List Section) × (sections_in sections (update old w (ok a') character) ≡ some ss')
      × Extends ss ss'
put-Has sections old w a a' character ss loads extends found =
    elim (Bool-cases (text_eq character w)) [
      | inl here ↦
          let same : character ≡ w = (text_eq_iff character w).0 here in
          let was : some (sections a) ≡ some ss =
            ap (sections_in sections) (sym loads)
            ∙ ap (λ c. sections_in sections (old c)) (sym same)
            ∙ found in
          rw here (sections a', refl, subst (λ v. Extends v (sections a')) (some-eq was) extends)
      | inr there ↦ rw there (ss, found, Extends-refl ss)
    ]

-- The change of a file, where what it puts extends what was there.
module _ {A : Type 0} where
  change_file-Grown :
      (r : Result Text A) (change : A → Bool × A) (faulty : Bool)
      (put : A → CharacterFiles → CharacterFiles) (s : CharacterFiles)
      → ((a : A) → r ≡ ok a → Grown s (put (change a).1 s))
      → Grown s (change_file r change faulty put s).1
  unfolding change_file
  change_file-Grown (err e) change faulty put s grows = Grown-refl s
  change_file-Grown (ok a) change faulty put s grows = elim (Bool-cases (change a).0) [
    | inr same ↦ rw same (Grown-refl s)
    | inl changed ↦ elim (Bool-cases faulty) [
      | inl fails ↦ rw (changed, fails) (Grown-refl s)
      | inr writes ↦ rw (changed, writes) (grows a refl)
    ]
  ]

with_section-Grown :
    (character section value : Text) (call : Call Bool) (s : CharacterFiles)
    → Grown s (call s).1
    → Grown s (with_section character section value call s).1
unfolding with_section fail
with_section-Grown character section value call s grows = elim (Bool-cases (is_empty character)) [
  | inl e ↦ rw e (Grown-refl s)
  | inr e ↦ elim (Bool-cases (is_empty (trim_space section))) [
    | inl e' ↦ rw (e, e') (Grown-refl s)
    | inr e' ↦ elim (Bool-cases (is_empty (trim_space value))) [
      | inl e'' ↦ rw (e, e', e'') (Grown-refl s)
      | inr e'' ↦ rw (e, e', e'') grows
    ]
  ]
]

with_name-Grown :
    {A : Type 0} (character name : Text) (call : Call A) (s : CharacterFiles)
    → Grown s (call s).1
    → Grown s (with_name character name call s).1
unfolding with_name fail
with_name-Grown character name call s grows = elim (Bool-cases (is_empty character)) [
  | inl e ↦ rw e (Grown-refl s)
  | inr e ↦ elim (Bool-cases (is_empty (trim_space name))) [
    | inl e' ↦ rw (e, e') (Grown-refl s)
    | inr e' ↦ rw (e, e') grows
  ]
]

put_soul-Grown :
    (w : Text) (a a' : Soul) (s : CharacterFiles)
    → s.souls w ≡ ok a
    → Extends a.sections a'.sections
    → Grown s (put_soul w a' s)
put_soul-Grown w a a' s loads extends soul_file character ss found =
    put-Has (λ (x : Soul). x.sections) s.souls w a a' character ss loads extends found
put_soul-Grown w a a' s loads extends skill_file character ss found = (ss, found, Extends-refl ss)
put_soul-Grown w a a' s loads extends memory_file character ss found = (ss, found, Extends-refl ss)
put_soul-Grown w a a' s loads extends inventory_file character ss found =
    (ss, found, Extends-refl ss)

put_skill-Grown :
    (w : Text) (a a' : Base) (s : CharacterFiles)
    → s.skills w ≡ ok a
    → Extends a.sections a'.sections
    → Grown s (put_skill w a' s)
put_skill-Grown w a a' s loads extends skill_file character ss found =
    put-Has (λ (x : Base). x.sections) s.skills w a a' character ss loads extends found
put_skill-Grown w a a' s loads extends soul_file character ss found = (ss, found, Extends-refl ss)
put_skill-Grown w a a' s loads extends memory_file character ss found = (ss, found, Extends-refl ss)
put_skill-Grown w a a' s loads extends inventory_file character ss found =
    (ss, found, Extends-refl ss)

put_memory-Grown :
    (w : Text) (a a' : Base) (s : CharacterFiles)
    → s.memories w ≡ ok a
    → Extends a.sections a'.sections
    → Grown s (put_memory w a' s)
put_memory-Grown w a a' s loads extends memory_file character ss found =
    put-Has (λ (x : Base). x.sections) s.memories w a a' character ss loads extends found
put_memory-Grown w a a' s loads extends soul_file character ss found = (ss, found, Extends-refl ss)
put_memory-Grown w a a' s loads extends skill_file character ss found = (ss, found, Extends-refl ss)
put_memory-Grown w a a' s loads extends inventory_file character ss found =
    (ss, found, Extends-refl ss)

put_inventory-Grown :
    (w : Text) (a : Inventory) (s : CharacterFiles) → Grown s (put_inventory w a s)
put_inventory-Grown w a s soul_file character ss found = (ss, found, Extends-refl ss)
put_inventory-Grown w a s skill_file character ss found = (ss, found, Extends-refl ss)
put_inventory-Grown w a s memory_file character ss found = (ss, found, Extends-refl ss)
put_inventory-Grown w a s inventory_file character ss found = (ss, found, Extends-refl ss)

change_inventory-Grown :
    (w : Text) (change : Inventory → Bool × Inventory) (s : CharacterFiles)
    → Grown s (change_inventory w change s).1
unfolding change_inventory
change_inventory-Grown w change s =
    change_file-Grown (s.inventories w) change (s.file_fault inventory_file w) (put_inventory w) s
      (λ a loads. put_inventory-Grown w (change a).1 s)

append_soul_section-Grown :
    (w section value : Text) (s : CharacterFiles)
    → Grown s (append_soul_section w section value s).1
unfolding append_soul_section
append_soul_section-Grown w section value s =
    change_file-Grown (s.souls w) (append_soul section value) (s.file_fault soul_file w)
      (put_soul w) s
      (λ a loads.
        put_soul-Grown w a (append_soul section value a).1 s loads
          (append_into_sections-Extends false section value a.sections))

append_skill_section-Grown :
    (w section value : Text) (s : CharacterFiles)
    → Grown s (append_skill_section w section value s).1
unfolding append_skill_section
append_skill_section-Grown w section value s =
    change_file-Grown (s.skills w) (append_base section value) (s.file_fault skill_file w)
      (put_skill w) s
      (λ a loads.
        put_skill-Grown w a (append_base section value a).1 s loads
          (append_into_sections-Extends true section value a.sections))

append_memory_section-Grown :
    (w section value : Text) (s : CharacterFiles)
    → Grown s (append_memory_section w section value s).1
unfolding append_memory_section
append_memory_section-Grown w section value s =
    change_file-Grown (s.memories w) (append_base section value) (s.file_fault memory_file w)
      (put_memory w) s
      (λ a loads.
        put_memory-Grown w a (append_base section value a).1 s loads
          (append_into_sections-Extends true section value a.sections))

if_listed-Grown :
    (test : Bool) (call : Call Bool) (e : CharacterError) (s : CharacterFiles)
    → Grown s (call s).1
    → Grown s ((if test then call else fail e) s).1
unfolding fail
if_listed-Grown true call e s grows = grows
if_listed-Grown false call e s grows = Grown-refl s

-- A call of a tool on the files of a character.
pub data CharacterCall : Type 0 where
  soul_call : Text → Text → Text → CharacterCall
  skill_call : Text → Text → Text → CharacterCall
  memory_call : Text → Text → Text → CharacterCall
  item_call : Text → Item → CharacterCall
  drop_item_call : Text → Text → CharacterCall
  currency_call : Text → Text → ℤ → CharacterCall
  drop_currency_call : Text → Text → CharacterCall

unfoldable pub run_character_call : CharacterCall → Call Bool
run_character_call (soul_call w section value) = append_soul_tool w section value
run_character_call (skill_call w section value) = append_skill_tool w section value
run_character_call (memory_call w section value) = append_memory_tool w section value
run_character_call (item_call w item) = append_inventory_item w item
run_character_call (drop_item_call w name) = remove_inventory_item w name
run_character_call (currency_call w name count) = set_currency_tool w name count
run_character_call (drop_currency_call w name) = remove_currency_tool w name

pub run_character_call-Grown :
    (call : CharacterCall) (s : CharacterFiles) → Grown s (run_character_call call s).1
unfolding run_character_call append_soul_tool append_skill_tool append_memory_tool
    append_inventory_item remove_inventory_item set_currency_tool remove_currency_tool
run_character_call-Grown (soul_call w section value) s =
    with_section-Grown w section value _ s (append_soul_section-Grown w section value s)
run_character_call-Grown (skill_call w section value) s = with_section-Grown w section value _ s (
    if_listed-Grown (contains_text skill_fixed_sections section) _ _ s
      (append_skill_section-Grown w section value s))
run_character_call-Grown (memory_call w section value) s = with_section-Grown w section value _ s (
    if_listed-Grown (contains_text memory_fixed_sections section) _ _ s
      (append_memory_section-Grown w section value s))
run_character_call-Grown (item_call w item) s =
    with_name-Grown w item.name _ s (change_inventory-Grown w _ s)
run_character_call-Grown (drop_item_call w name) s =
    with_name-Grown w name _ s (change_inventory-Grown w _ s)
run_character_call-Grown (currency_call w name count) s =
    with_name-Grown w name _ s (change_inventory-Grown w _ s)
run_character_call-Grown (drop_currency_call w name) s =
    with_name-Grown w name _ s (change_inventory-Grown w _ s)
