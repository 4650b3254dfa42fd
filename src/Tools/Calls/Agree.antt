-- ===== src/Tools/Calls/Agree.antt =====
-- A directive does to the files what the call of the tool does.
use narrative_ai_agent.Prelude.{
  ◌≡◌, refl, sym, ap, ◌∙◌, subst, Bool, true, false, Bool-cases, inl, inr, List, [], ◌∷◌, ◌++◌, All,
  Option, none, some, Result, ok, err, arith,
}
use narrative_ai_agent.Prelude.Text.{
  Text, lit, trim_space, text_eq, text_eq_iff, contains_text, atoi_or_nearest,
}
use narrative_ai_agent.Prelude.Int.{ℤ}
use narrative_ai_agent.Directives.{Args, arg, get, or_blank}
use narrative_ai_agent.Tools.Character.{
  Call, append_soul_tool, append_skill_tool, append_memory_tool, remove_inventory_item,
  set_currency_tool, remove_currency_tool,
}
use narrative_ai_agent.Tools.Calls.{
  Value, int_value, text_value, other_value, Fields, field, to_text, to_int, Refusal, World, Do,
  done, refuse, ◌>>=◌, ◌>>◌, go_on, needs, is_full, Backend,
}
use narrative_ai_agent.Tools.Calls.People.{
  call_append, call_named, call_set_currency, with_character, appended, named_answer,
}
use narrative_ai_agent.Tools.Calls.Dispatch.{dispatch_named, handled, handlers}
use narrative_ai_agent.Tools.Calls.Directives.{
  append_directive, named_directive, set_currency_directive, run_directive, directive_handlers,
}

-- The arguments of a directive as those of a call.
unfoldable pub as_fields : Args → Fields
as_fields [] = []
as_fields ((k, v) ∷ args) = (k, text_value v) ∷ as_fields args

abbrev shown : Option Text → Value
shown none = other_value
shown (some t) = text_value t

field-as_fields : (key : Text) (args : Args) → field key (as_fields args) ≡ shown (get key args)
unfolding field as_fields get
field-as_fields key [] = refl
field-as_fields key ((k, v) ∷ args) = elim (Bool-cases (text_eq k key)) [
  | inl this ↦ rw this refl
  | inr other ↦ rw other (field-as_fields key args)
]

to_text-field : (key : Text) (args : Args) → to_text (field key (as_fields args)) ≡ arg key args
to_text-field key args = ap to_text (field-as_fields key args) ∙ to_text-shown (get key args)
  where
    to_text-shown : (r : Option Text) → to_text (shown r) ≡ or_blank r
    to_text-shown none = refl
    to_text-shown (some t) = refl

to_int-shown : (r : Option Text) → to_int (shown r) ≡ atoi_or_nearest (or_blank r)
unfolding to_int atoi_or_nearest
to_int-shown none = refl
to_int-shown (some t) = refl

to_int-field :
    (key : Text) (args : Args)
    → to_int (field key (as_fields args)) ≡ atoi_or_nearest (arg key args)
to_int-field key args = ap to_int (field-as_fields key args) ∙ to_int-shown (get key args)

-- A call behind two guards, and one behind one, with what they answer.
abbrev guarded : {A : Type 0} → Bool → Text → Do Bool → A → Do A
guarded there what m a = needs there what >> (m >> done a)

abbrev twice_guarded : {A : Type 0} → Bool → Bool → Text → Text → Do Bool → A → Do A
twice_guarded first second what what' m a = needs first what >> guarded second what' m a

go_on-Alike :
    {A B : Type 0} (r : Result Refusal Bool) (a : A) (c : B) (w : World)
    → (go_on r (λ u. done a) w).1 ≡ (go_on r (λ u. done c) w).1
unfolding done
go_on-Alike (ok u) a c w = refl
go_on-Alike (err e) a c w = refl

-- Neither the errors nor the answers change what is left.
guarded-Alike :
    {A B : Type 0} (there : Bool) (what what' : Text) (m : Do Bool) (a : A) (c : B) (w : World)
    → (guarded there what m a w).1 ≡ (guarded there what' m c w).1
unfolding ◌>>=◌ needs done refuse
guarded-Alike true what what' m a c w = go_on-Alike (m w).0 a c (m w).1
guarded-Alike false what what' m a c w = refl

twice_guarded-Alike :
    {A B : Type 0} (first second : Bool) (what other what' other' : Text) (m : Do Bool) (a : A)
    (c : B) (w : World)
    → (twice_guarded first second what other m a w).1
      ≡ (twice_guarded first second what' other' m c w).1
unfolding ◌>>=◌ needs done refuse
twice_guarded-Alike true second what other what' other' m a c w =
    guarded-Alike second other other' m a c w
twice_guarded-Alike false second what other what' other' m a c w = refl

pub at_member :
    (P : Text → Type 0) (ks : List Text) (k : Text) → All P ks → contains_text ks k ≡ true → P k
at_member P [] k are found = ground (arith, found)
at_member P (x ∷ ks) k are found = elim (Bool-cases (text_eq x k)) [
  | inl this ↦ subst P ((text_eq_iff x k).0 this) are.0
  | inr other ↦ at_member P ks k are.1 (ground (arith, found, other))
]

module _ (b : Backend) where
  append-Alike :
      (name file missing : Text) (act : Text → Text → Text → Call Bool) (args : Args) (w : World)
      → trim_space (arg (lit "section") args) ≡ arg (lit "section") args
      → (append_directive b name act args w).1
        ≡ (call_append b name file missing act (as_fields args) w).1
  unfolding append_directive call_append
  append-Alike name file missing act args w trimmed =
      let s = arg (lit "section") args in
      let v = arg (lit "append") args in
      let none_there = name ++ lit ": section required" in
      let none_given = name ++ lit ": append text required (no empty updates)" in
      let run =
        λ (section value : Text). with_character b (λ character. act character section value) in
      let left = λ (section : Text).
        (twice_guarded (is_full section) (is_full (trim_space v)) none_there none_given
          (run section v) tt w).1 in
      let right = λ (section value : Text).
        (twice_guarded (is_full section) (is_full (trim_space value)) none_there (name ++ missing)
          (run section value) (appended b file section) w).1 in
      ap left trimmed
      ∙ twice_guarded-Alike (is_full s) (is_full (trim_space v)) none_there none_given none_there
          (name ++ missing) (run s v) tt (appended b file s) w
      ∙ sym (
          ap (λ section. right section (to_text (field (lit "append") (as_fields args))))
            (to_text-field (lit "section") args)
          ∙ ap (right s) (to_text-field (lit "append") args))

  named-Alike :
      (tool status : Text) (more : Fields) (act : Text → Text → Call Bool) (args : Args) (w : World)
      → (named_directive b tool act args w).1
        ≡ (call_named b tool status more act (as_fields args) w).1
  unfolding named_directive call_named
  named-Alike tool status more act args w =
      let n = arg (lit "name") args in
      let missing = tool ++ lit ": name required" in
      let run = λ (name : Text). with_character b (λ character. act character name) in
      let right = λ (name : Text).
        (guarded (is_full (trim_space name)) missing (run (trim_space name))
          (named_answer b status more (trim_space name)) w).1 in
      guarded-Alike (is_full (trim_space n)) missing missing (run (trim_space n)) tt
        (named_answer b status more (trim_space n)) w
      ∙ sym (ap right (to_text-field (lit "name") args))

  currency-Alike :
      (args : Args) (w : World)
      → (set_currency_directive b args w).1 ≡ (call_set_currency b (as_fields args) w).1
  unfolding set_currency_directive call_set_currency
  currency-Alike args w =
      let call = λ (count : ℤ).
        (call_named b (lit "set_currency") (lit "recorded") ((lit "count", int_value count) ∷ [])
          (λ character name. set_currency_tool character name count) (as_fields args) w).1 in
      named-Alike (lit "set_currency") (lit "recorded")
        ((lit "count", int_value (atoi_or_nearest (arg (lit "count") args))) ∷ [])
        (λ character name.
          set_currency_tool character name (atoi_or_nearest (arg (lit "count") args)))
        args w
      ∙ sym (ap call (to_int-field (lit "count") args))

  -- The kinds of directives on the files of the character that a call of the same name takes with the same texts.
  abbrev pub shared_kinds : List Text
  shared_kinds =
      lit "update_soul"
      ∷ lit "update_skill"
      ∷ lit "update_memory"
      ∷ lit "remove_inventory_item"
      ∷ lit "set_currency"
      ∷ lit "remove_currency"
      ∷ []

  abbrev Agree : Text → Args → World → Text → Type 0
  Agree world args w kind =
      (run_directive b (directive_handlers b world) kind args w).1
      ≡ (dispatch_named b kind (ok (as_fields args)) w).1

  Agree-each :
      (world : Text) (args : Args) (w : World)
      → trim_space (arg (lit "section") args) ≡ arg (lit "section") args
      → All (Agree world args w) shared_kinds
  unfolding run_directive directive_handlers dispatch_named handled handlers text_eq
  Agree-each world args w trimmed =
      let missing = lit ": append text required" in
      (
        append-Alike (lit "update_soul") (lit "SOUL.yaml")
            (lit ": append text required (no empty updates)") append_soul_tool args w trimmed,
        (
          append-Alike (lit "update_skill") (lit "skill.yaml") missing append_skill_tool args w
              trimmed,
          (
            append-Alike (lit "update_memory") (lit "memory.yaml") missing append_memory_tool args w
                trimmed,
            (
              named-Alike (lit "remove_inventory_item") (lit "removed") [] remove_inventory_item
                  args w,
              (
                currency-Alike args w,
                (
                  named-Alike (lit "remove_currency") (lit "removed") [] remove_currency_tool args
                      w,
                  tt,
                ),
              ),
            ),
          ),
        ),
      )

  -- A directive leaves the same files, chats and searches as the call of the tool of that name with the same arguments, an
  -- error included, for the six tools on the files of a character that take texts, where the name of the section has no
  -- blanks around it.
  pub run_directive-dispatch_named :
      (world kind : Text) (args : Args) (w : World)
      → contains_text shared_kinds kind ≡ true
      → trim_space (arg (lit "section") args) ≡ arg (lit "section") args
      → (run_directive b (directive_handlers b world) kind args w).1
        ≡ (dispatch_named b kind (ok (as_fields args)) w).1
  run_directive-dispatch_named world kind args w shared trimmed =
      at_member (Agree world args w) shared_kinds kind (Agree-each world args w trimmed) shared
