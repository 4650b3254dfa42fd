-- ===== src/Conversation/History.antt =====
-- Where the history is cut for a second answer.
use narrative_ai_agent.Prelude.{
  ◌≡◌, refl, ap, ◌∙◌, suc, Bool, true, false, none, some, List, [], ◌∷◌, ◌++◌, length, take, All,
  Bool-cases, inl, inr, ◌⊎◌,
}
use narrative_ai_agent.Prelude.Text.{Text}
use narrative_ai_agent.Conversation.{
  Message, is_turn_start, last_index, trim_trailing_assistant, set_content,
}

-- No message of the list passes the test.
abbrev pub NonePass : (Message → Bool) → List Message → Type 0
NonePass p ms = All (λ m. p m ≡ false) ms

last_index-none : (p : Message → Bool) (ms : List Message) → NonePass p ms → last_index p ms ≡ none
unfolding last_index
last_index-none p [] h = refl
last_index-none p (m ∷ ms) h = rw (last_index-none p ms h.1, h.0) refl

pub last_index-append :
    (p : Message → Bool) (front : List Message) (m : Message) (back : List Message)
    → p m ≡ true
    → NonePass p back
    → last_index p (front ++ (m ∷ back)) ≡ some (length front)
unfolding last_index
last_index-append p [] m back hit h = rw (last_index-none p back h, hit) refl
last_index-append p (x ∷ front) m back hit h = rw (last_index-append p front m back hit h) refl

pub take-append_cons :
    (front : List Message) (m : Message) (back : List Message)
    → take (suc (length front)) (front ++ (m ∷ back)) ≡ front ++ (m ∷ [])
take-append_cons [] m back = refl
take-append_cons (x ∷ front) m back = ap (◌∷◌ x) (take-append_cons front m back)

pub set_content-append :
    (front : List Message) (m : Message) (body : Text)
    → set_content (length front) body (front ++ (m ∷ []))
      ≡ front ++ (record m { content = body } ∷ [])
set_content-append [] m body = refl
set_content-append (x ∷ front) m body = ap (◌∷◌ x) (set_content-append front m body)

-- A history that goes on after its last turn start is cut behind that message.
pub trim_trailing_assistant-append :
    (front : List Message) (m : Message) (back : List Message)
    → is_turn_start m ≡ true
    → NonePass is_turn_start back
    → trim_trailing_assistant (front ++ (m ∷ back)) ≡ front ++ (m ∷ [])
unfolding trim_trailing_assistant
trim_trailing_assistant-append front m back hit h =
    rw (trim_trailing_assistant, last_index-append is_turn_start front m back hit h)
      (take-append_cons front m back)

last_index-split :
    (p : Message → Bool) (ms : List Message)
    → (NonePass p ms × (last_index p ms ≡ none))
      ⊎ ((front : List Message) × (m : Message) × (back : List Message) × (ms ≡ front ++ (m ∷ back))
          × (p m ≡ true)
          × NonePass p back)
unfolding last_index
last_index-split p [] = inl (tt, refl)
last_index-split p (x ∷ ms) = elim (last_index-split p ms) [
  | inr (front, m, back, e, hit, rest) ↦ inr (x ∷ front, m, back, ap (◌∷◌ x) e, hit, rest)
  | inl (rest, e) ↦ elim (Bool-cases (p x)) [
    | inl hit ↦ inr ([], x, ms, refl, hit, rest)
    | inr miss ↦ inl ((miss, rest), rw (e, miss) refl)
  ]
]

-- `trimTrailingAssistant` cuts off assistant and tool messages only. What it keeps ends in a user or
-- a system message, unless the history has neither: then it cuts nothing.
pub trim_trailing_assistant-split :
    (ms : List Message)
    → (NonePass is_turn_start ms × (trim_trailing_assistant ms ≡ ms))
      ⊎ ((front : List Message) × (m : Message) × (back : List Message) × (ms ≡ front ++ (m ∷ back))
          × (trim_trailing_assistant ms ≡ front ++ (m ∷ []))
          × (is_turn_start m ≡ true)
          × NonePass is_turn_start back)
unfolding trim_trailing_assistant
trim_trailing_assistant-split ms = elim (last_index-split is_turn_start ms) [
  | inl (nothing, e) ↦ inl (nothing, rw (trim_trailing_assistant, e) refl)
  | inr (front, m, back, e, hit, rest) ↦ inr (
    front,
    m,
    back,
    e,
    ap trim_trailing_assistant e ∙ trim_trailing_assistant-append front m back hit rest,
    hit,
    rest,
  )
]
