-- ===== src/Repositories/Plan.antt =====
-- internal/repository/yaml/world_yaml.go: the bullets of plan.md, which `ParsePlanEvents` reads back.
use narrative_ai_agent.Prelude.{
  ℕ, ◌≡◌, refl, ap, Bool, true, false, not, ◌&&◌, ◌||◌, Option, none, some, List, [], ◌∷◌, ◌++◌,
  if◌then◌else◌, ◌==◌, leb, map, All, length, leb, ltb, arith, is_nil, ok,
}
use narrative_ai_agent.Prelude.Text.{
  Text, lit, is_empty, trim_space, is_space, trim_left, trim_by, All-trim_by, trim_left-trim_by,
  trim_by-weaker,
}
use narrative_ai_agent.Repositories.{Store, plan_file, write, update-same}
use narrative_ai_agent.Repositories.Files.{plan_body, bullets, replace_events, save_plan}

-- `\s` of a regular expression.
abbrev is_blank : ℕ → Bool
is_blank c = c == 0x20 || (leb 0x9 c && leb c 0xd && not (c == 0xb))

-- The group of `\s+(.+?)\s*$` behind the dash: the text between the blanks, or the last of them where there are only
-- blanks, at least two.
bullet_text : Text → Option Text
unfolding trim_left trim_by
bullet_text [] = none
bullet_text (c ∷ cs) =
    if is_blank c
    then if is_empty (trim_left is_blank cs) then last_blank cs else some (trim_by is_blank cs)
    else none
  where
    last_blank : Text → Option Text
    last_blank [] = none
    last_blank (c ∷ []) = some (c ∷ [])
    last_blank (c ∷ d ∷ cs) = last_blank (d ∷ cs)

after_dash : Text → Option Text
unfolding bullet_text
after_dash [] = none
after_dash (c ∷ cs) = if c == b'-' then bullet_text cs else none

-- `planEventRe` on one line.
plan_event : Text → Option Text
unfolding after_dash trim_left
plan_event line = after_dash (trim_left is_blank line)

-- `strings.SplitSeq(body, "\n")`.
onto_first : ℕ → List Text → List Text
onto_first c [] = (c ∷ []) ∷ []
onto_first c (l ∷ ls) = (c ∷ l) ∷ ls

unfoldable pub lines : Text → List Text
unfolding onto_first
lines [] = [] ∷ []
lines (c ∷ cs) = let rest = lines cs in if c == b'\n' then [] ∷ rest else onto_first c rest

abbrev consed : Option Text → List Text → List Text
consed none events = events
consed (some e) events = e ∷ events

events_of : List Text → List Text
unfolding plan_event
events_of [] = []
events_of (l ∷ ls) = consed (plan_event l) (events_of ls)

unfoldable pub parse_plan_events : Text → List Text
unfolding events_of lines
parse_plan_events body = events_of (lines body)

abbrev IsNewline : ℕ → Type 0
IsNewline c = (c == b'\n') ≡ false

-- An event that is one line, and not blank.
pub record IsLine (event : Text) : Type 0 where
  pub one_line : All (λ c. (c == b'\n') ≡ false) event
  pub not_blank : is_empty (trim_space event) ≡ false

lines-append :
    (line rest : Text)
    → All (λ c. (c == b'\n') ≡ false) line
    → lines (line ++ lit "\n" ++ rest) ≡ line ∷ lines rest
unfolding lines onto_first
lines-append [] rest h = refl
lines-append (c ∷ line) rest h = rw (lines-append line rest h.1) (rw h.0 refl)

blank_is_space : (c : ℕ) → is_blank c ≡ true → is_space c ≡ true
unfolding is_space
blank_is_space c h = ground arith

plan_event-bullet :
    (event : Text)
    → is_empty (trim_space event) ≡ false
    → plan_event (lit "- " ++ trim_space event) ≡ some (trim_space event)
unfolding plan_event after_dash bullet_text trim_space
plan_event-bullet event h =
    rw
      (
        trim_left-trim_by is_blank is_space blank_is_space event,
        h,
        trim_by-weaker is_blank is_space blank_is_space event,
      )
      refl

trim_space-one_line :
    (event : Text) → IsLine event → All (λ c. (c == b'\n') ≡ false) (trim_space event)
unfolding trim_space
trim_space-one_line event h = All-trim_by is_space _ event h.one_line

no_lines : events_of (lines []) ≡ []
unfolding events_of plan_event after_dash lines trim_left
no_lines = refl

events_of-bullets :
    (events : List Text)
    → All IsLine events
    → events_of (lines (bullets events)) ≡ map trim_space events
unfolding events_of bullets
events_of-bullets [] h = no_lines
events_of-bullets (e ∷ es) h =
    let line = lit "- " ++ trim_space e in
    let split = lines-append line (bullets es) (refl, (refl, trim_space-one_line e h.0)) in
    rw (split, plan_event-bullet e h.0.not_blank)
      (ap (◌∷◌ (trim_space e)) (events_of-bullets es h.1))

parse_plan_events-plan_body :
    (events : List Text)
    → All IsLine events
    → parse_plan_events (plan_body events) ≡ map trim_space events
unfolding parse_plan_events plan_body events_of plan_event
parse_plan_events-plan_body events h = events_of-bullets events h

-- Where the plan can be written, ReplaceEvents takes no events, or three to five, each one line that is not blank, and
-- ParsePlanEvents reads them back from plan.md, trimmed.
pub replace_events-parse :
    (s : Store) (world : Text) (events : List Text)
    → not (is_nil events) && (ltb (length events) 3 || ltb 5 (length events)) ≡ false
    → All IsLine events
    → s.write_fault (plan_file world) ≡ false
    → let (result, t) = replace_events world events s in
      (result ≡ ok tt)
      × (body : Text) × (t.plans world ≡ ok body)
      × (parse_plan_events body ≡ map trim_space events)
unfolding replace_events save_plan write
replace_events-parse s world events counted lines writes =
    rw (counted, writes)
      (
        refl,
        plan_body events,
        update-same s.plans world (ok (plan_body events)),
        parse_plan_events-plan_body events lines,
      )
