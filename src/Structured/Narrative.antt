-- ===== src/Structured/Narrative.antt =====
-- The answer of the game master in internal/structured/narrative.go: its four fields, read from JSON or from sections
-- behind markers, and rendered. `json.Unmarshal` and `jsonrepair.Repair` are parameters.
pub mod Plain
use narrative_ai_agent.Prelude.{
  ℕ, zero, suc, ◌+◌, ◌-◌, ◌==◌, leb, Bool, true, false, not, ◌&&◌, ◌||◌, Option, none, some, List,
  [], ◌∷◌, ◌++◌, if◌then◌else◌, keep, map, length, take, drop, Result, ok, err,
}
use narrative_ai_agent.Prelude.Text.{
  Text, lit, is_empty, trim_space, text_eq, has_prefix, has_infix, join,
}
use narrative_ai_agent.Prelude.Find.{index_of, last_index_of}
use narrative_ai_agent.Structured.{
  find_opening_brace, extract_first_json_object, sanitize_json_quotes, looks_like_json,
}

pub record Narrative : Type 0 where
  pub narration : Text
  pub context : Text
  pub future : Text
  pub validation : Text

abbrev pub no_narrative : Narrative
no_narrative = record { narration = []; context = []; future = []; validation = [] }

abbrev pub header_dialogue : Text
header_dialogue = lit "**ДИАЛОГИ И ДЕЙСТВИЯ**"

abbrev pub header_context : Text
header_context = lit "**КОНТЕКСТ И ИЗМЕНЕНИЯ**"

abbrev pub header_future : Text
header_future = lit "**БУДУЩЕЕ**"

abbrev pub header_validation : Text
header_validation = lit "**ВАЛИДАЦИЯ ПРАВИЛ**"

abbrev pub fence : Text
fence = lit "```"

-- The text up to an index, if there is one.
abbrev up_to : Option ℕ → Text → Text
up_to none s = s
up_to (some i) s = take i s

abbrev behind : Option ℕ → Text → Text
behind none s = s
behind (some i) s = drop (suc i) s

unfoldable pub strip_fence : Text → Text
unfolding has_prefix index_of last_index_of trim_space
strip_fence s =
    if not (has_prefix fence s)
    then s
    else (let s' = behind (index_of (lit "\n") s) s in
        trim_space (up_to (last_index_of fence s') s'))

unfoldable pub strip_thinking_tags : Text → Text
unfolding index_of trim_space
strip_thinking_tags data_text = elim (index_of (lit "</arg_value>") data_text) [
  | some i ↦ trim_space (take i data_text)
  | none ↦ elim (index_of (lit "<arg_key>") data_text) [
    | some i ↦ trim_space (take i data_text)
    | none ↦ data_text
  ]
]

abbrev is_found : Option ℕ → Bool
is_found none = false
is_found (some i) = true

-- `LooksLikeJSON`.
unfoldable pub may_be_json : Text → Bool
unfolding find_opening_brace strip_fence trim_space
may_be_json text = is_found (find_opening_brace (strip_fence (trim_space text)))

pub data ParseError : Type 0 where
  not_json : ParseError
  not_narrative : ParseError

unfoldable pub missing_fields : Narrative → List Text
unfolding trim_space
missing_fields n =
    (if is_empty (trim_space n.narration) then lit "narration" ∷ [] else [])
    ++ (if is_empty (trim_space n.context) then lit "context" ∷ [] else [])
    ++ (if is_empty (trim_space n.future) then lit "future" ∷ [] else [])
    ++ (if is_empty (trim_space n.validation) then lit "validation" ∷ [] else [])

unfoldable pub render : Narrative → Text
unfolding trim_space
render n =
    header_dialogue
    ++ lit "\n"
    ++ trim_space n.narration
    ++ lit "\n\n"
    ++ header_context
    ++ lit "\n"
    ++ trim_space n.context
    ++ lit "\n\n"
    ++ header_future
    ++ lit "\n"
    ++ trim_space n.future
    ++ lit "\n\n"
    ++ header_validation
    ++ lit "\n"
    ++ trim_space n.validation
    ++ lit "\n"

-- A section with its header, where its body is not blank.
partial_section : Text → Text → List Text
unfolding trim_space
partial_section header body =
    if is_empty (trim_space body) then [] else (header ++ lit "\n" ++ trim_space body) ∷ []

with_newline : Text → Text
with_newline [] = []
with_newline (c ∷ cs) = (c ∷ cs) ++ lit "\n"

unfoldable pub render_partial : Narrative → Text
unfolding partial_section with_newline join
render_partial n = with_newline (
    join (lit "\n\n") (
      partial_section header_dialogue n.narration
      ++ partial_section header_context n.context
      ++ partial_section header_future n.future
      ++ partial_section header_validation n.validation))

-- A letter of `(?i)[A-Za-z]`, which folds two letters outside of ASCII.
unfoldable pub is_marker_letter : ℕ → Bool
is_marker_letter c =
    (leb b'A' c && leb c b'Z') || (leb b'a' c && leb c b'z') || c == 0x17f || c == 0x212a

unfoldable pub is_marker_rune : ℕ → Bool
unfolding is_marker_letter
is_marker_rune c = is_marker_letter c || (leb b'0' c && leb c b'9') || c == b'_' || c == b'-'

-- `\s`.
abbrev pub is_blank_rune : ℕ → Bool
is_blank_rune c = c == 9 || c == 10 || c == 12 || c == 13 || c == 32

unfoldable pub skip_blanks : Text → Text
skip_blanks [] = []
skip_blanks (c ∷ cs) = let rest = skip_blanks cs in if is_blank_rune c then rest else c ∷ cs

abbrev pub dashes : Text
dashes = lit "------"

abbrev pub later_or : Option (Text × Text) → ℕ → Option (Text × Text) → Option (Text × Text)
later_or (some (name, rest)) c here = some (c ∷ name, rest)
later_or none c here = here

-- The longest name with dashes behind it, and the text behind the dashes.
unfoldable pub close_marker : Text → Option (Text × Text)
unfolding skip_blanks has_prefix
close_marker t =
    if has_prefix dashes (skip_blanks t) then some ([], drop 6 (skip_blanks t)) else none

unfoldable pub marker_name : Text → Option (Text × Text)
unfolding is_marker_rune close_marker
marker_name [] = none
marker_name (c ∷ cs) =
    let longer = marker_name cs in
    if is_marker_rune c then later_or longer c (close_marker (c ∷ cs)) else close_marker (c ∷ cs)

-- The name of the marker that begins the text, and what is behind the marker.
open_name : Text → Option (Text × Text)
unfolding is_marker_letter marker_name
open_name [] = none
open_name (c ∷ cs) =
    if is_marker_letter c
    then elim (marker_name cs) [ none ↦ none | some (name, rest) ↦ some (c ∷ name, rest) ]
    else none

unfoldable pub marker_at : Text → Option (Text × Text)
unfolding open_name has_prefix skip_blanks
marker_at t = if has_prefix dashes t then open_name (skip_blanks (drop 6 t)) else none

-- The text before the first marker, and each marker's name with the text behind it. The number counts the code points
-- of a marker that are still to be passed.
unfoldable pub pieces : ℕ → Text → Text × List (Text × Text)
unfolding marker_at
pieces skipped [] = ([], [])
pieces (suc k) (c ∷ cs) = pieces k cs
pieces zero (c ∷ cs) =
    let (before, more) = pieces 0 cs in
    elim (marker_at (c ∷ cs)) [
      | none ↦ (c ∷ before, more)
      | some (name, rest) ↦
          let (content, more') = pieces (length cs - length rest) cs in
          ([], (name, content) ∷ more')
    ]

-- `strings.ToUpper` on the name of a marker.
abbrev pub upper_rune : ℕ → ℕ
upper_rune c = if leb b'a' c && leb c b'z' then c - 32 else if c == 0x17f then b'S' else c

unfoldable pub fill : List (Text × Text) → Narrative → Narrative
unfolding text_eq trim_space
fill [] n = n
fill ((name, content) ∷ more) n =
    let key = map upper_rune name in
    let val = trim_space content in
    let ended = text_eq key (lit "END") in
    let n' =
      if text_eq key (lit "NARRATIVE")
      then record n { narration = val }
      else if text_eq key (lit "CONTEXT")
      then record n { context = val }
      else if text_eq key (lit "FUTURE")
      then record n { future = val }
      else if text_eq key (lit "SYSTEM")
      then record n { validation = val }
      else n in
    let rest = fill more n' in if ended then n else rest

-- `parseSectionPlain`, which answers no error.
unfoldable pub parse_plain : Text → Narrative
unfolding fill pieces
parse_plain text = fill (pieces 0 text).1 no_narrative

module _ (unmarshal : Text → Option Narrative) (repair : Text → Option Text) where
  abbrev or_next : Option Narrative → Option Narrative → Option Narrative
  or_next (some n) later = some n
  or_next none later = later

  abbrev then_read : Option Text → Option Narrative
  then_read none = none
  then_read (some body) = unmarshal body

  -- The three attempts to read a body.
  unfoldable pub read_narrative : Text → Option Narrative
  unfolding sanitize_json_quotes extract_first_json_object
  read_narrative body =
      let cleaned = sanitize_json_quotes body in
      or_next (unmarshal cleaned)
        (or_next (then_read (extract_first_json_object cleaned)) (then_read (repair cleaned)))

  abbrev or_error : ParseError → Option Narrative → Result ParseError Narrative
  or_error e none = err e
  or_error e (some n) = ok n

  unfoldable pub parse : Text → Result ParseError Narrative
  unfolding read_narrative strip_thinking_tags strip_fence trim_space looks_like_json
      find_opening_brace
  parse text =
      let body = strip_thinking_tags (strip_fence (trim_space text)) in
      if looks_like_json body
      then or_error not_narrative (read_narrative body)
      else elim (find_opening_brace body) [
        | none ↦ err not_json
        | some i ↦ or_error not_json (read_narrative (drop i body))
      ]

  -- `RenderAny` and `RenderAnyPartial`, by what they render with.
  unfoldable pub render_any_with : (Narrative → Text) → Text → Text
  unfolding strip_thinking_tags may_be_json parse parse_plain
  render_any_with show_narrative text =
      let clean = strip_thinking_tags text in
      let plain = show_narrative (parse_plain clean) in
      if may_be_json clean
      then elim (parse clean) [ ok n ↦ show_narrative n | err e ↦ plain ]
      else plain

  unfoldable pub render_any : Text → Text
  unfolding render_any_with render
  render_any text = render_any_with render text

  unfoldable render_any_partial : Text → Text
  unfolding render_any_with render_partial
  render_any_partial text = render_any_with render_partial text
