-- ===== src/Directives.antt =====
-- The tool directives that the game master writes as text, in internal/usecase/gm.go: `ExtractContextCommands` and the
-- readers of its lines. Texts are cut by code points: the source cuts them by the bytes of their lowered copies, which
-- are the same where no letter changes its length in UTF-8 when it is lowered. `strings.ToLower` is a parameter.
pub mod Pairs
pub mod Splitting
use narrative_ai_agent.Prelude.{
  ℕ, ◌==◌, leb, Bool, true, false, not, ◌&&◌, ◌||◌, Option, none, some, List, [], ◌∷◌, ◌++◌,
  if◌then◌else◌, keep, map, any, length, take, drop, Result, ok, err,
}
use narrative_ai_agent.Prelude.Text.{
  Text, lit, is_empty, trim_space, trim_left, trim_by, text_eq, has_prefix, has_infix,
  contains_text, byte_len,
}
use narrative_ai_agent.Prelude.Find.{index_of, split_on, cut_at}
use narrative_ai_agent.Structured.Narrative.{Narrative, ParseError, may_be_json}

-- A map from texts to texts: the first entry of a key is its entry.
abbrev pub Args : Type 0
Args = List (Text × Text)

unfoldable pub get : Text → Args → Option Text
unfolding text_eq
get key [] = none
get key ((k, v) ∷ args) = let later = get key args in if text_eq k key then some v else later

-- The value, or the empty text of a missing key.
abbrev pub or_blank : Option Text → Text
or_blank none = []
or_blank (some v) = v

abbrev pub arg : Text → Args → Text
arg key args = or_blank (get key args)

unfoldable pub put : Text → Text → Args → Args
unfolding text_eq
put key v [] = (key, v) ∷ []
put key v ((k, w) ∷ args) =
    let rest = put key v args in if text_eq k key then (k, v) ∷ args else (k, w) ∷ rest

pub record ExtractedCommand : Type 0 where
  pub kind : Text
  pub args : Args
  pub raw : Text

abbrev pub em_dash : ℕ
em_dash = 0x2014

abbrev pub is_bullet : ℕ → Bool
is_bullet c = c == 0x2981 || c == 0x2022 || c == b'-' || c == b'*' || c == b'>'

abbrev pub is_lead : ℕ → Bool
is_lead c = is_bullet c || c == 32 || c == 39

abbrev pub is_quote : ℕ → Bool
is_quote c = c == 34 || c == 39 || c == 0xab || c == 0xbb

-- The two bytes of an em dash behind its first one, which are no code points.
abbrev pub dash_tail : Text
dash_tail = 0xdc80 ∷ 0xdc94 ∷ []

abbrev pub before : ℕ → Option (Text × Text) → Option (Text × Text)
before c none = none
before c (some (t, rest)) = some (c ∷ t, rest)

-- The flag tells that this is the first character.
unfoldable pub header_cut : Bool → Text → Option (Text × Text)
header_cut first [] = none
header_cut first (c ∷ cs) =
    let later = before c (header_cut false cs) in
    if c == em_dash
    then some ([], dash_tail ++ cs)
    else if c == b':' && not first
    then some ([], cs)
    else later

unfoldable pub split_header_bullet : Text → Text × Text
unfolding header_cut trim_space
split_header_bullet s = elim (header_cut true s) [
  | none ↦ ([], trim_space s)
  | some (header, bullet) ↦ (trim_space header, trim_space bullet)
]

-- The text before the first character of these, and the one behind it.
unfoldable pub split_at : (ℕ → Bool) → Text → Option (Text × Text)
split_at stop [] = none
split_at stop (c ∷ cs) =
    let later = before c (split_at stop cs) in if stop c then some ([], cs) else later

unfoldable pub split_on_em_dash : Text → Option (Text × Text)
unfolding split_at
split_on_em_dash s = split_at (λ c. c == em_dash || c == b',') s

unfoldable pub split_on_colon : Text → Option (Text × Text)
unfolding split_at
split_on_colon s = split_at (λ c. c == b':') s

module _ (to_lower : ℕ → ℕ) where
  -- A part that is a pair, and one that goes on with the last value.
  unfoldable pub add_cut : ℕ → Text × Option Text → Text × Args → Text × Args
  unfolding trim_space trim_by put get
  add_cut sep (key, none) (last_key, out) =
      if is_empty last_key
      then (last_key, out)
      else (last_key, put last_key (arg last_key out ++ (sep ∷ 32 ∷ []) ++ key) out)
  add_cut sep (key, some v) (last_key, out) =
      let key' = map to_lower (trim_space key) in
      if is_empty key'
      then (last_key, out)
      else (key', put key' (trim_by is_quote (trim_space v)) out)

  unfoldable pub add_trimmed : ℕ → Text → Text × Args → Text × Args
  unfolding add_cut cut_at
  add_trimmed sep part found = if is_empty part then found else add_cut sep (cut_at b'=' part) found

  -- One part of a list of pairs, with the last key and the pairs so far.
  unfoldable pub add_part : ℕ → Text → Text × Args → Text × Args
  unfolding trim_space add_trimmed
  add_part sep raw found = add_trimmed sep (trim_space raw) found

  unfoldable pub add_parts : ℕ → List Text → Text × Args → Text × Args
  unfolding add_part
  add_parts sep [] found = found
  add_parts sep (part ∷ parts) found = add_parts sep parts (add_part sep part found)

  unfoldable pub parse_key_value_pairs : Text → ℕ → Args
  unfolding add_parts split_on
  parse_key_value_pairs s sep = (add_parts sep (split_on sep s) ([], [])).1

  unfoldable pub parse_semicolon_pairs : Text → Args
  unfolding parse_key_value_pairs
  parse_semicolon_pairs s = parse_key_value_pairs s b';'

  unfoldable pub parse_comma_pairs : Text → Args
  unfolding parse_key_value_pairs
  parse_comma_pairs s = parse_key_value_pairs s b','

  abbrev pub command : Text → Args → Option ExtractedCommand
  command kind args = some (record { kind = kind; args = args; raw = [] })

  abbrev npc_command : Text → Text → Text → Option ExtractedCommand
  npc_command npc section text =
      command (lit "update_npc")
        ((lit "npc", npc) ∷ (lit "section", section) ∷ (lit "append", text) ∷ [])

  -- `idx > 0`: a separator at the very start does not count.
  leading_name : Text → Text
  unfolding split_at trim_space
  leading_name body = elim (split_at (λ c. c == b',' || c == b';') body) [
    | none ↦ body
    | some ([], rest) ↦ body
    | some (c ∷ cs, rest) ↦ trim_space (c ∷ cs)
  ]

  -- The form with `=`.
  unfoldable named_npc : Text → Args → Args
  unfolding leading_name get put trim_space
  named_npc body args = elim (get (lit "npc") args) [
    | some name ↦ put (lit "npc") (trim_space name) args
    | none ↦ put (lit "npc") (leading_name body) args
  ]

  -- The form "Name — section: text".
  short_npc : Text → Option ExtractedCommand
  unfolding split_on_em_dash split_on_colon trim_space
  short_npc body = elim (split_on_em_dash body) [
    | none ↦ none
    | some (name, rest) ↦ elim (split_on_colon rest) [
      | none ↦ npc_command (trim_space name) (trim_space rest) []
      | some (section, text) ↦ npc_command (trim_space name) (trim_space section) (trim_space text)
    ]
  ]

  unfoldable pub parse_update_npc_line : Text → Option ExtractedCommand
  unfolding named_npc short_npc parse_semicolon_pairs has_infix trim_space
  parse_update_npc_line body =
      let body' = trim_space body in
      let long = command (lit "update_npc") (named_npc body' (parse_semicolon_pairs body')) in
      let short = short_npc body' in
      if is_empty body' then none else if has_infix (lit "=") body' then long else short

  -- The pairs of `append_lore`, or else a header and a bullet.
  unfoldable pub lore_args : Text → Args
  unfolding parse_comma_pairs split_header_bullet get put
  lore_args body =
      let args = parse_comma_pairs body in
      let (header, bullet) = split_header_bullet body in
      elim (get (lit "header") args) [
        | some h ↦ args
        | none ↦ put (lit "bullet") bullet (put (lit "header") header args)
      ]

  -- The kinds whose pairs are behind commas.
  abbrev pub comma_kinds : List Text
  comma_kinds =
      lit "update_soul"
      ∷ lit "update_skill"
      ∷ lit "update_memory"
      ∷ lit "update_inventory"
      ∷ lit "remove_inventory_item"
      ∷ lit "set_currency"
      ∷ lit "remove_currency"
      ∷ []

  -- The text behind the name of a kind and its colon, where the line begins with them.
  unfoldable pub body_of : Text → Text → Option Text
  unfolding has_prefix trim_space
  body_of prefix stripped =
      if has_prefix prefix (map to_lower stripped)
      then some (trim_space (drop (length prefix) stripped))
      else none

  unfoldable comma_command : List Text → Text → Option ExtractedCommand
  unfolding body_of parse_comma_pairs
  comma_command [] stripped = none
  comma_command (kind ∷ kinds) stripped =
      let later = comma_command kinds stripped in
      elim (body_of (kind ++ lit ":") stripped) [
        | none ↦ later
        | some body ↦ command kind (parse_comma_pairs body)
      ]

  -- The long forms.
  unfoldable pub parse_long : Text → Option ExtractedCommand
  unfolding body_of parse_update_npc_line lore_args parse_semicolon_pairs comma_command
  parse_long stripped = elim (body_of (lit "update_npc:") stripped) [
    | some body ↦ parse_update_npc_line body
    | none ↦ elim (body_of (lit "append_lore:") stripped) [
      | some body ↦ command (lit "append_lore") (lore_args body)
      | none ↦ elim (body_of (lit "update_state:") stripped) [
        | some body ↦ command (lit "update_state") (parse_semicolon_pairs body)
        | none ↦ elim (comma_command comma_kinds stripped) [
          | some c ↦ some c
          | none ↦ elim (body_of (lit "create_npc:") stripped) [
            | some body ↦ command (lit "create_npc") (parse_semicolon_pairs body)
            | none ↦ none
          ]
        ]
      ]
    ]
  ]

  abbrev lore_command : Text × Text → Option ExtractedCommand
  lore_command (header, bullet) =
      command (lit "append_lore") ((lit "header", header) ∷ (lit "bullet", bullet) ∷ [])

  -- The short form of `update_npc` is rewritten and read again, which gives a long form.
  unfoldable pub parse_directive_line : Text → Option ExtractedCommand
  unfolding trim_left body_of parse_long split_header_bullet parse_semicolon_pairs
  parse_directive_line line =
      let stripped = trim_left is_lead line in
      elim (body_of (lit "npc:") stripped) [
        | some body ↦ parse_long (lit "update_npc: " ++ body)
        | none ↦ elim (body_of (lit "lore:") stripped) [
          | some body ↦ lore_command (split_header_bullet body)
          | none ↦ elim (body_of (lit "state:") stripped) [
            | some body ↦ command (lit "update_state") (parse_semicolon_pairs body)
            | none ↦ parse_long stripped
          ]
        ]
      ]

  abbrev directive_words : List Text
  directive_words =
      lit "update_npc"
      ∷ lit "update_state"
      ∷ lit "append_lore"
      ∷ lit "create_npc"
      ∷ lit "update_soul"
      ∷ lit "update_skill"
      ∷ lit "update_memory"
      ∷ lit "update_inventory"
      ∷ lit "remove_inventory_item"
      ∷ lit "set_currency"
      ∷ lit "remove_currency"
      ∷ lit "lore:"
      ∷ lit "npc:"
      ∷ lit "state:"
      ∷ []

  unfoldable looks_like_directive : Text → Bool
  unfolding has_infix
  looks_like_directive [] = false
  looks_like_directive (c ∷ cs) =
      is_bullet c && any (λ word. has_infix word (map to_lower (c ∷ cs))) directive_words

  -- The text behind the first header of these that is there.
  unfoldable pub behind_header : List Text → Text → Option Text
  unfolding index_of
  behind_header [] body = none
  behind_header (marker ∷ markers) body =
      let later = behind_header markers body in
      elim (index_of marker (map to_lower body)) [
        | none ↦ later
        | some i ↦ some (drop (length marker) (drop i body))
      ]

  unfoldable up_to_header : List Text → Text → Text
  unfolding index_of
  up_to_header [] rest = rest
  up_to_header (ending ∷ endings) rest =
      let later = up_to_header endings rest in
      elim (index_of ending (map to_lower rest)) [ none ↦ later | some i ↦ take i rest ]

  unfoldable pub extract_context_block : Text → Text
  unfolding behind_header up_to_header
  extract_context_block body =
      elim (behind_header
        (lit "**контекст и изменения**" ∷ lit "**контекст**" ∷ lit "### контекст" ∷ []) body) [
          | none ↦ if leb (byte_len body) 800 then body else []
          | some rest ↦
              up_to_header
                (lit "**будущее**"
                  ∷ lit "**валидация правил**"
                  ∷ lit "### будущее"
                  ∷ lit "### валидация"
                  ∷ [])
                rest
        ]

  -- The commands of the lines that are directives, each with its line.
  unfoldable pub commands_of : List Text → List ExtractedCommand
  unfolding looks_like_directive parse_directive_line trim_space
  commands_of [] = []
  commands_of (raw ∷ lines) =
      let line = trim_space raw in
      let rest = commands_of lines in
      if looks_like_directive line
      then elim (parse_directive_line line) [
        | none ↦ rest
        | some c ↦ record c { raw = line } ∷ rest
      ]
      else rest

  -- `structured.Parse` is the parameter.
  unfoldable pub extract_context_commands :
      (Text → Result ParseError Narrative) → Text → List ExtractedCommand
  unfolding may_be_json extract_context_block commands_of split_on
  extract_context_commands parse answer =
      let body =
        if may_be_json answer
        then elim (parse answer) [ ok n ↦ n.context | err e ↦ answer ]
        else answer in
      commands_of (split_on b'\n' (extract_context_block body))

  -- `ParseBoolArg`.
  unfoldable pub parse_bool_arg : Text → Bool
  unfolding trim_space text_eq
  parse_bool_arg s =
      contains_text (lit "true" ∷ lit "yes" ∷ lit "1" ∷ lit "on" ∷ []) (map to_lower (trim_space s))

-- `SplitCSV`.
abbrev pub full_parts : List Text → List Text
unfolding trim_space
full_parts parts = keep (λ p. not (is_empty p)) (map trim_space parts)

-- `none` is a nil slice.
unfoldable pub split_csv : Text → Option (List Text)
unfolding split_on trim_space
split_csv s =
    let parts = split_on b',' s in
    if is_empty s
    then none
    else some (full_parts (if length parts == 1 then split_on b';' s else parts))
