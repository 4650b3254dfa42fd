-- ===== src/Structured.antt =====
-- internal/structured/narrative.go: how the JSON of an answer is found, and repaired, in the text of a
-- model. The bytes that the scanners test are ASCII, so a text stands for its bytes.
pub mod Escaping
pub mod Narrative
use narrative_ai_agent.Prelude.{
  ℕ, suc, ◌+◌, ◌-◌, ◌==◌, Bool, true, false, not, ◌||◌, ◌&&◌, Option, none, some, List, [], ◌∷◌,
  ◌++◌, if◌then◌else◌, take, drop,
}
use narrative_ai_agent.Prelude.Int.{ℤ, pos, eqb_ℤ, ◌+ℤ◌, ◌-ℤ◌}
use narrative_ai_agent.Prelude.Text.{Text, lit, is_empty, trim_space}

-- Whether the scanner is inside a string literal, and behind a backslash there.
pub record Quoting : Type 0 where
  pub in_str : Bool
  escape : Bool

abbrev pub unquoted : Quoting
unquoted = record { in_str = false; escape = false }

-- The tests with which every scanner begins: the new state, and whether they took the byte.
abbrev pub lex_quote : ℕ → Quoting → Quoting × Bool
lex_quote c q =
    if q.escape
    then (record q { escape = false }, true)
    else if (c == b'\\') && q.in_str
    then (record q { escape = true }, true)
    else if c == b'"'
    then (record q { in_str = not q.in_str }, true)
    else (q, false)

unfoldable pub find_brace_from : Text → ℕ → Quoting → Option ℕ
find_brace_from [] i q = none
find_brace_from (c ∷ cs) i q =
    let (q', taken) = lex_quote c q in
    let rest = find_brace_from cs (suc i) q' in
    if taken then rest else if not q.in_str && (c == b'{') then some i else rest

unfoldable pub find_opening_brace : Text → Option ℕ
find_opening_brace body = find_brace_from body 0 unquoted

pub record Nesting : Type 0 where
  pub start : Option ℕ
  pub depth : ℤ

abbrev or_start : Option ℕ → ℕ → ℕ
or_start none i = i
or_start (some a) i = a

-- A byte outside of the string literals.
abbrev pub next_nesting : ℕ → ℕ → Nesting → Nesting
next_nesting i c n =
    if c == b'{'
    then record { start = some (or_start n.start i); depth = n.depth +ℤ pos 1 }
    else if c == b'}'
    then record n { depth = n.depth -ℤ pos 1 }
    else n

-- The bounds of the first object, if the byte at index `i` closes it.
abbrev pub object_end : ℕ → ℕ → Nesting → Option (ℕ × ℕ)
object_end i c n =
    if (c == b'}') && eqb_ℤ (n.depth -ℤ pos 1) (pos 0)
    then elim n.start [ none ↦ none | some a ↦ some (a, suc i) ]
    else none

-- The bounds of the first object: its first byte, and the byte behind it.
unfoldable pub object_from : Text → ℕ → Quoting → Nesting → Option (ℕ × ℕ)
object_from [] i q n = none
object_from (c ∷ cs) i q n =
    let (q', taken) = lex_quote c q in
    let outside = not (taken || q.in_str) in
    let rest = object_from cs (suc i) q' (if outside then next_nesting i c n else n) in
    elim (if outside then object_end i c n else none) [ none ↦ rest | some r ↦ some r ]

unfoldable pub extract_first_json_object : Text → Option Text
extract_first_json_object body =
    elim (object_from body 0 unquoted (record { start = none; depth = pos 0 })) [
      | none ↦ none
      | some (a, b) ↦ some (take (b - a) (drop a body))
    ]

abbrev is_structural_byte : ℕ → Bool
is_structural_byte c =
    (c == b'{')
    || (c == b'}')
    || (c == b'[')
    || (c == b']')
    || (c == b':')
    || (c == b',')
    || (c == 10)
    || (c == 13)
    || (c == 9)
    || (c == 32)

-- `isJSONStructural` at an index; `none` is outside of the data.
abbrev is_json_structural : Option ℕ → Bool
is_json_structural none = true
is_json_structural (some c) = is_structural_byte c

abbrev next_byte : Text → Option ℕ
next_byte [] = none
next_byte (c ∷ cs) = some c

-- A quote in a string literal, with text on both sides.
abbrev pub is_inner_quote : Option ℕ → ℕ → Text → Quoting → Bool
is_inner_quote before c cs q =
    not q.escape
    && (c == b'"')
    && q.in_str
    && not (is_json_structural before)
    && not (is_json_structural (next_byte cs))

unfoldable pub sanitize_from : Option ℕ → Text → Quoting → Text
sanitize_from before [] q = []
sanitize_from before (c ∷ cs) q =
    let inner = is_inner_quote before c cs q in
    let rest = sanitize_from (some c) cs (if inner then q else (lex_quote c q).0) in
    if inner then b'\\' ∷ c ∷ rest else c ∷ rest

unfoldable pub sanitize_json_quotes : Text → Text
sanitize_json_quotes body = sanitize_from none body unquoted

-- `looksLikeJSON`.
unfoldable pub looks_like_json : Text → Bool
looks_like_json [] = false
looks_like_json (c ∷ cs) =
    let rest = looks_like_json cs in
    if (c == 32) || (c == 9) || (c == 10) || (c == 13) then rest else c == b'{'
