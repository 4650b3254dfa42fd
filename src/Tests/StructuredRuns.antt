-- ===== src/Tests/StructuredRuns.antt =====
-- The scanners on short texts.
use narrative_ai_agent.Prelude.{◌≡◌, refl, false, some}
use narrative_ai_agent.Prelude.Int.{◌+ℤ◌, ◌-ℤ◌}
use narrative_ai_agent.Prelude.Text.{lit}
use narrative_ai_agent.Structured.{
  find_opening_brace, extract_first_json_object, object_from, sanitize_json_quotes, sanitize_from,
  looks_like_json, find_brace_from,
}
use narrative_ai_agent.Structured.Escaping.{IsEscaped, sanitize_json_quotes-IsEscaped}

brace_in_string : find_opening_brace (lit "a \"{\" {x}") ≡ some 6
unfolding find_opening_brace find_brace_from
brace_in_string = refl

not_json : looks_like_json (lit " text {") ≡ false
unfolding looks_like_json
not_json = refl

first_object : extract_first_json_object (lit "x {\"}\":{}} {}") ≡ some (lit "{\"}\":{}}")
unfolding extract_first_json_object object_from ◌-ℤ◌ ◌+ℤ◌
first_object = refl

inner_quotes : sanitize_json_quotes (lit "{\"a\":\"b\"c\"}") ≡ lit "{\"a\":\"b\\\"c\"}"
unfolding sanitize_json_quotes sanitize_from
inner_quotes = refl

sanitize_json_quotes-IsEscaped_example :
    IsEscaped (lit "{\"a\":\"b\"c\"}") (sanitize_json_quotes (lit "{\"a\":\"b\"c\"}"))
sanitize_json_quotes-IsEscaped_example = sanitize_json_quotes-IsEscaped (lit "{\"a\":\"b\"c\"}")
