-- ===== src/Tests/AnswerRuns.antt =====
-- The readers of an answer of the game master at concrete inputs.
use narrative_ai_agent.Prelude.{◌≡◌, refl, false, Option, none, some, List, [], ◌∷◌}
use narrative_ai_agent.Prelude.Text.{Text, lit, trim_space, trim_by, text_eq, join, has_infix}
use narrative_ai_agent.Structured.{find_opening_brace, find_brace_from}
use narrative_ai_agent.Structured.Narrative.{
  Narrative, no_narrative, dashes, strip_thinking_tags, may_be_json, render, render_any,
  parse_plain,
}
use narrative_ai_agent.Structured.Narrative.Plain.{
  sections_of, trimmed, render_any-forgets, parse_plain-sections_of,
}
use narrative_ai_agent.Directives.{parse_key_value_pairs, parse_update_npc_line}
use narrative_ai_agent.Directives.Pairs.{
  Pair, IsPart, ArePairs, parts_of, args_of, parse_key_value_pairs-args_of,
}
use narrative_ai_agent.Tests.StoreRuns.{lower_letter}

abbrev no_json : Text → Option Narrative
no_json body = none

abbrev no_repair : Text → Option Text
no_repair body = none

abbrev said_plainly : Text
said_plainly = lit "Хината молчит."

said_plainly-no_json : may_be_json (strip_thinking_tags said_plainly) ≡ false
unfolding may_be_json strip_thinking_tags find_opening_brace find_brace_from
said_plainly-no_json = refl

said_plainly-unmarked : has_infix dashes (strip_thinking_tags said_plainly) ≡ false
unfolding strip_thinking_tags has_infix
said_plainly-unmarked = refl

render_any-forgets_example : render_any no_json no_repair said_plainly ≡ render no_narrative
render_any-forgets_example =
    render_any-forgets no_json no_repair said_plainly said_plainly-no_json said_plainly-unmarked

abbrev told : Narrative
told = record {
  narration = lit " Ирука повернулся.\n";
  context = lit "день 2";
  future = [];
  validation = lit "ok";
}

parse_plain-sections_of_example : parse_plain (sections_of told) ≡ trimmed told
parse_plain-sections_of_example = parse_plain-sections_of told refl refl refl refl

-- The description holds a comma.
abbrev kunai : List Pair
kunai =
    record { key = lit "name"; value = lit "Кунай"; parts = [] }
    ∷ record { key = lit "description"; value = lit "сталь"; parts = lit "кожа" ∷ [] }
    ∷ []

leather-IsPart : IsPart b',' (lit "кожа")
unfolding trim_space trim_by
leather-IsPart = record { full = refl; unseparated = refl; no_equals = refl; trimmed = refl }

kunai-ArePairs : ArePairs lower_letter b',' kunai
unfolding trim_space trim_by text_eq
kunai-ArePairs = (
  record {
    named = refl;
    lowered = refl;
    key_trimmed = refl;
    key_unseparated = refl;
    key_without_equals = refl;
    value_unseparated = refl;
    value_trimmed = refl;
    value_unquoted = refl;
    pair_trimmed = refl;
    parts_are = tt;
  },
  (refl, tt),
  (
    record {
      named = refl;
      lowered = refl;
      key_trimmed = refl;
      key_unseparated = refl;
      key_without_equals = refl;
      value_unseparated = refl;
      value_trimmed = refl;
      value_unquoted = refl;
      pair_trimmed = refl;
      parts_are = (leather-IsPart, tt);
    },
    tt,
    tt,
  ),
)

parse_key_value_pairs-args_of_example :
    parse_key_value_pairs lower_letter (join (b',' ∷ 32 ∷ []) (parts_of lower_letter kunai)) b','
    ≡ args_of lower_letter b',' kunai
parse_key_value_pairs-args_of_example =
    parse_key_value_pairs-args_of lower_letter b',' kunai refl refl kunai-ArePairs

kunai_line :
    join (b',' ∷ 32 ∷ []) (parts_of lower_letter kunai) ≡ lit "name=Кунай, description=сталь, кожа"
unfolding join
kunai_line = refl

-- The section and the text of a directive in the form with commas are not found: they stand under one odd key.
update_npc_with_commas :
    parse_update_npc_line lower_letter (lit "Mizuki, section=status, append=angry")
    ≡ some (record {
      kind = lit "update_npc";
      args = (lit "mizuki, section", lit "status, append=angry") ∷ (lit "npc", lit "Mizuki") ∷ [];
      raw = [];
    })
unfolding parse_update_npc_line
update_npc_with_commas = refl
