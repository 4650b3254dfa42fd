-- ===== src/Structured/Narrative/Plain.antt =====
-- The reader of the section markers: what it reads back, and what becomes of an answer without markers.
use narrative_ai_agent.Prelude.{
  ℕ, ◌-◌, ◌==◌, ◌≡◌, refl, ap, ◌∙◌, Bool, false, Option, none, some, List, [], ◌∷◌, ◌++◌, any,
  length, length-append, append-nil, arith,
}
use narrative_ai_agent.Prelude.Text.{Text, lit, trim_space, text_eq, has_prefix, has_infix}
use narrative_ai_agent.Structured.Narrative.{
  Narrative, no_narrative, dashes, marker_at, pieces, fill, parse_plain, strip_thinking_tags,
  may_be_json, render, render_any_with, render_any,
}

no_marker : (c : ℕ) (cs : Text) → has_infix dashes (c ∷ cs) ≡ false → marker_at (c ∷ cs) ≡ none
unfolding has_infix marker_at
no_marker c cs h = ground arith

pieces-none : (t : Text) → has_infix dashes t ≡ false → pieces 0 t ≡ (t, [])
unfolding pieces
pieces-none [] h = refl
pieces-none (c ∷ cs) h =
    let later : has_infix dashes cs ≡ false = unfold has_infix in ground arith in
    rw (pieces, no_marker c cs h, pieces-none cs later) refl

module _ (unmarshal : Text → Option Narrative) (repair : Text → Option Text) where
  -- An answer that holds no JSON object and no six dashes in a row is lost: whatever it says, RenderAny answers the four
  -- headers with nothing under them.
  pub render_any-forgets :
      (text : Text)
      → may_be_json (strip_thinking_tags text) ≡ false
      → has_infix dashes (strip_thinking_tags text) ≡ false
      → render_any unmarshal repair text ≡ render no_narrative
  unfolding render_any render_any_with parse_plain fill
  render_any-forgets text plain unmarked =
      rw plain
        (ap (λ p. render (fill p.1 no_narrative)) (pieces-none (strip_thinking_tags text) unmarked))

-- The number skips the code points of a marker.
pieces-skip : (m rest : Text) → pieces (length m) (m ++ rest) ≡ pieces 0 rest
unfolding pieces
pieces-skip [] rest = refl
pieces-skip (c ∷ m) rest = pieces-skip m rest

length_behind : (m rest : Text) → length (m ++ rest) - length rest ≡ length m
length_behind m rest = omega (arith, length-append m rest)

pieces_marker :
    (c : ℕ) (m name rest : Text)
    → marker_at (c ∷ (m ++ rest)) ≡ some (name, rest)
    → pieces 0 (c ∷ (m ++ rest)) ≡ ([], (name, (pieces 0 rest).0) ∷ (pieces 0 rest).1)
unfolding pieces
pieces_marker c m name rest found =
    rw (pieces, found, length_behind m rest, pieces-skip m rest) refl

abbrev pub has_dash : Text → Bool
has_dash t = any (λ c. c == b'-') t

-- Text without a dash comes before the pieces of what follows.
pieces_text :
    (t rest : Text)
    → has_dash t ≡ false
    → pieces 0 (t ++ rest) ≡ (t ++ (pieces 0 rest).0, (pieces 0 rest).1)
unfolding pieces marker_at has_prefix
pieces_text [] rest h = refl
pieces_text (c ∷ t) rest h =
    let later : has_dash t ≡ false = ground arith in
    let first : (b'-' == c) ≡ false = ground arith in
    rw (pieces, first, pieces_text t rest later) refl

abbrev system_text : Narrative → Text
system_text n = lit "------ SYSTEM ------" ++ (n.validation ++ lit "------ END ------")

abbrev future_text : Narrative → Text
future_text n = lit "------ FUTURE ------" ++ (n.future ++ system_text n)

abbrev context_text : Narrative → Text
context_text n = lit "------ CONTEXT ------" ++ (n.context ++ future_text n)

-- The four sections of a narrative behind their markers.
abbrev pub sections_of : Narrative → Text
sections_of n = lit "------ NARRATIVE ------" ++ (n.narration ++ context_text n)

abbrev pub trimmed : Narrative → Narrative
trimmed n = record {
  narration = trim_space n.narration;
  context = trim_space n.context;
  future = trim_space n.future;
  validation = trim_space n.validation;
}

pieces_end : pieces 0 (lit "------ END ------") ≡ ([], (lit "END", []) ∷ [])
unfolding pieces marker_at has_prefix
pieces_end = refl

-- A section behind its marker, in front of pieces that are known.
pieces_section :
    (c : ℕ) (m name body rest : Text) (more : List (Text × Text))
    → ((t : Text) → marker_at (c ∷ (m ++ t)) ≡ some (name, t))
    → has_dash body ≡ false
    → pieces 0 rest ≡ ([], more)
    → pieces 0 (c ∷ (m ++ (body ++ rest))) ≡ ([], (name, body) ∷ more)
pieces_section c m name body rest more marks plain behind =
    pieces_marker c m name (body ++ rest) (marks (body ++ rest))
    ∙ ap (λ (p : Text × List (Text × Text)). ([], (name, p.0) ∷ p.1))
        (pieces_text body rest plain
          ∙ ap (λ (p : Text × List (Text × Text)). (body ++ p.0, p.1)) behind)
    ∙ ap (λ v. ([], (name, v) ∷ more)) (append-nil body)

narrative_marker :
    (t : Text) → marker_at (lit "------ NARRATIVE ------" ++ t) ≡ some (lit "NARRATIVE", t)
unfolding marker_at has_prefix
narrative_marker t = refl

context_marker : (t : Text) → marker_at (lit "------ CONTEXT ------" ++ t) ≡ some (lit "CONTEXT", t)
unfolding marker_at has_prefix
context_marker t = refl

future_marker : (t : Text) → marker_at (lit "------ FUTURE ------" ++ t) ≡ some (lit "FUTURE", t)
unfolding marker_at has_prefix
future_marker t = refl

system_marker : (t : Text) → marker_at (lit "------ SYSTEM ------" ++ t) ≡ some (lit "SYSTEM", t)
unfolding marker_at has_prefix
system_marker t = refl

abbrev system_pieces : Narrative → List (Text × Text)
system_pieces n = (lit "SYSTEM", n.validation) ∷ (lit "END", []) ∷ []

abbrev all_pieces : Narrative → List (Text × Text)
all_pieces n =
    (lit "NARRATIVE", n.narration)
    ∷ (lit "CONTEXT", n.context)
    ∷ (lit "FUTURE", n.future)
    ∷ system_pieces n

pieces_system :
    (n : Narrative)
    → has_dash n.validation ≡ false
    → pieces 0 (system_text n) ≡ ([], system_pieces n)
pieces_system n plain =
    pieces_section b'-' (lit "----- SYSTEM ------") (lit "SYSTEM") n.validation
      (lit "------ END ------") ((lit "END", []) ∷ []) system_marker plain pieces_end

pieces_future :
    (n : Narrative)
    → has_dash n.future ≡ false
    → pieces 0 (system_text n) ≡ ([], system_pieces n)
    → pieces 0 (future_text n) ≡ ([], (lit "FUTURE", n.future) ∷ system_pieces n)
pieces_future n plain behind =
    pieces_section b'-' (lit "----- FUTURE ------") (lit "FUTURE") n.future (system_text n)
      (system_pieces n) future_marker plain behind

pieces_context :
    (n : Narrative) (more : List (Text × Text))
    → has_dash n.context ≡ false
    → pieces 0 (future_text n) ≡ ([], more)
    → pieces 0 (context_text n) ≡ ([], (lit "CONTEXT", n.context) ∷ more)
pieces_context n more plain behind =
    pieces_section b'-' (lit "----- CONTEXT ------") (lit "CONTEXT") n.context (future_text n) more
      context_marker plain behind

pieces_narrative :
    (n : Narrative) (more : List (Text × Text))
    → has_dash n.narration ≡ false
    → pieces 0 (context_text n) ≡ ([], more)
    → pieces 0 (sections_of n) ≡ ([], (lit "NARRATIVE", n.narration) ∷ more)
pieces_narrative n more plain behind =
    pieces_section b'-' (lit "----- NARRATIVE ------") (lit "NARRATIVE") n.narration
      (context_text n) more narrative_marker plain behind

fill_all : (n : Narrative) → fill (all_pieces n) no_narrative ≡ trimmed n
unfolding fill text_eq
fill_all n = refl

-- ParsePlain reads back the four sections, trimmed, from their texts behind the markers, whatever texts without a dash
-- they are.
pub parse_plain-sections_of :
    (n : Narrative)
    → has_dash n.narration ≡ false
    → has_dash n.context ≡ false
    → has_dash n.future ≡ false
    → has_dash n.validation ≡ false
    → parse_plain (sections_of n) ≡ trimmed n
unfolding parse_plain
parse_plain-sections_of n narration context future validation =
    ap (λ (p : Text × List (Text × Text)). fill p.1 no_narrative)
      (pieces_narrative n _ narration
        (pieces_context n _ context (pieces_future n future (pieces_system n validation))))
    ∙ fill_all n
