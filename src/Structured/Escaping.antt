-- ===== src/Structured/Escaping.antt =====
-- What the repair of the quotes may change.
use narrative_ai_agent.Prelude.{
  ◌≡◌, ℕ, Option, none, some, [], ◌∷◌, if◌then◌else◌, arith, Bool-cases, inl, inr, subst,
}
use narrative_ai_agent.Prelude.Text.{Text}
use narrative_ai_agent.Structured.{
  Quoting, unquoted, lex_quote, is_inner_quote, sanitize_from, sanitize_json_quotes,
}

-- The second text is the first one with backslashes put in front of some of its quotes.
pub data IsEscaped : Text → Text → Type 0 where
  at_end : IsEscaped [] []
  kept : (c : ℕ) {t u : Text} → IsEscaped t u → IsEscaped (c ∷ t) (c ∷ u)
  escaped : {t u : Text} → IsEscaped t u → IsEscaped (b'"' ∷ t) (b'\\' ∷ b'"' ∷ u)

sanitize_from-IsEscaped :
    (before : Option ℕ) (t : Text) (q : Quoting) → IsEscaped t (sanitize_from before t q)
unfolding sanitize_from
sanitize_from-IsEscaped before [] q = at_end
sanitize_from-IsEscaped before (c ∷ cs) q =
    let inner = is_inner_quote before c cs q in
    let rest = sanitize_from-IsEscaped (some c) cs (if inner then q else (lex_quote c q).0) in
    elim (Bool-cases inner) [
      | inl e ↦
          let quote : b'"' ≡ c = ground arith in
          rw (sanitize_from, e)
            (subst (λ d. IsEscaped (d ∷ cs) (b'\\' ∷ d ∷ sanitize_from (some c) cs q)) quote
              (escaped (rw e at rest)))
      | inr e ↦ rw (sanitize_from, e) (kept c (rw e at rest))
    ]

-- `SanitizeJSONQuotes` changes nothing but that it puts a backslash in front of some quotes: no byte is
-- lost, moved or replaced.
pub sanitize_json_quotes-IsEscaped : (t : Text) → IsEscaped t (sanitize_json_quotes t)
unfolding sanitize_json_quotes
sanitize_json_quotes-IsEscaped t = sanitize_from-IsEscaped none t unquoted
