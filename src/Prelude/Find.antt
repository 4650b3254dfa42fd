-- ===== src/Prelude/Find.antt =====
-- Searching and cutting texts: `strings.Index`, `strings.LastIndex`, `strings.Split`, `strings.Cut` and
-- `strings.CutSuffix`.
use narrative_ai_agent.Prelude.Tests.{◌==◌, if◌then◌else◌}
use narrative_ai_agent.Prelude.Text.{Text, is_empty, text_eq, has_prefix}
use Prim.Native.Nat.{ℕ, suc}
use mathlib.Core.Option.{Option, none, some}
use mathlib.Core.List.{List, [], ◌∷◌}

-- The index of the first occurrence of the part.
unfoldable pub index_of : Text → Text → Option ℕ
unfolding has_prefix
index_of part [] = if is_empty part then some 0 else none
index_of part (c ∷ cs) =
    let later = index_of part cs in
    if has_prefix part (c ∷ cs) then some 0 else elim later [ none ↦ none | some i ↦ some (suc i) ]

-- The index of the last one.
unfoldable pub last_index_of : Text → Text → Option ℕ
unfolding has_prefix
last_index_of part [] = if is_empty part then some 0 else none
last_index_of part (c ∷ cs) = elim (last_index_of part cs) [
  | some i ↦ some (suc i)
  | none ↦ if has_prefix part (c ∷ cs) then some 0 else none
]

abbrev pub onto : ℕ → List Text → List Text
onto c [] = (c ∷ []) ∷ []
onto c (t ∷ ts) = (c ∷ t) ∷ ts

-- The parts of a text around each `sep`.
unfoldable pub split_on : ℕ → Text → List Text
split_on sep [] = [] ∷ []
split_on sep (c ∷ cs) = let rest = split_on sep cs in if c == sep then [] ∷ rest else onto c rest

-- The text before the first `sep`, and the one behind it where there is one.
unfoldable pub cut_at : ℕ → Text → Text × Option Text
cut_at sep [] = ([], none)
cut_at sep (c ∷ cs) =
    let rest = cut_at sep cs in if c == sep then ([], some cs) else (c ∷ rest.0, rest.1)

-- The text in front of the suffix, where it ends with it.
unfoldable pub cut_suffix : Text → Text → Option Text
unfolding text_eq
cut_suffix suffix [] = if is_empty suffix then some [] else none
cut_suffix suffix (c ∷ cs) =
    let later = cut_suffix suffix cs in
    if text_eq (c ∷ cs) suffix then some [] else elim later [ none ↦ none | some t ↦ some (c ∷ t) ]
