-- ===== src/Directives/Pairs.antt =====
-- What is read of a list of pairs `key=value`, with a separator that values may hold as well.
use narrative_ai_agent.Prelude.{
  ℕ, ◌==◌, ◌≡◌, refl, sym, ap, ◌∙◌, false, Option, none, some, List, [], ◌∷◌, ◌++◌, map, arith,
  append_assoc, append-nil, All,
}
use narrative_ai_agent.Prelude.Text.{
  Text, is_empty, trim_space, trim_by, text_eq, join, is_space, trim_space-blank,
}
use narrative_ai_agent.Prelude.Find.{onto, split_on, cut_at}
use narrative_ai_agent.Directives.{
  Args, get, put, or_blank, is_quote, add_cut, add_trimmed, add_part, add_parts,
  parse_key_value_pairs,
}
use narrative_ai_agent.Directives.Splitting.{
  holds, split_on-plain, split_on-sep, cut_at-sep, cut_at-plain, get-behind, get-others, put-behind,
  put-fresh,
}

-- A pair as it is written: the value up to its first separator, and the parts behind its separators.
pub record Pair : Type 0 where
  pub key : Text
  pub value : Text
  pub parts : List Text

-- A part behind a separator.
pub record IsPart (sep : ℕ) (part : Text) : Type 0 where
  pub full : is_empty part ≡ false
  pub unseparated : holds sep part ≡ false
  pub no_equals : holds b'=' part ≡ false
  pub trimmed : trim_space part ≡ part

module _ (to_lower : ℕ → ℕ) where
  -- A pair that its text can show: a key in lower letters, and a value that neither blanks nor quotes surround.
  pub record IsPair (sep : ℕ) (p : Pair) : Type 0 where
    pub named : is_empty p.key ≡ false
    pub lowered : map to_lower p.key ≡ p.key
    pub key_trimmed : trim_space p.key ≡ p.key
    pub key_unseparated : holds sep p.key ≡ false
    pub key_without_equals : holds b'=' p.key ≡ false
    pub value_unseparated : holds sep p.value ≡ false
    pub value_trimmed : trim_space p.value ≡ p.value
    pub value_unquoted : trim_by is_quote p.value ≡ p.value
    pub pair_trimmed : trim_space (p.key ++ (b'=' ∷ p.value)) ≡ p.key ++ (b'=' ∷ p.value)
    pub parts_are : All (IsPart sep) p.parts

  cut_of_value :
      (sep : ℕ) (key v part : Text) (out : Args)
      → is_empty key ≡ false
      → get key out ≡ none
      → add_cut to_lower sep (part, none) (key, out ++ ((key, v) ∷ []))
        ≡ (key, out ++ ((key, v ++ ((sep ∷ 32 ∷ []) ++ part)) ∷ []))
  unfolding add_cut
  cut_of_value sep key v part out named missing =
      rw (add_cut, named)
        (ap (λ r. (key, put key (or_blank r ++ (sep ∷ 32 ∷ []) ++ part) (out ++ ((key, v) ∷ []))))
            (get-behind key v out missing)
          ∙ ap (λ o. (key, o))
              (put-behind key v (v ++ (sep ∷ 32 ∷ []) ++ part) out missing
                ∙ ap (λ t. out ++ ((key, t) ∷ [])) (append_assoc v (sep ∷ 32 ∷ []) part)))

  -- What a trimmed part does, by how it is cut.
  part_by_cut :
      (sep : ℕ) (part : Text) (cut : Text × Option Text) (found : Text × Args)
      → trim_space part ≡ part
      → is_empty part ≡ false
      → cut_at b'=' part ≡ cut
      → add_part to_lower sep part found ≡ add_cut to_lower sep cut found
  unfolding add_part add_trimmed
  part_by_cut sep part cut found trimmed full is_cut =
      ap (λ t. add_trimmed to_lower sep t found) trimmed
      ∙ rw full (ap (λ c. add_cut to_lower sep c found) is_cut)

  part_of_value :
      (sep : ℕ) (key v part : Text) (out : Args)
      → is_empty key ≡ false
      → IsPart sep part
      → get key out ≡ none
      → add_part to_lower sep part (key, out ++ ((key, v) ∷ []))
        ≡ (key, out ++ ((key, v ++ ((sep ∷ 32 ∷ []) ++ part)) ∷ []))
  part_of_value sep key v part out named is missing =
      part_by_cut sep part (part, none) _ is.trimmed is.full (cut_at-plain b'=' part is.no_equals)
      ∙ cut_of_value sep key v part out named missing

  cut_of_pair :
      (sep : ℕ) (p : Pair) (last_key : Text) (out : Args)
      → IsPair sep p
      → get p.key out ≡ none
      → add_cut to_lower sep (p.key, some p.value) (last_key, out)
        ≡ (p.key, out ++ ((p.key, p.value) ∷ []))
  unfolding add_cut
  cut_of_pair sep p last_key out is missing =
      rw (add_cut, is.key_trimmed, is.lowered, is.named, is.value_trimmed, is.value_unquoted)
        (ap (λ o. (p.key, o)) (put-fresh p.key p.value out missing))

  written_pair-full : (key v : Text) → is_empty (key ++ (b'=' ∷ v)) ≡ false
  written_pair-full [] v = refl
  written_pair-full (c ∷ key) v = refl

  part_of_pair :
      (sep : ℕ) (p : Pair) (last_key : Text) (out : Args)
      → IsPair sep p
      → get p.key out ≡ none
      → add_part to_lower sep (p.key ++ (b'=' ∷ p.value)) (last_key, out)
        ≡ (p.key, out ++ ((p.key, p.value) ∷ []))
  part_of_pair sep p last_key out is missing =
      part_by_cut sep _ (p.key, some p.value) _ is.pair_trimmed (written_pair-full p.key p.value)
        (cut_at-sep b'=' p.key p.value is.key_without_equals)
      ∙ cut_of_pair sep p last_key out is missing

  join-onto :
      (s v part : Text) (parts : List Text)
      → join s ((v ++ (s ++ part)) ∷ parts) ≡ join s (v ∷ part ∷ parts)
  unfolding join
  join-onto s v part [] = sym (append_assoc v s part)
  join-onto s v part (t ∷ ts) =
      append_assoc (v ++ (s ++ part)) s (join s (t ∷ ts))
      ∙ ap (λ u. u ++ (s ++ join s (t ∷ ts))) (sym (append_assoc v s part))
      ∙ append_assoc (v ++ s) part (s ++ join s (t ∷ ts))
      ∙ ap (λ u. v ++ s ++ u) (sym (append_assoc part s (join s (t ∷ ts))))

  -- The parts behind a pair join its value.
  parts_of_value :
      (sep : ℕ) (key v : Text) (parts more : List Text) (out : Args)
      → is_empty key ≡ false
      → All (IsPart sep) parts
      → get key out ≡ none
      → add_parts to_lower sep (parts ++ more) (key, out ++ ((key, v) ∷ []))
        ≡ add_parts to_lower sep more (key, out ++ ((key, join (sep ∷ 32 ∷ []) (v ∷ parts)) ∷ []))
  unfolding add_parts join
  parts_of_value sep key v [] more out named are missing = refl
  parts_of_value sep key v (part ∷ parts) more out named are missing =
      ap (add_parts to_lower sep (parts ++ more))
        (part_of_value sep key v part out named are.0 missing)
      ∙ parts_of_value sep key (v ++ ((sep ∷ 32 ∷ []) ++ part)) parts more out named are.1 missing
      ∙ ap (λ t. add_parts to_lower sep more (key, out ++ ((key, t) ∷ [])))
          (join-onto (sep ∷ 32 ∷ []) v part parts)

  -- The parts of pairs in a text.
  abbrev pub parts_of : List Pair → List Text
  parts_of [] = []
  parts_of (p ∷ ps) = (p.key ++ (b'=' ∷ p.value)) ∷ (p.parts ++ parts_of ps)

  -- What is to be read of the pairs.
  abbrev pub args_of : ℕ → List Pair → Args
  args_of sep [] = []
  args_of sep (p ∷ ps) = (p.key, join (sep ∷ 32 ∷ []) (p.value ∷ p.parts)) ∷ args_of sep ps

  abbrev Fresh : Args → Pair → Type 0
  Fresh out p = get p.key out ≡ none

  abbrev Differs : Text → Pair → Type 0
  Differs key p = text_eq key p.key ≡ false

  abbrev pub ArePairs : ℕ → List Pair → Type 0
  ArePairs sep [] = Unit
  ArePairs sep (p ∷ ps) = IsPair sep p × All (Differs p.key) ps × ArePairs sep ps

  Fresh-behind :
      (key v : Text) (out : Args) (ps : List Pair)
      → All (Fresh out) ps
      → All (Differs key) ps
      → All (Fresh (out ++ ((key, v) ∷ []))) ps
  Fresh-behind key v out [] fresh differ = tt
  Fresh-behind key v out (p ∷ ps) fresh differ =
      (get-others p.key key v out fresh.0 differ.0, Fresh-behind key v out ps fresh.1 differ.1)

  add_parts-pairs :
      (sep : ℕ) (ps : List Pair) (last_key : Text) (out : Args)
      → ArePairs sep ps
      → All (Fresh out) ps
      → (add_parts to_lower sep (parts_of ps) (last_key, out)).1 ≡ out ++ args_of sep ps
  unfolding add_parts
  add_parts-pairs sep [] last_key out are fresh = sym (append-nil out)
  add_parts-pairs sep (p ∷ ps) last_key out (is, differ, are) fresh =
      let value = join (sep ∷ 32 ∷ []) (p.value ∷ p.parts) in
      ap (λ found. (add_parts to_lower sep (p.parts ++ parts_of ps) found).1)
        (part_of_pair sep p last_key out is fresh.0)
      ∙ ap (λ (found : Text × Args). found.1)
          (parts_of_value sep p.key p.value p.parts (parts_of ps) out is.named is.parts_are fresh.0)
      ∙ add_parts-pairs sep ps p.key (out ++ ((p.key, value) ∷ [])) are
          (Fresh-behind p.key value out ps fresh.1 differ)
      ∙ append_assoc out ((p.key, value) ∷ []) (args_of sep ps)

  add_part-blank :
      (sep : ℕ) (part : Text) (found : Text × Args)
      → add_part to_lower sep (32 ∷ part) found ≡ add_part to_lower sep part found
  unfolding add_part is_space
  add_part-blank sep part found =
      ap (λ t. add_trimmed to_lower sep t found) (trim_space-blank 32 part refl)

  add_parts-onto_blank :
      (sep : ℕ) (parts : List Text) (found : Text × Args)
      → add_parts to_lower sep (onto 32 parts) found ≡ add_parts to_lower sep parts found
  unfolding add_parts add_part trim_space trim_by is_space add_trimmed
  add_parts-onto_blank sep [] found = refl
  add_parts-onto_blank sep (part ∷ parts) found =
      ap (add_parts to_lower sep parts) (add_part-blank sep part found)

  add_parts-split_blank :
      (sep : ℕ) (t : Text) (found : Text × Args)
      → (sep == 32) ≡ false
      → add_parts to_lower sep (split_on sep (32 ∷ t)) found
        ≡ add_parts to_lower sep (split_on sep t) found
  unfolding split_on
  add_parts-split_blank sep t found blank =
      let other : (32 == sep) ≡ false = ground arith in
      rw (split_on, other) (add_parts-onto_blank sep (split_on sep t) found)

  abbrev Unseparated : ℕ → Text → Type 0
  Unseparated sep part = holds sep part ≡ false

  -- The parts are read from their text: each but the first has a blank in front, which is trimmed.
  add_parts-join :
      (sep : ℕ) (part : Text) (parts : List Text) (found : Text × Args)
      → (sep == 32) ≡ false
      → All (Unseparated sep) (part ∷ parts)
      → add_parts to_lower sep (split_on sep (join (sep ∷ 32 ∷ []) (part ∷ parts))) found
        ≡ add_parts to_lower sep (part ∷ parts) found
  unfolding add_parts join
  add_parts-join sep part [] found blank plain =
      ap (λ ts. add_parts to_lower sep ts found) (split_on-plain sep part plain.0)
  add_parts-join sep part (next ∷ parts) found blank plain =
      let rest = join (sep ∷ 32 ∷ []) (next ∷ parts) in
      ap (λ t. add_parts to_lower sep (split_on sep t) found)
        (append_assoc part (sep ∷ 32 ∷ []) rest)
      ∙ ap (λ ts. add_parts to_lower sep ts found) (split_on-sep sep part (32 ∷ rest) plain.0)
      ∙ add_parts-split_blank sep rest (add_part to_lower sep part found) blank
      ∙ add_parts-join sep next parts (add_part to_lower sep part found) blank plain.1

  holds-pair :
      (sep : ℕ) (key v : Text)
      → (sep == b'=') ≡ false
      → holds sep key ≡ false
      → holds sep v ≡ false
      → holds sep (key ++ (b'=' ∷ v)) ≡ false
  holds-pair sep [] v equals h h' = ground arith
  holds-pair sep (c ∷ key) v equals h h' =
      let later = holds-pair sep key v equals (ground arith) h' in ground arith

  parts-Unseparated :
      (sep : ℕ) (parts more : List Text)
      → All (IsPart sep) parts
      → All (Unseparated sep) more
      → All (Unseparated sep) (parts ++ more)
  parts-Unseparated sep [] more are plain = plain
  parts-Unseparated sep (part ∷ parts) more are plain =
      (are.0.unseparated, parts-Unseparated sep parts more are.1 plain)

  pairs-Unseparated :
      (sep : ℕ) (ps : List Pair)
      → (sep == b'=') ≡ false
      → ArePairs sep ps
      → All (Unseparated sep) (parts_of ps)
  pairs-Unseparated sep [] equals are = tt
  pairs-Unseparated sep (p ∷ ps) equals (is, differ, are) = (
    holds-pair sep p.key p.value equals is.key_unseparated is.value_unseparated,
    parts-Unseparated sep p.parts (parts_of ps) is.parts_are (pairs-Unseparated sep ps equals are),
  )

  Fresh-nil : (ps : List Pair) → All (Fresh []) ps
  unfolding get
  Fresh-nil [] = tt
  Fresh-nil (p ∷ ps) = (refl, Fresh-nil ps)

  read_nothing : (sep : ℕ) → parse_key_value_pairs to_lower (join (sep ∷ 32 ∷ []) []) sep ≡ []
  unfolding parse_key_value_pairs join split_on add_parts add_part trim_space trim_by is_space
      add_trimmed
  read_nothing sep = refl

  -- A line of pairs `key=value` is read back pair by pair, in order, also where values hold the separator: each part
  -- behind a separator and a blank that has no equals sign of its own goes on with the value before it, and the
  -- separator and the blank are kept. The keys are in lower letters and differ, and blanks or quotes surround neither
  -- keys nor values.
  pub parse_key_value_pairs-args_of :
      (sep : ℕ) (ps : List Pair)
      → (sep == 32) ≡ false
      → (sep == b'=') ≡ false
      → ArePairs sep ps
      → parse_key_value_pairs to_lower (join (sep ∷ 32 ∷ []) (parts_of ps)) sep ≡ args_of sep ps
  unfolding parse_key_value_pairs
  parse_key_value_pairs-args_of sep [] blank equals are = read_nothing sep
  parse_key_value_pairs-args_of sep (p ∷ ps) blank equals are =
      ap (λ (found : Text × Args). found.1)
        (add_parts-join sep (p.key ++ (b'=' ∷ p.value)) (p.parts ++ parts_of ps) ([], []) blank
          (pairs-Unseparated sep (p ∷ ps) equals are))
      ∙ add_parts-pairs sep (p ∷ ps) [] [] are (Fresh-nil (p ∷ ps))
