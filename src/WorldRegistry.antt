-- ===== src/WorldRegistry.antt =====
-- internal/worldregistry/worldregistry.go: the roster of a world's NPCs. `strings.EqualFold`, `unicode.ToLower`
-- and the YAML library are parameters.
pub mod Matching
use narrative_ai_agent.Prelude.{
  ℕ, Bool, true, false, not, ◌&&◌, ◌||◌, Option, none, some, List, [], ◌∷◌, ◌++◌, if◌then◌else◌,
  ltb, ◌==◌, any, map, Result, ok, err,
}
use narrative_ai_agent.Prelude.Text.{Text, is_empty, trim_space, has_infix}

pub record Entry : Type 0 where
  pub slug : Text
  pub display_name : Text
  pub nicknames : List Text

pub data RegistryError : Type 0 where
  empty_registry : RegistryError
  no_world : RegistryError
  unparsed : Text → RegistryError
  empty_slug : RegistryError
  slug_taken : Text → RegistryError

-- `<` on strings: the order of UTF-8 bytes is the order of code points.
unfoldable pub text_less : Text → Text → Bool
text_less a [] = false
text_less [] (d ∷ ds) = true
text_less (c ∷ cs) (d ∷ ds) = ltb c d || (c == d && text_less cs ds)

-- `sort.SliceStable` by slug.
unfoldable pub insert : Entry → List Entry → List Entry
unfolding text_less
insert e [] = e ∷ []
insert e (x ∷ xs) = if text_less x.slug e.slug then x ∷ insert e xs else e ∷ x ∷ xs

unfoldable pub sort : List Entry → List Entry
unfolding insert
sort [] = []
sort (e ∷ es) = insert e (sort es)

-- The registry that `Load` answers, where it answers one, and its error, where there is one.
unfoldable pub load_registry :
    (Text → Result Text (List Entry))
    → Text
    → Result Text Text
    → Option (List Entry) × Option RegistryError
unfolding sort trim_space
load_registry unmarshal world body = if is_empty world then (none, some no_world) else elim body [
  | err e ↦ (some [], some empty_registry)
  | ok text ↦
      if is_empty (trim_space text) then (some [], some empty_registry) else elim (unmarshal text) [
        | err e ↦ (none, some (unparsed e))
        | ok npcs ↦ (some (sort npcs), none)
      ]
]

abbrev zero_entry : Entry
zero_entry = record { slug = []; display_name = []; nicknames = [] }

module _ (to_lower : ℕ → ℕ) (equal_fold : Text → Text → Bool) where
  -- `strings.ToLower`.
  lower : Text → Text
  lower t = map to_lower t

  unfoldable pub match_any_field : Entry → Text → Bool
  unfolding lower has_infix
  match_any_field e want =
      has_infix want (lower e.display_name)
      || any (λ n. has_infix want (lower n)) e.nicknames
      || (not (is_empty e.display_name) && has_infix (lower e.display_name) want)
      || any (λ n. not (is_empty n) && has_infix (lower n) want) e.nicknames

  -- The test of the first stage.
  unfoldable pub is_exact : Entry → Text → Bool
  unfolding trim_space
  is_exact e want =
      equal_fold e.slug want
      || equal_fold (trim_space e.display_name) want
      || any (λ n. equal_fold (trim_space n) want) e.nicknames

  first_exact : List Entry → Text → Option Entry
  unfolding is_exact
  first_exact [] want = none
  first_exact (e ∷ es) want =
      let later = first_exact es want in if is_exact e want then some e else later

  -- The second stage, from the hit and the flag on.
  partial_from : Entry → Bool → List Entry → Text → Option Entry
  unfolding match_any_field
  partial_from hit ambiguous [] want =
      if not (is_empty hit.slug) && not ambiguous then some hit else none
  partial_from hit ambiguous (e ∷ es) want =
      let matches = match_any_field e want in
      partial_from (if matches && is_empty hit.slug then e else hit)
        (if matches && not (is_empty hit.slug) then true else ambiguous) es want

  abbrev or_partial : Option Entry → List Entry → Text → Option Entry
  or_partial (some e) es want = some e
  or_partial none es want = partial_from zero_entry false es want

  unfoldable pub wanted : Text → Text
  unfolding lower trim_space
  wanted name = lower (trim_space name)

  unfoldable pub lookup : List Entry → Text → Option Entry
  unfolding wanted first_exact partial_from
  lookup es name =
      if is_empty (wanted name)
      then none
      else or_partial (first_exact es (wanted name)) es (wanted name)

  unfoldable pub is_taken : List Entry → Text → Bool
  is_taken es slug = any (λ ex. equal_fold ex.slug slug) es

  abbrev pub trimmed : Entry → Entry
  trimmed e = record e { slug = trim_space e.slug; display_name = trim_space e.display_name }

  unfoldable pub add : List Entry → Entry → Result RegistryError (List Entry)
  unfolding is_taken sort trim_space
  add es e =
      let slug = trim_space e.slug in
      if is_empty slug
      then err empty_slug
      else if is_taken es slug
      then err (slug_taken slug)
      else ok (sort (es ++ (trimmed e ∷ [])))
