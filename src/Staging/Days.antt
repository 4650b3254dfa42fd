-- ===== src/Staging/Days.antt =====
-- The on-disk shape of staging.yaml, and `parseDaysRange`.
use narrative_ai_agent.Prelude.{
  ◌≡◌, Bool, Option, none, some, List, [], ◌∷◌, if◌then◌else◌, arith, ◌==◌, Bool-cases, inl, inr,
}
use narrative_ai_agent.Prelude.Int.{ℤ, pos, ltb_ℤ, ◌≤ℤ◌}
use narrative_ai_agent.Prelude.Text.{Text, is_empty, trim_space, atoi}

pub record TimelineYaml : Type 0 where
  pub days : Text
  pub info : Text
  pub description : Text

pub record TransitionYaml : Type 0 where
  pub id : Text
  pub requirements : List Text

pub record StageYaml : Type 0 where
  pub id : Text
  pub name : Text
  pub description : Text
  pub timeline : List TimelineYaml
  pub next : List TransitionYaml

pub record StagingFile : Type 0 where
  pub enabled : Bool
  pub init : List Text
  pub stages : List StageYaml

-- `strings.SplitN(s, "-", 2)` where there is a dash.
split_dash : Text → Option (Text × Text)
split_dash [] = none
split_dash (c ∷ cs) = elim (split_dash cs) [
  | none ↦ if c == b'-' then some ([], cs) else none
  | some (before, after) ↦ if c == b'-' then some ([], cs) else some (c ∷ before, after)
]

range_of : Option ℤ → Option ℤ → Option (ℤ × ℤ)
range_of (some lo) (some hi) = if ltb_ℤ hi lo then none else some (lo, hi)
range_of _ _ = none

single_day : Option ℤ → Option (ℤ × ℤ)
single_day none = none
single_day (some n) = some (n, n)

-- The range on either side of the first dash, or a single day.
days_of : Option (Text × Text) → Text → Option (ℤ × ℤ)
unfolding range_of single_day
days_of (some (lo, hi)) s = range_of (atoi (trim_space lo)) (atoi (trim_space hi))
days_of none s = single_day (atoi s)

-- `none` is an error.
unfoldable pub parse_days_range : Text → Option (ℤ × ℤ)
unfolding split_dash days_of
parse_days_range s =
    let s' = trim_space s in if is_empty s' then some (pos 0, pos 0) else days_of (split_dash s') s'

range_of-ordered : (a b : Option ℤ) {lo hi : ℤ} → range_of a b ≡ some (lo, hi) → lo ≤ℤ hi
unfolding range_of
range_of-ordered (some a) (some b) h = ground arith
range_of-ordered none b h = cc
range_of-ordered (some a) none h = cc

single_day-ordered : (a : Option ℤ) {lo hi : ℤ} → single_day a ≡ some (lo, hi) → lo ≤ℤ hi
unfolding single_day
single_day-ordered (some a) h = ground arith
single_day-ordered none h = cc

days_of-ordered :
    (o : Option (Text × Text)) (s : Text) {lo hi : ℤ} → days_of o s ≡ some (lo, hi) → lo ≤ℤ hi
unfolding days_of
days_of-ordered (some (a, b)) s h = range_of-ordered (atoi (trim_space a)) (atoi (trim_space b)) h
days_of-ordered none s h = single_day-ordered (atoi s) h

-- A range that is accepted is not reversed.
parse_days_range-ordered : (s : Text) {lo hi : ℤ} → parse_days_range s ≡ some (lo, hi) → lo ≤ℤ hi
unfolding parse_days_range
parse_days_range-ordered s {lo} {hi} h = elim (Bool-cases (is_empty (trim_space s))) [
  | inl e ↦ ground arith
  | inr e ↦
      days_of-ordered (split_dash (trim_space s)) (trim_space s) {lo = lo} {hi = hi} (ground arith)
]
