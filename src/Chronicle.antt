-- ===== src/Chronicle.antt =====
-- internal/chronicle/chronicle.go: the day-by-day log of a world and its compressed periods. A Go
-- map is the list of its entries in some iteration order; a nil map is the empty one.
pub mod Days
pub mod Compression
pub mod File
use narrative_ai_agent.Prelude.{
  ◌≡◌, Bool, true, false, not, ◌&&◌, ◌||◌, Option, none, some, List, [], ◌∷◌, ◌++◌, if◌then◌else◌,
  Result, ok, err, keep, any, map,
}
use narrative_ai_agent.Prelude.Int.{ℤ, pos, ltb_ℤ, leb_ℤ, eqb_ℤ}
use narrative_ai_agent.Prelude.Text.{Text, lit, is_empty, trim_space}

pub record Period : Type 0 where
  pub from : ℤ
  pub to : ℤ
  pub memory : Text

pub record DayEntry : Type 0 where
  pub number : ℤ
  pub text : Text

pub record Chronicle : Type 0 where
  pub periods : List Period
  pub days : List DayEntry

pub data ChronicleError : Type 0 where
  not_found : ChronicleError
  yaml_unmarshal : Text → ChronicleError
  yaml_marshal : Text → ChronicleError
  invalid_range : ℤ → ℤ → ChronicleError
  empty_memory : ChronicleError
  inside_closed_period : ℤ → ℤ → ChronicleError

abbrev pub window_size : ℤ
window_size = pos 30

-- `sort.Slice` by the day number; the keys of a map are distinct, so its order is determined.
pub insert_day : DayEntry → List DayEntry → List DayEntry
insert_day e [] = e ∷ []
insert_day e (d ∷ ds) = if leb_ℤ e.number d.number then e ∷ d ∷ ds else d ∷ insert_day e ds

pub sort_days : List DayEntry → List DayEntry
sort_days [] = []
sort_days (e ∷ es) = insert_day e (sort_days es)

unfoldable pub sorted_days : Chronicle → List DayEntry
unfolding sort_days insert_day
sorted_days c = sort_days c.days

pub highest_day : ℤ → List DayEntry → ℤ
highest_day highest [] = highest
highest_day highest (d ∷ ds) = highest_day (if ltb_ℤ highest d.number then d.number else highest) ds

pub last_day_of : List DayEntry → Option ℤ
last_day_of [] = none
last_day_of (d ∷ ds) = some (highest_day (pos 0) (d ∷ ds))

-- `none` is Go's `(0, false)`.
unfoldable pub last_day : Chronicle → Option ℤ
unfolding last_day_of highest_day
last_day c = last_day_of c.days

pub highest_end : ℤ → List Period → ℤ
highest_end m [] = m
highest_end m (p ∷ ps) = highest_end (if ltb_ℤ m p.to then p.to else m) ps

pub last_period_end_of : List Period → Option ℤ
last_period_end_of [] = none
last_period_end_of (p ∷ ps) = some (highest_end (pos 0) (p ∷ ps))

unfoldable pub last_period_end : Chronicle → Option ℤ
unfolding last_period_end_of highest_end
last_period_end c = last_period_end_of c.periods

-- `c.Days[day]`.
pub find_day : ℤ → List DayEntry → Option Text
find_day n [] = none
find_day n (d ∷ ds) = if eqb_ℤ d.number n then some d.text else find_day n ds

pub has_day : ℤ → List DayEntry → Bool
has_day n [] = false
has_day n (d ∷ ds) = eqb_ℤ d.number n || has_day n ds

-- The Boolean tells whether the entry was added.
unfoldable pub append_day : Chronicle → ℤ → Text → Chronicle × Bool
unfolding has_day
append_day c day text =
    let text' = trim_space text in
    if is_empty text' || leb_ℤ day (pos 0)
    then (c, false)
    else if has_day day c.days
    then (c, false)
    else (record c { days = c.days ++ record { number = day; text = text' } ∷ [] }, true)

abbrev pub within : ℤ → ℤ → ℤ → Bool
within from to n = leb_ℤ from n && leb_ℤ n to

-- The days that `CompressWindow` does not delete.
pub delete_days : ℤ → ℤ → List DayEntry → List DayEntry
delete_days from to = keep (λ d. not (within from to d.number))

unfoldable pub closed_before : ℤ → Option ℤ → Bool
closed_before from none = false
closed_before from (some last_end) = leb_ℤ from last_end

unfoldable pub compress_window : Chronicle → ℤ → ℤ → Text → Result ChronicleError Chronicle
unfolding closed_before delete_days
compress_window c from to memory =
    let memory' = trim_space memory in
    if ltb_ℤ to from || leb_ℤ from (pos 0) || leb_ℤ to (pos 0)
    then err (invalid_range from to)
    else if is_empty memory'
    then err empty_memory
    else if closed_before from (last_period_end c)
    then err (inside_closed_period from to)
    else ok (record {
      periods = c.periods ++ record { from = from; to = to; memory = memory' } ∷ [];
      days = delete_days from to c.days;
    })
