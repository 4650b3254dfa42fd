-- ===== src/Chronicle/Days.antt =====
-- The raw days of a chronicle: their order, the last one, and how a day is added.
use mathlib.Core.List.Perm
use mathlib.Core.List.{Perm}
use narrative_ai_agent.Prelude.{
  ◌≡◌, refl, ◌≢◌, ◌↔◌, ◌⊎◌, ◌&&◌, ◌||◌, subst, inl, inr, Bool, true, false, none, some, List, [],
  ◌∷◌, ◌++◌, if◌then◌else◌, arith, All, Bool-cases,
}
use narrative_ai_agent.Prelude.Int.{ℤ, pos, ltb_ℤ, leb_ℤ, eqb_ℤ, ◌≤ℤ◌, eqb_ℤ_iff}
use narrative_ai_agent.Prelude.Text.{Text, is_empty_iff, trim_space}
use narrative_ai_agent.Chronicle.{
  DayEntry, Chronicle, insert_day, sort_days, sorted_days, highest_day, last_day_of, last_day,
  find_day, has_day, append_day,
}

-- Each day is at most every later one.
abbrev pub IsSorted : List DayEntry → Type 0
IsSorted [] = Unit
IsSorted (d ∷ ds) = All (λ e. d.number ≤ℤ e.number) ds × IsSorted ds

All-insert_day :
    (n : ℤ) (e : DayEntry) (ds : List DayEntry)
    → n ≤ℤ e.number
    → All (λ d. n ≤ℤ d.number) ds
    → All (λ d. n ≤ℤ d.number) (insert_day e ds)
unfolding insert_day
All-insert_day n e [] h hs = (h, tt)
All-insert_day n e (d ∷ ds) h hs = elim (Bool-cases (leb_ℤ e.number d.number)) [
  | inl b ↦ rw b (h, hs)
  | inr b ↦ rw b (hs.0, All-insert_day n e ds h hs.1)
]

All-le_trans :
    (a b : ℤ) (ds : List DayEntry)
    → a ≤ℤ b
    → All (λ d. b ≤ℤ d.number) ds
    → All (λ d. a ≤ℤ d.number) ds
All-le_trans a b [] h hs = tt
All-le_trans a b (d ∷ ds) h hs = (omega arith, All-le_trans a b ds h hs.1)

insert_day-IsSorted : (e : DayEntry) (ds : List DayEntry) → IsSorted ds → IsSorted (insert_day e ds)
unfolding insert_day
insert_day-IsSorted e [] h = (tt, tt)
insert_day-IsSorted e (d ∷ ds) h = elim (Bool-cases (leb_ℤ e.number d.number)) [
  | inl b ↦
      let le : e.number ≤ℤ d.number = ground arith in
      rw b ((le, All-le_trans e.number d.number ds le h.0), h)
  | inr b ↦
      let le : d.number ≤ℤ e.number = ground arith in
      rw b (All-insert_day d.number e ds le h.0, insert_day-IsSorted e ds h.1)
]

sort_days-IsSorted : (ds : List DayEntry) → IsSorted (sort_days ds)
unfolding sort_days
sort_days-IsSorted [] = tt
sort_days-IsSorted (d ∷ ds) = insert_day-IsSorted d (sort_days ds) (sort_days-IsSorted ds)

insert_day-perm : (e : DayEntry) (ds : List DayEntry) → Perm (insert_day e ds) (e ∷ ds)
unfolding insert_day
insert_day-perm e [] = Perm.refl (e ∷ [])
insert_day-perm e (d ∷ ds) = elim (Bool-cases (leb_ℤ e.number d.number)) [
  | inl b ↦ rw b (Perm.refl (e ∷ d ∷ ds))
  | inr b ↦ rw b (Perm.trans (Perm.cons d (insert_day-perm e ds)) (Perm.swap e d ds))
]

sort_days-perm : (ds : List DayEntry) → Perm (sort_days ds) ds
unfolding sort_days
sort_days-perm [] = Perm.refl []
sort_days-perm (d ∷ ds) =
    Perm.trans (insert_day-perm d (sort_days ds)) (Perm.cons d (sort_days-perm ds))

-- `SortedDays` lists exactly the recorded days, each as often as it is recorded, in ascending
-- order of their numbers.
pub sorted_days-IsSorted_perm :
    (c : Chronicle) → IsSorted (sorted_days c) × Perm (sorted_days c) c.days
unfolding sorted_days
sorted_days-IsSorted_perm c = (sort_days-IsSorted c.days, sort_days-perm c.days)

highest_day-ge : (m : ℤ) (ds : List DayEntry) → m ≤ℤ highest_day m ds
unfolding highest_day
highest_day-ge m [] = omega arith
highest_day-ge m (d ∷ ds) =
    let step = if ltb_ℤ m d.number then d.number else m in
    let le : m ≤ℤ step = ground arith in
    let rest : step ≤ℤ highest_day step ds = highest_day-ge step ds in omega arith

highest_day-All : (m : ℤ) (ds : List DayEntry) → All (λ d. d.number ≤ℤ highest_day m ds) ds
unfolding highest_day
highest_day-All m [] = tt
highest_day-All m (d ∷ ds) =
    let step = if ltb_ℤ m d.number then d.number else m in
    let le : d.number ≤ℤ step = ground arith in
    let rest : step ≤ℤ highest_day step ds = highest_day-ge step ds in
    (omega arith, highest_day-All step ds)

or_true : (b : Bool) → (b || true) ≡ true
or_true b = ground arith

-- The maximum is the start value or one of the days.
highest_day-attained :
    (m : ℤ) (ds : List DayEntry) → (highest_day m ds ≡ m) ⊎ (has_day (highest_day m ds) ds ≡ true)
unfolding highest_day has_day
highest_day-attained m [] = inl refl
highest_day-attained m (d ∷ ds) =
    let step = if ltb_ℤ m d.number then d.number else m in
    elim (highest_day-attained step ds) [
      | inl e ↦ elim (Bool-cases (ltb_ℤ m d.number)) [
        | inl b ↦ inr (ground (arith, eqb_ℤ_iff d.number (highest_day step ds)))
        | inr b ↦ inl (ground arith)
      ]
      | inr e ↦ inr (rw e (or_true _))
    ]

-- When `LastDay` answers, its answer is at least every recorded day, and it is a recorded day
-- whenever some recorded day is positive.
pub last_day_max :
    (c : Chronicle) (n : ℤ)
    → last_day c ≡ some n
    → All (λ d. d.number ≤ℤ n) c.days × ((n ≡ pos 0) ⊎ (has_day n c.days ≡ true))
unfolding last_day
last_day_max c n h = last_day_of_max c.days n h
  where
    last_day_of_max :
        (ds : List DayEntry) (n : ℤ)
        → last_day_of ds ≡ some n
        → All (λ d. d.number ≤ℤ n) ds × ((n ≡ pos 0) ⊎ (has_day n ds ≡ true))
    last_day_of_max [] n h = cc
    last_day_of_max (d ∷ ds) n h =
        let e : highest_day (pos 0) (d ∷ ds) ≡ n = cc in
        subst (λ k. All (λ d. d.number ≤ℤ k) (d ∷ ds) × ((k ≡ pos 0) ⊎ (has_day k (d ∷ ds) ≡ true)))
          e (highest_day-All (pos 0) (d ∷ ds), highest_day-attained (pos 0) (d ∷ ds))

has_day-concat :
    (n : ℤ) (ds : List DayEntry) (e : DayEntry)
    → has_day n (ds ++ e ∷ []) ≡ (has_day n ds || eqb_ℤ e.number n)
unfolding has_day
has_day-concat n [] e = ground arith
has_day-concat n (d ∷ ds) e = ground (arith, has_day-concat n ds e)

find_day-concat :
    (n : ℤ) (ds : List DayEntry) (e : DayEntry)
    → find_day n (ds ++ e ∷ [])
      ≡ (if has_day n ds then find_day n ds else if eqb_ℤ e.number n then some e.text else none)
unfolding has_day find_day
find_day-concat n [] e = refl
find_day-concat n (d ∷ ds) e = ground (arith, find_day-concat n ds e)

-- A day that is not recorded has no text.
has_day-find : (n : ℤ) (ds : List DayEntry) → has_day n ds ≡ false → find_day n ds ≡ none
unfolding has_day find_day
has_day-find n [] h = refl
has_day-find n (d ∷ ds) h = ground (arith, has_day-find n ds)

-- `AppendDay` adds an entry exactly when the trimmed text is not empty, the day is positive and the
-- day is not recorded yet.
pub append_day-added_iff :
    (c : Chronicle) (day : ℤ) (text : Text)
    → ((append_day c day text).1 ≡ true)
      ↔ ((trim_space text ≢ []) × (leb_ℤ day (pos 0) ≡ false) × (has_day day c.days ≡ false))
unfolding append_day
append_day-added_iff c day text = ground (arith, is_empty_iff (trim_space text))

-- After `AppendDay`, a look-up of the day finds the trimmed text if the entry was added; every
-- other look-up, and the periods, are as before; and a refused call changes nothing.
pub append_day-find :
    (c : Chronicle) (day n : ℤ) (text : Text)
    → (find_day n (append_day c day text).0.days ≡ (
        if (append_day c day text).1 && eqb_ℤ day n
        then some (trim_space text)
        else find_day n c.days))
      × ((append_day c day text).0.periods ≡ c.periods)
unfolding append_day find_day
append_day-find c day n text = ground (
  arith,
  find_day-concat n c.days (record { number = day; text = trim_space text }),
  eqb_ℤ_iff day n,
  has_day-find n c.days,
)

-- A second `AppendDay` of the same day adds nothing, whatever its text.
append_day-twice :
    (c : Chronicle) (day : ℤ) (text again : Text)
    → (append_day c day text).1 ≡ true
    → append_day (append_day c day text).0 day again ≡ ((append_day c day text).0, false)
unfolding append_day
append_day-twice c day text again h = ground (
  arith,
  has_day-concat day c.days (record { number = day; text = trim_space text }),
  eqb_ℤ_iff day day,
)
