-- ===== src/Chronicle/Compression.antt =====
-- What keeps the periods of a chronicle disjoint and in order, and the raw days outside them.
use narrative_ai_agent.Prelude.{
  ◌≡◌, refl, ◌≢◌, ◌↔◌, ◌⊎◌, inl, inr, Bool, true, false, ◌||◌, none, List, [], ◌∷◌, ◌++◌,
  if◌then◌else◌, ok, arith, All, any, Bool-cases, subst,
}
use narrative_ai_agent.Prelude.Int.{ℤ, pos, ltb_ℤ, leb_ℤ, eqb_ℤ, ◌≤ℤ◌, ◌<ℤ◌, eqb_ℤ_iff}
use narrative_ai_agent.Prelude.Text.{Text, is_empty, is_empty_iff, trim_space}
use narrative_ai_agent.Chronicle.{
  Period, DayEntry, Chronicle, highest_end, last_period_end_of, last_period_end, find_day, has_day,
  append_day, within, delete_days, closed_before, compress_window,
}

-- Every period begins after the end of the one before it (the first one after day `last`) and does
-- not end before it begins.
abbrev IsOrdered : ℤ → List Period → Type 0
IsOrdered last [] = Unit
IsOrdered last (p ∷ ps) = (last <ℤ p.from) × (p.from ≤ℤ p.to) × IsOrdered p.to ps

-- The day is not one of the period's days.
abbrev IsOutside : ℤ → Period → Type 0
IsOutside n p = (n <ℤ p.from) ⊎ (p.to <ℤ n)

pub record IsWellFormed (c : Chronicle) : Type 0 where
  pub ordered : IsOrdered (pos 0) c.periods
  pub outside : All (λ d. All (IsOutside d.number) c.periods) c.days

-- The last end of ordered periods is at least every end, and a period that begins after it keeps
-- the order.
highest_end-ge : (m : ℤ) (ps : List Period) → IsOrdered m ps → m ≤ℤ highest_end m ps
unfolding highest_end
highest_end-ge m [] h = omega arith
highest_end-ge m (p ∷ ps) (a, b, r) =
    let rest : p.to ≤ℤ highest_end p.to ps = highest_end-ge p.to ps r in
    elim (Bool-cases (ltb_ℤ m p.to)) [ inl e ↦ rw e (omega arith) | inr e ↦ absurd (ground arith) ]

highest_end-IsOrdered :
    (m : ℤ) (ps : List Period) (p : Period)
    → IsOrdered m ps
    → highest_end m ps <ℤ p.from
    → p.from ≤ℤ p.to
    → IsOrdered m (ps ++ p ∷ [])
unfolding highest_end
highest_end-IsOrdered m [] p h a b = (a, b, tt)
highest_end-IsOrdered m (q ∷ ps) p (x, y, r) a b = elim (Bool-cases (ltb_ℤ m q.to)) [
  | inl e ↦ (x, y, highest_end-IsOrdered q.to ps p r (rw e at a) b)
  | inr e ↦ absurd (ground arith)
]

highest_end-IsOutside :
    (m n : ℤ) (ps : List Period) → highest_end m ps <ℤ n → All (IsOutside n) ps × (m <ℤ n)
unfolding highest_end
highest_end-IsOutside m n [] h = (tt, h)
highest_end-IsOutside m n (p ∷ ps) h =
    let (rest, lt) = highest_end-IsOutside (if ltb_ℤ m p.to then p.to else m) n ps h in
    elim (Bool-cases (ltb_ℤ m p.to)) [
      | inl e ↦ ((inr (rw e at lt), rest), ground arith)
      | inr e ↦ ((inr (ground arith), rest), rw e at lt)
    ]

All-concat {ℓ κ} :
    {A : Type ℓ} (P : A → Type κ) (xs : List A) (x : A) → All P xs → P x → All P (xs ++ x ∷ [])
All-concat P [] x h p = (p, tt)
All-concat P (y ∷ xs) x h p = (h.0, All-concat P xs x h.1 p)

-- What `LastPeriodEnd` says of the start of a new period.
after_last_end :
    (ps : List Period) (n : ℤ)
    → pos 0 <ℤ n
    → closed_before n (last_period_end_of ps) ≡ false
    → highest_end (pos 0) ps <ℤ n
unfolding last_period_end_of highest_end closed_before
after_last_end [] n h e = h
after_last_end (p ∷ ps) n h e = ground arith

delete_days-IsOutside :
    (from to : ℤ) (memory : Text) (ps : List Period) (ds : List DayEntry)
    → All (λ d. All (IsOutside d.number) ps) ds
    → All
        (λ d.
          All (IsOutside d.number) (ps ++ record { from = from; to = to; memory = memory } ∷ []))
        (delete_days from to ds)
unfolding delete_days
delete_days-IsOutside from to memory ps [] h = tt
delete_days-IsOutside from to memory ps (d ∷ ds) h =
    let rest = delete_days-IsOutside from to memory ps ds h.1 in
    elim (Bool-cases (within from to d.number)) [
      | inl e ↦ rw e rest
      | inr e ↦ rw e (
        All-concat (IsOutside d.number) ps (record { from = from; to = to; memory = memory }) h.0
            (outside_of d.number e),
        rest,
      )
    ]
  where
    outside_of :
        (n : ℤ)
        → within from to n ≡ false
        → IsOutside n (record { from = from; to = to; memory = memory })
    outside_of n e = ground arith

-- The chronicle that `CompressWindow` leaves when it succeeds.
abbrev pub compressed : Chronicle → ℤ → ℤ → Text → Chronicle
compressed c from to memory = record {
  periods = c.periods ++ record { from = from; to = to; memory = trim_space memory } ∷ [];
  days = delete_days from to c.days;
}

-- `CompressWindow` succeeds exactly when the range is positive and not reversed, the trimmed memory
-- is not empty, and the range begins after every closed period; it then appends the period and
-- deletes the days of the range.
pub compress_window-ok_iff :
    (c c' : Chronicle) (from to : ℤ) (memory : Text)
    → (compress_window c from to memory ≡ ok c') ↔ (
        (from ≤ℤ to)
        × (pos 0 <ℤ from)
        × (trim_space memory ≢ [])
        × (closed_before from (last_period_end c) ≡ false)
        × (c' ≡ compressed c from to memory))
unfolding compress_window
compress_window-ok_iff c c' from to memory = ground (arith, is_empty_iff (trim_space memory))

-- A successful compression keeps the chronicle well-formed: the periods stay disjoint and in
-- ascending order, and no raw day lies in a period, the new one included.
pub compress_window-IsWellFormed :
    (c c' : Chronicle) (from to : ℤ) (memory : Text)
    → IsWellFormed c
    → compress_window c from to memory ≡ ok c'
    → IsWellFormed c'
compress_window-IsWellFormed c c' from to memory h e =
    let (le, positive, text, after, result) = (compress_window-ok_iff c c' from to memory).0 e in
    rw result (record {
      ordered =
          highest_end-IsOrdered (pos 0) c.periods _ h.ordered
            (after_last_end c.periods from positive (unfold last_period_end in after)) le;
      outside = delete_days-IsOutside from to (trim_space memory) c.periods c.days h.outside;
    })

-- `AppendDay` keeps the chronicle well-formed if the day comes after every closed period.
pub append_day-IsWellFormed :
    (c : Chronicle) (day : ℤ) (text : Text)
    → IsWellFormed c
    → closed_before day (last_period_end c) ≡ false
    → IsWellFormed (append_day c day text).0
unfolding append_day
append_day-IsWellFormed c day text h after =
    elim (Bool-cases (is_empty (trim_space text) || leb_ℤ day (pos 0))) [
      | inl e ↦ rw e h
      | inr e ↦ elim (Bool-cases (has_day day c.days)) [
        | inl f ↦ rw (e, f) h
        | inr f ↦
            rw (e, f)
              (record {
                ordered = h.ordered;
                outside =
                    All-concat (λ d. All (IsOutside d.number) c.periods) c.days _ h.outside
                      (highest_end-IsOutside (pos 0) day c.periods (
                        after_last_end c.periods day (ground arith)
                          (unfold last_period_end in after))).0;
              })
      ]
    ]

-- After a successful compression the days of the range are gone and every other look-up of a raw
-- day is as before.
pub compress_window-find :
    (c c' : Chronicle) (from to n : ℤ) (memory : Text)
    → compress_window c from to memory ≡ ok c'
    → find_day n c'.days ≡ (if within from to n then none else find_day n c.days)
unfolding find_day delete_days
compress_window-find c c' from to n memory e =
    let (le, positive, text, after, result) = (compress_window-ok_iff c c' from to memory).0 e in
    rw result (find_day-delete_days c.days)
  where
    find_day-delete_days :
        (ds : List DayEntry)
        → find_day n (delete_days from to ds) ≡ (if within from to n then none else find_day n ds)
    find_day-delete_days [] = ground arith
    find_day-delete_days (d ∷ ds) = ground (arith, find_day-delete_days ds, eqb_ℤ_iff d.number n)

-- The periods have a period that covers the day.
abbrev is_closed : ℤ → List Period → Bool
is_closed n = any (λ p. within p.from p.to n)

closed-not-outside : (n : ℤ) (ps : List Period) → is_closed n ps ≡ true → All (IsOutside n) ps → ⊥
closed-not-outside n [] h o = cc
closed-not-outside n (p ∷ ps) h o = elim (Bool-cases (within p.from p.to n)) [
  | inl e ↦ elim o.0 [ inl a ↦ ground arith | inr a ↦ ground arith ]
  | inr e ↦ closed-not-outside n ps (ground arith) o.1
]

All-last {ℓ κ} : {A : Type ℓ} (P : A → Type κ) (xs : List A) (x : A) → All P (xs ++ x ∷ []) → P x
All-last P [] x h = h.0
All-last P (y ∷ xs) x h = All-last P xs x h.1

closed-not-recorded :
    (n : ℤ) (ps : List Period) (ds : List DayEntry)
    → is_closed n ps ≡ true
    → All (λ d. All (IsOutside d.number) ps) ds
    → has_day n ds ≡ false
unfolding has_day
closed-not-recorded n ps [] h o = refl
closed-not-recorded n ps (d ∷ ds) h o = elim (Bool-cases (eqb_ℤ d.number n)) [
  | inl e ↦ absurd (
      closed-not-outside n ps h
        (subst (λ k. All (IsOutside k) ps) ((eqb_ℤ_iff d.number n).0 e) o.0))
  | inr e ↦ rw e (closed-not-recorded n ps ds h o.1)
]

-- A day that a closed period already covers is accepted again: from a well-formed chronicle
-- `AppendDay` adds the positive day with its non-empty text, and the result is not well-formed.
pub append_day-of_closed :
    (c : Chronicle) (day : ℤ) (text : Text)
    → IsWellFormed c
    → is_closed day c.periods ≡ true
    → pos 0 <ℤ day
    → trim_space text ≢ []
    → ((append_day c day text).1 ≡ true) × ¬ IsWellFormed (append_day c day text).0
append_day-of_closed c day text h closed positive nonempty =
    let fresh = closed-not-recorded day c.periods c.days closed h.outside in
    let a : is_empty (trim_space text) ≡ false = ground (arith, is_empty_iff (trim_space text)) in
    let b : leb_ℤ day (pos 0) ≡ false = ground arith in
    unfold append_day in
    rw (a, b, fresh)
      (
        refl,
        λ w.
            closed-not-outside day c.periods closed
              (All-last (λ d. All (IsOutside d.number) c.periods) c.days _ w.outside),
      )
