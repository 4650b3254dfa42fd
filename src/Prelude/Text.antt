-- ===== src/Prelude/Text.antt =====
-- Go strings as the list of their code points, with the functions of `strings` and `strconv` that
-- the program calls.
use Prim.Native.Char.{code}
use Prim.Native.Nat.{ℕ, ◌+◌, ◌-◌, ◌*◌, ◌^◌}
use Prim.Native.String.{String}
use mathlib.Core.Path.{◌≡◌, refl, sym, ap, ◌∙◌}
use mathlib.Core.Logic.{◌↔◌, inl, inr}
use mathlib.Core.Bool.{Bool, true, false, not, ◌&&◌, ◌||◌}
use mathlib.Core.List.{List, [], ◌∷◌, ◌++◌, map}
use mathlib.Core.Option.{Option, none, some}
use native.Mathlib.Omega.{arith}
use narrative_ai_agent.Prelude.Tests.{ltb, leb, ◌==◌, if◌then◌else◌, Bool-cases}
use narrative_ai_agent.Prelude.Lists.{any, All}
use narrative_ai_agent.Prelude.Int.{ℤ, pos, negsuc}

abbrev pub Text : Type 0
Text = List ℕ

-- A literal.
abbrev pub lit : String → Text
lit String.[] = []
lit (String.◌∷◌ c s) = code c ∷ lit s

unfoldable pub text_eq : Text → Text → Bool
text_eq [] [] = true
text_eq (a ∷ as') (b ∷ bs) = a == b && text_eq as' bs
text_eq _ _ = false

pub text_eq_iff : (a b : Text) → (text_eq a b ≡ true) ↔ (a ≡ b)
unfolding text_eq
text_eq_iff (x ∷ a) (y ∷ b) = ground (arith, text_eq_iff a b)
text_eq_iff _ _ = ground arith

pub text_eq_refl : (a : Text) → text_eq a a ≡ true
text_eq_refl a = (text_eq_iff a a).1 refl

-- `unicode.IsSpace`.
unfoldable pub is_space : ℕ → Bool
is_space c =
    (leb 9 c && leb c 13)
    || c == 0x20
    || c == 0x85
    || c == 0xa0
    || c == 0x1680
    || (leb 0x2000 c && leb c 0x200a)
    || c == 0x2028
    || c == 0x2029
    || c == 0x202f
    || c == 0x205f
    || c == 0x3000

abbrev pub is_empty : Text → Bool
is_empty [] = true
is_empty (c ∷ cs) = false

pub is_empty_iff : (t : Text) → (is_empty t ≡ true) ↔ (t ≡ [])
is_empty_iff [] = ground arith
is_empty_iff (c ∷ cs) = ground arith

module _ (cut : ℕ → Bool) where
  unfoldable pub trim_left : Text → Text
  trim_left [] = []
  trim_left (c ∷ cs) = if cut c then trim_left cs else c ∷ cs

  -- One character in front of a text that has been trimmed on the right.
  push_left : ℕ → Text → Text
  push_left c [] = if cut c then [] else c ∷ []
  push_left c (x ∷ xs) = c ∷ x ∷ xs

  trim_right : Text → Text
  trim_right [] = []
  trim_right (c ∷ cs) = push_left c (trim_right cs)

  -- `strings.Trim`, with the test for the characters to cut.
  unfoldable pub trim_by : Text → Text
  unfolding trim_left trim_right push_left
  trim_by t = trim_left (trim_right t)

  trim_left-trim_left : (t : Text) → trim_left (trim_left t) ≡ trim_left t
  unfolding trim_left
  trim_left-trim_left [] = refl
  trim_left-trim_left (c ∷ cs) = elim (Bool-cases (cut c)) [
    | inl e ↦ rw e (trim_left-trim_left cs)
    | inr e ↦ rw e (rw e)
  ]

  trim_right-push_left :
      (c : ℕ) (t : Text) → trim_right t ≡ t → trim_right (push_left c t) ≡ push_left c t
  unfolding trim_right push_left
  trim_right-push_left c [] h = ground arith
  trim_right-push_left c (x ∷ xs) h = rw h

  trim_right-trim_right : (t : Text) → trim_right (trim_right t) ≡ trim_right t
  unfolding trim_right
  trim_right-trim_right [] = refl
  trim_right-trim_right (c ∷ cs) = trim_right-push_left c (trim_right cs) (trim_right-trim_right cs)

  trim_left-push_left : (c : ℕ) (t : Text) → cut c ≡ true → trim_left (push_left c t) ≡ trim_left t
  unfolding trim_left push_left
  trim_left-push_left c [] h = rw h
  trim_left-push_left c (x ∷ xs) h = rw h

  push_left-trim_left :
      (c : ℕ) (t : Text) → cut c ≡ false → trim_left (push_left c t) ≡ push_left c t
  unfolding trim_left push_left
  push_left-trim_left c [] h = rw h (rw h)
  push_left-trim_left c (x ∷ xs) h = rw h

  trim_left-trim_right : (t : Text) → trim_right (trim_left t) ≡ trim_left (trim_right t)
  unfolding trim_left trim_right
  trim_left-trim_right [] = refl
  trim_left-trim_right (c ∷ cs) = elim (Bool-cases (cut c)) [
    | inl e ↦ rw (e, trim_left-push_left c (trim_right cs) e) (trim_left-trim_right cs)
    | inr e ↦ rw (e, push_left-trim_left c (trim_right cs) e)
  ]

  -- Trimming twice is trimming once.
  pub trim_by-trim_by : (t : Text) → trim_by (trim_by t) ≡ trim_by t
  unfolding trim_by
  trim_by-trim_by t =
      ap trim_left (trim_left-trim_right (trim_right t) ∙ ap trim_left (trim_right-trim_right t))
      ∙ trim_left-trim_left (trim_right t)

  -- A text in which there is nothing to cut.
  pub trim_by-nothing : (t : Text) → any cut t ≡ false → trim_by t ≡ t
  unfolding trim_by trim_left trim_right push_left
  trim_by-nothing t h = rw (trim_right-nothing t h) (trim_left-nothing t h)
    where
      trim_right-nothing : (t : Text) → any cut t ≡ false → trim_right t ≡ t
      trim_right-nothing [] h = refl
      trim_right-nothing (c ∷ []) h = ground arith
      trim_right-nothing (c ∷ d ∷ cs) h = rw (trim_right-nothing (d ∷ cs) (ground arith))

      trim_left-nothing : (t : Text) → any cut t ≡ false → trim_left t ≡ t
      trim_left-nothing [] h = refl
      trim_left-nothing (c ∷ cs) h = ground arith

  module _ (P : ℕ → Type 0) where
    All-trim_left : (t : Text) → All P t → All P (trim_left t)
    unfolding trim_left
    All-trim_left [] h = tt
    All-trim_left (c ∷ cs) h = elim (Bool-cases (cut c)) [
      | inl e ↦ rw e (All-trim_left cs h.1)
      | inr e ↦ rw e h
    ]

    All-push_left : (c : ℕ) (t : Text) → P c → All P t → All P (push_left c t)
    unfolding push_left
    All-push_left c [] h hs = elim (Bool-cases (cut c)) [ inl e ↦ rw e tt | inr e ↦ rw e (h, tt) ]
    All-push_left c (x ∷ xs) h hs = (h, hs)

    All-trim_right : (t : Text) → All P t → All P (trim_right t)
    unfolding trim_right
    All-trim_right [] h = tt
    All-trim_right (c ∷ cs) h = All-push_left c (trim_right cs) h.0 (All-trim_right cs h.1)

    pub All-trim_by : (t : Text) → All P t → All P (trim_by t)
    unfolding trim_by
    All-trim_by t h = All-trim_left (trim_right t) (All-trim_right t h)

  -- A map that does not change which characters are cut.
  module _ (f : ℕ → ℕ) where
    abbrev SameCut : ℕ → Type 0
    SameCut r = cut (f r) ≡ cut r

    trim_left-map : (t : Text) → All SameCut t → trim_left (map f t) ≡ map f (trim_left t)
    unfolding trim_left
    trim_left-map [] h = refl
    trim_left-map (c ∷ cs) h = elim (Bool-cases (cut c)) [
      | inl e ↦ rw (h.0, e) (trim_left-map cs h.1)
      | inr e ↦ rw (h.0, e) refl
    ]

    push_left-map :
        (c : ℕ) (t : Text) → cut (f c) ≡ cut c → push_left (f c) (map f t) ≡ map f (push_left c t)
    unfolding push_left
    push_left-map c [] h = elim (Bool-cases (cut c)) [
      | inl e ↦ rw (h, e) refl
      | inr e ↦ rw (h, e) refl
    ]
    push_left-map c (x ∷ xs) h = refl

    trim_right-map : (t : Text) → All SameCut t → trim_right (map f t) ≡ map f (trim_right t)
    unfolding trim_right
    trim_right-map [] h = refl
    trim_right-map (c ∷ cs) h = rw (trim_right-map cs h.1) (push_left-map c (trim_right cs) h.0)

    pub trim_by-map :
        (t : Text) → All (λ r. cut (f r) ≡ cut r) t → trim_by (map f t) ≡ map f (trim_by t)
    unfolding trim_by
    trim_by-map t h =
        rw (trim_right-map t h) (trim_left-map (trim_right t) (All-trim_right SameCut t h))

  -- The characters that a test finds are not cut, where it finds none of the ones to cut.
  module _ (p : ℕ → Bool) (differ : (c : ℕ) → cut c ≡ true → p c ≡ false) where
    any-trim_left : (t : Text) → any p (trim_left t) ≡ any p t
    unfolding trim_left
    any-trim_left [] = refl
    any-trim_left (c ∷ cs) = elim (Bool-cases (cut c)) [
      | inl e ↦ rw (e, differ c e) (any-trim_left cs)
      | inr e ↦ rw e
    ]

    any-push_left : (c : ℕ) (t : Text) → any p (push_left c t) ≡ p c || any p t
    unfolding push_left
    any-push_left c [] = elim (Bool-cases (cut c)) [ inl e ↦ rw (e, differ c e) | inr e ↦ rw e ]
    any-push_left c (x ∷ xs) = refl

    any-trim_right : (t : Text) → any p (trim_right t) ≡ any p t
    unfolding trim_right
    any-trim_right [] = refl
    any-trim_right (c ∷ cs) = any-push_left c (trim_right cs) ∙ ap (◌||◌ (p c)) (any-trim_right cs)

    pub any-trim_by : (t : Text) → any p (trim_by t) ≡ any p t
    unfolding trim_by
    any-trim_by t = any-trim_left (trim_right t) ∙ any-trim_right t

  abbrev uncut : ℕ → Bool
  uncut c = not (cut c)

  any-trim_left-uncut : (t : Text) → any uncut (trim_left t) ≡ not (is_empty (trim_left t))
  unfolding trim_left
  any-trim_left-uncut [] = refl
  any-trim_left-uncut (c ∷ cs) = elim (Bool-cases (cut c)) [
    | inl e ↦ rw e (any-trim_left-uncut cs)
    | inr e ↦ rw e (rw e refl)
  ]

  -- A text is cut to nothing exactly where every character of it is one to cut.
  pub trim_by-is_empty : (t : Text) → not (is_empty (trim_by t)) ≡ any (λ c. not (cut c)) t
  unfolding trim_by
  trim_by-is_empty t =
      sym (any-trim_left-uncut (trim_right t)) ∙ any-trim_by uncut (λ c e. rw e refl) t

-- What has been cut of more characters has nothing left to cut of fewer.
module _ (p q : ℕ → Bool) (weaker : (c : ℕ) → p c ≡ true → q c ≡ true) where
  trim_left-weaker : (t : Text) → trim_left p (trim_left q t) ≡ trim_left q t
  unfolding trim_left
  trim_left-weaker [] = refl
  trim_left-weaker (c ∷ cs) = elim (Bool-cases (q c)) [
    | inl e ↦ rw e (trim_left-weaker cs)
    | inr e ↦ let kept : p c ≡ false = ground (arith, weaker c) in rw e (rw kept refl)
  ]

  push_left-weaker :
      (c : ℕ) (t : Text) → trim_right p t ≡ t → trim_right p (push_left q c t) ≡ push_left q c t
  unfolding trim_right push_left
  push_left-weaker c [] h = ground (arith, weaker c)
  push_left-weaker c (x ∷ xs) h = rw h

  trim_right-weaker : (t : Text) → trim_right p (trim_right q t) ≡ trim_right q t
  unfolding trim_right
  trim_right-weaker [] = refl
  trim_right-weaker (c ∷ cs) = push_left-weaker c (trim_right q cs) (trim_right-weaker cs)

  pub trim_left-trim_by : (t : Text) → trim_left p (trim_by q t) ≡ trim_by q t
  unfolding trim_by
  trim_left-trim_by t = trim_left-weaker (trim_right q t)

  pub trim_by-weaker : (t : Text) → trim_by p (trim_by q t) ≡ trim_by q t
  unfolding trim_by
  trim_by-weaker t =
      let swapped = trim_left-trim_right q t in
      let right : trim_right p (trim_left q (trim_right q t)) ≡ trim_left q (trim_right q t) =
        ap (trim_right p) (sym swapped) ∙ trim_right-weaker (trim_left q t) ∙ swapped in
      ap (trim_left p) right ∙ trim_left-weaker (trim_right q t)

-- `strings.TrimSpace`.
unfoldable pub trim_space : Text → Text
unfolding trim_by is_space
trim_space t = trim_by is_space t

-- A blank in front is trimmed.
pub trim_space-blank : (c : ℕ) (t : Text) → is_space c ≡ true → trim_space (c ∷ t) ≡ trim_space t
unfolding trim_space trim_by trim_right
trim_space-blank c t h = trim_left-push_left is_space c (trim_right is_space t) h

-- Trimming twice is trimming once.
pub trim_space-trim_space : (t : Text) → trim_space (trim_space t) ≡ trim_space t
unfolding trim_space
trim_space-trim_space t = trim_by-trim_by is_space t

is_digit : ℕ → Bool
is_digit c = leb b'0' c && leb c b'9'

digits_from : ℕ → Text → Option ℕ
digits_from n [] = some n
digits_from n (c ∷ cs) =
    let rest = digits_from (n * 10 + (c - b'0')) cs in if is_digit c then rest else none

-- At least one digit.
digits1 : Text → Option ℕ
digits1 [] = none
digits1 (c ∷ cs) = digits_from 0 (c ∷ cs)

in_range : Bool → ℕ → Option ℤ
in_range false n = if ltb n (2 ^ 63) then some (pos n) else none
in_range true n =
    if ltb (2 ^ 63) n then none else if n == 0 then some (pos 0) else some (negsuc (n - 1))

read_int : Bool → Text → Option ℤ
read_int negative t = elim (digits1 t) [ none ↦ none | some n ↦ in_range negative n ]

-- `strconv.Atoi` on a 64-bit platform; `none` is its error.
unfoldable pub atoi : Text → Option ℤ
unfolding read_int in_range digits1 digits_from is_digit
atoi [] = none
atoi (c ∷ cs) =
    if c == b'-'
    then read_int true cs
    else if c == b'+'
    then read_int false cs
    else read_int false (c ∷ cs)

-- The number that `strconv.Atoi` answers beside its error: 0, or the nearest one where the digits are out of range.
clamp_int : Bool → Text → ℤ
clamp_int negative t = elim (digits1 t) [
  | none ↦ pos 0
  | some n ↦ if negative then negsuc (2 ^ 63 - 1) else pos (2 ^ 63 - 1)
]

abbrev or_clamped : Option ℤ → ℤ → ℤ
or_clamped (some n) d = n
or_clamped none d = d

unfoldable pub atoi_or_nearest : Text → ℤ
unfolding atoi clamp_int digits1
atoi_or_nearest [] = pos 0
atoi_or_nearest (c ∷ cs) = or_clamped (atoi (c ∷ cs)) (
    if c == b'-'
    then clamp_int true cs
    else if c == b'+'
    then clamp_int false cs
    else clamp_int false (c ∷ cs))

-- The bytes of one code point in UTF-8, and `len` of a string.
abbrev rune_len : ℕ → ℕ
rune_len c = if ltb c 0x80 then 1 else if ltb c 0x800 then 2 else if ltb c 0x10000 then 3 else 4

abbrev pub byte_len : Text → ℕ
byte_len [] = 0
byte_len (c ∷ cs) = rune_len c + byte_len cs

-- `slices.Contains` and the like.
abbrev pub contains_text : List Text → Text → Bool
contains_text [] t = false
contains_text (x ∷ xs) t = text_eq x t || contains_text xs t

unfoldable pub has_prefix : Text → Text → Bool
has_prefix [] t = true
has_prefix (p ∷ ps) [] = false
has_prefix (p ∷ ps) (c ∷ cs) = p == c && has_prefix ps cs

-- `strings.Contains`, with the part first.
unfoldable pub has_infix : Text → Text → Bool
unfolding has_prefix
has_infix part [] = is_empty part
has_infix part (c ∷ cs) = has_prefix part (c ∷ cs) || has_infix part cs

-- `strings.Join`.
unfoldable pub join : Text → List Text → Text
join sep [] = []
join sep (t ∷ []) = t
join sep (t ∷ u ∷ us) = t ++ sep ++ join sep (u ∷ us)
