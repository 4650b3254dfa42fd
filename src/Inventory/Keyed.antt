-- ===== src/Inventory/Keyed.antt =====
-- The lists of an inventory as tables: what one loop over a list keeps.
use narrative_ai_agent.Prelude.{
  ◌≡◌, ◌≢◌, refl, subst, false, Option, none, some, List, [], ◌∷◌, if◌then◌else◌, arith, All,
  Bool-cases, inl, inr,
}
use narrative_ai_agent.Prelude.Int.{ℤ, pos, ◌≤ℤ◌, eqb_ℤ}
use narrative_ai_agent.Prelude.Text.{
  Text, is_empty, is_empty_iff, trim_space, trim_space-trim_space, text_eq, text_eq_iff,
}
use narrative_ai_agent.Inventory.{
  Currency, Item, put_item, remove_named, max_count, clamp_count, put_currency,
}

-- A name that a model can address: trimmed and not empty.
pub record IsName (name : Text) : Type 0 where
  pub trimmed : trim_space name ≡ name
  pub nonempty : name ≢ []

-- No entry has the name.
abbrev Lacks : {A : Type 0} → (A → Text) → Text → List A → Type 0
Lacks key name xs = All (λ x. text_eq (key x) name ≡ false) xs

-- Every entry is good, and no later one has its name.
abbrev pub IsKeyed : {A : Type 0} → (A → Text) → (A → Type 0) → List A → Type 0
IsKeyed key Good [] = Unit
IsKeyed key Good (x ∷ xs) = Good x × Lacks key (key x) xs × IsKeyed key Good xs

pub record IsCount (x : Currency) : Type 0 where
  pub named : IsName x.name
  pub lower : pos 0 ≤ℤ x.count
  pub upper : x.count ≤ℤ max_count

pub clamp_count-bounds : (n : ℤ) → (pos 0 ≤ℤ clamp_count n) × (clamp_count n ≤ℤ max_count)
unfolding clamp_count
clamp_count-bounds n = ground arith

pub trim_space-IsName :
    (name : Text) → is_empty (trim_space name) ≡ false → IsName (trim_space name)
trim_space-IsName name h = record {
  trimmed = trim_space-trim_space name;
  nonempty = ground (arith, is_empty_iff (trim_space name));
}

-- What is left after a removal, if the removal succeeds.
abbrev pub Left : {A : Type 0} → (A → Type 0) → Option A → Type 0
Left P none = Unit
Left P (some a) = P a

abbrev put_back : {A : Type 0} → A → Option (List A) → Option (List A)
put_back x none = none
put_back x (some ys) = some (x ∷ ys)

Left-put_back :
    {A : Type 0} (P Q : List A → Type 0) (x : A) (o : Option (List A))
    → ((ys : List A) → P ys → Q (x ∷ ys))
    → Left P o
    → Left Q (put_back x o)
Left-put_back P Q x none f h = tt
Left-put_back P Q x (some ys) f h = f ys h

Left-pair :
    {A : Type 0} (P Q : A → Type 0) (o : Option A) → Left P o → Left Q o → Left (λ a. P a × Q a) o
Left-pair P Q none h k = tt
Left-pair P Q (some a) h k = (h, k)

module _ {A : Type 0} (key : A → Text) (Good : A → Type 0) where
  remove_named-cons :
      (name : Text) (x : A) (xs : List A)
      → remove_named key name (x ∷ xs)
        ≡ (if text_eq (key x) name then some xs else put_back x (remove_named key name xs))
  unfolding remove_named
  remove_named-cons name x xs = refl

  remove_named-Lacks :
      (name other : Text) (xs : List A)
      → Lacks key other xs
      → Left (Lacks key other) (remove_named key name xs)
  unfolding remove_named
  remove_named-Lacks name other [] h = tt
  remove_named-Lacks name other (x ∷ xs) h =
      rw (remove_named-cons name x xs) (elim (Bool-cases (text_eq (key x) name)) [
        | inl e ↦ rw e h.1
        | inr e ↦ rw e (
            Left-put_back (Lacks key other) (Lacks key other) x (remove_named key name xs)
              (λ ys k. (h.0, k)) (remove_named-Lacks name other xs h.1))
      ])

  pub remove_named-IsKeyed :
      (name : Text) (xs : List A)
      → IsKeyed key Good xs
      → Left (IsKeyed key Good) (remove_named key name xs)
  unfolding remove_named
  remove_named-IsKeyed name [] h = tt
  remove_named-IsKeyed name (x ∷ xs) h =
      let rest = remove_named key name xs in
      rw (remove_named-cons name x xs) (elim (Bool-cases (text_eq (key x) name)) [
        | inl e ↦ rw e h.2
        | inr e ↦ rw e (
            Left-put_back (λ ys. Lacks key (key x) ys × IsKeyed key Good ys) (IsKeyed key Good) x
              rest (λ ys k. (h.0, k.0, k.1))
              (Left-pair (Lacks key (key x)) (IsKeyed key Good) rest
                (remove_named-Lacks name (key x) xs h.1) (remove_named-IsKeyed name xs h.2)))
      ])

text_neq-sym : (a b : Text) → text_eq a b ≡ false → text_eq b a ≡ false
text_neq-sym a b h = ground (arith, text_eq_iff a b, text_eq_iff b a)

put_item-Lacks :
    (item : Item) (name : Text) (xs : List Item)
    → text_eq item.name name ≡ false
    → Lacks (λ x. x.name) name xs
    → Lacks (λ x. x.name) name (put_item item xs).0
unfolding put_item
put_item-Lacks item name [] h k = (h, tt)
put_item-Lacks item name (x ∷ xs) h k = ground (arith, put_item-Lacks item name xs)

pub put_item-IsKeyed :
    (item : Item) (xs : List Item)
    → IsName item.name
    → IsKeyed (λ x. x.name) (λ x. IsName x.name) xs
    → IsKeyed (λ x. x.name) (λ x. IsName x.name) (put_item item xs).0
unfolding put_item
put_item-IsKeyed item [] named h = (named, tt, tt)
put_item-IsKeyed item (x ∷ xs) named h = elim (Bool-cases (text_eq x.name item.name)) [
  | inl e ↦
      let same : x.name ≡ item.name = (text_eq_iff x.name item.name).0 e in
      rw e (named, subst (λ n. Lacks (λ x. x.name) n xs) same h.1, h.2)
  | inr e ↦ rw e (
    h.0,
    put_item-Lacks item x.name xs (text_neq-sym x.name item.name e) h.1,
    put_item-IsKeyed item xs named h.2,
  )
]

put_currency-Lacks :
    (key : Text) (n : ℤ) (name : Text) (xs : List Currency)
    → text_eq key name ≡ false
    → Lacks (λ x. x.name) name xs
    → Lacks (λ x. x.name) name (put_currency key n xs).0
unfolding put_currency
put_currency-Lacks key n name [] h k = (h, tt)
put_currency-Lacks key n name (x ∷ xs) h k = ground (arith, put_currency-Lacks key n name xs)

pub put_currency-IsKeyed :
    (name : Text) (n : ℤ) (xs : List Currency)
    → IsName name
    → (pos 0 ≤ℤ n) × (n ≤ℤ max_count)
    → IsKeyed (λ x. x.name) IsCount xs
    → IsKeyed (λ x. x.name) IsCount (put_currency name n xs).0
unfolding put_currency
put_currency-IsKeyed name n [] named bounds h =
    (record { named = named; lower = bounds.0; upper = bounds.1 }, tt, tt)
put_currency-IsKeyed name n (x ∷ xs) named bounds h = elim (Bool-cases (text_eq x.name name)) [
  | inl e ↦ rw e (elim (Bool-cases (eqb_ℤ x.count n)) [
    | inl same ↦ rw same h
    | inr new ↦ rw new (record { named = h.0.named; lower = bounds.0; upper = bounds.1 }, h.1, h.2)
  ])
  | inr e ↦ rw e (
    h.0,
    put_currency-Lacks name n x.name xs (text_neq-sym x.name name e) h.1,
    put_currency-IsKeyed name n xs named bounds h.2,
  )
]
