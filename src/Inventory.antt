-- ===== src/Inventory.antt =====
-- internal/charprofile/inventory.go: the wallet and the pockets of a character.
pub mod Keyed
pub mod WellFormed
pub mod Changes
use narrative_ai_agent.Prelude.{
  ◌≡◌, Bool, true, false, not, ◌||◌, ◌&&◌, Option, none, some, List, [], ◌∷◌, if◌then◌else◌,
}
use narrative_ai_agent.Prelude.Int.{ℤ, pos, ltb_ℤ, eqb_ℤ}
use narrative_ai_agent.Prelude.Text.{Text, is_empty, trim_space, text_eq}

pub record Currency : Type 0 where
  pub name : Text
  pub count : ℤ

pub record Item : Type 0 where
  pub name : Text
  pub description : Text
  pub equip : Bool
  pub special : Text

pub record Inventory : Type 0 where
  pub currency : List Currency
  pub items : List Item

abbrev same_flag : Bool → Bool → Bool
same_flag true b = b
same_flag false b = not b

unfoldable pub attributes_differ : Item → Item → Bool
attributes_differ x item =
    not (text_eq x.description item.description)
    || not (same_flag x.equip item.equip)
    || not (text_eq x.special item.special)

-- The loop over the items: the first one of that name is replaced, or the item is added.
unfoldable pub put_item : Item → List Item → List Item × Bool
unfolding attributes_differ
put_item item [] = (item ∷ [], true)
put_item item (x ∷ xs) =
    let (rest, changed) = put_item item xs in
    if text_eq x.name item.name then (item ∷ xs, attributes_differ x item) else (x ∷ rest, changed)

unfoldable pub append_item : Inventory → Item → Inventory × Bool
append_item inv item =
    let name = trim_space item.name in
    let (items, changed) = put_item (record item { name = name }) inv.items in
    if is_empty name then (inv, false) else (record inv { items = items }, changed)

-- `none` where no entry has the name.
unfoldable pub remove_named : {A : Type 0} → (A → Text) → Text → List A → Option (List A)
remove_named key name [] = none
remove_named key name (x ∷ xs) =
    let rest = remove_named key name xs in
    if text_eq (key x) name then some xs else elim rest [ none ↦ none | some ys ↦ some (x ∷ ys) ]

-- `none` is `ErrItemNotFound`.
unfoldable pub remove_item : Inventory → Text → Option Inventory
remove_item inv name =
    let name' = trim_space name in
    if is_empty name' then none else elim (remove_named (λ x. x.name) name' inv.items) [
      | none ↦ none
      | some items ↦ some (record inv { items = items })
    ]

abbrev pub max_count : ℤ
max_count = pos 999999999

unfoldable pub clamp_count : ℤ → ℤ
clamp_count n =
    let n' = if ltb_ℤ n (pos 0) then pos 0 else n in if ltb_ℤ max_count n' then max_count else n'

unfoldable pub put_currency : Text → ℤ → List Currency → List Currency × Bool
put_currency name n [] = (record { name = name; count = n } ∷ [], true)
put_currency name n (x ∷ xs) =
    let (rest, changed) = put_currency name n xs in
    if text_eq x.name name
    then (if eqb_ℤ x.count n then (x ∷ xs, false) else (record x { count = n } ∷ xs, true))
    else (x ∷ rest, changed)

unfoldable pub set_currency : Inventory → Text → ℤ → Inventory × Bool
set_currency inv name n =
    let name' = trim_space name in
    let (currency, changed) = put_currency name' (clamp_count n) inv.currency in
    if is_empty name' then (inv, false) else (record inv { currency = currency }, changed)

unfoldable pub remove_currency : Inventory → Text → Option Inventory
remove_currency inv name =
    let name' = trim_space name in
    if is_empty name' then none else elim (remove_named (λ x. x.name) name' inv.currency) [
      | none ↦ none
      | some currency ↦ some (record inv { currency = currency })
    ]
