-- ===== src/Inventory/Changes.antt =====
-- What the answer of an edit says of the inventory.
use narrative_ai_agent.Prelude.{◌≡◌, ◌↔◌, false, List, [], ◌∷◌, arith}
use narrative_ai_agent.Prelude.Int.{ℤ, eqb_ℤ_iff}
use narrative_ai_agent.Prelude.Text.{Text, trim_space, text_eq_iff}
use narrative_ai_agent.Inventory.{
  Currency, Item, Inventory, put_item, append_item, clamp_count, put_currency, set_currency,
  attributes_differ,
}

put_currency-changed :
    (name : Text) (n : ℤ) (xs : List Currency)
    → ((put_currency name n xs).1 ≡ false) ↔ ((put_currency name n xs).0 ≡ xs)
unfolding put_currency
put_currency-changed name n [] = ground arith
put_currency-changed name n (x ∷ xs) =
    ground (arith, put_currency-changed name n xs, eqb_ℤ_iff x.count n)

attributes_differ-eq :
    (x item : Item) → x.name ≡ item.name → (attributes_differ x item ≡ false) ↔ (item ≡ x)
unfolding attributes_differ
attributes_differ-eq x item h =
    ground (arith, text_eq_iff x.description item.description, text_eq_iff x.special item.special)

put_item-changed :
    (item : Item) (xs : List Item) → ((put_item item xs).1 ≡ false) ↔ ((put_item item xs).0 ≡ xs)
unfolding put_item
put_item-changed item [] = ground arith
put_item-changed item (x ∷ xs) =
    ground
      (arith, put_item-changed item xs, text_eq_iff x.name item.name, attributes_differ-eq x item)

-- `AppendItem` answers false exactly when it leaves the inventory as it was.
pub append_item-changed_iff :
    (inv : Inventory) (item : Item)
    → ((append_item inv item).1 ≡ false) ↔ ((append_item inv item).0 ≡ inv)
unfolding append_item
append_item-changed_iff inv item =
    ground (arith, put_item-changed (record item { name = trim_space item.name }) inv.items)

-- `SetCurrency` answers false exactly when it leaves the inventory as it was.
pub set_currency-changed_iff :
    (inv : Inventory) (name : Text) (n : ℤ)
    → ((set_currency inv name n).1 ≡ false) ↔ ((set_currency inv name n).0 ≡ inv)
unfolding set_currency
set_currency-changed_iff inv name n =
    ground (arith, put_currency-changed (trim_space name) (clamp_count n) inv.currency)
