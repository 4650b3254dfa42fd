-- ===== src/Inventory/WellFormed.antt =====
-- Names that are unique and counts that are in range, whatever the edits.
use narrative_ai_agent.Prelude.{Option, none, some, List, [], ◌∷◌, Bool-cases, inl, inr}
use narrative_ai_agent.Prelude.Int.{ℤ}
use narrative_ai_agent.Prelude.Text.{Text, is_empty, trim_space}
use narrative_ai_agent.Inventory.{
  Currency, Item, Inventory, append_item, remove_named, remove_item, clamp_count, set_currency,
  remove_currency,
}
use narrative_ai_agent.Inventory.Keyed.{
  IsName, IsKeyed, IsCount, Left, clamp_count-bounds, trim_space-IsName, remove_named-IsKeyed,
  put_item-IsKeyed, put_currency-IsKeyed,
}

pub record IsWellFormed (inv : Inventory) : Type 0 where
  pub items_keyed : IsKeyed (λ x. x.name) (λ x. IsName x.name) inv.items
  pub currency_keyed : IsKeyed (λ x. x.name) IsCount inv.currency

append_item-IsWellFormed :
    (inv : Inventory) (item : Item) → IsWellFormed inv → IsWellFormed (append_item inv item).0
unfolding append_item
append_item-IsWellFormed inv item h = elim (Bool-cases (is_empty (trim_space item.name))) [
  | inl e ↦ rw e h
  | inr e ↦ rw e (record {
    items_keyed =
        put_item-IsKeyed (record item { name = trim_space item.name }) inv.items
          (trim_space-IsName item.name e) h.items_keyed;
    currency_keyed = h.currency_keyed;
  })
]

set_currency-IsWellFormed :
    (inv : Inventory) (name : Text) (n : ℤ)
    → IsWellFormed inv
    → IsWellFormed (set_currency inv name n).0
unfolding set_currency
set_currency-IsWellFormed inv name n h = elim (Bool-cases (is_empty (trim_space name))) [
  | inl e ↦ rw e h
  | inr e ↦ rw e (record {
    items_keyed = h.items_keyed;
    currency_keyed =
        put_currency-IsKeyed (trim_space name) (clamp_count n) inv.currency
          (trim_space-IsName name e) (clamp_count-bounds n) h.currency_keyed;
  })
]

remove_item-IsWellFormed :
    (inv : Inventory) (name : Text) → IsWellFormed inv → Left IsWellFormed (remove_item inv name)
unfolding remove_item
remove_item-IsWellFormed inv name h = elim (Bool-cases (is_empty (trim_space name))) [
  | inl e ↦ rw e tt
  | inr e ↦ rw e (
      go (remove_named (λ x. x.name) (trim_space name) inv.items) (
        remove_named-IsKeyed (λ x. x.name) (λ x. IsName x.name) (trim_space name) inv.items
          h.items_keyed))
]
  where
    go :
        (o : Option (List Item))
        → Left (IsKeyed (λ x. x.name) (λ x. IsName x.name)) o
        → Left IsWellFormed
            (elim o [ none ↦ none | some items ↦ some (record inv { items = items }) ])
    go none k = tt
    go (some items) k = record { items_keyed = k; currency_keyed = h.currency_keyed }

remove_currency-IsWellFormed :
    (inv : Inventory) (name : Text)
    → IsWellFormed inv
    → Left IsWellFormed (remove_currency inv name)
unfolding remove_currency
remove_currency-IsWellFormed inv name h = elim (Bool-cases (is_empty (trim_space name))) [
  | inl e ↦ rw e tt
  | inr e ↦ rw e (
      go (remove_named (λ x. x.name) (trim_space name) inv.currency) (
        remove_named-IsKeyed (λ x. x.name) IsCount (trim_space name) inv.currency h.currency_keyed))
]
  where
    go :
        (o : Option (List Currency))
        → Left (IsKeyed (λ x. x.name) IsCount) o
        → Left IsWellFormed
            (elim o [ none ↦ none | some currency ↦ some (record inv { currency = currency }) ])
    go none k = tt
    go (some currency) k = record { items_keyed = h.items_keyed; currency_keyed = k }

-- A call of one of the four operations.
pub data Edit : Type 0 where
  append_edit : Item → Edit
  remove_edit : Text → Edit
  set_edit : Text → ℤ → Edit
  remove_currency_edit : Text → Edit

-- A call that fails leaves the inventory as it is.
abbrev pub or_same : Inventory → Option Inventory → Inventory
or_same inv none = inv
or_same inv (some inv') = inv'

abbrev run_edit : Edit → Inventory → Inventory
run_edit (append_edit item) inv = (append_item inv item).0
run_edit (remove_edit name) inv = or_same inv (remove_item inv name)
run_edit (set_edit name n) inv = (set_currency inv name n).0
run_edit (remove_currency_edit name) inv = or_same inv (remove_currency inv name)

abbrev pub run_edits : List Edit → Inventory → Inventory
run_edits [] inv = inv
run_edits (e ∷ es) inv = run_edits es (run_edit e inv)

or_same-IsWellFormed :
    (inv : Inventory) (o : Option Inventory)
    → IsWellFormed inv
    → Left IsWellFormed o
    → IsWellFormed (or_same inv o)
or_same-IsWellFormed inv none h k = h
or_same-IsWellFormed inv (some inv') h k = k

run_edit-IsWellFormed :
    (e : Edit) (inv : Inventory) → IsWellFormed inv → IsWellFormed (run_edit e inv)
run_edit-IsWellFormed (append_edit item) inv h = append_item-IsWellFormed inv item h
run_edit-IsWellFormed (remove_edit name) inv h =
    or_same-IsWellFormed inv _ h (remove_item-IsWellFormed inv name h)
run_edit-IsWellFormed (set_edit name n) inv h = set_currency-IsWellFormed inv name n h
run_edit-IsWellFormed (remove_currency_edit name) inv h =
    or_same-IsWellFormed inv _ h (remove_currency-IsWellFormed inv name h)

-- Any sequence of edits keeps an inventory well-formed: in either list no two entries have the same
-- name, every name is trimmed and not empty, and every count lies between 0 and 999999999.
pub run_edits-IsWellFormed :
    (es : List Edit) (inv : Inventory) → IsWellFormed inv → IsWellFormed (run_edits es inv)
run_edits-IsWellFormed [] inv h = h
run_edits-IsWellFormed (e ∷ es) inv h =
    run_edits-IsWellFormed es (run_edit e inv) (run_edit-IsWellFormed e inv h)
