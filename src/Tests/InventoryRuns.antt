-- ===== src/Tests/InventoryRuns.antt =====
-- An inventory with one coin line and one item.
use narrative_ai_agent.Prelude.{◌≡◌, refl, true, [], ◌∷◌, arith}
use narrative_ai_agent.Prelude.Int.{pos, negsuc}
use narrative_ai_agent.Prelude.Text.{lit, trim_space, text_eq}
use narrative_ai_agent.Inventory.{
  Item, Inventory, set_currency, max_count, clamp_count, put_currency,
}
use narrative_ai_agent.Inventory.WellFormed.{
  IsWellFormed, append_edit, remove_edit, set_edit, remove_currency_edit, run_edits,
  run_edits-IsWellFormed,
}

abbrev kunai : Item
kunai = record { name = lit "kunai"; description = lit "d"; equip = true; special = [] }

abbrev pockets : Inventory
pockets = record { currency = record { name = lit "ryo"; count = pos 7 } ∷ []; items = kunai ∷ [] }

pockets-IsWellFormed : IsWellFormed pockets
unfolding trim_space
pockets-IsWellFormed = record {
  items_keyed = (record { trimmed = refl; nonempty = λ e. cc }, tt, tt);
  currency_keyed = (
    record {
      named = record { trimmed = refl; nonempty = λ e. cc };
      lower = omega arith;
      upper = omega arith;
    },
    tt,
    tt,
  );
}

too_rich :
    (set_currency pockets (lit " ryo ") (pos 1000000000)).0.currency
    ≡ record { name = lit "ryo"; count = max_count } ∷ []
unfolding set_currency put_currency clamp_count trim_space text_eq
too_rich = refl

run_edits-IsWellFormed_example : IsWellFormed (
    run_edits
      (append_edit kunai
        ∷ set_edit (lit "ryo") (negsuc 4)
        ∷ remove_edit (lit "kunai")
        ∷ remove_currency_edit (lit "x")
        ∷ [])
      pockets)
run_edits-IsWellFormed_example =
    run_edits-IsWellFormed
      (append_edit kunai
        ∷ set_edit (lit "ryo") (negsuc 4)
        ∷ remove_edit (lit "kunai")
        ∷ remove_currency_edit (lit "x")
        ∷ [])
      pockets pockets-IsWellFormed
