-- ===== src/Inventory/Count/Frame.antt =====
-- Every table that a stock count writes, row by row, and those that it leaves.
use sweetops.Base.{
  ℕ, ◌≡◌, refl, true, false, ◌&&◌, Option, none, some, List, ◌∷◌, arith, ◌==◌, inl, inr, Bool-cases,
}
use sweetops.Int.{ℤ, pos, ◌-ℤ◌, eqb_ℤ}
use sweetops.Text.{Text}
use sweetops.Inventory.Model.{IngredientStock, Inventory, Movement, inventory_stock_counted}
use sweetops.Inventory.Count.{StockCountResult, CountCommand, count_row, correct_shelf}
use sweetops.Inventory.Count.Effect.{with_count, write_count}

-- The ledger with the count's row, when there is one.
abbrev pub with_movement : Option Movement → List Movement → List Movement
with_movement none ms = ms
with_movement (some m) ms = m ∷ ms

-- What a count has written: the quantity on hand of its own row, the count, a ledger row if the
-- shelf was off, and an audit row, and nothing else.
pub record IsCounted (cmd : CountCommand) (before after : Inventory) (res : StockCountResult)
    : Type 0 where
  pub shelf : IngredientStock
  pub shelf_here : before.stock cmd.store_id cmd.ingredient_id ≡ some shelf
  pub held : ℤ
  pub shelf_after :
      after.stock cmd.store_id cmd.ingredient_id ≡ some (record shelf { on_hand_quantity = held })
  pub other_rows :
      (s i : ℕ)
      → (cmd.store_id == s && cmd.ingredient_id == i) ≡ false
      → after.stock s i ≡ before.stock s i
  pub unit : Text
  pub recorded : res.stock_count ≡ count_row cmd unit shelf before.next_id
  pub stock_counts : after.stock_counts ≡ res.stock_count ∷ before.stock_counts
  pub movements : after.movements ≡ with_movement res.movement before.movements
  pub audits :
      after.audits
      ≡ record {
        action = inventory_stock_counted;
        entity_id = res.stock_count.id;
        actor_id = some cmd.actor_user_id;
      }
        ∷ before.audits
  pub ingredients : after.ingredients ≡ before.ingredients
  pub stores : after.stores ≡ before.stores
  pub lines : after.lines ≡ before.lines
  pub transfers : after.transfers ≡ before.transfers
  pub threshold_updates : after.threshold_updates ≡ before.threshold_updates

abbrev pub count_result : CountCommand → Text → IngredientStock → Inventory → StockCountResult
count_result cmd unit stock inv = record {
  stock_count = count_row cmd unit stock inv.next_id;
  movement = (correct_shelf cmd unit stock inv.next_id (with_count cmd unit stock inv)).0;
  replayed = false;
}

pub write_count-IsCounted :
    (cmd : CountCommand) (unit : Text) (stock : IngredientStock) (inv : Inventory)
    → inv.stock cmd.store_id cmd.ingredient_id ≡ some stock
    → IsCounted cmd inv (write_count cmd unit stock inv) (count_result cmd unit stock inv)
unfolding correct_shelf
write_count-IsCounted cmd unit stock inv here =
    let own : (cmd.store_id == cmd.store_id) ≡ true = ground arith in
    let same : (cmd.ingredient_id == cmd.ingredient_id) ≡ true = ground arith in
    elim (Bool-cases (eqb_ℤ (cmd.counted -ℤ stock.on_hand_quantity) (pos 0))) [
      | inl right ↦ rw right (record {
        shelf = stock;
        shelf_here = here;
        held = stock.on_hand_quantity;
        shelf_after = here;
        other_rows = λ s i a. refl;
        unit = unit;
        recorded = refl;
        stock_counts = refl;
        movements = refl;
        audits = refl;
        ingredients = refl;
        stores = refl;
        lines = refl;
        transfers = refl;
        threshold_updates = refl;
      })
      | inr off ↦ rw off (record {
        shelf = stock;
        shelf_here = here;
        held = cmd.counted;
        shelf_after = rw (own, same) refl;
        other_rows = λ s i a. rw a refl;
        unit = unit;
        recorded = refl;
        stock_counts = refl;
        movements = refl;
        audits = refl;
        ingredients = refl;
        stores = refl;
        lines = refl;
        transfers = refl;
        threshold_updates = refl;
      })
    ]
