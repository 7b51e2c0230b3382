-- ===== src/Inventory/Transfer/Frame.antt =====
-- Every table that a store-to-store transfer writes, row by row, and those that it leaves.
use sweetops.Base.{ℕ, ◌≡◌, ◌≢◌, refl, true, false, ◌&&◌, Option, none, some, ◌∷◌, arith, ◌==◌}
use sweetops.Int.{◌+ℤ◌, ◌-ℤ◌}
use sweetops.Text.{Text}
use sweetops.Inventory.Model.{IngredientStock, Inventory, inventory_transferred}
use sweetops.Inventory.Transfer.{
  TransferResult, TransferCommand, empty_row, transfer_result, write_transfer,
}

-- The destination's row, or the empty one that is ensured for it.
abbrev pub row_or_empty : Text → Option IngredientStock → IngredientStock
row_or_empty unit none = empty_row unit
row_or_empty unit (some row) = row

-- What a transfer has written: the two rows' quantities on hand, the transfer, its two legs and an
-- audit row, and nothing else.
pub record IsTransferred (cmd : TransferCommand) (unit : Text) (before after : Inventory)
    (res : TransferResult) : Type 0 where
  pub source : IngredientStock
  pub source_here : before.stock cmd.source_store_id cmd.ingredient_id ≡ some source
  pub source_after :
      after.stock cmd.source_store_id cmd.ingredient_id
      ≡ some (record source { on_hand_quantity = source.on_hand_quantity -ℤ cmd.quantity })
  pub destination : IngredientStock
  pub destination_here :
      destination ≡ row_or_empty unit (before.stock cmd.destination_store_id cmd.ingredient_id)
  pub destination_after :
      after.stock cmd.destination_store_id cmd.ingredient_id
      ≡ some
          (record destination { on_hand_quantity = destination.on_hand_quantity +ℤ cmd.quantity })
  pub other_rows :
      (s i : ℕ)
      → (cmd.source_store_id == s && cmd.ingredient_id == i) ≡ false
      → (cmd.destination_store_id == s && cmd.ingredient_id == i) ≡ false
      → after.stock s i ≡ before.stock s i
  pub recorded : res ≡ transfer_result cmd unit before.next_id
  pub transfers : after.transfers ≡ res.transfer ∷ before.transfers
  pub movements :
      after.movements ≡ res.destination_movement ∷ res.source_movement ∷ before.movements
  pub audits :
      after.audits
      ≡ record {
        action = inventory_transferred;
        entity_id = res.transfer.id;
        actor_id = some cmd.actor_user_id;
      }
        ∷ before.audits
  pub ingredients : after.ingredients ≡ before.ingredients
  pub stores : after.stores ≡ before.stores
  pub lines : after.lines ≡ before.lines
  pub stock_counts : after.stock_counts ≡ before.stock_counts
  pub threshold_updates : after.threshold_updates ≡ before.threshold_updates

pub write_transfer-IsTransferred :
    (cmd : TransferCommand) (unit : Text) (source dest : IngredientStock) (inv : Inventory)
    → inv.stock cmd.source_store_id cmd.ingredient_id ≡ some source
    → dest ≡ row_or_empty unit (inv.stock cmd.destination_store_id cmd.ingredient_id)
    → cmd.source_store_id ≢ cmd.destination_store_id
    → IsTransferred cmd unit inv
        (write_transfer cmd unit source dest inv)
        (transfer_result cmd unit inv.next_id)
unfolding write_transfer
write_transfer-IsTransferred cmd unit source dest inv from to apart =
    let out : (cmd.destination_store_id == cmd.source_store_id) ≡ false = ground arith in
    let own : (cmd.destination_store_id == cmd.destination_store_id) ≡ true = ground arith in
    let from_own : (cmd.source_store_id == cmd.source_store_id) ≡ true = ground arith in
    let same : (cmd.ingredient_id == cmd.ingredient_id) ≡ true = ground arith in
    record {
      source = source;
      source_here = from;
      source_after = rw (out, from_own, same) refl;
      destination = dest;
      destination_here = to;
      destination_after = rw (own, same) refl;
      other_rows = λ s i a b. rw (a, b) refl;
      recorded = refl;
      transfers = refl;
      movements = refl;
      audits = refl;
      ingredients = refl;
      stores = refl;
      lines = refl;
      stock_counts = refl;
      threshold_updates = refl;
    }
