-- ===== src/Inventory/Transfer/Effect.antt =====
-- What a store-to-store transfer does to the tables.
use sweetops.Base.{ℕ, ◌≡◌, ◌≢◌, ◌&&◌, some, arith, ◌==◌, inl, inr, Bool-cases}
use sweetops.Int.{ℤ, pos, ◌+ℤ◌, ◌-ℤ◌, ◌≤ℤ◌, ◌<ℤ◌, ◌≈ℤ◌, int_laws, ≈ℤ_of_eq}
use sweetops.Text.{Text}
use sweetops.Inventory.Model.{IngredientStock, Inventory}
use sweetops.Inventory.Lifecycle.{available}
use sweetops.Inventory.Books.{
  on_hand_of, reserved_of, at_shelf, IsSound, Explained, Explained-trans, IsConsistent,
  written-Explained, written-on_hand, written-reserved, on_hand_of_row, reserved_of_row,
  rows-set_stock,
}
use sweetops.Inventory.Manual.Effect.{Keeps}
use sweetops.Inventory.Transfer.{
  TransferCommand, out_movement, in_movement, write_source, write_transfer,
}

at_shelf_other : (t s i : ℕ) (q : ℤ) → t ≢ s → at_shelf s i t i q ≡ pos 0
at_shelf_other t s i q h = ground arith

at_shelf_neg : (s i t j : ℕ) (q : ℤ) → at_shelf s i t j (pos 0 -ℤ q) +ℤ at_shelf s i t j q ≈ℤ pos 0
at_shelf_neg s i t j q = elim (Bool-cases (t == s && j == i)) [
  | inl e ↦ rw e (omega int_laws)
  | inr e ↦ rw e (omega int_laws)
]

at_shelf_nil : (s i t j : ℕ) → at_shelf s i t j (pos 0) ≡ pos 0
at_shelf_nil s i t j = ground arith

-- What a transfer writes over the tables `inv`, whose rows are `source` and `dest`; a destination
-- with no row counts as an empty one.
module _ (cmd : TransferCommand) (unit : Text) (source dest : IngredientStock) (inv : Inventory)
    (from : inv.stock cmd.source_store_id cmd.ingredient_id ≡ some source)
    (to : (dest.on_hand_quantity ≡ on_hand_of inv cmd.destination_store_id cmd.ingredient_id)
      × (dest.reserved_quantity ≡ reserved_of inv cmd.destination_store_id cmd.ingredient_id))
    (apart : cmd.source_store_id ≢ cmd.destination_store_id) where
  abbrev pub shipped : Inventory
  shipped = write_source cmd unit source inv

  abbrev pub source_row : IngredientStock
  source_row = record source { on_hand_quantity = source.on_hand_quantity -ℤ cmd.quantity }

  abbrev pub dest_row : IngredientStock
  dest_row = record dest { on_hand_quantity = dest.on_hand_quantity +ℤ cmd.quantity }

  source_on_hand :
      source_row.on_hand_quantity
      ≈ℤ on_hand_of inv cmd.source_store_id cmd.ingredient_id +ℤ (pos 0 -ℤ cmd.quantity)
  source_on_hand = rw (on_hand_of_row inv _ _ source from) (omega int_laws)

  source_reserved :
      source_row.reserved_quantity ≈ℤ reserved_of inv cmd.source_store_id cmd.ingredient_id +ℤ pos 0
  source_reserved = rw (reserved_of_row inv _ _ source from) (omega int_laws)

  shipped_on_hand :
      (s i : ℕ)
      → on_hand_of shipped s i
        ≈ℤ on_hand_of inv s i
          +ℤ at_shelf s i cmd.source_store_id cmd.ingredient_id (pos 0 -ℤ cmd.quantity)
  shipped_on_hand =
      written-on_hand inv source_row (out_movement cmd unit inv.next_id) source_on_hand

  shipped_reserved :
      (s i : ℕ)
      → reserved_of shipped s i
        ≈ℤ reserved_of inv s i +ℤ at_shelf s i cmd.source_store_id cmd.ingredient_id (pos 0)
  shipped_reserved =
      written-reserved inv source_row (out_movement cmd unit inv.next_id) source_reserved

  dest_on_hand :
      dest_row.on_hand_quantity
      ≈ℤ on_hand_of shipped cmd.destination_store_id cmd.ingredient_id +ℤ cmd.quantity
  dest_on_hand = rw to.0 (
      let h =
        rw
          (at_shelf_other cmd.source_store_id cmd.destination_store_id cmd.ingredient_id
            (pos 0 -ℤ cmd.quantity) apart)
          at (shipped_on_hand cmd.destination_store_id cmd.ingredient_id) in
      omega int_laws)

  dest_reserved :
      dest_row.reserved_quantity
      ≈ℤ reserved_of shipped cmd.destination_store_id cmd.ingredient_id +ℤ pos 0
  dest_reserved = rw to.1 (
      let h =
        rw
          (at_shelf_other cmd.source_store_id cmd.destination_store_id cmd.ingredient_id (pos 0)
            apart)
          at (shipped_reserved cmd.destination_store_id cmd.ingredient_id) in
      omega int_laws)

  write_transfer-Explained : Explained inv (write_transfer cmd unit source dest inv)
  unfolding write_transfer
  write_transfer-Explained =
      let h =
        Explained-trans
          (written-Explained inv source_row (out_movement cmd unit inv.next_id) source_on_hand
            source_reserved)
          (written-Explained shipped dest_row (in_movement cmd unit inv.next_id) dest_on_hand
            dest_reserved) in
      record { on_hand = h.on_hand; reserved = h.reserved }

  pub write_transfer-on_hand :
      (s i : ℕ)
      → on_hand_of (write_transfer cmd unit source dest inv) s i
          +ℤ at_shelf s i cmd.source_store_id cmd.ingredient_id cmd.quantity
        ≈ℤ on_hand_of inv s i
          +ℤ at_shelf s i cmd.destination_store_id cmd.ingredient_id cmd.quantity
  unfolding write_transfer
  write_transfer-on_hand s i = omega (
    int_laws,
    written-on_hand shipped dest_row (in_movement cmd unit inv.next_id) dest_on_hand s i,
    shipped_on_hand s i,
    at_shelf_neg s i cmd.source_store_id cmd.ingredient_id cmd.quantity,
  )

  pub write_transfer-reserved :
      (s i : ℕ) → reserved_of (write_transfer cmd unit source dest inv) s i ≈ℤ reserved_of inv s i
  unfolding write_transfer
  write_transfer-reserved s i = omega (
    int_laws,
    written-reserved shipped dest_row (in_movement cmd unit inv.next_id) dest_reserved s i,
    shipped_reserved s i,
    ≈ℤ_of_eq (at_shelf_nil s i cmd.source_store_id cmd.ingredient_id),
    ≈ℤ_of_eq (at_shelf_nil s i cmd.destination_store_id cmd.ingredient_id),
  )

  pub write_transfer-Keeps :
      pos 0 <ℤ cmd.quantity
      → cmd.quantity ≤ℤ available source
      → IsSound dest
      → IsConsistent inv
      → Keeps inv (write_transfer cmd unit source dest inv)
  unfolding write_transfer
  write_transfer-Keeps p enough sound c = record {
    consistent = record {
      rows =
          rows-set_stock cmd.destination_store_id cmd.ingredient_id dest_row shipped
            (record {
              promised_nonneg = sound.promised_nonneg;
              promised_covered = omega (int_laws, sound.promised_covered);
            })
            (rows-set_stock cmd.source_store_id cmd.ingredient_id source_row inv
              (record {
                promised_nonneg = (c.rows _ _ source from).promised_nonneg;
                promised_covered = omega int_laws;
              })
              c.rows);
      lines = c.lines;
      held = λ s i. omega (int_laws, write_transfer-reserved s i, c.held s i);
    };
    explained = write_transfer-Explained;
  }
