-- ===== src/Inventory/Transfer/Outcome.antt =====
-- How a store-to-store transfer ends, under any other transactions.
use sweetops.Base.{
  ℕ, ◌≡◌, ◌≢◌, true, false, not, some, arith, ◌==◌, ok, >>=-eq-ok, inl, inr, Bool-cases,
  Option-cases, ◌∙◌, raise_if,
}
use sweetops.Int.{pos, ◌+ℤ◌, ◌≤ℤ◌, ◌<ℤ◌, ◌≈ℤ◌, ltb_ℤ}
use sweetops.Text.{Text}
use sweetops.Inventory.Model.{IngredientStock, Inventory, InventoryTransfer}
use sweetops.Inventory.Lifecycle.{available}
use sweetops.Inventory.Books.{
  on_hand_of, reserved_of, at_shelf, IsSound, Explained, Explained-refl, Explained-trans,
  IsConsistent,
}
use sweetops.Inventory.Commands.{Race, load_ingredient}
use sweetops.Inventory.Manual.Effect.{IsFair, Keeps}
use sweetops.Inventory.Transfer.{
  TransferResult, TransferCommand, find_transfer_by_key, replay_transfer,
  ensure_destination_stock_row, transfer_result, write_transfer, insert_transfer,
  transfer_under_lock, lock_transfer_stock, do_transfer, run_transfer,
}
use sweetops.Inventory.Transfer.Frame.{row_or_empty, IsTransferred, write_transfer-IsTransferred}
use sweetops.Inventory.Transfer.Effect.{
  write_transfer-Keeps, write_transfer-on_hand, write_transfer-reserved,
}

replay-state :
    (inv : Inventory) (t : InventoryTransfer) (hash : Text) (r : TransferResult × Inventory)
    → replay_transfer inv t hash ≡ ok r
    → (r.1 ≡ inv) × (r.0.replayed ≡ true)
unfolding replay_transfer
replay-state inv t hash r h = ground arith

-- The rows that are locked are those of the tables, the destination's an empty one if it has none.
record IsLocked (cmd : TransferCommand) (unit : Text) (inv : Inventory)
    (source dest : IngredientStock) : Type 0 where
  from : inv.stock cmd.source_store_id cmd.ingredient_id ≡ some source
  to : dest ≡ row_or_empty unit (inv.stock cmd.destination_store_id cmd.ingredient_id)
  to_on_hand : dest.on_hand_quantity ≡ on_hand_of inv cmd.destination_store_id cmd.ingredient_id
  to_reserved : dest.reserved_quantity ≡ reserved_of inv cmd.destination_store_id cmd.ingredient_id

IsLocked-rows :
    (cmd : TransferCommand) (unit : Text) (inv : Inventory) (source dest : IngredientStock)
    → cmd.source_store_id ≢ cmd.destination_store_id
    → lock_transfer_stock
        (ensure_destination_stock_row cmd.destination_store_id cmd.ingredient_id unit inv)
        cmd
      ≡ ok (source, dest)
    → IsLocked cmd unit inv source dest
unfolding lock_transfer_stock ensure_destination_stock_row
IsLocked-rows cmd unit inv source dest apart h = ground arith

data Ends (race : Race) (cmd : TransferCommand) (inv : Inventory) (r : TransferResult × Inventory)
    : Type 0 where
  at_once : r.0.replayed ≡ true → r.1 ≡ inv → Ends race cmd inv r
  under_lock : r.0.replayed ≡ true → r.1 ≡ race.before_lock inv → Ends race cmd inv r
  at_insert :
      r.0.replayed ≡ true → r.1 ≡ race.before_insert (race.before_lock inv) → Ends race cmd inv r
  by_write :
      (unit : Text) (source dest : IngredientStock)
      → cmd.source_store_id ≢ cmd.destination_store_id
      → r.0 ≡ transfer_result cmd unit (race.before_insert (race.before_lock inv)).next_id
      → IsLocked cmd unit (race.before_lock inv) source dest
      → cmd.quantity ≤ℤ available source
      → r.1 ≡ write_transfer cmd unit source dest (race.before_insert (race.before_lock inv))
      → Ends race cmd inv r

module _ (race : Race) (cmd : TransferCommand) (inv : Inventory) (r : TransferResult × Inventory)
    (unit : Text) (source dest : IngredientStock)
    (apart : cmd.source_store_id ≢ cmd.destination_store_id)
    (locked : IsLocked cmd unit (race.before_lock inv) source dest) where
  insert-Ends :
      cmd.quantity ≤ℤ available source
      → insert_transfer cmd unit source dest (race.before_insert (race.before_lock inv)) ≡ ok r
      → Ends race cmd inv r
  unfolding insert_transfer
  insert-Ends enough h =
      let inv' = race.before_insert (race.before_lock inv) in
      elim (Option-cases (find_transfer_by_key inv' cmd.source_store_id cmd.key_hash)) [
        | inl e ↦ by_write unit source dest apart (ground arith) locked enough (ground arith)
        | inr (t, e) ↦
            let (same, replay) = replay-state inv' t cmd.request_hash r (ground arith) in
            at_insert replay same
      ]

  under_lock-Ends :
      transfer_under_lock race cmd unit (race.before_lock inv) source dest ≡ ok r
      → Ends race cmd inv r
  unfolding transfer_under_lock
  under_lock-Ends h =
      let inv' = race.before_lock inv in
      elim (Option-cases (find_transfer_by_key inv' cmd.source_store_id cmd.key_hash)) [
        | inl e ↦ elim (Bool-cases (ltb_ℤ (available source) cmd.quantity)) [
          | inl short ↦ absurd (ground arith)
          | inr enough ↦ insert-Ends (ground arith) (ground arith)
        ]
        | inr (t, e) ↦
            let (same, replay) = replay-state inv' t cmd.request_hash r (ground arith) in
            under_lock replay same
      ]

module _ (race : Race) (cmd : TransferCommand) (inv : Inventory)
    (r : TransferResult × Inventory) where
  do_transfer-Ends :
      cmd.source_store_id ≢ cmd.destination_store_id
      → do_transfer race cmd inv ≡ ok r
      → Ends race cmd inv r
  unfolding do_transfer
  do_transfer-Ends apart h =
      let (_, _, h1) = >>=-eq-ok (raise_if (not (inv.stores cmd.destination_store_id)) _ _) _ h in
      let (ingredient, _, h2) = >>=-eq-ok (load_ingredient inv cmd.ingredient_id) _ h1 in
      let (rows, e, h3) =
        >>=-eq-ok
          (lock_transfer_stock
            (ensure_destination_stock_row cmd.destination_store_id cmd.ingredient_id ingredient.unit
              (race.before_lock inv))
            cmd)
          _ h2 in
      under_lock-Ends race cmd inv r ingredient.unit rows.0 rows.1 apart
        (IsLocked-rows cmd ingredient.unit (race.before_lock inv) rows.0 rows.1 apart e) h3

  run_transfer-Ends : run_transfer race cmd inv ≡ ok r → Ends race cmd inv r
  unfolding run_transfer
  run_transfer-Ends h = elim (Bool-cases (cmd.destination_store_id == cmd.source_store_id)) [
    | inl same ↦ absurd (ground arith)
    | inr other ↦ elim (Option-cases (find_transfer_by_key inv cmd.source_store_id cmd.key_hash)) [
      | inl e ↦ do_transfer-Ends (ground arith) (ground arith)
      | inr (t, e) ↦
          let (same, replay) = replay-state inv t cmd.request_hash r (ground arith) in
          at_once replay same
    ]
  ]

dest-IsSound :
    (cmd : TransferCommand) (unit : Text) (inv : Inventory) (source dest : IngredientStock)
    → IsConsistent inv
    → IsLocked cmd unit inv source dest
    → IsSound dest
dest-IsSound cmd unit inv source dest c l =
    elim (Option-cases (inv.stock cmd.destination_store_id cmd.ingredient_id)) [
      | inl e ↦ ground (arith, l.to_on_hand, l.to_reserved)
      | inr (row, e) ↦ ground (arith, l.to_on_hand, l.to_reserved, c.rows _ _ row e)
    ]

-- The locked rows are still the tables' when the others have committed.
kept_rows :
    (race : Race) (cmd : TransferCommand) (unit : Text) (inv : Inventory)
    (source dest : IngredientStock)
    → IsFair race cmd.source_store_id cmd.ingredient_id
    → IsFair race cmd.destination_store_id cmd.ingredient_id
    → IsLocked cmd unit inv source dest
    → IsLocked cmd unit (race.before_insert inv) source dest
kept_rows race cmd unit inv source dest fs fd l = record {
  from = fs.row_kept inv ∙ l.from;
  to = rw (fd.row_kept inv) l.to;
  to_on_hand = rw (fd.row_kept inv) l.to_on_hand;
  to_reserved = rw (fd.row_kept inv) l.to_reserved;
}

module _ (race : Race) (cmd : TransferCommand) (inv : Inventory) (res : TransferResult)
    (inv' : Inventory) (positive : pos 0 <ℤ cmd.quantity)
    (fair_source : IsFair race cmd.source_store_id cmd.ingredient_id)
    (fair_destination : IsFair race cmd.destination_store_id cmd.ingredient_id) where
  -- A successful transfer of a positive quantity keeps the tables consistent (no row negative, none
  -- promised beyond what it holds, in either store), and the ledger explains every change, whatever
  -- fair transactions run beside it.
  pub run_transfer-Keeps :
      IsConsistent inv → run_transfer race cmd inv ≡ ok (res, inv') → Keeps inv inv'
  run_transfer-Keeps c h = go (run_transfer-Ends race cmd inv (res, inv') h)
    where
      locked : Inventory
      locked = race.before_lock inv

      others : Inventory
      others = race.before_insert locked

      c' : IsConsistent locked
      c' = fair_source.lock_consistent inv c

      c'' : IsConsistent others
      c'' = fair_source.insert_consistent locked c'

      x : Explained inv locked
      x = fair_source.lock_explained inv

      x' : Explained inv others
      x' = Explained-trans x (fair_source.insert_explained locked)

      go : Ends race cmd inv (res, inv') → Keeps inv inv'
      go (at_once _ e) = rw e (record { consistent = c; explained = Explained-refl inv })
      go (under_lock _ e) = rw e (record { consistent = c'; explained = x })
      go (at_insert _ e) = rw e (record { consistent = c''; explained = x' })
      go (by_write unit source dest apart _ l enough e) =
          let l' = kept_rows race cmd unit locked source dest fair_source fair_destination l in
          let k =
            write_transfer-Keeps cmd unit source dest others l'.from (l'.to_on_hand, l'.to_reserved)
              apart positive enough (dest-IsSound cmd unit others source dest c'' l') c'' in
          rw e (record { consistent = k.consistent; explained = Explained-trans x' k.explained })

  -- A transfer that is no replay takes its quantity off the source's shelf and puts it on the
  -- destination's, changes no other shelf and no reserved quantity, and moves between two stores.
  -- Besides, it adds the transfer, its two ledger rows and an audit row, and writes nothing else: no
  -- other column of a stock row, no order line, no other table.
  pub run_transfer_effect :
      run_transfer race cmd inv ≡ ok (res, inv')
      → res.replayed ≡ false
      → (cmd.source_store_id ≢ cmd.destination_store_id)
        × ((s i : ℕ)
            → let others = race.before_insert (race.before_lock inv) in
              (on_hand_of inv' s i
                  +ℤ at_shelf s i cmd.source_store_id cmd.ingredient_id cmd.quantity
                ≈ℤ on_hand_of others s i
                  +ℤ at_shelf s i cmd.destination_store_id cmd.ingredient_id cmd.quantity)
              × (reserved_of inv' s i ≈ℤ reserved_of others s i))
        × ((unit : Text) × IsTransferred cmd unit
              (race.before_insert (race.before_lock inv))
              inv'
              res)
  run_transfer_effect h fresh = go (run_transfer-Ends race cmd inv (res, inv') h)
    where
      others : Inventory
      others = race.before_insert (race.before_lock inv)

      go :
          Ends race cmd inv (res, inv')
          → (cmd.source_store_id ≢ cmd.destination_store_id)
            × ((s i : ℕ)
                → (on_hand_of inv' s i
                      +ℤ at_shelf s i cmd.source_store_id cmd.ingredient_id cmd.quantity
                    ≈ℤ on_hand_of others s i
                      +ℤ at_shelf s i cmd.destination_store_id cmd.ingredient_id cmd.quantity)
                  × (reserved_of inv' s i ≈ℤ reserved_of others s i))
            × ((unit : Text) × IsTransferred cmd unit others inv' res)
      go (at_once e _) = cc
      go (under_lock e _) = cc
      go (at_insert e _) = cc
      go (by_write unit source dest apart answer l enough e) =
          let l' =
            kept_rows race cmd unit (race.before_lock inv) source dest fair_source fair_destination
              l in
          (
            apart,
            λ s i. rw e (
                (
                  write_transfer-on_hand cmd unit source dest others l'.from
                      (l'.to_on_hand, l'.to_reserved) apart s i,
                  write_transfer-reserved cmd unit source dest others l'.from
                      (l'.to_on_hand, l'.to_reserved) apart s i,
                )),
            (
              unit,
              rw (e, answer)
                  (write_transfer-IsTransferred cmd unit source dest others l'.from l'.to apart),
            ),
          )
