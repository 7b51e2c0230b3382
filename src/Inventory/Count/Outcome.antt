-- ===== src/Inventory/Count/Outcome.antt =====
-- How record_stock_count of apps/api/app/services/inventory_service.py ends, beside other
-- transactions.
use sweetops.Base.{◌≡◌, true, some, arith, ok, >>=-eq-ok, inl, inr, Bool-cases, Option-cases, ◌∙◌}
use sweetops.Int.{◌≤ℤ◌, ltb_ℤ}
use sweetops.Text.{Text}
use sweetops.Inventory.Model.{Ingredient, IngredientStock, Inventory, InventoryStockCount}
use sweetops.Inventory.Books.{Explained, Explained-refl, Explained-trans, IsConsistent}
use sweetops.Inventory.Commands.{Race, load_stock_for_update}
use sweetops.Inventory.Manual.Effect.{IsFair, Keeps, loaded_row}
use sweetops.Inventory.Count.{
  StockCountResult, CountCommand, find_stock_count_by_key, replay_stock_count, insert_count,
  count_under_lock, run_count,
}
use sweetops.Inventory.Count.Frame.{count_result}
use sweetops.Inventory.Count.Effect.{write_count, write_count-IsCorrected}

replay-state :
    (inv : Inventory) (existing : InventoryStockCount) (hash : Text)
    (r : StockCountResult × Inventory)
    → replay_stock_count inv existing hash ≡ ok r
    → (r.1 ≡ inv) × (r.0.replayed ≡ true)
unfolding replay_stock_count
replay-state inv existing hash r h = ground arith

-- How a count ends when it succeeds.
data Ends (race : Race) (cmd : CountCommand) (inv : Inventory) (r : StockCountResult × Inventory)
    : Type 0 where
  at_once : r.0.replayed ≡ true → r.1 ≡ inv → Ends race cmd inv r
  under_lock : r.0.replayed ≡ true → r.1 ≡ race.before_lock inv → Ends race cmd inv r
  at_insert :
      r.0.replayed ≡ true → r.1 ≡ race.before_insert (race.before_lock inv) → Ends race cmd inv r
  by_write :
      (unit : Text) (stock : IngredientStock)
      → r.0 ≡ count_result cmd unit stock (race.before_insert (race.before_lock inv))
      → (race.before_lock inv).stock cmd.store_id cmd.ingredient_id ≡ some stock
      → stock.reserved_quantity ≤ℤ cmd.counted
      → r.1 ≡ write_count cmd unit stock (race.before_insert (race.before_lock inv))
      → Ends race cmd inv r

module _ (race : Race) (cmd : CountCommand) (inv : Inventory)
    (r : StockCountResult × Inventory) where
  insert-Ends :
      (unit : Text) (stock : IngredientStock)
      → (race.before_lock inv).stock cmd.store_id cmd.ingredient_id ≡ some stock
      → stock.reserved_quantity ≤ℤ cmd.counted
      → insert_count cmd unit stock (race.before_insert (race.before_lock inv)) ≡ ok r
      → Ends race cmd inv r
  unfolding insert_count
  insert-Ends unit stock here covered h =
      let inv' = race.before_insert (race.before_lock inv) in
      elim (Option-cases (find_stock_count_by_key inv' cmd.store_id cmd.key_hash)) [
        | inl e ↦ by_write unit stock (ground arith) here covered (ground arith)
        | inr (m, e) ↦
            let (same, replay) = replay-state inv' m cmd.request_hash r (ground arith) in
            at_insert replay same
      ]

  under_lock-Ends :
      (loaded : Ingredient × IngredientStock)
      → (race.before_lock inv).stock cmd.store_id cmd.ingredient_id ≡ some loaded.1
      → count_under_lock race cmd (race.before_lock inv) loaded ≡ ok r
      → Ends race cmd inv r
  unfolding count_under_lock
  under_lock-Ends loaded here h =
      let locked = race.before_lock inv in
      elim (Option-cases (find_stock_count_by_key locked cmd.store_id cmd.key_hash)) [
        | inl e ↦ elim (Bool-cases (ltb_ℤ cmd.counted loaded.1.reserved_quantity)) [
          | inl short ↦ absurd (ground arith)
          | inr enough ↦ insert-Ends loaded.0.unit loaded.1 here (ground arith) (ground arith)
        ]
        | inr (m, e) ↦
            let (same, replay) = replay-state locked m cmd.request_hash r (ground arith) in
            under_lock replay same
      ]

  run_count-Ends : run_count race cmd inv ≡ ok r → Ends race cmd inv r
  unfolding run_count
  run_count-Ends h = elim (Option-cases (find_stock_count_by_key inv cmd.store_id cmd.key_hash)) [
    | inl e ↦
        let (loaded, f, g) =
          >>=-eq-ok (load_stock_for_update (race.before_lock inv) cmd.store_id cmd.ingredient_id)
            (λ x. count_under_lock race cmd (race.before_lock inv) x) (rw (e, run_count) at h) in
        under_lock-Ends loaded (loaded_row (race.before_lock inv) _ _ loaded f) g
    | inr (m, e) ↦
        let (same, replay) = replay-state inv m cmd.request_hash r (ground arith) in
        at_once replay same
  ]

module _ (race : Race) (cmd : CountCommand) (inv : Inventory) (res : StockCountResult)
    (inv' : Inventory) (fair : IsFair race cmd.store_id cmd.ingredient_id)
    (c : IsConsistent inv) where
  abbrev others : Inventory
  others = race.before_insert (race.before_lock inv)

  others-IsConsistent : IsConsistent others
  others-IsConsistent = fair.insert_consistent (race.before_lock inv) (fair.lock_consistent inv c)

  others-Explained : Explained inv others
  others-Explained =
      Explained-trans (fair.lock_explained inv) (fair.insert_explained (race.before_lock inv))

  -- A successful stock count keeps the tables consistent, and the ledger explains every change,
  -- whatever fair transactions run beside it.
  pub run_count-Keeps : run_count race cmd inv ≡ ok (res, inv') → Keeps inv inv'
  run_count-Keeps h = go (run_count-Ends race cmd inv (res, inv') h)
    where
      go : Ends race cmd inv (res, inv') → Keeps inv inv'
      go (at_once _ e) = rw e (record { consistent = c; explained = Explained-refl inv })
      go (under_lock _ e) =
          rw e (record {
            consistent = fair.lock_consistent inv c;
            explained = fair.lock_explained inv;
          })
      go (at_insert _ e) =
          rw e (record { consistent = others-IsConsistent; explained = others-Explained })
      go (by_write unit stock _ here covered e) =
          let k =
            (write_count-IsCorrected cmd unit stock others
              (fair.row_kept (race.before_lock inv) ∙ here) covered others-IsConsistent).keeps in
          rw e (record {
            consistent = k.consistent;
            explained = Explained-trans others-Explained k.explained;
          })
