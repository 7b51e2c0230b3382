-- ===== src/Inventory/Manual/Effect.antt =====
-- What the manual stock commands of apps/api/app/services/inventory_service.py do to the tables.
use sweetops.Base.{
  ℕ, ◌≡◌, refl, true, false, ◌||◌, some, arith, ok, ◌>>=◌, >>=-eq-ok, inl, inr, Bool-cases,
  Option-cases, ◌∙◌,
}
use sweetops.Int.{pos, ◌+ℤ◌, ◌≤ℤ◌, ◌≈ℤ◌, ltb_ℤ, int_laws}
use sweetops.Text.{Text}
use sweetops.Inventory.Model.{Ingredient, IngredientStock, Movement, Inventory}
use sweetops.Inventory.Books.{
  on_hand_of, reserved_of, at_shelf, Explained, Explained-refl, Explained-trans, IsConsistent,
  written-Explained, on_hand_of_row, reserved_of_row, rows-set_stock,
}
use sweetops.Inventory.Commands.{Race, find_movement_by_key, load_stock_for_update}
use sweetops.Inventory.Manual.{
  MovementResult, ManualCommand, resolve_replay, write_manual, manual_movement, insert_manual,
  manual_under_lock, apply_manual_movement, run_manual, restocked,
}

-- What is asked of the other transactions: they keep the tables consistent and their changes
-- explained, and none of them writes the stock row while this command holds its lock.
pub record IsFair (race : Race) (store ingredient : ℕ) : Type 0 where
  pub lock_consistent : (inv : Inventory) → IsConsistent inv → IsConsistent (race.before_lock inv)
  pub lock_explained : (inv : Inventory) → Explained inv (race.before_lock inv)
  pub insert_consistent :
      (inv : Inventory) → IsConsistent inv → IsConsistent (race.before_insert inv)
  pub insert_explained : (inv : Inventory) → Explained inv (race.before_insert inv)
  pub row_kept :
      (inv : Inventory)
      → (race.before_insert inv).stock store ingredient ≡ inv.stock store ingredient

-- The tables `after` are consistent, and the ledger explains how they came from `before`.
pub record Keeps (before after : Inventory) : Type 0 where
  pub consistent : IsConsistent after
  pub explained : Explained before after

abbrev new_row : ManualCommand → IngredientStock → IngredientStock
new_row cmd stock = record stock {
  on_hand_quantity = stock.on_hand_quantity +ℤ cmd.delta_on_hand;
  last_restocked = restocked cmd.movement_type cmd.now stock.last_restocked;
}

module _ (cmd : ManualCommand) (unit : Text) (stock : IngredientStock) (inv : Inventory)
    (here : inv.stock cmd.store_id cmd.ingredient_id ≡ some stock) where
  write_manual-Explained : Explained inv (write_manual cmd unit stock inv)
  unfolding write_manual
  write_manual-Explained =
      let h =
        written-Explained inv (new_row cmd stock) (manual_movement cmd unit)
          (rw (on_hand_of_row inv _ _ stock here) refl)
          (rw (reserved_of_row inv _ _ stock here) (omega int_laws)) in
      record { on_hand = h.on_hand; reserved = h.reserved }

  write_manual-reserved :
      (s i : ℕ) → reserved_of (write_manual cmd unit stock inv) s i ≈ℤ reserved_of inv s i
  unfolding write_manual
  write_manual-reserved s i = ground (arith, here)

  write_manual-on_hand :
      (s i : ℕ)
      → on_hand_of (write_manual cmd unit stock inv) s i
        ≈ℤ on_hand_of inv s i +ℤ at_shelf s i cmd.store_id cmd.ingredient_id cmd.delta_on_hand
  unfolding write_manual
  write_manual-on_hand s i = grind int_laws

  write_manual-Keeps :
      stock.reserved_quantity ≤ℤ stock.on_hand_quantity +ℤ cmd.delta_on_hand
      → IsConsistent inv
      → Keeps inv (write_manual cmd unit stock inv)
  unfolding write_manual
  write_manual-Keeps covered c = record {
    consistent = record {
      rows =
          rows-set_stock cmd.store_id cmd.ingredient_id (new_row cmd stock) inv
            (record {
              promised_nonneg = (c.rows _ _ stock here).promised_nonneg;
              promised_covered = covered;
            })
            c.rows;
      lines = c.lines;
      held = λ s i. omega (int_laws, write_manual-reserved s i, c.held s i);
    };
    explained = write_manual-Explained;
  }

resolve-state :
    (m : Movement) (hash : Text) (inv : Inventory) (r : MovementResult × Inventory)
    → (resolve_replay m hash >>= λ res. ok (res, inv)) ≡ ok r
    → (r.1 ≡ inv) × (r.0.replayed ≡ true)
unfolding resolve_replay
resolve-state m hash inv r h = ground arith

-- How a manual command ends when it succeeds: as a replay, over the tables of the others, or as
-- one write over them.
data Ends (race : Race) (cmd : ManualCommand) (inv : Inventory) (r : MovementResult × Inventory)
    : Type 0 where
  at_once : r.0.replayed ≡ true → r.1 ≡ inv → Ends race cmd inv r
  under_lock : r.0.replayed ≡ true → r.1 ≡ race.before_lock inv → Ends race cmd inv r
  at_insert :
      r.0.replayed ≡ true → r.1 ≡ race.before_insert (race.before_lock inv) → Ends race cmd inv r
  by_write :
      (unit : Text) (stock : IngredientStock)
      → r.0.replayed ≡ false
      → (race.before_lock inv).stock cmd.store_id cmd.ingredient_id ≡ some stock
      → stock.reserved_quantity ≤ℤ stock.on_hand_quantity +ℤ cmd.delta_on_hand
      → r.1 ≡ write_manual cmd unit stock (race.before_insert (race.before_lock inv))
      → Ends race cmd inv r

pub loaded_row :
    (inv : Inventory) (s i : ℕ) (p : Ingredient × IngredientStock)
    → load_stock_for_update inv s i ≡ ok p
    → inv.stock s i ≡ some p.1
unfolding load_stock_for_update
loaded_row inv s i p h = ground arith

module _ (race : Race) (cmd : ManualCommand) (inv : Inventory)
    (r : MovementResult × Inventory) where
  insert-Ends :
      (unit : Text) (stock : IngredientStock)
      → (race.before_lock inv).stock cmd.store_id cmd.ingredient_id ≡ some stock
      → stock.reserved_quantity ≤ℤ stock.on_hand_quantity +ℤ cmd.delta_on_hand
      → insert_manual cmd unit stock (race.before_insert (race.before_lock inv)) ≡ ok r
      → Ends race cmd inv r
  unfolding insert_manual
  insert-Ends unit stock here covered h =
      let inv' = race.before_insert (race.before_lock inv) in
      elim (Option-cases (find_movement_by_key inv' cmd.store_id cmd.key_hash)) [
        | inl e ↦ by_write unit stock (ground arith) here covered (ground arith)
        | inr (m, e) ↦
            let (same, replay) = resolve-state m cmd.request_hash inv' r (ground arith) in
            at_insert replay same
      ]

  under_lock-Ends :
      (loaded : Ingredient × IngredientStock)
      → (race.before_lock inv).stock cmd.store_id cmd.ingredient_id ≡ some loaded.1
      → manual_under_lock race cmd (race.before_lock inv) loaded ≡ ok r
      → Ends race cmd inv r
  unfolding manual_under_lock
  under_lock-Ends loaded here h =
      let locked = race.before_lock inv in
      let new_on_hand = loaded.1.on_hand_quantity +ℤ cmd.delta_on_hand in
      elim (Option-cases (find_movement_by_key locked cmd.store_id cmd.key_hash)) [
        | inl e ↦
            elim (Bool-cases
              (ltb_ℤ new_on_hand (pos 0) || ltb_ℤ new_on_hand loaded.1.reserved_quantity)) [
                | inl short ↦ absurd (ground arith)
                | inr enough ↦ insert-Ends loaded.0.unit loaded.1 here (ground arith) (ground arith)
              ]
        | inr (m, e) ↦
            let (same, replay) = resolve-state m cmd.request_hash locked r (ground arith) in
            under_lock replay same
      ]

  run_manual-Ends : run_manual race cmd inv ≡ ok r → Ends race cmd inv r
  unfolding run_manual apply_manual_movement
  run_manual-Ends h = elim (Option-cases (find_movement_by_key inv cmd.store_id cmd.key_hash)) [
    | inl e ↦
        let (loaded, f, g) =
          >>=-eq-ok (load_stock_for_update (race.before_lock inv) cmd.store_id cmd.ingredient_id) _
            (let k : apply_manual_movement race cmd inv ≡ ok r = ground arith in k) in
        under_lock-Ends loaded (loaded_row (race.before_lock inv) _ _ loaded f) g
    | inr (m, e) ↦
        let (same, replay) = resolve-state m cmd.request_hash inv r (ground arith) in
        at_once replay same
  ]

module _ (race : Race) (cmd : ManualCommand) (inv : Inventory) (res : MovementResult)
    (inv' : Inventory) (fair : IsFair race cmd.store_id cmd.ingredient_id) where
  -- A successful manual command keeps the tables consistent, and the ledger explains every change,
  -- whatever fair transactions run beside it.
  pub run_manual-Keeps :
      IsConsistent inv → run_manual race cmd inv ≡ ok (res, inv') → Keeps inv inv'
  run_manual-Keeps c h =
      let locked = race.before_lock inv in
      let c' = fair.lock_consistent inv c in
      let c'' = fair.insert_consistent locked c' in
      let x = fair.lock_explained inv in
      let x' = Explained-trans x (fair.insert_explained locked) in
      go c' c'' x x' (run_manual-Ends race cmd inv (res, inv') h)
    where
      go :
          IsConsistent (race.before_lock inv)
          → IsConsistent (race.before_insert (race.before_lock inv))
          → Explained inv (race.before_lock inv)
          → Explained inv (race.before_insert (race.before_lock inv))
          → Ends race cmd inv (res, inv')
          → Keeps inv inv'
      go c' c'' x x' (at_once _ e) =
          rw e (record { consistent = c; explained = Explained-refl inv })
      go c' c'' x x' (under_lock _ e) = rw e (record { consistent = c'; explained = x })
      go c' c'' x x' (at_insert _ e) = rw e (record { consistent = c''; explained = x' })
      go c' c'' x x' (by_write unit stock _ here covered e) =
          let k =
            write_manual-Keeps cmd unit stock (race.before_insert (race.before_lock inv))
              (fair.row_kept (race.before_lock inv) ∙ here) covered c'' in
          rw e (record { consistent = k.consistent; explained = Explained-trans x' k.explained })

  -- A manual command that is no replay adds its delta to the on-hand quantity of its own shelf, to
  -- no other shelf's, and changes no reserved quantity, over what the other transactions left.
  pub run_manual_effect :
      run_manual race cmd inv ≡ ok (res, inv')
      → res.replayed ≡ false
      → (s i : ℕ)
      → let others = race.before_insert (race.before_lock inv) in
        (on_hand_of inv' s i
          ≈ℤ on_hand_of others s i +ℤ at_shelf s i cmd.store_id cmd.ingredient_id cmd.delta_on_hand)
        × (reserved_of inv' s i ≈ℤ reserved_of others s i)
  run_manual_effect h fresh s i = go (run_manual-Ends race cmd inv (res, inv') h)
    where
      go :
          Ends race cmd inv (res, inv')
          → let others = race.before_insert (race.before_lock inv) in
            (on_hand_of inv' s i
              ≈ℤ on_hand_of others s i
                +ℤ at_shelf s i cmd.store_id cmd.ingredient_id cmd.delta_on_hand)
            × (reserved_of inv' s i ≈ℤ reserved_of others s i)
      go (at_once e _) = cc
      go (under_lock e _) = cc
      go (at_insert e _) = cc
      go (by_write unit stock _ here covered e) =
          let others = race.before_insert (race.before_lock inv) in
          let kept = fair.row_kept (race.before_lock inv) ∙ here in
          rw e (
            (
              write_manual-on_hand cmd unit stock others kept s i,
              write_manual-reserved cmd unit stock others kept s i,
            ))
