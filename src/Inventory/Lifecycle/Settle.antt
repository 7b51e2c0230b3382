-- ===== src/Inventory/Lifecycle/Settle.antt =====
-- The loops of consume_order and release_order_reservation of
-- apps/api/app/services/inventory_service.py, over all the lines of the table.
use sweetops.Base.{
  ℕ, ◌≡◌, refl, true, false, Option, none, some, List, [], ◌∷◌, arith, inl, inr, ok, err, http,
  stock_row_missing, ◌>>=◌, Result, Bool-cases, ◌≢◌, ◌∙◌,
}
use mathlib.Core.Path.{subst}
use sweetops.Int.{ℤ, int_laws}
use sweetops.Inventory.Model.{IngredientStock, OrderInventoryLine, Inventory}
use sweetops.Inventory.Books.{All, RowsSound, LineSound, Explained-refl, Explained-trans}
use sweetops.Inventory.Lifecycle.{
  outstanding_reservation, is_pending, Totals, Settled, settle_lines, add_to,
}
use sweetops.Inventory.Lifecycle.Body.{
  IsBody, IsCovered, Settles, at_shelf_nonneg, IsCovered-step, elsewhere-step, is_pending_facts,
  on_hand_of-step, outstanding_nonneg, promised-step, reserved_of-step, row_of_pending, rows-step,
}

module _ {on_line : OrderInventoryLine → OrderInventoryLine}
    {on_stock : OrderInventoryLine → IngredientStock → Inventory → Inventory}
    (body : IsBody on_line on_stock) (store order : ℕ) where
  -- What is settled of a line that is passed over, or that was settled, is settled of the list.
  settle_skip :
      (l : OrderInventoryLine) (ls : List OrderInventoryLine) (inv : Inventory) (r : Settled)
      → is_pending store order l ≡ false
      → LineSound l
      → Settles body.goods store order ls inv r
      → Settles body.goods store order (l ∷ ls) inv (record r { lines = l ∷ r.lines })
  settle_skip l ls inv r idle sound h = record {
    explained = h.explained;
    rows = h.rows;
    lines_sound = (sound, h.lines_sound);
    promise = λ s i. omega (int_laws, h.promise s i);
    reserved_taken = λ s i. rw idle (omega (int_laws, h.reserved_taken s i));
    on_hand_taken = λ s i. rw idle (omega (int_laws, h.on_hand_taken s i));
    elsewhere = h.elsewhere;
    settled = (idle, h.settled);
  }

  settled_idle : (l : OrderInventoryLine) → is_pending store order (on_line l) ≡ false
  unfolding is_pending
  settled_idle l = ground (arith, body.line_settled l)

  settle_take :
      (l : OrderInventoryLine) (row : IngredientStock) (ls : List OrderInventoryLine)
      (inv : Inventory) (r : Settled)
      → inv.stock l.store_id l.ingredient_id ≡ some row
      → is_pending store order l ≡ true
      → LineSound l
      → Settles body.goods store order ls (on_stock l row inv) r
      → Settles body.goods store order (l ∷ ls) inv (record r { lines = on_line l ∷ r.lines })
  settle_take l row ls inv r here pending sound h =
      let (own, _, p) = is_pending_facts store order l pending in
      record {
        explained = Explained-trans (body.explained l row inv here) h.explained;
        rows = h.rows;
        lines_sound = (body.line_sound l p sound, h.lines_sound);
        promise = λ s i. omega (
          int_laws,
          h.promise s i,
          reserved_of-step body l row inv here s i,
          promised-step body l row inv here r.lines s i,
        );
        reserved_taken = λ s i.
            rw pending
              (omega (int_laws, h.reserved_taken s i, reserved_of-step body l row inv here s i));
        on_hand_taken = λ s i.
            rw pending
              (omega (int_laws, h.on_hand_taken s i, on_hand_of-step body l row inv here s i));
        elsewhere = λ s i other.
            h.elsewhere s i other ∙ elsewhere-step body l row inv here s i (rw own other);
        settled = (settled_idle l, h.settled);
      }

  settle_lines-idle :
      (l : OrderInventoryLine) (ls : List OrderInventoryLine) (acc : Totals) (inv : Inventory)
      {r : Settled}
      → is_pending store order l ≡ false
      → settle_lines on_line on_stock store order ls acc inv ≡ ok r
      → settle_lines on_line on_stock store order (l ∷ ls) acc inv
        ≡ ok (record r { lines = l ∷ r.lines })
  unfolding settle_lines
  settle_lines-idle l ls acc inv idle e = ground arith

  settle_lines-pending :
      (l : OrderInventoryLine) (row : IngredientStock) (ls : List OrderInventoryLine) (acc : Totals)
      (inv : Inventory) {r : Settled}
      → is_pending store order l ≡ true
      → inv.stock store l.ingredient_id ≡ some row
      → settle_lines on_line on_stock store order ls
          (add_to l.ingredient_id (outstanding_reservation l) acc)
          (on_stock l row inv)
        ≡ ok r
      → settle_lines on_line on_stock store order (l ∷ ls) acc inv
        ≡ ok (record r { lines = on_line l ∷ r.lines })
  unfolding settle_lines
  settle_lines-pending l row ls acc inv pending here e = ground arith

  IsCovered-tail :
      (l : OrderInventoryLine) (ls : List OrderInventoryLine) (inv : Inventory)
      → LineSound l
      → IsCovered (l ∷ ls) inv
      → IsCovered ls inv
  IsCovered-tail l ls inv sound c s i = omega (
    int_laws,
    c s i,
    at_shelf_nonneg s i l.store_id l.ingredient_id _ (outstanding_nonneg l sound),
  )

  -- On covered lines and sound tables the loop returns, and has settled them.
  pub settle_lines-Settles :
      (lines : List OrderInventoryLine) (acc : Totals) (inv : Inventory)
      → IsCovered lines inv
      → All LineSound lines
      → RowsSound inv
      → (r : Settled) × (settle_lines on_line on_stock store order lines acc inv ≡ ok r)
        × Settles body.goods store order lines inv r
  unfolding settle_lines
  settle_lines-Settles [] acc inv covered sound rows = (
    record { lines = []; inv = inv; totals = acc },
    refl,
    record {
      explained = Explained-refl inv;
      rows = rows;
      lines_sound = tt;
      promise = λ s i. refl;
      reserved_taken = λ s i. omega int_laws;
      on_hand_taken = λ s i. omega int_laws;
      elsewhere = λ s i other. refl;
      settled = tt;
    },
  )
  settle_lines-Settles (l ∷ ls) acc inv covered sound rows =
      elim (Bool-cases (is_pending store order l)) [
        | inl pending ↦
            let (own, _, p) = is_pending_facts store order l pending in
            let (row, here, c) = row_of_pending l ls inv covered sound.1 p in
            let (r, e, h) =
              settle_lines-Settles ls (add_to l.ingredient_id (outstanding_reservation l) acc)
                (on_stock l row inv) (IsCovered-step body l row inv here ls covered) sound.1
                (rows-step body l row inv here p c rows) in
            (
              record r { lines = on_line l ∷ r.lines },
              settle_lines-pending l row ls acc inv pending
                  (subst (λ x. inv.stock x l.ingredient_id ≡ some row) own here) e,
              settle_take l row ls inv r here pending sound.0 h,
            )
        | inr idle ↦
            let (r, e, h) =
              settle_lines-Settles ls acc inv (IsCovered-tail l ls inv sound.0 covered) sound.1
                rows in
            (
              record r { lines = l ∷ r.lines },
              settle_lines-idle l ls acc inv idle e,
              settle_skip l ls inv r idle sound.0 h,
            )
      ]

  -- With no line pending the loop changes nothing.
  pub settle_lines-idle-All :
      (lines : List OrderInventoryLine) (acc : Totals) (inv : Inventory)
      → All (λ l. is_pending store order l ≡ false) lines
      → settle_lines on_line on_stock store order lines acc inv
        ≡ ok (record { lines = lines; inv = inv; totals = acc })
  unfolding settle_lines
  settle_lines-idle-All [] acc inv h = refl
  settle_lines-idle-All (l ∷ ls) acc inv h =
      settle_lines-idle l ls acc inv h.0 (settle_lines-idle-All ls acc inv h.1)

  -- The returned dict is empty only if no line was pending.
  add_to-ne-nil : (k : ℕ) (q : ℤ) (acc : Totals) → add_to k q acc ≢ []
  unfolding add_to
  add_to-ne-nil k q [] e = cc
  add_to-ne-nil k q (x ∷ acc) e = ground arith

  settle_lines-idle_inv :
      (l : OrderInventoryLine) (ls : List OrderInventoryLine) (acc : Totals) (inv : Inventory)
      (r : Settled)
      → is_pending store order l ≡ false
      → settle_lines on_line on_stock store order (l ∷ ls) acc inv ≡ ok r
      → (r' : Settled) × (settle_lines on_line on_stock store order ls acc inv ≡ ok r')
        × (r'.totals ≡ r.totals)
  unfolding settle_lines
  settle_lines-idle_inv l ls acc inv r idle e =
      go (settle_lines on_line on_stock store order ls acc inv) refl (ground arith)
    where
      go :
          (x : Result Settled)
          → settle_lines on_line on_stock store order ls acc inv ≡ x
          → (x >>= λ r. ok (record r { lines = l ∷ r.lines })) ≡ ok r
          → (r' : Settled) × (settle_lines on_line on_stock store order ls acc inv ≡ ok r')
            × (r'.totals ≡ r.totals)
      go (ok r') f h = (r', f, ground arith)
      go (err x) f h = cc

  settle_lines-pending_inv :
      (l : OrderInventoryLine) (ls : List OrderInventoryLine) (acc : Totals) (inv : Inventory)
      (r : Settled)
      → is_pending store order l ≡ true
      → settle_lines on_line on_stock store order (l ∷ ls) acc inv ≡ ok r
      → (inv' : Inventory) × (r' : Settled) × (settle_lines on_line on_stock store order ls
            (add_to l.ingredient_id (outstanding_reservation l) acc)
            inv'
          ≡ ok r')
        × (r'.totals ≡ r.totals)
  unfolding settle_lines
  settle_lines-pending_inv l ls acc inv r pending e =
      row_case (inv.stock store l.ingredient_id) (ground arith)
    where
      rest : IngredientStock → Result Settled
      rest row =
          settle_lines on_line on_stock store order ls
            (add_to l.ingredient_id (outstanding_reservation l) acc) (on_stock l row inv)

      go :
          (row : IngredientStock) (x : Result Settled)
          → rest row ≡ x
          → (x >>= λ r. ok (record r { lines = on_line l ∷ r.lines })) ≡ ok r
          → (inv' : Inventory) × (r' : Settled) × (settle_lines on_line on_stock store order ls
                (add_to l.ingredient_id (outstanding_reservation l) acc)
                inv'
              ≡ ok r')
            × (r'.totals ≡ r.totals)
      go row (ok r') f h = (on_stock l row inv, r', f, ground arith)
      go row (err x) f h = cc

      row_case :
          (o : Option IngredientStock)
          → (elim o [
            | none ↦ err (http 409 stock_row_missing)
            | some row ↦ (rest row >>= λ r. ok (record r { lines = on_line l ∷ r.lines }))
          ])
            ≡ ok r
          → (inv' : Inventory) × (r' : Settled) × (settle_lines on_line on_stock store order ls
                (add_to l.ingredient_id (outstanding_reservation l) acc)
                inv'
              ≡ ok r')
            × (r'.totals ≡ r.totals)
      row_case none h = cc
      row_case (some row) h = go row (rest row) refl h

  pub idle_of_no_totals :
      (lines : List OrderInventoryLine) (acc : Totals) (inv : Inventory) (r : Settled)
      → settle_lines on_line on_stock store order lines acc inv ≡ ok r
      → r.totals ≡ []
      → (acc ≡ []) × All (λ l. is_pending store order l ≡ false) lines
  unfolding settle_lines
  idle_of_no_totals [] acc inv r e h = (ground arith, tt)
  idle_of_no_totals (l ∷ ls) acc inv r e h = elim (Bool-cases (is_pending store order l)) [
    | inl pending ↦
        let (inv', r', f, same) = settle_lines-pending_inv l ls acc inv r pending e in
        absurd (
          add_to-ne-nil l.ingredient_id (outstanding_reservation l) acc
            (idle_of_no_totals ls _ inv' r' f (same ∙ h)).0)
    | inr idle ↦
        let (r', f, same) = settle_lines-idle_inv l ls acc inv r idle e in
        let (empty, rest) = idle_of_no_totals ls acc inv r' f (same ∙ h) in (empty, (idle, rest))
  ]
