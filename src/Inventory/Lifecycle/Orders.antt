-- ===== src/Inventory/Lifecycle/Orders.antt =====
-- consume_order and release_order_reservation of apps/api/app/services/inventory_service.py.
use sweetops.Base.{ℕ, ◌≡◌, refl, ◌≢◌, Option, List, [], ◌∷◌, false, ok}
use sweetops.Int.{ℤ, pos, ◌+ℤ◌, ◌-ℤ◌, ◌≤ℤ◌, ◌≈ℤ◌, neg, int_laws}
use sweetops.Inventory.Model.{
  OrderInventoryLine, Inventory, consumption, reservation_released, Audit, AuditAction,
  inventory_consumed, inventory_reservation_released,
}
use sweetops.Inventory.Books.{
  on_hand_of, reserved_of, promised, All, Explained, Explained-refl, IsConsistent,
  written-Explained, on_hand_of_row, reserved_of_row,
}
use sweetops.Inventory.Lifecycle.{
  line_movement, outstanding_reservation, is_pending, Totals, Settled, consume_line, consume_stock,
  release_line, release_stock, finish, finish_with, consume_order, release_order_reservation,
}
use sweetops.Inventory.Lifecycle.Body.{IsBody, Settles, order_share}
use sweetops.Inventory.Lifecycle.Settle.{
  settle_lines-Settles, settle_lines-idle-All, idle_of_no_totals,
}

consume_body : (actor : Option ℕ) → IsBody consume_line (consume_stock actor)
unfolding consume_line consume_stock
consume_body actor = record {
  on_row = λ l row. record row {
    on_hand_quantity = row.on_hand_quantity -ℤ outstanding_reservation l;
    reserved_quantity = row.reserved_quantity -ℤ outstanding_reservation l;
  };
  stock_written = λ l row inv. refl;
  explained = λ l row inv e.
      written-Explained inv _ (line_movement consumption (neg (outstanding_reservation l)) actor l)
        (rw (on_hand_of_row inv _ _ row e) (omega int_laws))
        (rw (reserved_of_row inv _ _ row e) (omega int_laws));
  row_sound = λ l row p c h. record {
    promised_nonneg = omega int_laws;
    promised_covered = omega (int_laws, h.promised_covered);
  };
  promise_taken = λ l row. refl;
  goods = outstanding_reservation;
  goods_taken = λ l row. refl;
  same_store = λ l. refl;
  same_ingredient = λ l. refl;
  line_sound = λ l p h. record {
    consumed_nonneg = omega (int_laws, h.consumed_nonneg);
    released_nonneg = h.released_nonneg;
    within_reserved = omega (int_laws, h.within_reserved);
  };
  line_settled = λ l. omega int_laws;
}

release_body : (actor : Option ℕ) → IsBody release_line (release_stock actor)
unfolding release_line release_stock
release_body actor = record {
  on_row = λ l row. record row {
    reserved_quantity = row.reserved_quantity -ℤ outstanding_reservation l;
  };
  stock_written = λ l row inv. refl;
  explained = λ l row inv e.
      written-Explained inv _ (line_movement reservation_released (pos 0) actor l)
        (rw (on_hand_of_row inv _ _ row e) (omega int_laws))
        (rw (reserved_of_row inv _ _ row e) (omega int_laws));
  row_sound = λ l row p c h. record {
    promised_nonneg = omega int_laws;
    promised_covered = omega (int_laws, h.promised_covered);
  };
  promise_taken = λ l row. refl;
  goods = λ l. pos 0;
  goods_taken = λ l row. omega int_laws;
  same_store = λ l. refl;
  same_ingredient = λ l. refl;
  line_sound = λ l p h. record {
    consumed_nonneg = h.consumed_nonneg;
    released_nonneg = omega (int_laws, h.released_nonneg);
    within_reserved = omega (int_laws, h.within_reserved);
  };
  line_settled = λ l. omega int_laws;
}

-- What settling an order does to the tables: they agree again, the ledger explains the change,
-- exactly the order's outstanding quantities left the promise, and exactly `goods` of them the
-- shelf, of the order's store alone, and nothing of the order is left outstanding.
pub record OrderSettled (goods : OrderInventoryLine → ℤ) (store order : ℕ)
    (before after : Inventory) : Type 0 where
  pub consistent : IsConsistent after
  pub explained : Explained before after
  pub reserved_taken :
      (s i : ℕ)
      → reserved_of after s i +ℤ order_share outstanding_reservation store order before.lines s i
        ≈ℤ reserved_of before s i
  pub on_hand_taken :
      (s i : ℕ)
      → on_hand_of after s i +ℤ order_share goods store order before.lines s i
        ≈ℤ on_hand_of before s i
  pub elsewhere : (s i : ℕ) → s ≢ store → after.stock s i ≡ before.stock s i
  pub settled : All (λ l. is_pending store order l ≡ false) after.lines

share_of_idle :
    (f : OrderInventoryLine → ℤ) (store order : ℕ) (ls : List OrderInventoryLine) (s i : ℕ)
    → All (λ l. is_pending store order l ≡ false) ls
    → order_share f store order ls s i ≈ℤ pos 0
share_of_idle f store order [] s i h = refl
share_of_idle f store order (l ∷ ls) s i h =
    rw h.0 (omega (int_laws, share_of_idle f store order ls s i h.1))

-- An order with nothing pending is settled as it stands.
idle-OrderSettled :
    (goods : OrderInventoryLine → ℤ) (store order : ℕ) (inv : Inventory)
    → IsConsistent inv
    → All (λ l. is_pending store order l ≡ false) inv.lines
    → OrderSettled goods store order inv inv
idle-OrderSettled goods store order inv c idle = record {
  consistent = c;
  explained = Explained-refl inv;
  reserved_taken =
      λ s i. omega (int_laws, share_of_idle outstanding_reservation store order inv.lines s i idle);
  on_hand_taken = λ s i. omega (int_laws, share_of_idle goods store order inv.lines s i idle);
  elsewhere = λ s i other. refl;
  settled = idle;
}

Settles-OrderSettled :
    (goods : OrderInventoryLine → ℤ) (store order : ℕ) (inv : Inventory) (r : Settled)
    (audits : List Audit)
    → IsConsistent inv
    → Settles goods store order inv.lines inv r
    → OrderSettled goods store order inv (record r.inv { lines = r.lines; audits = audits })
Settles-OrderSettled goods store order inv r audits c h = record {
  consistent = record {
    rows = h.rows;
    lines = h.lines_sound;
    held = λ s i. omega (int_laws, h.promise s i, c.held s i);
  };
  explained = record { on_hand = h.explained.on_hand; reserved = h.explained.reserved };
  reserved_taken = h.reserved_taken;
  on_hand_taken = h.on_hand_taken;
  elsewhere = h.elsewhere;
  settled = h.settled;
}

finish-OrderSettled :
    (goods : OrderInventoryLine → ℤ) (action : AuditAction) (actor : Option ℕ) (store order : ℕ)
    (inv : Inventory) (r : Settled)
    → IsConsistent inv
    → Settles goods store order inv.lines inv r
    → (r.totals ≡ [] → All (λ l. is_pending store order l ≡ false) inv.lines)
    → OrderSettled goods store order inv (finish action actor order inv r).1
unfolding finish
finish-OrderSettled goods action actor store order inv r c h quiet = go r.totals quiet
  where
    go :
        (t : Totals)
        → (t ≡ [] → All (λ l. is_pending store order l ≡ false) inv.lines)
        → OrderSettled goods store order inv
            (finish_with action actor order inv (record r.inv { lines = r.lines }) t).1
    go [] q = idle-OrderSettled goods store order inv c (q refl)
    go (e ∷ t) q = Settles-OrderSettled goods store order inv r _ c h

covered_of_held :
    (inv : Inventory) → IsConsistent inv → (s i : ℕ) → promised inv.lines s i ≤ℤ reserved_of inv s i
covered_of_held inv c s i = omega (int_laws, c.held s i)

module _ (actor : Option ℕ) (store order : ℕ) (inv : Inventory) (c : IsConsistent inv) where
  -- On consistent tables consume_order never raises; it takes exactly the order's outstanding
  -- quantities off the reserved and off the on-hand quantities, of that store's shelves alone,
  -- with a ledger row for every change, and leaves the tables consistent and nothing of the order
  -- outstanding.
  pub consume_order-OrderSettled :
      (r : Totals × Inventory) × (consume_order actor store order inv ≡ ok r)
      × OrderSettled outstanding_reservation store order inv r.1
  unfolding consume_order consume_body
  consume_order-OrderSettled =
      let body = consume_body actor in
      let (r, e, h) =
        settle_lines-Settles body store order inv.lines [] inv (covered_of_held inv c) c.lines
          c.rows in
      (
        finish inventory_consumed actor order inv r,
        rw e,
        finish-OrderSettled outstanding_reservation inventory_consumed actor store order inv r c h
            (λ q. (idle_of_no_totals body store order inv.lines [] inv r e q).1),
      )

  -- On consistent tables release_order_reservation never raises; it takes exactly the order's
  -- outstanding quantities off the reserved quantities of that store's shelves and nothing off the
  -- on-hand quantities, with a ledger row for every change, and leaves the tables consistent and
  -- nothing of the order outstanding.
  pub release_order_reservation-OrderSettled :
      (r : Totals × Inventory) × (release_order_reservation actor store order inv ≡ ok r)
      × OrderSettled (λ l. pos 0) store order inv r.1
  unfolding release_order_reservation release_body
  release_order_reservation-OrderSettled =
      let body = release_body actor in
      let (r, e, h) =
        settle_lines-Settles body store order inv.lines [] inv (covered_of_held inv c) c.lines
          c.rows in
      (
        finish inventory_reservation_released actor order inv r,
        rw e,
        finish-OrderSettled (λ l. pos 0) inventory_reservation_released actor store order inv r c h
            (λ q. (idle_of_no_totals body store order inv.lines [] inv r e q).1),
      )

-- An order with nothing pending is neither consumed nor released.
module _ (actor : Option ℕ) (store order : ℕ) (inv : Inventory)
    (idle : All (λ l. is_pending store order l ≡ false) inv.lines) where
  pub consume_order-idle : consume_order actor store order inv ≡ ok ([], inv)
  unfolding consume_order finish
  consume_order-idle =
      rw (settle_lines-idle-All (consume_body actor) store order inv.lines [] inv idle)

  pub release_order_reservation-idle :
      release_order_reservation actor store order inv ≡ ok ([], inv)
  unfolding release_order_reservation finish
  release_order_reservation-idle =
      rw (settle_lines-idle-All (release_body actor) store order inv.lines [] inv idle)

module _ (actor again : Option ℕ) (store order : ℕ) (inv : Inventory) (c : IsConsistent inv)
    (r : Totals × Inventory) where
  -- Exactly once: after consume_order has run on consistent tables, running it again, or releasing
  -- the order, changes nothing and returns an empty dict.
  pub consume_order-once :
      consume_order actor store order inv ≡ ok r
      → (consume_order again store order r.1 ≡ ok ([], r.1))
        × (release_order_reservation again store order r.1 ≡ ok ([], r.1))
  consume_order-once e =
      let (r', e', h) = consume_order-OrderSettled actor store order inv c in
      let same : r' ≡ r = cc in
      let idle = rw same at h.settled in
      (
        consume_order-idle again store order r.1 idle,
        release_order_reservation-idle again store order r.1 idle,
      )

  -- Exactly once: after release_order_reservation has run on consistent tables, running it again,
  -- or consuming the order, changes nothing and returns an empty dict.
  release_order_reservation-once :
      release_order_reservation actor store order inv ≡ ok r
      → (consume_order again store order r.1 ≡ ok ([], r.1))
        × (release_order_reservation again store order r.1 ≡ ok ([], r.1))
  release_order_reservation-once e =
      let (r', e', h) = release_order_reservation-OrderSettled actor store order inv c in
      let same : r' ≡ r = cc in
      let idle = rw same at h.settled in
      (
        consume_order-idle again store order r.1 idle,
        release_order_reservation-idle again store order r.1 idle,
      )
