-- ===== src/Ordering/Placing.antt =====
-- How create_order of apps/api/app/services/order_service.py ends when it succeeds.
use mathlib.Core.Path.{subst}
use sweetops.Base.{
  ℕ, suc, ◌≡◌, refl, Bool, true, false, Option, some, List, [], ◌∷◌, ◌++◌, arith, ◌==◌,
  if◌then◌else◌, ok, >>=-eq-ok, inl, inr, Option-cases, ◌∙◌,
}
use sweetops.Int.{ℤ, pos, ◌+ℤ◌, ◌<ℤ◌, ◌≈ℤ◌, int_laws}
use sweetops.Text.{Text}
use sweetops.Inventory.Books.{on_hand_of, reserved_of, Explained, IsConsistent}
use sweetops.Inventory.Lifecycle.{Requirement, check_availability}
use sweetops.Inventory.Lifecycle.Reserve.{required_of}
use sweetops.Inventory.Lifecycle.Reservations.{IsAvailable, reserve_for_order-Reserved}
use sweetops.Ordering.{
  OrderCreateRequest, Shop, Race, required_totals, line_requirements, unit_of, total_amount,
  new_order, created_event, item_rows, ingredient_rows, set_key, key_owner, fast_owner,
  derive_order_context, all_offered, resolve_menu_products, ingredient_ids, check_ingredients,
  place_order, commit_order, order_under_lock, with_order, new_order_request, create_order,
}
use sweetops.Ordering.Basket.{
  need, HasPortions, total_of-required_totals, required_totals-AreKeys,
  required_of-line_requirements, check_availability-enough,
}

-- What is asked of the other transactions: they keep the tables consistent, and none writes a stock
-- row that the order has locked.
pub record IsFair (race : Race) (store : ℕ) (needs : ℕ → ℤ) : Type 0 where
  pub lock_consistent :
      (shop : Shop) → IsConsistent shop.inventory → IsConsistent (race.before_lock shop).inventory
  pub commit_consistent :
      (shop : Shop) → IsConsistent shop.inventory → IsConsistent (race.before_commit shop).inventory
  pub rows_kept :
      (shop : Shop) (i : ℕ)
      → pos 0 <ℤ needs i
      → (race.before_commit shop).inventory.stock store i ≡ shop.inventory.stock store i

-- A new order: its row has the price of its items, and exactly what they need is promised to it, of
-- its store alone, over the tables `before`.
pub record IsPlaced (req : OrderCreateRequest) (store : ℕ) (table : Option ℕ) (seen before : Shop)
    (id : ℕ) (after : Shop) : Type 0 where
  pub consistent : IsConsistent after.inventory
  pub explained : Explained before.inventory after.inventory
  pub promise :
      (s i : ℕ)
      → reserved_of after.inventory s i
        ≈ℤ reserved_of before.inventory s i
          +ℤ (if store == s then need seen.inventory req.items i else pos 0)
  pub on_hand_kept : (s i : ℕ) → on_hand_of after.inventory s i ≈ℤ on_hand_of before.inventory s i
  pub order_row : after.orders id ≡ some (new_order store table (total_amount seen req.items))
  pub event_written : after.events ≡ created_event req id ∷ before.events
  pub items_written : after.items ≡ item_rows seen id (suc id) req.items ++ before.items
  pub ingredients_written :
      after.item_ingredients
      ≡ ingredient_rows seen.inventory (suc id) req.items ++ before.item_ingredients
  pub other_orders_kept :
      (other : ℕ) → (id == other) ≡ false → after.orders other ≡ before.orders other
  pub key_kept : after.order_keys ≡ set_key req.idempotency_key id before.order_keys

module _ (req : OrderCreateRequest) (store : ℕ) (table : Option ℕ) (seen locked before : Shop)
    (portions : HasPortions seen.inventory) (c : IsConsistent before.inventory)
    (checked : check_availability
        (locked.inventory.stock store)
        (required_totals seen.inventory req.items [])
      ≡ [])
    (kept : (i : ℕ)
      → pos 0 <ℤ need seen.inventory req.items i
      → before.inventory.stock store i ≡ locked.inventory.stock store i) where
  abbrev reqs : List Requirement
  reqs = line_requirements seen.inventory (suc before.next_id) req.items

  reqs-need : (i : ℕ) → required_of reqs i ≈ℤ need seen.inventory req.items i
  reqs-need i =
      required_of-line_requirements seen.inventory (suc before.next_id) req.items i portions

  reqs-IsAvailable : IsAvailable store reqs before.inventory
  reqs-IsAvailable i p =
      let totals = required_totals seen.inventory req.items [] in
      let needed : pos 0 <ℤ need seen.inventory req.items i = omega (int_laws, reqs-need i) in
      let total = total_of-required_totals seen.inventory req.items [] i in
      let (row, here, le) =
        check_availability-enough (locked.inventory.stock store) totals checked
          (required_totals-AreKeys seen.inventory req.items [] tt) i (omega (int_laws, total)) in
      (row, kept i needed ∙ here, omega (int_laws, total, reqs-need i))

  -- With enough available the order is placed.
  place_order-IsPlaced :
      (after : Shop) × (place_order req store table seen before ≡ ok (before.next_id, after))
      × IsPlaced req store table seen before before.next_id after
  unfolding place_order
  place_order-IsPlaced =
      let (inv, e, h) =
        reserve_for_order-Reserved store before.next_id (unit_of seen.inventory) reqs
          before.inventory c reqs-IsAvailable in
      (
        with_order req store table seen inv before,
        rw e refl,
        record {
          consistent = h.consistent;
          explained = h.explained;
          promise = λ s i. grind (int_laws, h.promise s i, reqs-need i);
          on_hand_kept = h.on_hand_kept;
          order_row = ground arith;
          event_written = refl;
          items_written = refl;
          ingredients_written = refl;
          other_orders_kept = λ other apart. rw apart refl;
          key_kept = refl;
        },
      )

-- How creating an order ends: with the order that the key already has, or with a new one.
pub data Ends (sha256 : Text → Text) (allow_legacy : Bool) (race : Race) (req : OrderCreateRequest)
    (shop : Shop) (id : ℕ) (shop' : Shop) : Type 0 where
  found_at_once :
      fast_owner req.idempotency_key shop ≡ some id
      → shop' ≡ shop
      → Ends sha256 allow_legacy race req shop id shop'
  found_at_commit :
      key_owner req.idempotency_key (race.before_commit (race.before_lock shop)) ≡ some id
      → shop' ≡ race.before_commit (race.before_lock shop)
      → Ends sha256 allow_legacy race req shop id shop'
  placed :
      (store : ℕ) (table : Option ℕ)
      → derive_order_context sha256 allow_legacy req shop ≡ ok (store, table)
      → all_offered shop store req.items ≡ true
      → IsPlaced req store table shop (race.before_commit (race.before_lock shop)) id shop'
      → Ends sha256 allow_legacy race req shop id shop'

module _ (sha256 : Text → Text) (allow_legacy : Bool) (race : Race) (req : OrderCreateRequest)
    (shop : Shop) (id : ℕ) (shop' : Shop) (portions : HasPortions shop.inventory)
    (c : IsConsistent shop.inventory)
    (fair : (store : ℕ) (table : Option ℕ)
      → derive_order_context sha256 allow_legacy req shop ≡ ok (store, table)
      → IsFair race store (need shop.inventory req.items)) where
  abbrev locked : Shop
  locked = race.before_lock shop

  commit-Ends :
      (store : ℕ) (table : Option ℕ)
      → derive_order_context sha256 allow_legacy req shop ≡ ok (store, table)
      → all_offered shop store req.items ≡ true
      → check_availability
          (locked.inventory.stock store)
          (required_totals shop.inventory req.items [])
        ≡ []
      → commit_order req store table shop (race.before_commit locked) ≡ ok (id, shop')
      → Ends sha256 allow_legacy race req shop id shop'
  unfolding commit_order
  commit-Ends store table derived offered checked h =
      let others = race.before_commit locked in
      let f = fair store table derived in
      elim (Option-cases (key_owner req.idempotency_key others)) [
        | inr (winner, e) ↦
            let h' = rw (e, commit_order) at h in found_at_commit (ground arith) (ground arith)
        | inl e ↦
            let (after, e', p) =
              place_order-IsPlaced req store table shop locked others portions
                (f.commit_consistent locked (f.lock_consistent shop c)) checked
                (f.rows_kept locked) in
            let h' : place_order req store table shop others ≡ ok (id, shop') =
              rw (e, commit_order) at h in
            let same : ◌≡◌ {A = ℕ × Shop} (others.next_id, after) (id, shop') = cc in
            placed store table derived offered
              (subst (λ r. IsPlaced req store table shop others r.0 r.1) same p)
      ]

  lock-Ends :
      (store : ℕ) (table : Option ℕ)
      → derive_order_context sha256 allow_legacy req shop ≡ ok (store, table)
      → all_offered shop store req.items ≡ true
      → order_under_lock race req store table shop locked ≡ ok (id, shop')
      → Ends sha256 allow_legacy race req shop id shop'
  unfolding order_under_lock
  lock-Ends store table derived offered h = go _ refl
    where
      go :
          (short : List ℕ)
          → check_availability
              (locked.inventory.stock store)
              (required_totals shop.inventory req.items [])
            ≡ short
          → Ends sha256 allow_legacy race req shop id shop'
      go [] e = commit-Ends store table derived offered e (rw (e, order_under_lock) at h)
      go (i ∷ is) e = absurd (let h' = rw (e, order_under_lock) at h in cc)

  -- A successful create_order, beside any fair transactions, has either answered with the order that
  -- the idempotency key already has, and written nothing, or placed one new order: of the store and
  -- table of its context, of products that store offers, at the price of its items, with exactly
  -- what they need of each ingredient promised to it from that store's shelves, nothing taken off
  -- a shelf, and the stock tables consistent.
  pub create_order-Ends :
      create_order sha256 allow_legacy race req shop ≡ ok (id, shop')
      → Ends sha256 allow_legacy race req shop id shop'
  unfolding create_order new_order_request resolve_menu_products
  create_order-Ends h = elim (Option-cases (fast_owner req.idempotency_key shop)) [
    | inr (existing, e) ↦
        let h' = rw (e, create_order) at h in found_at_once (ground arith) (ground arith)
    | inl e ↦
        let ((store, table), derived, h1) =
          >>=-eq-ok (derive_order_context sha256 allow_legacy req shop) _
            (rw (e, create_order, new_order_request) at h) in
        let (_, offered, h2) = >>=-eq-ok (resolve_menu_products shop store req.items) _ h1 in
        let (_, _, h3) =
          >>=-eq-ok (check_ingredients shop.inventory (ingredient_ids req.items)) _ h2 in
        lock-Ends store table derived (ground arith) h3
  ]
