-- ===== src/Tests/Sticker.antt =====
-- A table's sticker is rotated, and an order is placed through the new one.
use sweetops.Base.{ap, ℕ, ◌≡◌, refl, true, false, none, some, [], ◌∷◌, arith, Result, ok}
use sweetops.Int.{ℤ, pos, ◌+ℤ◌, ◌-ℤ◌}
use sweetops.Text.{Text, text_eq, strip}
use sweetops.Digest.{codes}
use sweetops.Inventory.Lifecycle.{
  check_availability, is_short, insert_line, reserve_line, reserve_lines, reserve_for_order,
  audit_reserved, add_to,
}
use sweetops.Qr.{
  active, TableQrToken, Tokens, Attempt, done, ResolvedQrContext, token_prefix, table_display_name,
  retire, insert_active_token, rotate_token, resolve_token,
}
use sweetops.Qr.OneActive.{IsOneActive, rotate, issue, run, run-IsOneActive}
use sweetops.Qr.Rotation.{
  HasUniqueHashes, rotate_token-resolve_token, rotate_token-resolve_token_new,
}
use sweetops.Inventory.Books.{IsConsistent}
use sweetops.Ordering.{
  OrderCreateRequest, Shop, Race, calculate_consumed_quantity, derive_order_context, is_offered,
  all_offered, resolve_menu_products, ingredient_ids, check_ingredients, add_item, required_totals,
  line_requirements, item_total, total_amount, item_rows, ingredient_rows, place_order,
  commit_order, order_under_lock, new_order_request, create_order,
}
use sweetops.Ordering.Basket.{need, HasPortions}
use sweetops.Ordering.Placing.{IsFair, Ends, create_order-Ends}
use sweetops.Ordering.Repeat.{create_order-create_order}
use sweetops.Tests.Pantry.{pantry, pantry-IsConsistent}

-- A hash without collisions.
abbrev plain : Text → Text
plain text = text

abbrev raw : Text
raw = codes "new-sticker"

abbrev old_token : TableQrToken
old_token = record {
  id = 1;
  table_id = 4;
  token_hash = codes "old-sticker";
  token_prefix = codes "old-stic";
  status = active;
  created_reason = none;
  replaced_by_id = none;
}

abbrev room : Tokens
room = record {
  tables = λ t. some (record { store_id = 1; table_number = some (codes " 4 ") });
  stores = λ s. some (codes "Moda");
  tokens = old_token ∷ [];
  next_id = 2;
}

room-IsOneActive : IsOneActive room
room-IsOneActive table = ground arith

run-IsOneActive_example :
    IsOneActive (run plain (rotate 4 none raw ∷ issue 4 none (codes "second") ∷ []) room)
run-IsOneActive_example =
    run-IsOneActive plain (rotate 4 none raw ∷ issue 4 none (codes "second") ∷ []) room
      room-IsOneActive

-- What the runs below open.
program : Unit {0}
unfolding rotate_token insert_active_token retire token_prefix table_display_name resolve_token
    strip
program = tt

abbrev nothing : TableQrToken × Tokens
nothing = (old_token, room)

abbrev read_done {ℓ} : {A : Type ℓ} → A → Attempt A → A
read_done d (done a) = a
read_done d _ = d

abbrev rotated : TableQrToken × Tokens
rotated = read_done nothing (rotate_token plain 4 none raw room)

run_rotation : rotate_token plain 4 none raw room ≡ done rotated
unfolding program
run_rotation = refl

abbrev at_table : ResolvedQrContext
at_table = record {
  store_id = 1;
  store_name = codes "Moda";
  table_id = 4;
  table_name = codes "Masa 4";
}

resolved : resolve_token plain (some (codes "old-sticker")) room ≡ some at_table
unfolding program
resolved = refl

room-HasUniqueHashes : HasUniqueHashes room
room-HasUniqueHashes hash = ground arith

rotate_token-resolve_token_example :
    resolve_token plain (some (codes "old-sticker")) rotated.1 ≡ none
rotate_token-resolve_token_example =
    rotate_token-resolve_token plain 4 none raw room rotated.1 rotated.0 run_rotation
      (codes "old-sticker") at_table room-HasUniqueHashes resolved refl
      (λ e. let same : true ≡ false = ap (text_eq raw) e in cc)

rotate_token-resolve_token_new_example :
    resolve_token plain (some raw) rotated.1
    ≡ some (record {
      store_id = 1;
      store_name = codes "Moda";
      table_id = 4;
      table_name =
          table_display_name 4 (record { store_id = 1; table_number = some (codes " 4 ") });
    })
rotate_token-resolve_token_new_example =
    rotate_token-resolve_token_new plain 4 none raw room rotated.1 rotated.0 run_rotation
      (record { store_id = 1; table_number = some (codes " 4 ") }) (codes "Moda") refl refl refl

-- The shop sells waffles at 90.00, and portions of two kilograms of flour at 2.50.
abbrev shop : Shop
shop = record {
  tokens = rotated.1;
  products = λ p. some (record { base_price = pos 9000; is_active = true });
  store_products = λ s p. some true;
  orders = λ id. none;
  order_keys = λ k. none;
  events = [];
  items = [];
  item_ingredients = [];
  inventory = record pantry {
    ingredients = λ i. some (record {
      name = codes "flour";
      price = pos 250;
      unit = codes "g";
      standard_quantity = pos 2000;
      is_active = true;
    });
  };
  next_id = 30;
}

shop-HasPortions : HasPortions shop.inventory
shop-HasPortions i row e = ground (arith, e)

shop-IsConsistent : IsConsistent shop.inventory
shop-IsConsistent = record {
  rows = pantry-IsConsistent.rows;
  lines = pantry-IsConsistent.lines;
  held = pantry-IsConsistent.held;
}

-- Two waffles with a portion each, ordered through the new sticker.
abbrev basket : OrderCreateRequest
basket = record {
  qr_token = some raw;
  store_id = some 2;
  table_id = none;
  items =
      record {
        product_id = 1;
        quantity = 2;
        ingredients = record { ingredient_id = 5; quantity = 1 } ∷ [];
      }
      ∷ [];
  idempotency_key = some (codes "order-1");
  now = 500;
}

abbrev quiet : Race
quiet = record { before_lock = λ s. s; before_commit = λ s. s }

-- What the order opens.
ordering : Unit {0}
unfolding program create_order new_order_request derive_order_context resolve_menu_products
    is_offered all_offered ingredient_ids check_ingredients order_under_lock commit_order
    place_order check_availability is_short reserve_for_order reserve_lines reserve_line insert_line
    audit_reserved add_to required_totals add_item line_requirements item_total total_amount
    calculate_consumed_quantity item_rows ingredient_rows ◌+ℤ◌ ◌-ℤ◌
ordering = tt

abbrev no_order : ℕ × Shop
no_order = (0, shop)

abbrev read_ok {ℓ} : {A : Type ℓ} → A → Result A → A
read_ok d (ok a) = a
read_ok d _ = d

abbrev ordered : ℕ × Shop
ordered = read_ok no_order (create_order plain false quiet basket shop)

run_order : create_order plain false quiet basket shop ≡ ok ordered
unfolding ordering
run_order = refl

quiet-IsFair : (store : ℕ) (needs : ℕ → ℤ) → IsFair quiet store needs
quiet-IsFair store needs = record {
  lock_consistent = λ s c. c;
  commit_consistent = λ s c. c;
  rows_kept = λ s i p. refl;
}

create_order-Ends_example : Ends plain false quiet basket shop ordered.0 ordered.1
create_order-Ends_example =
    create_order-Ends plain false quiet basket shop ordered.0 ordered.1 shop-HasPortions
      shop-IsConsistent
      (λ store table derived. quiet-IsFair store (need shop.inventory basket.items)) run_order

create_order-create_order_example :
    create_order plain false quiet basket ordered.1 ≡ ok (ordered.0, ordered.1)
create_order-create_order_example =
    create_order-create_order plain false quiet quiet basket basket (codes "order-1") shop ordered.1
      ordered.1 ordered.0 refl refl refl run_order refl
