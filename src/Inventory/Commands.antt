-- ===== src/Inventory/Commands.antt =====
-- What the staff-driven commands of apps/api/app/services/inventory_service.py share: the checks
-- of their arguments, the locked stock row, and the other transactions that run meanwhile.
use sweetops.Base.{
  ℕ, Bool, false, Option, none, some, ◌&&◌, find, if◌then◌else◌, Result, ok, err, http, raise_if,
  idempotency_required, reason_required, invalid_quantity, ingredient_not_found,
  stock_not_configured, ◌>>=◌, ◌>>◌, ◌==◌,
}
use sweetops.Int.{ℤ, pos, ltb_ℤ, leb_ℤ}
use sweetops.Text.{Text, text_eq, strip, is_empty}
use sweetops.Quantity.{Decimal, q3}
use sweetops.Inventory.Model.{Ingredient, IngredientStock, Inventory, Movement}

-- What other transactions commit while a command waits: for the row locks, and between its check
-- under the lock and its insert.
pub record Race : Type 0 where
  pub before_lock : Inventory → Inventory
  pub before_insert : Inventory → Inventory

-- `_require_key`
unfoldable pub require_key : Option Text → Result Text
unfolding strip
require_key none = err (http 400 idempotency_required)
require_key (some key) =
    if is_empty (strip key) then err (http 400 idempotency_required) else ok (strip key)

-- `(text or "").strip() or None`
unfoldable pub optional_text : Option Text → Option Text
unfolding strip
optional_text none = none
optional_text (some s) = if is_empty (strip s) then none else some (strip s)

-- `_require_reason`
unfoldable pub require_reason : Option Text → Result Text
unfolding optional_text
require_reason reason = elim (optional_text reason) [
  | none ↦ err (http 422 reason_required)
  | some text ↦ ok text
]

-- `_require_positive`
unfoldable pub require_positive : Decimal → Result ℤ
unfolding q3
require_positive quantity = do
  raise_if (leb_ℤ (q3 quantity) (pos 0)) 422 invalid_quantity
  ok (q3 quantity)

-- `_require_non_negative`
unfoldable pub require_non_negative : Decimal → Result ℤ
unfolding q3
require_non_negative quantity = do
  raise_if (ltb_ℤ (q3 quantity) (pos 0)) 422 invalid_quantity
  ok (q3 quantity)

-- The ingredient part of `_load_stock_for_update`, which `transfer_stock` repeats.
unfoldable pub load_ingredient : Inventory → ℕ → Result Ingredient
load_ingredient inv ingredient = elim (inv.ingredients ingredient) [
  | none ↦ err (http 404 ingredient_not_found)
  | some row ↦ if row.is_active then ok row else err (http 404 ingredient_not_found)
]

-- `_load_stock_for_update`
unfoldable pub load_stock_for_update : Inventory → ℕ → ℕ → Result (Ingredient × IngredientStock)
unfolding load_ingredient
load_stock_for_update inv store ingredient = do
  catalog ← load_ingredient inv ingredient
  elim (inv.stock store ingredient) [
    | none ↦ err (http 404 stock_not_configured)
    | some stock ↦ ok (catalog, stock)
  ]

abbrev pub hash_is : Option Text → Text → Bool
hash_is none key = false
hash_is (some hash) key = text_eq hash key

-- `_find_movement_by_key`
abbrev pub has_movement_key : ℕ → Text → Movement → Bool
has_movement_key store key m = m.store_id == store && hash_is m.idempotency_key_hash key

unfoldable pub find_movement_by_key : Inventory → ℕ → Text → Option Movement
find_movement_by_key inv store key = find (has_movement_key store key) inv.movements
