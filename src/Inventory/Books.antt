-- ===== src/Inventory/Books.antt =====
-- What the tables of the inventory service mean: the stock of a shelf, what the ledger says of it,
-- what the order lines promise of it, and when the three agree.
use mathlib.Core.Path.{subst}
use sweetops.Base.{
  ℕ, ◌≡◌, refl, ◌&&◌, Option, none, some, List, [], ◌∷◌, ◌==◌, if◌then◌else◌, inl, inr, Bool-cases,
}
use sweetops.Int.{ℤ, pos, ◌+ℤ◌, ◌≤ℤ◌, ◌≈ℤ◌, int_laws}
use sweetops.Inventory.Model.{
  IngredientStock, OrderInventoryLine, Movement, Inventory, set_stock, add_movement,
}
use sweetops.Inventory.Lifecycle.{outstanding_reservation}

abbrev on_hand_in : Option IngredientStock → ℤ
on_hand_in none = pos 0
on_hand_in (some row) = row.on_hand_quantity

abbrev reserved_in : Option IngredientStock → ℤ
reserved_in none = pos 0
reserved_in (some row) = row.reserved_quantity

-- What stands on the shelf of a store, and how much of it is promised, by the summary rows.
abbrev pub on_hand_of : Inventory → ℕ → ℕ → ℤ
on_hand_of inv s i = on_hand_in (inv.stock s i)

abbrev pub reserved_of : Inventory → ℕ → ℕ → ℤ
reserved_of inv s i = reserved_in (inv.stock s i)

-- A quantity that counts for one shelf alone.
abbrev pub at_shelf : ℕ → ℕ → ℕ → ℕ → ℤ → ℤ
at_shelf s i store ingredient qty = if store == s && ingredient == i then qty else pos 0

-- The sum of the ledger's deltas for a shelf.
abbrev pub ledger_on_hand : List Movement → ℕ → ℕ → ℤ
ledger_on_hand [] s i = pos 0
ledger_on_hand (m ∷ ms) s i =
    at_shelf s i m.store_id m.ingredient_id m.delta_on_hand +ℤ ledger_on_hand ms s i

abbrev pub ledger_reserved : List Movement → ℕ → ℕ → ℤ
ledger_reserved [] s i = pos 0
ledger_reserved (m ∷ ms) s i =
    at_shelf s i m.store_id m.ingredient_id m.delta_reserved +ℤ ledger_reserved ms s i

-- What the orders' lines still hold of a shelf.
abbrev pub promised : List OrderInventoryLine → ℕ → ℕ → ℤ
promised [] s i = pos 0
promised (l ∷ ls) s i =
    at_shelf s i l.store_id l.ingredient_id (outstanding_reservation l) +ℤ promised ls s i

abbrev pub All {ℓ κ} : {A : Type ℓ} → (A → Type κ) → List A → Type κ
All P [] = Unit
All P (x ∷ xs) = P x × All P xs

-- The check constraints of a stock row: ck_stock_reserved_nonneg and ck_stock_reserved_le_on_hand.
pub record IsSound (row : IngredientStock) : Type 0 where
  pub promised_nonneg : pos 0 ≤ℤ row.reserved_quantity
  pub promised_covered : row.reserved_quantity ≤ℤ row.on_hand_quantity

abbrev pub RowsSound : Inventory → Type 0
RowsSound inv = (s i : ℕ) (row : IngredientStock) → inv.stock s i ≡ some row → IsSound row

-- Replacing a row by a sound one keeps the rows sound.
pub rows-set_stock :
    (t j : ℕ) (row' : IngredientStock) (inv : Inventory)
    → IsSound row'
    → RowsSound inv
    → RowsSound (record inv { stock = set_stock t j row' inv.stock })
rows-set_stock t j row' inv h sound s i r e = elim (Bool-cases (t == s && j == i)) [
  | inl same ↦ let e' : some row' ≡ some r = rw same at e in subst IsSound (cc) h
  | inr other ↦ sound s i r (rw other at e)
]

-- consumed + released ≤ reserved, and none of them negative.
pub record LineSound (l : OrderInventoryLine) : Type 0 where
  pub consumed_nonneg : pos 0 ≤ℤ l.consumed_quantity
  pub released_nonneg : pos 0 ≤ℤ l.released_quantity
  pub within_reserved : l.consumed_quantity +ℤ l.released_quantity ≤ℤ l.reserved_quantity

-- The invariant of the tables: sound rows and lines, and every shelf's reserved quantity is what
-- the orders still hold of it.
pub record IsConsistent (inv : Inventory) : Type 0 where
  pub rows : RowsSound inv
  pub lines : All LineSound inv.lines
  pub held : (s i : ℕ) → reserved_of inv s i ≈ℤ promised inv.lines s i

-- Every change of the summary rows from `before` to `after` stands in the ledger.
pub record Explained (before after : Inventory) : Type 0 where
  pub on_hand :
      (s i : ℕ)
      → on_hand_of after s i +ℤ ledger_on_hand before.movements s i
        ≈ℤ on_hand_of before s i +ℤ ledger_on_hand after.movements s i
  pub reserved :
      (s i : ℕ)
      → reserved_of after s i +ℤ ledger_reserved before.movements s i
        ≈ℤ reserved_of before s i +ℤ ledger_reserved after.movements s i

pub Explained-refl : (inv : Inventory) → Explained inv inv
Explained-refl inv = record { on_hand = λ s i. refl; reserved = λ s i. refl }

pub Explained-trans : {a b c : Inventory} → Explained a b → Explained b c → Explained a c
Explained-trans {a} {b} {c} p q = record {
  on_hand = λ s i. omega (int_laws, p.on_hand s i, q.on_hand s i);
  reserved = λ s i. omega (int_laws, p.reserved s i, q.reserved s i);
}

-- Writing one row and one ledger row with the difference is explained.
module _ (inv : Inventory) (row' : IngredientStock) (m : Movement) where
  abbrev pub written : Inventory
  written =
      add_movement m (record inv { stock = set_stock m.store_id m.ingredient_id row' inv.stock })

  pub written-on_hand :
      row'.on_hand_quantity ≈ℤ on_hand_of inv m.store_id m.ingredient_id +ℤ m.delta_on_hand
      → (s i : ℕ)
      → on_hand_of written s i
        ≈ℤ on_hand_of inv s i +ℤ at_shelf s i m.store_id m.ingredient_id m.delta_on_hand
  written-on_hand h s i = grind int_laws

  pub written-reserved :
      row'.reserved_quantity ≈ℤ reserved_of inv m.store_id m.ingredient_id +ℤ m.delta_reserved
      → (s i : ℕ)
      → reserved_of written s i
        ≈ℤ reserved_of inv s i +ℤ at_shelf s i m.store_id m.ingredient_id m.delta_reserved
  written-reserved h s i = grind int_laws

  pub written-Explained :
      row'.on_hand_quantity ≈ℤ on_hand_of inv m.store_id m.ingredient_id +ℤ m.delta_on_hand
      → row'.reserved_quantity ≈ℤ reserved_of inv m.store_id m.ingredient_id +ℤ m.delta_reserved
      → Explained inv written
  written-Explained h r = record {
    on_hand = λ s i. omega (int_laws, written-on_hand h s i);
    reserved = λ s i. omega (int_laws, written-reserved r s i);
  }

-- What a stock row says of its shelf.
pub on_hand_of_row :
    (inv : Inventory) (s i : ℕ) (row : IngredientStock)
    → inv.stock s i ≡ some row
    → on_hand_of inv s i ≡ row.on_hand_quantity
on_hand_of_row inv s i row e = rw e

pub reserved_of_row :
    (inv : Inventory) (s i : ℕ) (row : IngredientStock)
    → inv.stock s i ≡ some row
    → reserved_of inv s i ≡ row.reserved_quantity
reserved_of_row inv s i row e = rw e
