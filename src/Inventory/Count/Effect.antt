-- ===== src/Inventory/Count/Effect.antt =====
-- What record_stock_count of apps/api/app/services/inventory_service.py writes.
use sweetops.Base.{
  ℕ, suc, ◌≡◌, refl, ◌&&◌, some, ◌∷◌, arith, ◌==◌, if◌then◌else◌, inl, inr, Bool-cases,
}
use sweetops.Int.{ℤ, pos, ◌-ℤ◌, ◌≤ℤ◌, ◌≈ℤ◌, eqb_ℤ, int_laws}
use sweetops.Text.{Text}
use sweetops.Inventory.Model.{
  IngredientStock, Inventory, set_stock, add_movement, audit, inventory_stock_counted,
}
use sweetops.Inventory.Books.{
  on_hand_of, reserved_of, Explained, Explained-refl, IsConsistent, written-Explained,
  on_hand_of_row, reserved_of_row, rows-set_stock,
}
use sweetops.Inventory.Manual.Effect.{Keeps}
use sweetops.Inventory.Count.{CountCommand, count_row, count_movement, correct_shelf}

-- What one shelf holds when it was counted.
abbrev pub counted_at : CountCommand → ℕ → ℕ → ℤ → ℤ
counted_at cmd s i held = if cmd.store_id == s && cmd.ingredient_id == i then cmd.counted else held

-- The correction of the shelf, over tables that hold the counted row.
pub record IsCorrected (cmd : CountCommand) (before after : Inventory) : Type 0 where
  pub keeps : Keeps before after
  pub on_hand : (s i : ℕ) → on_hand_of after s i ≈ℤ counted_at cmd s i (on_hand_of before s i)
  pub reserved : (s i : ℕ) → reserved_of after s i ≈ℤ reserved_of before s i

module _ (cmd : CountCommand) (unit : Text) (stock : IngredientStock) (count : ℕ) (inv : Inventory)
    (here : inv.stock cmd.store_id cmd.ingredient_id ≡ some stock)
    (covered : stock.reserved_quantity ≤ℤ cmd.counted) (c : IsConsistent inv) where
  abbrev counted_row : IngredientStock
  counted_row = record stock { on_hand_quantity = cmd.counted }

  abbrev corrected : Inventory
  corrected =
      add_movement (count_movement cmd unit (cmd.counted -ℤ stock.on_hand_quantity) count)
        (record inv { stock = set_stock cmd.store_id cmd.ingredient_id counted_row inv.stock })

  corrected-reserved : (s i : ℕ) → reserved_of corrected s i ≈ℤ reserved_of inv s i
  corrected-reserved s i = ground (arith, here)

  corrected-on_hand :
      (s i : ℕ) → on_hand_of corrected s i ≈ℤ counted_at cmd s i (on_hand_of inv s i)
  corrected-on_hand s i = ground arith

  corrected-Explained : Explained inv corrected
  corrected-Explained =
      let h =
        written-Explained inv counted_row
          (count_movement cmd unit (cmd.counted -ℤ stock.on_hand_quantity) count)
          (rw (on_hand_of_row inv _ _ stock here) (omega int_laws))
          (rw (reserved_of_row inv _ _ stock here) (omega int_laws)) in
      record { on_hand = h.on_hand; reserved = h.reserved }

  corrected-IsCorrected : IsCorrected cmd inv corrected
  corrected-IsCorrected = record {
    keeps = record {
      consistent = record {
        rows =
            rows-set_stock cmd.store_id cmd.ingredient_id counted_row inv
              (record {
                promised_nonneg = (c.rows _ _ stock here).promised_nonneg;
                promised_covered = covered;
              })
              c.rows;
        lines = c.lines;
        held = λ s i. omega (int_laws, corrected-reserved s i, c.held s i);
      };
      explained = corrected-Explained;
    };
    on_hand = corrected-on_hand;
    reserved = corrected-reserved;
  }

  -- A count that finds what the tables say corrects nothing.
  unchanged-IsCorrected : cmd.counted ≈ℤ stock.on_hand_quantity → IsCorrected cmd inv inv
  unchanged-IsCorrected same = record {
    keeps = record { consistent = c; explained = Explained-refl inv };
    on_hand = λ s i. ground (arith, here);
    reserved = λ s i. refl;
  }

  correct_shelf-IsCorrected : IsCorrected cmd inv (correct_shelf cmd unit stock count inv).1
  unfolding correct_shelf
  correct_shelf-IsCorrected =
      elim (Bool-cases (eqb_ℤ (cmd.counted -ℤ stock.on_hand_quantity) (pos 0))) [
        | inl zero_delta ↦
            let none_left : cmd.counted -ℤ stock.on_hand_quantity ≈ℤ pos 0 = ground arith in
            rw (zero_delta, correct_shelf) (unchanged-IsCorrected (omega (int_laws, none_left)))
        | inr off ↦ rw (off, correct_shelf) corrected-IsCorrected
      ]

-- What a count that is no replay writes: the count's row, the correction, the audit row.
abbrev pub with_count : CountCommand → Text → IngredientStock → Inventory → Inventory
with_count cmd unit stock inv = record inv {
  stock_counts = count_row cmd unit stock inv.next_id ∷ inv.stock_counts;
  next_id = suc inv.next_id;
}

abbrev pub write_count : CountCommand → Text → IngredientStock → Inventory → Inventory
write_count cmd unit stock inv =
    audit inventory_stock_counted inv.next_id (some cmd.actor_user_id)
      (correct_shelf cmd unit stock inv.next_id (with_count cmd unit stock inv)).1

pub write_count-IsCorrected :
    (cmd : CountCommand) (unit : Text) (stock : IngredientStock) (inv : Inventory)
    → inv.stock cmd.store_id cmd.ingredient_id ≡ some stock
    → stock.reserved_quantity ≤ℤ cmd.counted
    → IsConsistent inv
    → IsCorrected cmd inv (write_count cmd unit stock inv)
write_count-IsCorrected cmd unit stock inv here covered c =
    let h =
      correct_shelf-IsCorrected cmd unit stock inv.next_id (with_count cmd unit stock inv) here
        covered (record { rows = c.rows; lines = c.lines; held = c.held }) in
    record {
      keeps = record {
        consistent = record {
          rows = h.keeps.consistent.rows;
          lines = h.keeps.consistent.lines;
          held = h.keeps.consistent.held;
        };
        explained = record {
          on_hand = h.keeps.explained.on_hand;
          reserved = h.keeps.explained.reserved;
        };
      };
      on_hand = h.on_hand;
      reserved = h.reserved;
    }
