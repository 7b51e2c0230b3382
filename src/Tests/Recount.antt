-- ===== src/Tests/Recount.antt =====
-- A stock count on the tables of the pantry.
use sweetops.Base.{Result, ◌≡◌, refl, true, none, ok}
use sweetops.Int.{pos, ◌+ℤ◌, ◌-ℤ◌}
use sweetops.Digest.{codes}
use sweetops.Inventory.Model.{Inventory}
use sweetops.Inventory.Commands.{load_ingredient, load_stock_for_update}
use sweetops.Inventory.Manual.Effect.{Keeps}
use sweetops.Inventory.Count.{
  StockCountResult, CountCommand, count_row, find_stock_count_by_key, correct_shelf, insert_count,
  count_under_lock, run_count,
}
use sweetops.Inventory.Count.Outcome.{run_count-Keeps}
use sweetops.Tests.Pantry.{gram, quiet, quiet-IsFair, empty_shelf, pantry, pantry-IsConsistent}

-- Nine kilograms are counted where the tables say ten.
abbrev recount : CountCommand
recount = record {
  store_id = 1;
  ingredient_id = 5;
  counted = pos 9000;
  reason = codes "stocktaking";
  note = none;
  actor_user_id = 9;
  key_hash = codes "k3";
  request_hash = codes "count";
}

abbrev read_count :
    StockCountResult × Inventory
    → Result (StockCountResult × Inventory)
    → StockCountResult × Inventory
read_count d (ok r) = r
read_count d _ = d

abbrev no_count : StockCountResult × Inventory
no_count = (
  record { stock_count = count_row recount gram empty_shelf 0; movement = none; replayed = true },
  pantry,
)

abbrev counted : StockCountResult × Inventory
counted = read_count no_count (run_count quiet recount pantry)

-- What the run of the count opens.
count_program : Unit {0}
unfolding run_count count_under_lock insert_count correct_shelf find_stock_count_by_key
    load_stock_for_update load_ingredient ◌+ℤ◌ ◌-ℤ◌
count_program = tt

run_recount : run_count quiet recount pantry ≡ ok counted
unfolding count_program
run_recount = refl

run_count-Keeps_example : Keeps pantry counted.1
run_count-Keeps_example =
    run_count-Keeps quiet recount pantry counted.0 counted.1 (quiet-IsFair 1 5) pantry-IsConsistent
      run_recount
