-- ===== src/Tests/Carte.antt =====
-- Two branches and their menus.
use sweetops.Base.{ℕ, ◌≡◌, refl, true, false, none, [], ◌∷◌, arith, Bool, List}
use sweetops.Int.{pos}
use sweetops.Text.{Text}
use sweetops.Digest.{codes}
use sweetops.Setup.{Product, StoreProduct, Catalog, offering, on_customer_menu, list_menu_products}
use sweetops.Setup.Menu.{Actor}
use sweetops.Setup.Branches.{IsUnique, rows_of}
use sweetops.Setup.Isolation.{Command, unpublishes, switches, moves, creates, run, run-rows_of}
use sweetops.Setup.Published.{has_product, list_menu_products_iff}

abbrev plain : Text → Text
plain text = text

abbrev any_order : Text → Text → Bool
any_order a b = true

abbrev waffle : Product
waffle = record {
  id = 1;
  name = codes "waffle";
  category = none;
  base_price = pos 5000;
  is_active = true;
}

abbrev offered : ℕ → ℕ → Bool → ℕ → StoreProduct
offered id store is_available sort_order = record {
  id = id;
  store_id = store;
  product_id = 1;
  is_available = is_available;
  sort_order = sort_order;
}

-- Branch 1 sells the waffle; in branch 2 it is sold out today.
abbrev catalog : Catalog
catalog = record {
  products = waffle ∷ [];
  store_products = offered 2 1 true 0 ∷ offered 3 2 false 0 ∷ [];
  audits = [];
  next_id = 4;
}

abbrev moda : Actor
moda = record { store_id = 1; user_id = 9 }

abbrev busy_day : List (Actor × Command)
busy_day =
    (moda, switches 1 false)
    ∷ (moda, moves 1 (pos 3))
    ∷ (moda, creates (codes "crepe") none (record { coefficient = pos 40; places = 0 }) true true)
    ∷ (moda, unpublishes 1)
    ∷ []

run-rows_of_example :
    rows_of 2 (run plain busy_day catalog).store_products ≡ rows_of 2 catalog.store_products
run-rows_of_example = run-rows_of plain 2 busy_day catalog (refl, (refl, (refl, (refl, tt))))

catalog-IsUnique : IsUnique catalog
catalog-IsUnique store product = ground arith

list_menu_products_iff_example :
    has_product 1 (list_menu_products any_order catalog 1)
    ≡ on_customer_menu waffle (offering catalog 1 1)
list_menu_products_iff_example =
    list_menu_products_iff any_order catalog 1 1 waffle catalog-IsUnique refl
