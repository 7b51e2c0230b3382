-- ===== src/Ordering/Basket.antt =====
-- What an order needs of each ingredient: the totals that are checked against the stock and the
-- requirements that are reserved, against one sum over the items.
use mathlib.Core.Path.{subst}
use sweetops.Base.{
  ℕ, suc, ◌≡◌, refl, false, Option, some, List, [], ◌∷◌, ◌++◌, map, arith, ◌==◌, if◌then◌else◌, inl,
  inr, Bool-cases, Option-cases, sym,
}
use sweetops.Int.{ℤ, pos, negsuc, ◌+ℤ◌, ◌≤ℤ◌, ◌<ℤ◌, ◌≈ℤ◌, leb_ℤ, ltb_ℤ, int_laws}
use sweetops.Inventory.Model.{Ingredient, IngredientStock, Inventory}
use sweetops.Inventory.Books.{All}
use sweetops.Inventory.Lifecycle.{
  available, Totals, add_to, is_short, Requirement, check_availability,
}
use sweetops.Inventory.Lifecycle.Reserve.{
  required_of, total_of, IsFree, AreKeys, total_of-add_to, add_to-AreKeys, total_of-IsFree,
}
use sweetops.Ordering.{
  OrderItemIngredientCreate, OrderItemCreate, times, standard_of, calculate_consumed_quantity,
  needed_of, add_item, required_totals, requirement, line_requirements,
}

-- The formula: the sum over the items and their ingredients.
abbrev pub item_need : Inventory → ℕ → List OrderItemIngredientCreate → ℕ → ℤ
item_need inv q [] i = pos 0
item_need inv q (ing ∷ ings) i =
    (if ing.ingredient_id == i then needed_of inv q ing else pos 0) +ℤ item_need inv q ings i

abbrev pub need : Inventory → List OrderItemCreate → ℕ → ℤ
need inv [] i = pos 0
need inv (item ∷ items) i = item_need inv item.quantity item.ingredients i +ℤ need inv items i

-- No ingredient's portion is negative.
abbrev pub HasPortions : Inventory → Type 0
HasPortions inv =
    (i : ℕ) (row : Ingredient) → inv.ingredients i ≡ some row → pos 0 ≤ℤ row.standard_quantity

total_of-add_item :
    (inv : Inventory) (q : ℕ) (ings : List OrderItemIngredientCreate) (acc : Totals) (i : ℕ)
    → total_of (add_item inv q ings acc) i ≈ℤ total_of acc i +ℤ item_need inv q ings i
unfolding add_item
total_of-add_item inv q [] acc i = omega int_laws
total_of-add_item inv q (ing ∷ ings) acc i = omega (
  int_laws,
  total_of-add_item inv q ings (add_to ing.ingredient_id (needed_of inv q ing) acc) i,
  total_of-add_to ing.ingredient_id (needed_of inv q ing) acc i,
)

pub total_of-required_totals :
    (inv : Inventory) (items : List OrderItemCreate) (acc : Totals) (i : ℕ)
    → total_of (required_totals inv items acc) i ≈ℤ total_of acc i +ℤ need inv items i
unfolding required_totals
total_of-required_totals inv [] acc i = omega int_laws
total_of-required_totals inv (item ∷ items) acc i = omega (
  int_laws,
  total_of-required_totals inv items (add_item inv item.quantity item.ingredients acc) i,
  total_of-add_item inv item.quantity item.ingredients acc i,
)

add_item-AreKeys :
    (inv : Inventory) (q : ℕ) (ings : List OrderItemIngredientCreate) (acc : Totals)
    → AreKeys acc
    → AreKeys (add_item inv q ings acc)
unfolding add_item
add_item-AreKeys inv q [] acc h = h
add_item-AreKeys inv q (ing ∷ ings) acc h =
    add_item-AreKeys inv q ings (add_to ing.ingredient_id (needed_of inv q ing) acc)
      (add_to-AreKeys ing.ingredient_id (needed_of inv q ing) acc h)

pub required_totals-AreKeys :
    (inv : Inventory) (items : List OrderItemCreate) (acc : Totals)
    → AreKeys acc
    → AreKeys (required_totals inv items acc)
unfolding required_totals
required_totals-AreKeys inv [] acc h = h
required_totals-AreKeys inv (item ∷ items) acc h =
    required_totals-AreKeys inv items (add_item inv item.quantity item.ingredients acc)
      (add_item-AreKeys inv item.quantity item.ingredients acc h)

times_nonneg : (n : ℕ) (x : ℤ) → pos 0 ≤ℤ x → pos 0 ≤ℤ times n x
times_nonneg n (pos m) h = omega arith
times_nonneg n (negsuc m) h = absurd (omega arith)

needed_nonneg :
    (inv : Inventory) (q : ℕ) (ing : OrderItemIngredientCreate)
    → HasPortions inv
    → pos 0 ≤ℤ needed_of inv q ing
unfolding calculate_consumed_quantity
needed_nonneg inv q ing h = elim (Option-cases (inv.ingredients ing.ingredient_id)) [
  | inl e ↦ rw (e, needed_of) (omega arith)
  | inr (row, e) ↦
      let standard_nonneg : pos 0 ≤ℤ standard_of row = ground (arith, h ing.ingredient_id row e) in
      rw (e, needed_of) (times_nonneg q _ (times_nonneg ing.quantity _ standard_nonneg))
]

abbrev AreNonneg : Totals → Type 0
AreNonneg d = All (λ e. pos 0 ≤ℤ e.1) d

add_to-AreNonneg :
    (k : ℕ) (q : ℤ) (d : Totals) → pos 0 ≤ℤ q → AreNonneg d → AreNonneg (add_to k q d)
unfolding add_to
add_to-AreNonneg k q [] p h = (p, tt)
add_to-AreNonneg k q ((l, v) ∷ d) p (h, hs) = elim (Bool-cases (k == l)) [
  | inl same ↦ rw same (omega int_laws, hs)
  | inr other ↦ rw other (h, add_to-AreNonneg k q d p hs)
]

add_item-AreNonneg :
    (inv : Inventory) (q : ℕ) (ings : List OrderItemIngredientCreate) (acc : Totals)
    → HasPortions inv
    → AreNonneg acc
    → AreNonneg (add_item inv q ings acc)
unfolding add_item
add_item-AreNonneg inv q [] acc portions h = h
add_item-AreNonneg inv q (ing ∷ ings) acc portions h =
    add_item-AreNonneg inv q ings (add_to ing.ingredient_id (needed_of inv q ing) acc) portions (
      add_to-AreNonneg ing.ingredient_id (needed_of inv q ing) acc
        (needed_nonneg inv q ing portions) h)

required_of-append :
    (rs ss : List Requirement) (i : ℕ)
    → required_of (rs ++ ss) i ≈ℤ required_of rs i +ℤ required_of ss i
required_of-append [] ss i = omega int_laws
required_of-append (r ∷ rs) ss i = omega (int_laws, required_of-append rs ss i)

required_of-map :
    (item : ℕ) (d : Totals) (i : ℕ)
    → AreNonneg d
    → required_of (map (requirement item) d) i ≈ℤ total_of d i
required_of-map item [] i h = refl
required_of-map item ((k, v) ∷ d) i (p, h) = elim (Bool-cases (leb_ℤ v (pos 0))) [
  | inl none_left ↦ rw none_left (grind (int_laws, required_of-map item d i h))
  | inr some_left ↦ rw some_left (omega (int_laws, required_of-map item d i h))
]

pub required_of-line_requirements :
    (inv : Inventory) (id : ℕ) (items : List OrderItemCreate) (i : ℕ)
    → HasPortions inv
    → required_of (line_requirements inv id items) i ≈ℤ need inv items i
unfolding line_requirements
required_of-line_requirements inv id [] i portions = refl
required_of-line_requirements inv id (item ∷ items) i portions =
    let d = add_item inv item.quantity item.ingredients [] in
    omega (
      int_laws,
      required_of-append (map (requirement id) d) (line_requirements inv (suc id) items) i,
      required_of-map id d i (add_item-AreNonneg inv item.quantity item.ingredients [] portions tt),
      total_of-add_item inv item.quantity item.ingredients [] i,
      required_of-line_requirements inv (suc id) items i portions,
    )

-- When nothing is short, every ingredient that is needed has a row with enough available.
pub check_availability-enough :
    (rows : ℕ → Option IngredientStock) (d : Totals)
    → check_availability rows d ≡ []
    → AreKeys d
    → (i : ℕ) → pos 0 <ℤ total_of d i
    → (row : IngredientStock) × (rows i ≡ some row) × (total_of d i ≤ℤ available row)
unfolding check_availability is_short
check_availability-enough rows [] h keys i p = absurd (omega arith)
check_availability-enough rows ((k, v) ∷ d) h (free, keys) i p = elim (Bool-cases (k == i)) [
  | inr other ↦ rw other (
      let (row, e, le) =
        check_availability-enough rows d (ground arith) keys i
          (let q = rw other at p in omega (int_laws, q)) in
      (row, e, omega (int_laws, le)))
  | inl same ↦
      let at_i : k ≡ i = ground arith in
      let rest : total_of d i ≈ℤ pos 0 = total_of-IsFree i d (subst (λ x. IsFree x d) at_i free) in
      elim (Option-cases (rows k)) [
        | inl e ↦ absurd (ground arith)
        | inr (row, e) ↦
            let enough : ltb_ℤ (available row) v ≡ false = ground arith in
            let le : v ≤ℤ available row = ground arith in
            (row, rw (sym at_i) e, rw same (omega (int_laws, rest, le)))
      ]
]
