-- ===== src/Inventory/Lifecycle/Reserve.antt =====
-- The two loops of reserve_for_order of apps/api/app/services/inventory_service.py: the lines and the
-- ledger rows of the requirements, and the totals by ingredient.
use sweetops.Base.{
  ℕ, ◌≡◌, refl, true, false, List, [], ◌∷◌, arith, ltb, ◌==◌, if◌then◌else◌, inl, inr, Bool-cases,
}
use sweetops.Int.{ℤ, pos, ◌+ℤ◌, ◌<ℤ◌, ◌≈ℤ◌, leb_ℤ, int_laws}
use sweetops.Text.{Text}
use sweetops.Inventory.Model.{OrderInventoryLine, Inventory}
use sweetops.Inventory.Books.{at_shelf, ledger_on_hand, ledger_reserved, promised, All, LineSound}
use sweetops.Inventory.Lifecycle.{
  Totals, add_to, Requirement, insert_line, reserve_line, reserve_lines,
}

-- What the requirements ask of an ingredient; one that is not positive is skipped.
abbrev pub required_of : List Requirement → ℕ → ℤ
required_of [] i = pos 0
required_of (r ∷ rs) i =
    (if leb_ℤ r.quantity (pos 0) then pos 0 else if r.ingredient_id == i then r.quantity else pos 0)
    +ℤ required_of rs i

-- What a dict says of an ingredient.
abbrev pub total_of : Totals → ℕ → ℤ
total_of [] i = pos 0
total_of ((k, v) ∷ d) i = (if k == i then v else pos 0) +ℤ total_of d i

abbrev pub IsFree : ℕ → Totals → Type 0
IsFree k d = All (λ e. (e.0 == k) ≡ false) d

-- The keys of a dict are different.
abbrev pub AreKeys : Totals → Type 0
AreKeys [] = Unit
AreKeys ((k, v) ∷ d) = IsFree k d × AreKeys d

pub total_of-IsFree : (k : ℕ) (d : Totals) → IsFree k d → total_of d k ≈ℤ pos 0
total_of-IsFree k [] free = refl
total_of-IsFree k ((j, v) ∷ d) (ne, free) = rw ne (omega (int_laws, total_of-IsFree k d free))

pub total_of-add_to :
    (k : ℕ) (q : ℤ) (d : Totals) (i : ℕ)
    → total_of (add_to k q d) i ≈ℤ total_of d i +ℤ (if k == i then q else pos 0)
unfolding add_to
total_of-add_to k q [] i = grind int_laws
total_of-add_to k q ((j, v) ∷ d) i = elim (Bool-cases (k == j)) [
  | inl same ↦ let e : k ≡ j = ground arith in rw (same, e) (grind int_laws)
  | inr other ↦ rw other (omega (int_laws, total_of-add_to k q d i))
]

add_to-IsFree :
    (j k : ℕ) (q : ℤ) (d : Totals) → (k == j) ≡ false → IsFree j d → IsFree j (add_to k q d)
unfolding add_to
add_to-IsFree j k q [] ne h = (ne, tt)
add_to-IsFree j k q ((l, v) ∷ d) ne (h, hs) = elim (Bool-cases (k == l)) [
  | inl same ↦ rw same (h, hs)
  | inr other ↦ rw other (h, add_to-IsFree j k q d ne hs)
]

pub add_to-AreKeys : (k : ℕ) (q : ℤ) (d : Totals) → AreKeys d → AreKeys (add_to k q d)
unfolding add_to
add_to-AreKeys k q [] h = (tt, tt)
add_to-AreKeys k q ((l, v) ∷ d) (h, hs) = elim (Bool-cases (k == l)) [
  | inl same ↦ rw same (h, hs)
  | inr other ↦ rw other (add_to-IsFree l k q d other h, add_to-AreKeys k q d hs)
]

abbrev pub ArePositive : Totals → Type 0
ArePositive d = All (λ e. pos 0 <ℤ e.1) d

add_to-ArePositive :
    (k : ℕ) (q : ℤ) (d : Totals) → pos 0 <ℤ q → ArePositive d → ArePositive (add_to k q d)
unfolding add_to
add_to-ArePositive k q [] p h = (p, tt)
add_to-ArePositive k q ((l, v) ∷ d) p (h, hs) = elim (Bool-cases (k == l)) [
  | inl same ↦ rw same (omega int_laws, hs)
  | inr other ↦ rw other (h, add_to-ArePositive k q d p hs)
]

promised-insert_line :
    (l : OrderInventoryLine) (ms : List OrderInventoryLine) (s i : ℕ)
    → promised (insert_line l ms) s i ≈ℤ promised (l ∷ ms) s i
unfolding insert_line
promised-insert_line l [] s i = refl
promised-insert_line l (m ∷ ms) s i = elim (Bool-cases (ltb l.ingredient_id m.ingredient_id)) [
  | inl before ↦ rw before refl
  | inr behind ↦ rw behind (omega (int_laws, promised-insert_line l ms s i))
]

All-insert_line :
    (l : OrderInventoryLine) (ms : List OrderInventoryLine)
    → LineSound l
    → All LineSound ms
    → All LineSound (insert_line l ms)
unfolding insert_line
All-insert_line l [] h hs = (h, tt)
All-insert_line l (m ∷ ms) h (hm, hs) = elim (Bool-cases (ltb l.ingredient_id m.ingredient_id)) [
  | inl before ↦ rw before (h, (hm, hs))
  | inr behind ↦ rw behind (hm, All-insert_line l ms h hs)
]

-- What the first loop has written.
pub record Wrote (store : ℕ) (reqs : List Requirement) (acc : Totals) (before : Inventory)
    (after : Inventory × Totals) : Type 0 where
  pub stock_kept : after.0.stock ≡ before.stock
  pub promise :
      (s i : ℕ)
      → promised after.0.lines s i
        ≈ℤ promised before.lines s i +ℤ (if store == s then required_of reqs i else pos 0)
  pub on_hand_ledger :
      (s i : ℕ) → ledger_on_hand after.0.movements s i ≈ℤ ledger_on_hand before.movements s i
  pub reserved_ledger :
      (s i : ℕ)
      → ledger_reserved after.0.movements s i
        ≈ℤ ledger_reserved before.movements s i
          +ℤ (if store == s then required_of reqs i else pos 0)
  pub lines_sound : All LineSound before.lines → All LineSound after.0.lines
  pub totals : (i : ℕ) → total_of after.1 i ≈ℤ total_of acc i +ℤ required_of reqs i
  pub keys : AreKeys acc → AreKeys after.1
  pub positive : ArePositive acc → ArePositive after.1

module _ (store order : ℕ) (unit : Text) (req : Requirement) (inv : Inventory) where
  abbrev pub new_line : OrderInventoryLine
  new_line = record {
    id = inv.next_id;
    store_id = store;
    order_id = order;
    order_item_id = req.order_item_id;
    ingredient_id = req.ingredient_id;
    reserved_quantity = req.quantity;
    consumed_quantity = pos 0;
    released_quantity = pos 0;
    unit = unit;
  }

  reserve_line-promised :
      (s i : ℕ)
      → promised (reserve_line store order unit req inv).lines s i
        ≈ℤ promised inv.lines s i +ℤ at_shelf s i store req.ingredient_id req.quantity
  unfolding reserve_line
  reserve_line-promised s i = grind (int_laws, promised-insert_line new_line inv.lines s i)

  reserve_line-reserved :
      (s i : ℕ)
      → ledger_reserved (reserve_line store order unit req inv).movements s i
        ≈ℤ ledger_reserved inv.movements s i +ℤ at_shelf s i store req.ingredient_id req.quantity
  unfolding reserve_line
  reserve_line-reserved s i = grind int_laws

  reserve_line-on_hand :
      (s i : ℕ)
      → ledger_on_hand (reserve_line store order unit req inv).movements s i
        ≈ℤ ledger_on_hand inv.movements s i
  unfolding reserve_line
  reserve_line-on_hand s i = grind int_laws

  reserve_line-LineSound :
      pos 0 <ℤ req.quantity
      → All LineSound inv.lines
      → All LineSound (reserve_line store order unit req inv).lines
  unfolding reserve_line
  reserve_line-LineSound p h =
      All-insert_line new_line inv.lines
        (record {
          consumed_nonneg = omega int_laws;
          released_nonneg = omega int_laws;
          within_reserved = omega int_laws;
        })
        h

Wrote-skip :
    (store : ℕ) (req : Requirement) (reqs : List Requirement) (acc : Totals) (inv : Inventory)
    (after : Inventory × Totals)
    → leb_ℤ req.quantity (pos 0) ≡ true
    → Wrote store reqs acc inv after
    → Wrote store (req ∷ reqs) acc inv after
Wrote-skip store req reqs acc inv after skipped h = record {
  stock_kept = h.stock_kept;
  promise = λ s i. rw skipped (grind (int_laws, h.promise s i));
  on_hand_ledger = h.on_hand_ledger;
  reserved_ledger = λ s i. rw skipped (grind (int_laws, h.reserved_ledger s i));
  lines_sound = h.lines_sound;
  totals = λ i. rw skipped (omega (int_laws, h.totals i));
  keys = h.keys;
  positive = h.positive;
}

module _ (store order : ℕ) (unit : Text) (req : Requirement) (reqs : List Requirement)
    (acc : Totals) (inv : Inventory) (after : Inventory × Totals)
    (wanted : leb_ℤ req.quantity (pos 0) ≡ false)
    (h : Wrote store reqs
      (add_to req.ingredient_id req.quantity acc)
      (reserve_line store order unit req inv)
      after) where
  wanted_positive : pos 0 <ℤ req.quantity
  wanted_positive = ground arith

  Wrote-take : Wrote store (req ∷ reqs) acc inv after
  unfolding reserve_line
  Wrote-take = record {
    stock_kept = h.stock_kept;
    promise = λ s i.
        rw wanted
          (grind (int_laws, h.promise s i, reserve_line-promised store order unit req inv s i));
    on_hand_ledger = λ s i.
        omega (int_laws, h.on_hand_ledger s i, reserve_line-on_hand store order unit req inv s i);
    reserved_ledger = λ s i. rw wanted (
        grind
          (int_laws, h.reserved_ledger s i, reserve_line-reserved store order unit req inv s i));
    lines_sound =
        λ ls. h.lines_sound (reserve_line-LineSound store order unit req inv wanted_positive ls);
    totals = λ i.
        rw wanted
          (omega (int_laws, h.totals i, total_of-add_to req.ingredient_id req.quantity acc i));
    keys = λ k. h.keys (add_to-AreKeys req.ingredient_id req.quantity acc k);
    positive =
        λ p. h.positive (add_to-ArePositive req.ingredient_id req.quantity acc wanted_positive p);
  }

pub reserve_lines-Wrote :
    (store order : ℕ) (units : ℕ → Text) (reqs : List Requirement) (acc : Totals) (inv : Inventory)
    → Wrote store reqs acc inv (reserve_lines store order units reqs acc inv)
unfolding reserve_lines
reserve_lines-Wrote store order units [] acc inv = record {
  stock_kept = refl;
  promise = λ s i. grind int_laws;
  on_hand_ledger = λ s i. refl;
  reserved_ledger = λ s i. grind int_laws;
  lines_sound = λ h. h;
  totals = λ i. omega int_laws;
  keys = λ h. h;
  positive = λ h. h;
}
reserve_lines-Wrote store order units (req ∷ reqs) acc inv =
    elim (Bool-cases (leb_ℤ req.quantity (pos 0))) [
      | inl skipped ↦
          let h = reserve_lines-Wrote store order units reqs acc inv in
          rw (skipped, reserve_lines)
            (Wrote-skip store req reqs acc inv (reserve_lines store order units reqs acc inv)
              skipped h)
      | inr wanted ↦
          let acc' = add_to req.ingredient_id req.quantity acc in
          let inv' = reserve_line store order (units req.ingredient_id) req inv in
          let h = reserve_lines-Wrote store order units reqs acc' inv' in
          rw (wanted, reserve_lines)
            (Wrote-take store order (units req.ingredient_id) req reqs acc inv
              (reserve_lines store order units reqs acc' inv') wanted h)
    ]
