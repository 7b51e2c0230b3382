-- ===== src/Inventory/Lifecycle/Reservations.antt =====
-- reserve_for_order of apps/api/app/services/inventory_service.py, as a whole.
use sweetops.Base.{ℕ, ◌≡◌, refl, true, false, some, List, [], ◌∷◌, arith, ◌==◌, if◌then◌else◌, ok}
use sweetops.Int.{ℤ, pos, ◌+ℤ◌, ◌≤ℤ◌, ◌<ℤ◌, ◌≈ℤ◌, int_laws}
use sweetops.Text.{Text}
use sweetops.Inventory.Model.{IngredientStock, Inventory, set_stock}
use sweetops.Inventory.Books.{
  on_hand_of, reserved_of, All, RowsSound, rows-set_stock, Explained, IsConsistent,
}
use sweetops.Inventory.Lifecycle.{
  available, Totals, Requirement, reserve_lines, raise_reserved, audit_reserved, reserve_for_order,
}
use sweetops.Inventory.Lifecycle.Reserve.{
  required_of, total_of, IsFree, AreKeys, ArePositive, total_of-IsFree, Wrote, reserve_lines-Wrote,
}

-- The row of every ingredient in the dict has that much available.
abbrev HasRoom : ℕ → Inventory → Totals → Type 0
HasRoom store inv d =
    All (λ e. (row : IngredientStock) × (inv.stock store e.0 ≡ some row) × (e.1 ≤ℤ available row)) d

-- What the second loop has done.
record Raised (store : ℕ) (d : Totals) (before after : Inventory) : Type 0 where
  lines_kept : after.lines ≡ before.lines
  movements_kept : after.movements ≡ before.movements
  reserved :
      (s i : ℕ)
      → reserved_of after s i
        ≈ℤ reserved_of before s i +ℤ (if store == s then total_of d i else pos 0)
  on_hand : (s i : ℕ) → on_hand_of after s i ≈ℤ on_hand_of before s i
  rows : RowsSound after

abbrev raised_row : IngredientStock → ℤ → IngredientStock
raised_row row q = record row { reserved_quantity = row.reserved_quantity +ℤ q }

abbrev raised : ℕ → ℕ → IngredientStock → ℤ → Inventory → Inventory
raised store k row q inv = record inv { stock = set_stock store k (raised_row row q) inv.stock }

module _ (store k : ℕ) (q : ℤ) (row : IngredientStock) (inv : Inventory)
    (here : inv.stock store k ≡ some row) where
  raised-reserved :
      (s i : ℕ)
      → reserved_of (raised store k row q inv) s i
        ≈ℤ reserved_of inv s i +ℤ (if store == s then if k == i then q else pos 0 else pos 0)
  raised-reserved s i = grind int_laws

  raised-on_hand : (s i : ℕ) → on_hand_of (raised store k row q inv) s i ≈ℤ on_hand_of inv s i
  raised-on_hand s i = ground (arith, here)

  raised-RowsSound :
      pos 0 <ℤ q → q ≤ℤ available row → RowsSound inv → RowsSound (raised store k row q inv)
  raised-RowsSound p room sound =
      rows-set_stock store k (raised_row row q) inv
        (record {
          promised_nonneg = omega (int_laws, (sound store k row here).promised_nonneg);
          promised_covered = omega (int_laws, (sound store k row here).promised_covered);
        })
        sound

  raised-HasRoom :
      (d : Totals) → IsFree k d → HasRoom store inv d → HasRoom store (raised store k row q inv) d
  raised-HasRoom [] free room = tt
  raised-HasRoom ((j, v) ∷ d) (ne, free) ((r, e, le), room) =
      ((r, ground arith, le), raised-HasRoom d free room)

raise_reserved-Raised :
    (store : ℕ) (d : Totals) (inv : Inventory)
    → AreKeys d
    → ArePositive d
    → HasRoom store inv d
    → RowsSound inv
    → (after : Inventory) × (raise_reserved store d inv ≡ ok after) × Raised store d inv after
unfolding raise_reserved
raise_reserved-Raised store [] inv keys positive room sound = (
  inv,
  refl,
  record {
    lines_kept = refl;
    movements_kept = refl;
    reserved = λ s i. grind int_laws;
    on_hand = λ s i. refl;
    rows = sound;
  },
)
raise_reserved-Raised store ((k, q) ∷ d) inv (free, keys) (p, positive) ((row, here, le), room)
      sound =
    let next = raised store k row q inv in
    let (after, e, h) =
      raise_reserved-Raised store d next keys positive
        (raised-HasRoom store k q row inv here d free room)
        (raised-RowsSound store k q row inv here p le sound) in
    (
      after,
      rw (here, raise_reserved) e,
      record {
        lines_kept = h.lines_kept;
        movements_kept = h.movements_kept;
        reserved =
            λ s i. grind (int_laws, h.reserved s i, raised-reserved store k q row inv here s i);
        on_hand = λ s i. omega (int_laws, h.on_hand s i, raised-on_hand store k q row inv here s i);
        rows = h.rows;
      },
    )

-- Room for the totals, from room for what each ingredient's total is said to be.
HasRoom-of_total :
    (store : ℕ) (inv : Inventory) (total : ℕ → ℤ)
    → ((i : ℕ)
        → pos 0 <ℤ total i
        → (row : IngredientStock) × (inv.stock store i ≡ some row) × (total i ≤ℤ available row))
    → (d : Totals) → All (λ e. e.1 ≈ℤ total e.0) d
    → ArePositive d
    → HasRoom store inv d
HasRoom-of_total store inv total room [] same p = tt
HasRoom-of_total store inv total room ((k, v) ∷ d) (e, same) (p, positive) =
    let (row, here, le) = room k (omega (int_laws, e)) in
    ((row, here, omega (int_laws, e, le)), HasRoom-of_total store inv total room d same positive)

abbrev Agree : (ℕ → ℤ) → Totals → Totals → Type 0
Agree total d es = All (λ e. total e.0 ≈ℤ total_of d e.0) es

Agree-all : (total : ℕ → ℤ) (d es : Totals) → ((i : ℕ) → total i ≈ℤ total_of d i) → Agree total d es
Agree-all total d [] h = tt
Agree-all total d (e ∷ es) h = (h e.0, Agree-all total d es h)

Agree-tail :
    (total : ℕ → ℤ) (k : ℕ) (v : ℤ) (d es : Totals)
    → IsFree k es
    → Agree total ((k, v) ∷ d) es
    → Agree total d es
Agree-tail total k v d [] free h = tt
Agree-tail total k v d ((j, w) ∷ es) (ne, free) (e, h) =
    let apart : (k == j) ≡ false = ground arith in
    let e' = rw apart at e in (omega (int_laws, e'), Agree-tail total k v d es free h)

entries_of_total :
    (total : ℕ → ℤ) (d : Totals) → AreKeys d → Agree total d d → All (λ e. e.1 ≈ℤ total e.0) d
entries_of_total total [] keys same = tt
entries_of_total total ((k, v) ∷ d) (free, keys) (e, same) =
    let self : (k == k) ≡ true = ground arith in
    let e' = rw self at e in
    (
      omega (int_laws, e', total_of-IsFree k d free),
      entries_of_total total d keys (Agree-tail total k v d d free same),
    )

-- Every ingredient that the requirements ask for has a row in the store with that much available.
abbrev pub IsAvailable : ℕ → List Requirement → Inventory → Type 0
IsAvailable store reqs inv =
    (i : ℕ)
    → pos 0 <ℤ required_of reqs i
    → (row : IngredientStock) × (inv.stock store i ≡ some row)
      × (required_of reqs i ≤ℤ available row)

-- What reserving has done: the tables agree, the ledger explains the change, and exactly what the
-- requirements ask for is promised, of the store alone, with every shelf as full as before.
pub record Reserved (store : ℕ) (reqs : List Requirement) (before after : Inventory) : Type 0 where
  pub consistent : IsConsistent after
  pub explained : Explained before after
  pub promise :
      (s i : ℕ)
      → reserved_of after s i
        ≈ℤ reserved_of before s i +ℤ (if store == s then required_of reqs i else pos 0)
  pub on_hand_kept : (s i : ℕ) → on_hand_of after s i ≈ℤ on_hand_of before s i

Reserved-of_loops :
    (store : ℕ) (reqs : List Requirement) (inv after final : Inventory) (totals : Totals)
    → IsConsistent inv
    → Wrote store reqs [] inv (after, totals)
    → Raised store totals after final
    → Reserved store reqs inv final
Reserved-of_loops store reqs inv after final totals c w r = record {
  consistent = record {
    rows = r.rows;
    lines = rw r.lines_kept (w.lines_sound c.lines);
    held = λ s i.
        rw r.lines_kept
          (grind (int_laws, r.reserved s i, w.promise s i, w.totals i, c.held s i, before s i));
  };
  explained = record {
    on_hand = λ s i.
        rw r.movements_kept (omega (int_laws, r.on_hand s i, w.on_hand_ledger s i, shelf s i));
    reserved = λ s i.
        rw r.movements_kept
          (grind (int_laws, r.reserved s i, w.reserved_ledger s i, w.totals i, before s i));
  };
  promise = λ s i. grind (int_laws, r.reserved s i, w.totals i, before s i);
  on_hand_kept = λ s i. omega (int_laws, r.on_hand s i, shelf s i);
}
  where
    before : (s i : ℕ) → reserved_of after s i ≈ℤ reserved_of inv s i
    before s i = rw w.stock_kept refl

    shelf : (s i : ℕ) → on_hand_of after s i ≈ℤ on_hand_of inv s i
    shelf s i = rw w.stock_kept refl

audit_reserved-Reserved :
    (store : ℕ) (reqs : List Requirement) (inv final : Inventory) (order : ℕ) (totals : Totals)
    → Reserved store reqs inv final
    → Reserved store reqs inv (audit_reserved order totals final)
unfolding audit_reserved
audit_reserved-Reserved store reqs inv final order [] h = h
audit_reserved-Reserved store reqs inv final order (e ∷ totals) h = record {
  consistent = record {
    rows = h.consistent.rows;
    lines = h.consistent.lines;
    held = h.consistent.held;
  };
  explained = record { on_hand = h.explained.on_hand; reserved = h.explained.reserved };
  promise = h.promise;
  on_hand_kept = h.on_hand_kept;
}

-- On consistent tables on which the store has available what the requirements ask for,
-- reserve_for_order succeeds: it promises exactly that, of that store's shelves alone, takes nothing
-- off a shelf, writes a ledger row for every promise, and leaves the tables consistent.
pub reserve_for_order-Reserved :
    (store order : ℕ) (units : ℕ → Text) (reqs : List Requirement) (inv : Inventory)
    → IsConsistent inv
    → IsAvailable store reqs inv
    → (after : Inventory) × (reserve_for_order store order units reqs inv ≡ ok after)
      × Reserved store reqs inv after
unfolding reserve_for_order
reserve_for_order-Reserved store order units reqs inv c room =
    let written = reserve_lines store order units reqs [] inv in
    let w = reserve_lines-Wrote store order units reqs [] inv in
    let keys = w.keys tt in
    let entries =
      entries_of_total (required_of reqs) written.1 keys
        (Agree-all (required_of reqs) written.1 written.1 (λ i. omega (int_laws, w.totals i))) in
    let enough =
      HasRoom-of_total store written.0 (required_of reqs)
        (λ i p. let (row, here, le) = room i p in (row, rw w.stock_kept here, le)) written.1 entries
        (w.positive tt) in
    let (final, e, r) =
      raise_reserved-Raised store written.1 written.0 keys (w.positive tt) enough
        (λ s i row here. c.rows s i row (rw w.stock_kept at here)) in
    (
      audit_reserved order written.1 final,
      rw e refl,
      audit_reserved-Reserved store reqs inv final order written.1
          (Reserved-of_loops store reqs inv written.0 final written.1 c w r),
    )
