-- ===== src/Inventory/Threshold/Ladder.antt =====
-- The classification of a stock row against its thresholds, and the checks on a threshold ladder.
use sweetops.Base.{
  ℕ, ◌≤◌, ◌≡◌, refl, Option, none, some, arith, ok, inl, inr, ◌↔◌, Bool-cases, ◌&&◌, if◌then◌else◌,
}
use sweetops.Int.{
  ltb_ℤ, leb_ℤ, ℤ, pos, ◌+ℤ◌, ◌-ℤ◌, ◌≤ℤ◌, ◌<ℤ◌, -ℤ_parts, int_laws, ≈ℤ_of_eq, leb_ℤ→le, leb_ℤ→gt,
}
use sweetops.Inventory.Model.{IngredientStock}
use sweetops.Inventory.Lifecycle.{available}
use sweetops.Inventory.Threshold.{
  Status, below_reserved, out_of_stock, critical, low, healthy, not_configured, threshold_status,
  at_most, is_none, recommended_restock_quantity, validate_thresholds,
}

-- How calm a status is; without thresholds there is nothing to warn of.
abbrev pub calm : Status → ℕ
calm below_reserved = 0
calm out_of_stock = 1
calm critical = 2
calm low = 3
calm healthy = 4
calm not_configured = 4

-- The status by the available quantity and the two alert levels.
status_at : ℤ → Option ℤ → Option ℤ → Status
status_at z c m =
    if ltb_ℤ z (pos 0)
    then below_reserved
    else if leb_ℤ z (pos 0)
    then out_of_stock
    else if is_none c && is_none m
    then not_configured
    else if at_most z c
    then critical
    else if at_most z m
    then low
    else healthy

short_iff : (a b : ℤ) → ltb_ℤ a b ≡ ltb_ℤ (a -ℤ b) (pos 0)
short_iff a b = ground (arith, -ℤ_parts a b)

threshold_status-status_at :
    (stock : IngredientStock)
    → threshold_status stock
      ≡ status_at (available stock) stock.critical_quantity stock.minimum_quantity
unfolding threshold_status status_at
threshold_status-status_at stock = rw (short_iff stock.on_hand_quantity stock.reserved_quantity)

status_at_mono :
    (x y : ℤ) (c m : Option ℤ) → x ≤ℤ y → calm (status_at x c m) ≤ calm (status_at y c m)
unfolding status_at
status_at_mono x y none none h = ground arith
status_at_mono x y none (some m) h = ground arith
status_at_mono x y (some c) none h = ground arith
status_at_mono x y (some c) (some m) h = ground arith

-- With the same thresholds, a shelf with more available never has a worse status.
threshold_status_mono :
    (a b : IngredientStock)
    → a.critical_quantity ≡ b.critical_quantity
    → a.minimum_quantity ≡ b.minimum_quantity
    → available a ≤ℤ available b
    → calm (threshold_status a) ≤ calm (threshold_status b)
threshold_status_mono a b ec em h =
    rw (threshold_status-status_at, threshold_status-status_at b, ec, em)
      (status_at_mono (available a) (available b) b.critical_quantity b.minimum_quantity h)

abbrev pub NonNeg : Option ℤ → Type 0
NonNeg none = Unit
NonNeg (some x) = pos 0 ≤ℤ x

abbrev pub InOrder : Option ℤ → Option ℤ → Type 0
InOrder (some x) (some y) = x ≤ℤ y
InOrder _ _ = Unit

-- The levels are not negative, and those that are configured are in order.
pub record IsLadder (c m t : Option ℤ) : Type 0 where
  pub critical_nonneg : NonNeg c
  pub minimum_nonneg : NonNeg m
  pub target_nonneg : NonNeg t
  pub critical_minimum : InOrder c m
  pub minimum_target : InOrder m t
  pub critical_target : InOrder c t

-- The checks accept exactly the thresholds that form a ladder: none negative, critical ≤ minimum ≤
-- target among those that are configured.
pub validate_thresholds_iff :
    (c m t : Option ℤ) → (validate_thresholds c m t ≡ ok tt) ↔ IsLadder c m t
unfolding validate_thresholds
validate_thresholds_iff c m t = (λ h. ground arith, λ l. ground arith)

restock : ℤ → ℤ → Option ℤ
restock target z = if leb_ℤ target z then none else some (target -ℤ z)

restock_sound : (t z q : ℤ) → restock t z ≡ some q → (pos 0 <ℤ q) × (z +ℤ q ≡ t)
unfolding restock
restock_sound t z q h = elim (Bool-cases (leb_ℤ t z)) [
  | inl full ↦ absurd (ground arith)
  | inr short ↦
      let e : t -ℤ z ≡ q = ground arith in
      (rw (← e) (omega (int_laws, leb_ℤ→gt t z short)), rw (← e) (omega int_laws))
]

restock_complete : (t z q : ℤ) → pos 0 <ℤ q → z +ℤ q ≡ t → restock t z ≡ some q
unfolding restock
restock_complete t z q p e =
    let k : t -ℤ z ≡ q = rw (← e) (omega int_laws) in
    elim (Bool-cases (leb_ℤ t z)) [
      | inl full ↦ let h = ≈ℤ_of_eq k in absurd (omega (int_laws, leb_ℤ→le t z full))
      | inr short ↦ rw (short, k)
    ]

-- The recommendation is the positive quantity that brings the available stock to the target, and
-- there is one exactly when a target is configured above the available stock.
recommended_restock_quantity_iff :
    (stock : IngredientStock) (q : ℤ)
    → (recommended_restock_quantity stock ≡ some q) ↔ (
        (target : ℤ) × (stock.target_quantity ≡ some target)
        × (pos 0 <ℤ q)
        × (available stock +ℤ q ≡ target))
unfolding recommended_restock_quantity restock
recommended_restock_quantity_iff stock q = go stock.target_quantity refl
  where
    go :
        (t : Option ℤ)
        → stock.target_quantity ≡ t
        → (recommended_restock_quantity stock ≡ some q) ↔ (
            (target : ℤ) × (stock.target_quantity ≡ some target)
            × (pos 0 <ℤ q)
            × (available stock +ℤ q ≡ target))
    go none e = (λ h. absurd (ground arith), λ (target, e', p, s). cc)
    go (some t) e = (
      λ h. let k = restock_sound t (available stock) q (ground arith) in (t, e, k.0, k.1),
      λ (target, e', p, s).
          let same : t ≡ target = cc in
          let k = restock_complete t (available stock) q p (rw same s) in ground arith,
    )
