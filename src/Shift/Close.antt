-- ===== src/Shift/Close.antt =====
-- What close_shift of apps/api/app/services/cashier_shift_service.py leaves.
use mathlib.Core.Path.{subst}
use sweetops.Base.{
  ℕ, ◌≡◌, refl, sym, true, false, not, ◌&&◌, ◌||◌, ◌==◌, some, List, [], ◌∷◌, arith, map, find, inl,
  inr, Option-cases, Bool-cases, ok, >>=-eq-ok,
}
use sweetops.Int.{ℤ, ◌+ℤ◌, ◌-ℤ◌, ◌≈ℤ◌, int_laws}
use sweetops.Text.{Text, text_eq_refl}
use sweetops.Inventory.Commands.{require_key}
use sweetops.Shift.{
  ShiftStatus, opened, closed, Snapshot, CashierShift, Drawer, compute_shift_totals,
}
use sweetops.Shift.Cash.{
  cash_collected, cash_returned, cash_payments-cash_collected, cash_refunds-cash_returned,
}
use sweetops.Shift.Commands.{
  ShiftCloseRequest, ShiftResponse, Race, is_opened, require_counted, is_shift, load_shift,
  authorize_close, resolve_close_replay, snapshot_of, closing, replace_shift, close_locked,
  close_under_lock, close_hash, close_found, close_shift,
}

-- What a close that is no replay makes of the locked shift.
pub record IsClosed (sha256 : Text → Text) (req : ShiftCloseRequest) (d d' : Drawer)
    (row : CashierShift) : Type 0 where
  pub shift : CashierShift
  pub taken : Snapshot
  pub named : find (is_shift req.shift_id) d.shifts ≡ some shift
  pub own_store : (shift.store_id == req.store_id) ≡ true
  pub permitted : (shift.cashier_user_id == req.user_id || req.can_read_all) ≡ true
  pub was_open : shift.status ≡ opened
  pub closes : row ≡ record shift { status = closed; snapshot = some taken }
  pub counted :
      require_counted req.counted_closing_cash_amount ≡ ok taken.counted_closing_cash_amount
  pub snapshot :
      taken.totals
      ≡ compute_shift_totals d shift.store_id shift.cashier_user_id shift.opened_at req.now
  pub expected :
      taken.expected_closing_cash_amount
      ≈ℤ shift.opening_cash_amount
        +ℤ cash_collected shift.store_id shift.cashier_user_id shift.opened_at req.now d.settlements
        -ℤ cash_returned d.settlements shift.store_id shift.cashier_user_id shift.opened_at req.now
            d.refunds
  pub discrepancy :
      taken.expected_closing_cash_amount +ℤ taken.cash_discrepancy_amount
      ≈ℤ taken.counted_closing_cash_amount
  pub shifts : d'.shifts ≡ map (replace_shift row) d.shifts
  pub settlements : d'.settlements ≡ d.settlements
  pub refunds : d'.refunds ≡ d.refunds
  pub replays :
      (race : Race)
      → close_shift sha256 race req d' ≡ ok (record { shift = row; replayed = true }, d')

-- Other transactions never hand a shift to another store or cashier.
abbrev pub KeepsOwners : Drawer → Drawer → Type 0
KeepsOwners d d' =
    (id : ℕ) (s t : CashierShift)
    → find (is_shift id) d.shifts ≡ some s
    → find (is_shift id) d'.shifts ≡ some t
    → (t.store_id ≡ s.store_id) × (t.cashier_user_id ≡ s.cashier_user_id)

find-replace_shift :
    (id : ℕ) (row s : CashierShift) (ss : List CashierShift)
    → row.id ≡ id
    → find (is_shift id) ss ≡ some s
    → find (is_shift id) (map (replace_shift row) ss) ≡ some row
find-replace_shift id row s [] i h = cc
find-replace_shift id row s (x ∷ ss) i h = ground (arith, find-replace_shift id row s ss)

load_shift-find :
    (d : Drawer) (store id : ℕ) (s : CashierShift)
    → load_shift d store id ≡ ok s
    → (find (is_shift id) d.shifts ≡ some s) × ((s.store_id == store) ≡ true)
unfolding load_shift
load_shift-find d store id s h = elim (Option-cases (find (is_shift id) d.shifts)) [
  | inl e ↦ absurd (ground arith)
  | inr (t, e) ↦
      let w = rw (e, load_shift) at h in
      elim (Bool-cases (t.store_id == store)) [
        | inl own ↦ let same : t ≡ s = ground arith in (ground arith, ground arith)
        | inr other ↦ absurd (ground arith)
      ]
]

find-is_shift :
    (id : ℕ) (s : CashierShift) (ss : List CashierShift)
    → find (is_shift id) ss ≡ some s
    → s.id ≡ id
find-is_shift id s [] h = cc
find-is_shift id s (x ∷ ss) h = ground (arith, find-is_shift id s ss)

replay-replayed :
    (s : CashierShift) (key hash : Text) (d d' : Drawer) (r : ShiftResponse)
    → resolve_close_replay s key hash d ≡ ok (r, d')
    → r.replayed ≡ true
unfolding resolve_close_replay
replay-replayed s key hash d d' r h = ground arith

module _ (sha256 : Text → Text) where
  abbrev closed_row : ShiftCloseRequest → ℤ → Text → Drawer → CashierShift → CashierShift
  closed_row req counted key d shift =
      closing req counted (sha256 key) (close_hash sha256 req counted)
        (compute_shift_totals d shift.store_id shift.cashier_user_id shift.opened_at req.now) shift

  closed-replays :
      (race : Race) (req : ShiftCloseRequest) (d d' : Drawer) (shift : CashierShift) (key : Text)
      (counted : ℤ)
      → require_key req.idempotency_key ≡ ok key
      → require_counted req.counted_closing_cash_amount ≡ ok counted
      → find (is_shift req.shift_id) d'.shifts ≡ some (closed_row req counted key d shift)
      → (shift.store_id == req.store_id) ≡ true
      → (shift.cashier_user_id == req.user_id || req.can_read_all) ≡ true
      → close_shift sha256 race req d'
        ≡ ok (record { shift = closed_row req counted key d shift; replayed = true }, d')
  unfolding close_shift close_found load_shift authorize_close resolve_close_replay
  closed-replays race req d d' shift key counted k c f own may =
      let t = text_eq_refl (sha256 key) in
      let u = text_eq_refl (close_hash sha256 req counted) in
      let allowed : (not (shift.cashier_user_id == req.user_id) && not req.can_read_all) ≡ false =
        ground arith in
      rw (k, c, f, load_shift) (rw (own, allowed, t, u) refl)

  close_locked-IsClosed :
      (req : ShiftCloseRequest) (key : Text) (counted : ℤ) (d d' : Drawer) (shift : CashierShift)
      (r : ShiftResponse)
      → require_key req.idempotency_key ≡ ok key
      → require_counted req.counted_closing_cash_amount ≡ ok counted
      → find (is_shift req.shift_id) d.shifts ≡ some shift
      → (shift.store_id == req.store_id) ≡ true
      → (shift.cashier_user_id == req.user_id || req.can_read_all) ≡ true
      → close_locked req counted (sha256 key) (close_hash sha256 req counted) d shift ≡ ok (r, d')
      → r.replayed ≡ false
      → IsClosed sha256 req d d' r.shift
  unfolding close_locked
  close_locked-IsClosed req key counted d d' shift r k c f own may h fresh = go shift.status refl
    where
      go : (s : ShiftStatus) → shift.status ≡ s → IsClosed sha256 req d d' r.shift
      go opened e =
          let w = rw e at h in
          let totals =
            compute_shift_totals d shift.store_id shift.cashier_user_id shift.opened_at req.now in
          let row = closed_row req counted key d shift in
          let same_row : row ≡ r.shift = ground arith in
          let moved : map (replace_shift row) d.shifts ≡ d'.shifts = ground arith in
          let id = find-is_shift req.shift_id shift d.shifts f in
          let there =
            subst (λ ss. find (is_shift req.shift_id) ss ≡ some row) moved
              (find-replace_shift req.shift_id row shift d.shifts id f) in
          subst (IsClosed sha256 req d d') same_row (record {
            shift = shift;
            taken =
                snapshot_of req counted (sha256 key) (close_hash sha256 req counted) totals shift;
            named = f;
            own_store = own;
            permitted = may;
            was_open = e;
            closes = refl;
            counted = c;
            snapshot = refl;
            expected = omega (
              int_laws,
              cash_payments-cash_collected shift.store_id shift.cashier_user_id shift.opened_at
                  req.now d,
              cash_refunds-cash_returned shift.store_id shift.cashier_user_id shift.opened_at
                  req.now d,
            );
            discrepancy = omega int_laws;
            shifts = sym moved;
            settlements = ground arith;
            refunds = ground arith;
            replays = λ race. closed-replays race req d d' shift key counted k c there own may;
          })
      go closed e =
          let replayed =
            replay-replayed (record shift { status = closed }) (sha256 key)
              (close_hash sha256 req counted) d d' r (rw e at h) in
          absurd (cc)

  close_found-IsClosed :
      (race : Race) (req : ShiftCloseRequest) (key : Text) (counted : ℤ) (d d' : Drawer)
      (shift : CashierShift) (r : ShiftResponse)
      → KeepsOwners d (race.before_lock d)
      → require_key req.idempotency_key ≡ ok key
      → require_counted req.counted_closing_cash_amount ≡ ok counted
      → find (is_shift req.shift_id) d.shifts ≡ some shift
      → close_found sha256 race req counted key d shift ≡ ok (r, d')
      → r.replayed ≡ false
      → IsClosed sha256 req (race.before_lock d) d' r.shift
  unfolding close_found close_under_lock authorize_close
  close_found-IsClosed race req key counted d d' shift r keeps k c f h fresh =
      let hash = close_hash sha256 req counted in
      let locked = race.before_lock d in
      let (_, allowed, rest) = >>=-eq-ok (authorize_close req shift) _ h in
      elim (Bool-cases (is_opened shift.status)) [
        | inr e ↦
            let replayed = replay-replayed shift (sha256 key) hash d d' r (ground arith) in
            absurd (cc)
        | inl e ↦
            let (row, loads, closes) =
              >>=-eq-ok (load_shift locked req.store_id req.shift_id)
                (close_locked req counted (sha256 key) hash locked) (ground arith) in
            let (f', own) = load_shift-find locked req.store_id req.shift_id row loads in
            let (_, same) = keeps req.shift_id shift row f f' in
            close_locked-IsClosed req key counted locked d' row r k c f' own (ground arith) closes
              fresh
      ]

  -- When other transactions never hand a shift to another store or cashier, a successful close that
  -- is no replay was of an open shift of the own store, by its cashier or by someone who reads all
  -- shifts. The snapshot is the ledger's totals from the opening to the close, the expected cash is
  -- the opening cash with the cash collected and without the cash given back, row by row, and the
  -- discrepancy makes up the difference to the counted cash. Only this shift changed, no payment did,
  -- and the same request then answers the closed shift as a replay and writes nothing.
  pub close_shift-IsClosed :
      (race : Race) (req : ShiftCloseRequest) (d d' : Drawer) (r : ShiftResponse)
      → KeepsOwners d (race.before_lock d)
      → close_shift sha256 race req d ≡ ok (r, d')
      → r.replayed ≡ false
      → IsClosed sha256 req (race.before_lock d) d' r.shift
  unfolding close_shift
  close_shift-IsClosed race req d d' r keeps h fresh =
      let (key, k, h) = >>=-eq-ok (require_key req.idempotency_key) _ h in
      let (counted, c, h) = >>=-eq-ok (require_counted req.counted_closing_cash_amount) _ h in
      let (shift, l, h) = >>=-eq-ok (load_shift d req.store_id req.shift_id) _ h in
      let (f, _) = load_shift-find d req.store_id req.shift_id shift l in
      close_found-IsClosed race req key counted d d' shift r keeps k c f h fresh
