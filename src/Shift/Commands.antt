-- ===== src/Shift/Commands.antt =====
-- open_shift and close_shift of apps/api/app/services/cashier_shift_service.py. The staff session gives
-- `store_id`, `user_id` and whether the staff member has owner:read.
use sweetops.Base.{
  ℕ, suc, Bool, true, false, not, ◌&&◌, Option, none, some, [], ◌∷◌, ◌==◌, if◌then◌else◌, find, map,
  Result, ok, err, http, raise_if, idempotency_mismatch, not_found, forbidden, opening_cash_invalid,
  counted_cash_invalid, already_closed, ◌>>=◌, ◌>>◌,
}
use sweetops.Int.{ℤ, pos, ◌+ℤ◌, ◌-ℤ◌, ltb_ℤ}
use sweetops.Text.{Text, text_eq}
use sweetops.Quantity.{Decimal, q2}
use sweetops.Digest.{codes, text, number, str_amount, canonical}
use sweetops.Inventory.Commands.{require_key, optional_text}
use sweetops.Shift.{
  ShiftStatus, opened, closed, ShiftTotals, Snapshot, CashierShift, ShiftAction,
  cashier_shift_opened, cashier_shift_closed, Drawer, compute_shift_totals,
}

-- `ShiftOpenRequest` and `ShiftCloseRequest`, with the session, the path's shift, the
-- Idempotency-Key header and the database's time.
pub record ShiftOpenRequest : Type 0 where
  pub store_id : ℕ
  pub user_id : ℕ
  pub idempotency_key : Option Text
  pub opening_cash_amount : Decimal
  pub open_note : Option Text
  pub now : ℕ

pub record ShiftCloseRequest : Type 0 where
  pub store_id : ℕ
  pub user_id : ℕ
  pub can_read_all : Bool
  pub idempotency_key : Option Text
  pub shift_id : ℕ
  pub counted_closing_cash_amount : Decimal
  pub close_note : Option Text
  pub now : ℕ

-- The shift of the response, and whether it is a replay.
pub record ShiftResponse : Type 0 where
  pub shift : CashierShift
  pub replayed : Bool

-- What other transactions commit before a new shift's insert, and while a close waits for the row.
pub record Race : Type 0 where
  pub before_insert : Drawer → Drawer
  pub before_lock : Drawer → Drawer

abbrev pub is_opened : ShiftStatus → Bool
is_opened opened = true
is_opened closed = false

-- `_find_open_shift`
abbrev pub is_open_of : ℕ → ℕ → CashierShift → Bool
is_open_of store cashier s =
    s.store_id == store && s.cashier_user_id == cashier && is_opened s.status

unfoldable pub find_open_shift : Drawer → ℕ → ℕ → Option CashierShift
find_open_shift d store cashier = find (is_open_of store cashier) d.shifts

-- `_find_by_open_key`
abbrev pub has_open_key : ℕ → Text → CashierShift → Bool
has_open_key store key s = s.store_id == store && text_eq s.opened_idempotency_key_hash key

unfoldable pub find_by_open_key : Drawer → ℕ → Text → Option CashierShift
find_by_open_key d store key = find (has_open_key store key) d.shifts

-- `_resolve_open_replay`
unfoldable pub resolve_open_replay : CashierShift → Text → Drawer → Result (ShiftResponse × Drawer)
resolve_open_replay existing request_hash d =
    if text_eq existing.opened_request_hash request_hash
    then ok (record { shift = existing; replayed = true }, d)
    else err (http 409 idempotency_mismatch)

abbrev audit_shift : ShiftAction → ℕ → ℕ → Drawer → Drawer
audit_shift action entity actor d = record d {
  audits = record { action = action; entity_id = entity; actor_id = actor } ∷ d.audits;
}

note_text : Option Text → Text
note_text none = []
note_text (some note) = note

-- `q2(amount)`, which is not negative.
unfoldable pub require_opening : Decimal → Result ℤ
unfolding q2
require_opening amount = do
  raise_if (ltb_ℤ (q2 amount) (pos 0)) 422 opening_cash_invalid
  ok (q2 amount)

unfoldable pub require_counted : Decimal → Result ℤ
unfolding q2
require_counted amount = do
  raise_if (ltb_ℤ (q2 amount) (pos 0)) 422 counted_cash_invalid
  ok (q2 amount)

abbrev pub new_shift : ShiftOpenRequest → ℤ → Text → Text → ℕ → CashierShift
new_shift req opening key_hash request_hash id = record {
  id = id;
  store_id = req.store_id;
  cashier_user_id = req.user_id;
  status = opened;
  opened_at = req.now;
  opening_cash_amount = opening;
  open_note = optional_text req.open_note;
  opened_idempotency_key_hash = key_hash;
  opened_request_hash = request_hash;
  snapshot = none;
}

-- The insert and the commit. The key is unique in the store, and so is a cashier's open shift: the
-- IntegrityError is resolved to the row in the way.
unfoldable pub insert_shift :
    ShiftOpenRequest → ℤ → Text → Text → Drawer → Result (ShiftResponse × Drawer)
insert_shift req opening key_hash request_hash d = elim (find_by_open_key d req.store_id key_hash) [
  | some existing ↦ resolve_open_replay existing request_hash d
  | none ↦ elim (find_open_shift d req.store_id req.user_id) [
    | some already ↦ ok (record { shift = already; replayed = false }, d)
    | none ↦
        let shift = new_shift req opening key_hash request_hash d.next_id in
        ok (
          record { shift = shift; replayed = false },
          audit_shift cashier_shift_opened shift.id req.user_id
              (record d { shifts = shift ∷ d.shifts; next_id = suc d.next_id }),
        )
  ]
]

module _ (sha256 : Text → Text) where
  abbrev pub open_hash : ShiftOpenRequest → ℤ → Text
  unfolding note_text
  open_hash req opening = sha256 (
      canonical (
        (codes "cmd", text (codes "shift_open"))
        ∷ (codes "opening_cash", text (str_amount 2 opening))
        ∷ (codes "open_note", text (note_text (optional_text req.open_note)))
        ∷ []))

  -- `open_shift`, and what it does with a key and an amount
  unfoldable pub open_checked :
      Race → ShiftOpenRequest → Drawer → Text → ℤ → Result (ShiftResponse × Drawer)
  open_checked race req d key opening = elim (find_by_open_key d req.store_id (sha256 key)) [
    | some existing ↦ resolve_open_replay existing (open_hash req opening) d
    | none ↦ elim (find_open_shift d req.store_id req.user_id) [
      | some already ↦ ok (record { shift = already; replayed = false }, d)
      | none ↦ insert_shift req opening (sha256 key) (open_hash req opening) (race.before_insert d)
    ]
  ]

  unfoldable pub open_shift : Race → ShiftOpenRequest → Drawer → Result (ShiftResponse × Drawer)
  open_shift race req d = do
    key ← require_key req.idempotency_key
    opening ← require_opening req.opening_cash_amount
    open_checked race req d key opening

abbrev pub is_shift : ℕ → CashierShift → Bool
is_shift id s = s.id == id

unfoldable pub load_shift : Drawer → ℕ → ℕ → Result CashierShift
load_shift d store id = elim (find (is_shift id) d.shifts) [
  | none ↦ err (http 404 not_found)
  | some s ↦ do raise_if (not (s.store_id == store)) 404 not_found; ok s
]

-- `_authorize_close`
unfoldable pub authorize_close : ShiftCloseRequest → CashierShift → Result (Unit {0})
authorize_close req shift =
    raise_if (not (shift.cashier_user_id == req.user_id) && not req.can_read_all) 403 forbidden

-- `_resolve_close_replay`
unfoldable pub resolve_close_replay :
    CashierShift → Text → Text → Drawer → Result (ShiftResponse × Drawer)
resolve_close_replay shift key_hash request_hash d = elim shift.snapshot [
  | none ↦ err (http 409 already_closed)
  | some taken ↦
      if text_eq taken.closed_idempotency_key_hash key_hash
      then if text_eq taken.closed_request_hash request_hash
        then ok (record { shift = shift; replayed = true }, d)
        else err (http 409 idempotency_mismatch)
      else err (http 409 already_closed)
]

-- The close of a shift over the ledger's totals.
abbrev pub snapshot_of : ShiftCloseRequest → ℤ → Text → Text → ShiftTotals → CashierShift → Snapshot
snapshot_of req counted key_hash request_hash totals shift =
    let expected =
      shift.opening_cash_amount +ℤ totals.cash_payments_amount -ℤ totals.cash_refunds_amount in
    record {
      closed_at = req.now;
      counted_closing_cash_amount = counted;
      close_note = optional_text req.close_note;
      totals = totals;
      expected_closing_cash_amount = expected;
      cash_discrepancy_amount = counted -ℤ expected;
      closed_idempotency_key_hash = key_hash;
      closed_request_hash = request_hash;
    }

abbrev pub closing : ShiftCloseRequest → ℤ → Text → Text → ShiftTotals → CashierShift → CashierShift
closing req counted key_hash request_hash totals shift = record shift {
  status = closed;
  snapshot = some (snapshot_of req counted key_hash request_hash totals shift);
}

abbrev pub replace_shift : CashierShift → CashierShift → CashierShift
replace_shift row s = if is_shift row.id s then row else s

-- The definitive check of the locked row, the snapshot, and the commit.
unfoldable pub close_locked :
    ShiftCloseRequest → ℤ → Text → Text → Drawer → CashierShift → Result (ShiftResponse × Drawer)
close_locked req counted key_hash request_hash d shift =
    if is_opened shift.status
    then (let totals =
          compute_shift_totals d shift.store_id shift.cashier_user_id shift.opened_at req.now in
        let row = closing req counted key_hash request_hash totals shift in
        ok (
          record { shift = row; replayed = false },
          audit_shift cashier_shift_closed row.id req.user_id
              (record d { shifts = map (replace_shift row) d.shifts }),
        ))
    else resolve_close_replay shift key_hash request_hash d

unfoldable pub close_under_lock :
    ShiftCloseRequest → ℤ → Text → Text → Drawer → Result (ShiftResponse × Drawer)
close_under_lock req counted key_hash request_hash d =
    load_shift d req.store_id req.shift_id >>= close_locked req counted key_hash request_hash d

module _ (sha256 : Text → Text) where
  abbrev pub close_hash : ShiftCloseRequest → ℤ → Text
  unfolding note_text
  close_hash req counted = sha256 (
      canonical (
        (codes "cmd", text (codes "shift_close"))
        ∷ (codes "shift_id", number req.shift_id)
        ∷ (codes "counted", text (str_amount 2 counted))
        ∷ (codes "close_note", text (note_text (optional_text req.close_note)))
        ∷ []))

  -- `close_shift`, and what it does with the shift that the path names
  unfoldable pub close_found :
      Race → ShiftCloseRequest → ℤ → Text → Drawer → CashierShift → Result (ShiftResponse × Drawer)
  close_found race req counted key d shift = do
    authorize_close req shift
    if is_opened shift.status
        then close_under_lock req counted (sha256 key) (close_hash req counted) (race.before_lock d)
        else resolve_close_replay shift (sha256 key) (close_hash req counted) d

  unfoldable pub close_shift : Race → ShiftCloseRequest → Drawer → Result (ShiftResponse × Drawer)
  close_shift race req d = do
    key ← require_key req.idempotency_key
    counted ← require_counted req.counted_closing_cash_amount
    shift ← load_shift d req.store_id req.shift_id
    close_found race req counted key d shift
