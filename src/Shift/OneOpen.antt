-- ===== src/Shift/OneOpen.antt =====
-- At most one open shift for each cashier of a store.
use sweetops.Base.{
  ℕ, ◌≡◌, refl, ◌≤◌, ◌+◌, false, none, List, [], ◌∷◌, arith, map, if◌then◌else◌, find, inl, inr,
  Option-cases, Bool-cases, Result, ok, err, >>=-eq-ok,
}
use mathlib.Core.Path.{subst}
use sweetops.Int.{ℤ}
use sweetops.Text.{Text}
use sweetops.Inventory.Commands.{require_key}
use sweetops.Shift.{CashierShift, Drawer, compute_shift_totals}
use sweetops.Shift.Commands.{
  ShiftOpenRequest, ShiftCloseRequest, ShiftResponse, Race, is_opened, is_open_of, find_open_shift,
  find_by_open_key, resolve_open_replay, require_opening, require_counted, insert_shift, open_hash,
  open_checked, open_shift, load_shift, authorize_close, resolve_close_replay, closing,
  replace_shift, close_locked, close_under_lock, close_hash, close_found, close_shift,
}

-- The open shifts of a cashier, by number.
abbrev pub count_open : ℕ → ℕ → List CashierShift → ℕ
count_open store cashier [] = 0
count_open store cashier (s ∷ ss) =
    (if is_open_of store cashier s then 1 else 0) + count_open store cashier ss

abbrev pub IsOneOpen : Drawer → Type 0
IsOneOpen d = (store cashier : ℕ) → count_open store cashier d.shifts ≤ 1

-- What other transactions commit keeps to it too.
pub record IsGuarded (race : Race) : Type 0 where
  pub inserts : (d : Drawer) → IsOneOpen d → IsOneOpen (race.before_insert d)
  pub locks : (d : Drawer) → IsOneOpen d → IsOneOpen (race.before_lock d)

none_open :
    (store cashier : ℕ) (ss : List CashierShift)
    → find (is_open_of store cashier) ss ≡ none
    → count_open store cashier ss ≡ 0
none_open store cashier [] h = refl
none_open store cashier (s ∷ ss) h = elim (Bool-cases (is_open_of store cashier s)) [
  | inl e ↦ absurd (let w = rw e at h in cc)
  | inr e ↦ rw e (omega (arith, none_open store cashier ss (rw e at h)))
]

closed_fewer :
    (row : CashierShift) (store cashier : ℕ) (ss : List CashierShift)
    → is_opened row.status ≡ false
    → count_open store cashier (map (replace_shift row) ss) ≤ count_open store cashier ss
closed_fewer row store cashier [] h = omega arith
closed_fewer row store cashier (s ∷ ss) h = ground (arith, closed_fewer row store cashier ss h)

replay-same :
    (s : CashierShift) (hash : Text) (d d' : Drawer) (r : ShiftResponse)
    → resolve_open_replay s hash d ≡ ok (r, d')
    → d ≡ d'
unfolding resolve_open_replay
replay-same s hash d d' r h = ground arith

close_replay-same :
    (s : CashierShift) (key hash : Text) (d d' : Drawer) (r : ShiftResponse)
    → resolve_close_replay s key hash d ≡ ok (r, d')
    → d ≡ d'
unfolding resolve_close_replay
close_replay-same s key hash d d' r h = ground arith

insert_shift-IsOneOpen :
    (req : ShiftOpenRequest) (opening : ℤ) (key hash : Text) (d d' : Drawer) (r : ShiftResponse)
    → IsOneOpen d
    → insert_shift req opening key hash d ≡ ok (r, d')
    → IsOneOpen d'
unfolding insert_shift find_open_shift
insert_shift-IsOneOpen req opening key hash d d' r one h =
    elim (Option-cases (find_by_open_key d req.store_id key)) [
      | inr (s, e) ↦ subst IsOneOpen (replay-same s hash d d' r (rw (e, insert_shift) at h)) one
      | inl e ↦ elim (Option-cases (find (is_open_of req.store_id req.user_id) d.shifts)) [
        | inr (s, f) ↦
            let w : insert_shift req opening key hash d ≡ ok (r, d') = h in
            let w = rw (e, f, insert_shift) at w in
            let same : d ≡ d' = ground arith in subst IsOneOpen same one
        | inl f ↦ λ store cashier.
            let z = none_open req.store_id req.user_id d.shifts f in
            ground (arith, one store cashier)
      ]
    ]

close_locked-IsOneOpen :
    (req : ShiftCloseRequest) (counted : ℤ) (key hash : Text) (d d' : Drawer) (shift : CashierShift)
    (r : ShiftResponse)
    → IsOneOpen d
    → close_locked req counted key hash d shift ≡ ok (r, d')
    → IsOneOpen d'
unfolding close_locked
close_locked-IsOneOpen req counted key hash d d' shift r one h =
    elim (Bool-cases (is_opened shift.status)) [
      | inr e ↦ subst IsOneOpen (close_replay-same shift key hash d d' r (rw e at h)) one
      | inl e ↦ λ store cashier.
          let totals =
            compute_shift_totals d shift.store_id shift.cashier_user_id shift.opened_at req.now in
          let row = closing req counted key hash totals shift in
          ground (arith, one store cashier, closed_fewer row store cashier d.shifts refl)
    ]

module _ (sha256 : Text → Text) where
  open_checked-IsOneOpen :
      (race : Race) (req : ShiftOpenRequest) (d d' : Drawer) (key : Text) (opening : ℤ)
      (r : ShiftResponse)
      → IsGuarded race
      → IsOneOpen d
      → open_checked sha256 race req d key opening ≡ ok (r, d')
      → IsOneOpen d'
  unfolding open_checked
  open_checked-IsOneOpen race req d d' key opening r guarded one h =
      let hash = open_hash sha256 req opening in
      elim (Option-cases (find_by_open_key d req.store_id (sha256 key))) [
        | inr (s, e) ↦ subst IsOneOpen (replay-same s hash d d' r (rw (e, open_checked) at h)) one
        | inl e ↦ elim (Option-cases (find_open_shift d req.store_id req.user_id)) [
          | inr (s, f) ↦ let same : d ≡ d' = ground arith in subst IsOneOpen same one
          | inl f ↦
              insert_shift-IsOneOpen req opening (sha256 key) hash (race.before_insert d) d' r
                (guarded.inserts d one) (ground arith)
        ]
      ]

  close_found-IsOneOpen :
      (race : Race) (req : ShiftCloseRequest) (counted : ℤ) (key : Text) (d d' : Drawer)
      (shift : CashierShift) (r : ShiftResponse)
      → IsGuarded race
      → IsOneOpen d
      → close_found sha256 race req counted key d shift ≡ ok (r, d')
      → IsOneOpen d'
  unfolding close_found close_under_lock
  close_found-IsOneOpen race req counted key d d' shift r guarded one h =
      let hash = close_hash sha256 req counted in
      let locked = race.before_lock d in
      let (_, _, rest) = >>=-eq-ok (authorize_close req shift) _ h in
      elim (Bool-cases (is_opened shift.status)) [
        | inr e ↦
            subst IsOneOpen (close_replay-same shift (sha256 key) hash d d' r (ground arith)) one
        | inl e ↦
            let (row, _, closes) =
              >>=-eq-ok (load_shift locked req.store_id req.shift_id)
                (close_locked req counted (sha256 key) hash locked) (ground arith) in
            close_locked-IsOneOpen req counted (sha256 key) hash locked d' row r
              (guarded.locks d one) closes
      ]

-- The commands of the staff, each with what other transactions commit during it, and what a list of
-- them leaves; one that raises changes nothing.
pub data Command : Type 0 where
  opens : Race → ShiftOpenRequest → Command
  closes : Race → ShiftCloseRequest → Command

abbrev pub race_of : Command → Race
race_of (opens race _) = race
race_of (closes race _) = race

abbrev pub after_command : Result (ShiftResponse × Drawer) → Drawer → Drawer
after_command (ok (_, d')) d = d'
after_command (err _) d = d

abbrev pub AllGuarded : List Command → Type 0
AllGuarded [] = Unit
AllGuarded (c ∷ cs) = IsGuarded (race_of c) × AllGuarded cs

module _ (sha256 : Text → Text) where
  open_shift-IsOneOpen :
      (race : Race) (req : ShiftOpenRequest) (d d' : Drawer) (r : ShiftResponse)
      → IsGuarded race
      → IsOneOpen d
      → open_shift sha256 race req d ≡ ok (r, d')
      → IsOneOpen d'
  unfolding open_shift
  open_shift-IsOneOpen race req d d' r guarded one h =
      let (key, _, h) = >>=-eq-ok (require_key req.idempotency_key) _ h in
      let (opening, _, h) = >>=-eq-ok (require_opening req.opening_cash_amount) _ h in
      open_checked-IsOneOpen sha256 race req d d' key opening r guarded one h

  close_shift-IsOneOpen :
      (race : Race) (req : ShiftCloseRequest) (d d' : Drawer) (r : ShiftResponse)
      → IsGuarded race
      → IsOneOpen d
      → close_shift sha256 race req d ≡ ok (r, d')
      → IsOneOpen d'
  unfolding close_shift
  close_shift-IsOneOpen race req d d' r guarded one h =
      let (key, _, h) = >>=-eq-ok (require_key req.idempotency_key) _ h in
      let (counted, _, h) = >>=-eq-ok (require_counted req.counted_closing_cash_amount) _ h in
      let (shift, _, h) = >>=-eq-ok (load_shift d req.store_id req.shift_id) _ h in
      close_found-IsOneOpen sha256 race req counted key d d' shift r guarded one h

  abbrev pub command : Command → Drawer → Result (ShiftResponse × Drawer)
  command (opens race req) d = open_shift sha256 race req d
  command (closes race req) d = close_shift sha256 race req d

  abbrev pub run : List Command → Drawer → Drawer
  run [] d = d
  run (c ∷ cs) d = run cs (after_command (command c d) d)

  command-IsOneOpen :
      (c : Command) (d d' : Drawer) (r : ShiftResponse)
      → IsGuarded (race_of c)
      → IsOneOpen d
      → command c d ≡ ok (r, d')
      → IsOneOpen d'
  command-IsOneOpen (opens race req) d d' r = open_shift-IsOneOpen race req d d' r
  command-IsOneOpen (closes race req) d d' r = close_shift-IsOneOpen race req d d' r

  after_command-IsOneOpen :
      (c : Command) (d : Drawer)
      → IsGuarded (race_of c)
      → IsOneOpen d
      → IsOneOpen (after_command (command c d) d)
  after_command-IsOneOpen c d guarded one = go (command c d) refl
    where
      go : (r : Result (ShiftResponse × Drawer)) → command c d ≡ r → IsOneOpen (after_command r d)
      go (ok (r, d')) e = command-IsOneOpen c d d' r guarded one e
      go (err _) e = one

  -- When other transactions keep to it, no sequence of opens and closes ever leaves a cashier with
  -- two open shifts in one store.
  pub run-IsOneOpen :
      (cs : List Command) (d : Drawer) → AllGuarded cs → IsOneOpen d → IsOneOpen (run cs d)
  run-IsOneOpen [] d _ one = one
  run-IsOneOpen (c ∷ cs) d (guarded, others) one =
      run-IsOneOpen cs (after_command (command c d) d) others
        (after_command-IsOneOpen c d guarded one)
