-- ===== src/Auth/Moves.antt =====
-- Logins that run side by side, of `authenticate` in apps/api/app/services/auth_service.py: the row is
-- read without a lock, and a failed attempt is counted later, on the row as it is then.
use sweetops.Base.{
  ◌∙◌, ℕ, zero, suc, ◌+◌, ◌≤◌, ◌<◌, ◌≡◌, refl, Bool, true, false, Option, none, some, List, [], ◌∷◌,
  arith, ◌==◌, inl, inr, Bool-cases, Option-cases, if◌then◌else◌,
}
use sweetops.Text.{Text, strip}
use sweetops.Auth.{
  Settings, Primitives, User, Accounts, is_locked, verify_hash, verify_password, failed,
  register_failed_attempt, clear_lock_and_mark_login, Login, invalid_credentials, account_locked,
}
use sweetops.Auth.Sessions.{Started, answered, compares, start_login, check_password, authenticate}

-- A login form, and when it comes in.
pub record Attempt : Type 0 where
  pub username : Text
  pub password : Text
  pub now : ℕ

-- A login between its halves: the account and the row that it has read.
pub record Pending : Type 0 where
  pub id : ℕ
  pub user : User
  pub password : Text
  pub now : ℕ

-- A login starts, or the pending one at a place finishes.
pub data Move : Type 0 where
  starts : Attempt → Move
  finishes : ℕ → Move

abbrev pub wait_for : Attempt → Started → List Pending → List Pending
wait_for a (answered _) flight = flight
wait_for a (compares id user) flight =
    record { id = id; user = user; password = a.password; now = a.now } ∷ flight

abbrev pub at_place : ℕ → List Pending → Option Pending
at_place k [] = none
at_place zero (p ∷ flight) = some p
at_place (suc k) (p ∷ flight) = at_place k flight

abbrev pub without : ℕ → List Pending → List Pending
without k [] = []
without zero (p ∷ flight) = flight
without (suc k) (p ∷ flight) = p ∷ without k flight

module _ (settings : Settings) (prims : Primitives) (uid : ℕ) where
  abbrev pub finish : Option Pending → Accounts → Accounts
  finish none acc = acc
  finish (some p) acc = (check_password settings prims p.id p.user p.password p.now acc).1

  -- The password is compared with the account's.
  abbrev pub is_of : Started → Bool
  is_of (answered _) = false
  is_of (compares id _) = id == uid

  abbrev pub start : Attempt → Accounts → Started
  start a acc = start_login prims.lower a.username a.now acc

  -- How many passwords are compared with the account's.
  abbrev pub tried : List Move → Accounts → List Pending → ℕ
  tried [] acc flight = 0
  tried (starts a ∷ moves) acc flight =
      (if is_of (start a acc) then 1 else 0) + tried moves acc (wait_for a (start a acc) flight)
  tried (finishes k ∷ moves) acc flight =
      tried moves (finish (at_place k flight) acc) (without k flight)

  -- How many logins to the account are under way.
  abbrev pub under_way : List Pending → ℕ
  under_way [] = 0
  under_way (p ∷ flight) = (if p.id == uid then 1 else 0) + under_way flight

  -- At no time more logins to the account than `parallel` are under way.
  abbrev pub AtMost : ℕ → List Move → Accounts → List Pending → Type 0
  AtMost parallel [] acc flight = under_way flight ≤ parallel
  AtMost parallel (starts a ∷ moves) acc flight =
      (under_way flight ≤ parallel) × AtMost parallel moves acc (wait_for a (start a acc) flight)
  AtMost parallel (finishes k ∷ moves) acc flight =
      (under_way flight ≤ parallel)
      × AtMost parallel moves (finish (at_place k flight) acc) (without k flight)

  -- Each starts in the window of one lockout, and none of those for the account has its password.
  abbrev pub AllWrong : ℕ → Option Text → (Text → Option ℕ) → List Move → Type 0
  AllWrong from hash names [] = Unit
  AllWrong from hash names (starts a ∷ moves) =
      (from ≤ a.now)
      × (a.now < from + settings.login_lockout)
      × (names (prims.lower (strip a.username)) ≡ some uid
          → verify_hash prims hash a.password ≡ false)
      × AllWrong from hash names moves
  AllWrong from hash names (finishes k ∷ moves) = AllWrong from hash names moves

  -- So it is with those under way.
  abbrev pub AllPending : ℕ → List Pending → Type 0
  AllPending from [] = Unit
  AllPending from (p ∷ flight) =
      ((p.id == uid) ≡ true → (from ≤ p.now) × (verify_password prims p.user p.password ≡ false))
      × AllPending from flight

  -- A login in the service: a move that starts it, what others commit, and a move that finishes it.
  authenticate-finish :
      (race : Accounts → Accounts) (a : Attempt) (acc : Accounts)
      → (authenticate settings prims race a.username a.password a.now acc).1
        ≡ finish (at_place 0 (wait_for a (start a acc) [])) (race acc)
  unfolding authenticate start_login
  authenticate-finish race a acc = ground arith

  pub finish-names : (p : Option Pending) (acc : Accounts) → (finish p acc).names ≡ acc.names
  unfolding check_password register_failed_attempt clear_lock_and_mark_login
  finish-names none acc = refl
  finish-names (some p) acc = ground arith

  check_password-others :
      (id : ℕ) (user : User) (password : Text) (now : ℕ) (acc : Accounts)
      → (id == uid) ≡ false
      → (check_password settings prims id user password now acc).1.users uid ≡ acc.users uid
  unfolding check_password register_failed_attempt clear_lock_and_mark_login
  check_password-others id user password now acc other = ground arith

  check_password-failed :
      (user : User) (password : Text) (now : ℕ) (acc : Accounts) (row : User)
      → acc.users uid ≡ some row
      → verify_password prims user password ≡ false
      → (check_password settings prims uid user password now acc).1.users uid
        ≡ some (failed settings now row)
  unfolding check_password register_failed_attempt
  check_password-failed user password now acc row here wrong =
      let own : (uid == uid) ≡ true = ground arith in
      rw wrong (rw (here, register_failed_attempt) (rw own refl))

  -- What starts: nothing for the account, or a login that has read its row.
  pub data Begins (a : Attempt) (row : User) (acc : Accounts) : Type 0 where
    at_once : (login : Login) → start a acc ≡ answered login → Begins a row acc
    elsewhere :
        (id : ℕ) (user : User)
        → (id == uid) ≡ false
        → start a acc ≡ compares id user
        → Begins a row acc
    reads :
        is_locked row a.now ≡ false
        → acc.names (prims.lower (strip a.username)) ≡ some uid
        → start a acc ≡ compares uid row
        → Begins a row acc

  pub start-Begins :
      (a : Attempt) (row : User) (acc : Accounts) → acc.users uid ≡ some row → Begins a row acc
  unfolding start_login
  start-Begins a row acc here = elim (Option-cases (acc.names (prims.lower (strip a.username)))) [
    | inl e ↦ at_once invalid_credentials (rw (e, start_login) refl)
    | inr (id, e) ↦ elim (Bool-cases (id == uid)) [
      | inr other ↦ elim (Option-cases (acc.users id)) [
        | inl gone ↦ at_once invalid_credentials (rw (e, gone, start_login) refl)
        | inr (user, found) ↦ elim (Bool-cases (is_locked user a.now)) [
          | inl locked ↦ at_once account_locked (rw (e, found, locked, start_login) refl)
          | inr free ↦ elsewhere id user other (rw (e, found, free, start_login) refl)
        ]
      ]
      | inl same ↦
          let i : id ≡ uid = ground arith in
          let e' : acc.names (prims.lower (strip a.username)) ≡ some uid = rw i at e in
          elim (Bool-cases (is_locked row a.now)) [
            | inl locked ↦ at_once account_locked (rw (e', here, locked, start_login) refl)
            | inr free ↦ reads free e' (rw (e', here, free, start_login) refl)
          ]
    ]
  ]

  -- What finishes leaves the account's row, or is a failed attempt on it.
  pub data Turns (from k : ℕ) (row : User) (acc : Accounts) (flight : List Pending) : Type 0 where
    stays :
        (finish (at_place k flight) acc).users uid ≡ some row
        → under_way flight ≡ under_way (without k flight)
        → Turns from k row acc flight
    counts :
        (now : ℕ)
        → from ≤ now
        → (finish (at_place k flight) acc).users uid ≡ some (failed settings now row)
        → under_way flight ≡ suc (under_way (without k flight))
        → Turns from k row acc flight

  pub finish-Turns :
      (from k : ℕ) (row : User) (acc : Accounts) (flight : List Pending)
      → acc.users uid ≡ some row
      → AllPending from flight
      → Turns from k row acc flight
  finish-Turns from k row acc [] here _ = stays here refl
  finish-Turns from zero row acc (p ∷ flight) here (ours, _) = elim (Bool-cases (p.id == uid)) [
    | inr other ↦
        stays (check_password-others p.id p.user p.password p.now acc other ∙ here)
          (rw other (omega arith))
    | inl same ↦
        let (late, wrong) = ours same in
        let i : p.id ≡ uid = ground arith in
        counts p.now late (rw i (check_password-failed p.user p.password p.now acc row here wrong))
          (rw same (omega arith))
  ]
  finish-Turns from (suc k) row acc (p ∷ flight) here (_, rest) =
      elim (finish-Turns from k row acc flight here rest) [
        | stays left same ↦ stays left (omega (arith, same))
        | counts now late left more ↦ counts now late left (omega (arith, more))
      ]

  pub without-AllPending :
      (from k : ℕ) (flight : List Pending)
      → AllPending from flight
      → AllPending from (without k flight)
  without-AllPending from k [] pending = pending
  without-AllPending from zero (p ∷ flight) (_, rest) = rest
  without-AllPending from (suc k) (p ∷ flight) (ours, rest) =
      (ours, without-AllPending from k flight rest)
