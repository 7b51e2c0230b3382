-- ===== src/Auth.antt =====
-- Staff authentication, of apps/api/app/services/auth_service.py and core/security.py: the rows of
-- models/user.py and models/auth_session.py, and `authenticate`. Times are in microseconds. Argon2,
-- SHA-256, and the case of a text are `Primitives`; the values of core/config.py are `Settings`.
-- `names` is the query by lower-cased username, which is unique and which nothing here changes.
pub mod Authorised
pub mod Guard
pub mod Kept
pub mod Lockout
pub mod Moves
pub mod Permissions
pub mod Revoked
pub mod Sessions
use sweetops.Base.{
  ℕ, suc, ◌+◌, Bool, true, false, not, ◌&&◌, Option, none, some, List, ◌==◌, leb, ltb,
  if◌then◌else◌,
}
use sweetops.Text.{Text, strip, is_empty}

pub record Settings : Type 0 where
  pub login_max_failed_attempts : ℕ
  pub login_lockout : ℕ
  pub session_absolute_lifetime : ℕ
  pub session_idle_timeout : ℕ
  pub session_last_seen_throttle : ℕ
  pub staff_origins : List Text

pub record Primitives : Type 0 where
  pub argon2_verify : Text → Text → Bool
  pub argon2_check_needs_rehash : Text → Bool
  pub argon2_hash : Text → Text
  pub sha256 : Text → Text
  pub lower : Text → Text
  pub upper : Text → Text

pub record User : Type 0 where
  pub username : Text
  pub password_hash : Option Text
  pub role_id : ℕ
  pub store_id : Option ℕ
  pub is_active : Bool
  pub failed_login_count : ℕ
  pub locked_until : Option ℕ
  pub last_login_at : Option ℕ

pub record AuthSession : Type 0 where
  pub id : ℕ
  pub user_id : ℕ
  pub token_hash : Text
  pub csrf_token_hash : Text
  pub expires_at : ℕ
  pub last_seen_at : ℕ
  pub revoked : Option (ℕ × Text)
  pub user_agent_hash : Option Text

pub record Accounts : Type 0 where
  pub users : ℕ → Option User
  pub names : Text → Option ℕ
  pub roles : ℕ → Option Text
  pub sessions : List AuthSession
  pub next_session_id : ℕ

abbrev pub set_user : ℕ → User → Accounts → Accounts
set_user id user acc = record acc { users = λ k. if id == k then some user else acc.users k }

-- `_is_locked`
abbrev pub until_after : Option ℕ → ℕ → Bool
until_after none now = false
until_after (some locked_until) now = ltb now locked_until

abbrev pub is_locked : User → ℕ → Bool
is_locked user now = until_after user.locked_until now

-- `verify_password`
abbrev pub verify_hash : Primitives → Option Text → Text → Bool
verify_hash prims none password = false
verify_hash prims (some hash) password =
    if is_empty hash then false else prims.argon2_verify hash password

unfoldable pub verify_password : Primitives → User → Text → Bool
verify_password prims user password = verify_hash prims user.password_hash password

-- `_register_failed_attempt`
abbrev pub failed : Settings → ℕ → User → User
failed settings now user = record user {
  failed_login_count = suc user.failed_login_count;
  locked_until =
      if leb settings.login_max_failed_attempts (suc user.failed_login_count)
      then some (now + settings.login_lockout)
      else user.locked_until;
}

-- The UPDATE and the refresh read the row as it is then; nothing deletes users.
unfoldable pub register_failed_attempt : Settings → ℕ → ℕ → Accounts → Accounts
register_failed_attempt settings id now acc = elim (acc.users id) [
  | none ↦ acc
  | some row ↦ set_user id (failed settings now row) acc
]

-- The rehash of an outdated hash, and `_clear_lock_and_mark_login`. `user` is the row that the login
-- has read, `row` the one that it writes: an attribute that is set to the value it was read with is
-- no change, and its column is not written.
abbrev pub rehashed : Primitives → Text → Option Text → Option Text → Option Text
rehashed prims password none current = current
rehashed prims password (some hash) current =
    if not (is_empty hash) && prims.argon2_check_needs_rehash hash
    then some (prims.argon2_hash password)
    else current

abbrev pub unlocked : Option ℕ → Option ℕ → Option ℕ
unlocked none current = current
unlocked (some _) current = none

abbrev pub logged_in : Primitives → ℕ → Text → User → User → User
logged_in prims now password user row = record row {
  password_hash = rehashed prims password user.password_hash row.password_hash;
  failed_login_count = if user.failed_login_count == 0 then row.failed_login_count else 0;
  locked_until = unlocked user.locked_until row.locked_until;
  last_login_at = some now;
}

unfoldable pub clear_lock_and_mark_login : Primitives → ℕ → User → Text → ℕ → Accounts → Accounts
clear_lock_and_mark_login prims id user password now acc = elim (acc.users id) [
  | none ↦ acc
  | some row ↦ set_user id (logged_in prims now password user row) acc
]

-- `db.get(Role, user.role_id) if user.role_id else None`, and the store that an operational role needs.
abbrev pub lacks_store : Option ℕ → Bool
lacks_store none = true
lacks_store (some _) = false

unfoldable pub live_role : (Text → Bool) → Accounts → User → Option Text
live_role is_operational acc user =
    if user.role_id == 0 then none else elim (acc.roles user.role_id) [
      | none ↦ none
      | some name ↦ if is_operational name && lacks_store user.store_id then none else some name
    ]

pub data Login : Type 0 where
  granted : ℕ → Login
  invalid_credentials : Login
  account_locked : Login
