-- ===== src/Tests/Badge.antt =====
-- A cashier collects with a live session, logs out everywhere, and someone guesses a password.
use sweetops.Base.{
  ℕ, ◌≡◌, refl, ◌<◌, ◌+◌, List, true, false, none, some, [], ◌∷◌, ◌==◌, arith, ok, Result,
  if◌then◌else◌, err,
}
use sweetops.Text.{Text, text_eq, strip}
use sweetops.Digest.{codes}
use sweetops.Auth.{
  Settings, Primitives, User, AuthSession, Accounts, live_role, verify_password,
  register_failed_attempt,
}
use sweetops.Auth.Permissions.{role_permissions, permissions_for_role, is_operational_role}
use sweetops.Auth.Sessions.{
  start_login, check_password, touch, resolve_user, resolve_found, resolve_session, revoke_session,
  revoke_all_sessions,
}
use sweetops.Auth.Guard.{
  CurrentStaff, Request, is_state_changing, enforce_origin, enforce_csrf, enforce_state_changing,
  check_staff, require_permission,
}
use sweetops.Auth.Authorised.{IsAuthorised, require_permission-IsAuthorised}
use sweetops.Auth.Moves.{Move, starts, finishes, tried, AtMost}
use sweetops.Auth.Lockout.{tried-bounded}
use sweetops.Auth.Revoked.{run, requests, creates, logged_out-run}

abbrev site : Text
site = codes "https://kasa.example"

abbrev settings : Settings
settings = record {
  login_max_failed_attempts = 5;
  login_lockout = 900000000;
  session_absolute_lifetime = 43200000000;
  session_idle_timeout = 7200000000;
  session_last_seen_throttle = 300000000;
  staff_origins = site ∷ [];
}

-- Hashes without collisions, and names in lower case.
abbrev prims : Primitives
prims = record {
  argon2_verify = text_eq;
  argon2_check_needs_rehash = λ hash. false;
  argon2_hash = λ password. password;
  sha256 = λ text. text;
  lower = λ text. text;
  upper = λ text. text;
}

abbrev cashier : User
cashier = record {
  username = codes "ayse";
  password_hash = some (codes "correct");
  role_id = 4;
  store_id = some 1;
  is_active = true;
  failed_login_count = 3;
  locked_until = none;
  last_login_at = none;
}

abbrev badge : AuthSession
badge = record {
  id = 2;
  user_id = 9;
  token_hash = codes "token";
  csrf_token_hash = codes "csrf";
  expires_at = 43200000000;
  last_seen_at = 0;
  revoked = none;
  user_agent_hash = none;
}

abbrev accounts : Accounts
accounts = record {
  users = λ id. if id == 9 then some cashier else none;
  names = λ name. if text_eq name (codes "ayse") then some 9 else none;
  roles = λ id. if id == 4 then some (codes "CASHIER") else none;
  sessions = badge ∷ [];
  next_session_id = 3;
}

abbrev collects : Request
collects = record {
  method = codes "POST";
  session_cookie = some (codes "token");
  origin = some site;
  referer = none;
  csrf_header = some (codes "csrf");
  now = 600000000;
}

-- What the check of a request opens.
program : Unit {0}
unfolding require_permission check_staff enforce_state_changing enforce_csrf enforce_origin
    is_state_changing resolve_session resolve_found resolve_user touch live_role is_operational_role
    permissions_for_role role_permissions
program = tt

abbrev nobody : CurrentStaff
nobody = record {
  user_id = 0;
  username = [];
  role = [];
  store_id = none;
  permissions = [];
  session_id = 0;
  csrf_token_hash = [];
}

abbrev read_ok : Result CurrentStaff → CurrentStaff
read_ok (ok staff) = staff
read_ok (err _) = nobody

abbrev checked : Result CurrentStaff × Accounts
checked = require_permission settings prims (codes "payments:collect") collects accounts

run_checked :
    require_permission settings prims (codes "payments:collect") collects accounts
    ≡ (ok (read_ok checked.0), checked.1)
unfolding program
run_checked = refl

require_permission-IsAuthorised_example :
    IsAuthorised settings prims (codes "payments:collect") collects accounts (read_ok checked.0)
require_permission-IsAuthorised_example =
    require_permission-IsAuthorised settings prims (codes "payments:collect") collects accounts
      checked.1 (read_ok checked.0) run_checked

-- Two wrong guesses are left to the account, and two logins read its row before either is counted.
abbrev guess : ℕ → Move
guess t = starts (record { username = codes "ayse"; password = codes "guess"; now = t })

abbrev guesses : List Move
guesses = guess 10 ∷ guess 20 ∷ finishes 0 ∷ finishes 0 ∷ guess 30 ∷ []

-- What the logins of a run open.
logins : Unit {0}
unfolding start_login check_password verify_password register_failed_attempt strip
logins = tt

guesses-few : AtMost settings prims 9 2 guesses accounts []
unfolding logins
guesses-few = (omega arith, (omega arith, (omega arith, (omega arith, (omega arith, omega arith)))))

-- The third guess is refused by the lock.
guesses-tried : tried settings prims 9 guesses accounts [] ≡ 2
unfolding logins
guesses-tried = refl

tried-bounded_example : 3 + tried settings prims 9 guesses accounts [] < 5 + 2
tried-bounded_example =
    tried-bounded settings prims 9 guesses 10 2 cashier accounts refl (omega arith)
      (
        omega arith,
        omega arith,
        (λ e. refl),
        (omega arith, omega arith, (λ e. refl), (omega arith, omega arith, (λ e. refl), tt)),
      )
      guesses-few

logged_out-run_example :
    (resolve_session settings prims (some (codes "token")) 40 (
        run settings prims
          (creates 9 (codes "t2") (codes "c2") none 20 ∷ requests (some (codes "token")) 30 ∷ [])
          (revoke_all_sessions 9 (codes "logout_all") 10 accounts))
      ≡ (
        none,
        run settings prims
            (creates 9 (codes "t2") (codes "c2") none 20 ∷ requests (some (codes "token")) 30 ∷ [])
            (revoke_all_sessions 9 (codes "logout_all") 10 accounts),
      ))
    × (resolve_session settings prims (some (codes "token")) 40 (
          run settings prims
            (creates 9 (codes "t2") (codes "c2") none 20 ∷ requests (some (codes "token")) 30 ∷ [])
            (revoke_session 2 (codes "logout_all") 10 accounts))
        ≡ (
          none,
          run settings prims
              (creates 9 (codes "t2") (codes "c2") none 20
                ∷ requests (some (codes "token")) 30
                ∷ [])
              (revoke_session 2 (codes "logout_all") 10 accounts),
        ))
logged_out-run_example =
    logged_out-run settings prims (codes "token") badge (codes "logout_all") 10
      (creates 9 (codes "t2") (codes "c2") none 20 ∷ requests (some (codes "token")) 30 ∷ []) 40
      accounts refl

-- A Referer of another host that starts like the trusted one passes.
lookalike :
    enforce_origin (site ∷ []) none (some (codes "https://kasa.example.attacker.test/")) ≡ ok tt
unfolding program
lookalike = refl
