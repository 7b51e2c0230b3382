-- ===== src/Auth/Sessions.antt =====
-- The commands of apps/api/app/services/auth_service.py: authenticate, create_session,
-- resolve_session, revoke_session and revoke_all_sessions. Raw tokens are arguments.
use sweetops.Base.{
  ℕ, suc, ◌+◌, ◌-◌, Bool, true, false, Option, none, some, ◌∷◌, ◌==◌, leb, map, find, if◌then◌else◌,
}
use sweetops.Text.{Text, text_eq, strip, is_empty}
use sweetops.Digest.{codes}
use sweetops.Auth.{
  Settings, Primitives, User, AuthSession, Accounts, Login, granted, invalid_credentials,
  account_locked, is_locked, verify_password, register_failed_attempt, clear_lock_and_mark_login,
  live_role,
}
use sweetops.Auth.Permissions.{is_operational_role}

abbrev pub has_token : Text → AuthSession → Bool
has_token hash session = text_eq session.token_hash hash

-- `_revoke`
abbrev pub revoked_or : Option (ℕ × Text) → ℕ × Text → Option (ℕ × Text)
revoked_or none mark = some mark
revoked_or (some earlier) mark = some earlier

abbrev pub revoke : ℕ → Text → AuthSession → AuthSession
revoke now reason session = record session { revoked = revoked_or session.revoked (now, reason) }

abbrev pub update_session : ℕ → (AuthSession → AuthSession) → AuthSession → AuthSession
update_session id change session = if session.id == id then change session else session

-- `revoke_session`
unfoldable pub revoke_session : ℕ → Text → ℕ → Accounts → Accounts
revoke_session id reason now acc = record acc {
  sessions = map (update_session id (revoke now reason)) acc.sessions;
}

-- `revoke_all_sessions`
abbrev pub revoke_of : ℕ → ℕ → Text → AuthSession → AuthSession
revoke_of user now reason session =
    if session.user_id == user then revoke now reason session else session

unfoldable pub revoke_all_sessions : ℕ → Text → ℕ → Accounts → Accounts
revoke_all_sessions user reason now acc = record acc {
  sessions = map (revoke_of user now reason) acc.sessions;
}

-- The throttled update of `last_seen_at`.
abbrev pub seen : ℕ → AuthSession → AuthSession
seen now session = record session { last_seen_at = now }

unfoldable pub touch : Settings → ℕ → AuthSession → Accounts → Accounts
touch settings now session acc =
    if leb settings.session_last_seen_throttle (now - session.last_seen_at)
    then record acc { sessions = map (update_session session.id (seen now)) acc.sessions }
    else acc

abbrev pub is_revoked : Option (ℕ × Text) → Bool
is_revoked none = false
is_revoked (some _) = true

-- The first half of `authenticate`: an answer at once, or the row that the password is compared with.
-- The row is read without a lock.
pub data Started : Type 0 where
  answered : Login → Started
  compares : ℕ → User → Started

unfoldable pub start_login : (Text → Text) → Text → ℕ → Accounts → Started
start_login lower username now acc = elim (acc.names (lower (strip username))) [
  | none ↦ answered invalid_credentials
  | some id ↦ elim (acc.users id) [
    | none ↦ answered invalid_credentials
    | some user ↦ if is_locked user now then answered account_locked else compares id user
  ]
]

module _ (settings : Settings) (prims : Primitives) where
  -- The second half, over the tables as they are then.
  unfoldable pub check_password : ℕ → User → Text → ℕ → Accounts → Login × Accounts
  check_password id user password now acc =
      if verify_password prims user password
      then if user.is_active
        then elim (live_role (is_operational_role prims.upper) acc user) [
          | none ↦ (invalid_credentials, acc)
          | some _ ↦ (granted id, clear_lock_and_mark_login prims id user password now acc)
        ]
        else (invalid_credentials, acc)
      else (invalid_credentials, register_failed_attempt settings id now acc)

  -- `authenticate`; `race` is what other transactions commit between its halves.
  unfoldable pub authenticate :
      (Accounts → Accounts) → Text → Text → ℕ → Accounts → Login × Accounts
  authenticate race username password now acc = elim (start_login prims.lower username now acc) [
    | answered login ↦ (login, race acc)
    | compares id user ↦ check_password id user password now (race acc)
  ]

  abbrev pub agent_hash : Option Text → Option Text
  agent_hash none = none
  agent_hash (some agent) = if is_empty agent then none else some (prims.sha256 agent)

  -- `create_session`; the hash of a token is unique, and nothing is returned for an IntegrityError.
  unfoldable pub create_session :
      ℕ → Text → Text → Option Text → ℕ → Accounts → Option AuthSession × Accounts
  create_session user raw_token raw_csrf user_agent now acc =
      elim (find (has_token (prims.sha256 raw_token)) acc.sessions) [
        | some _ ↦ (none, acc)
        | none ↦
            let session : AuthSession = record {
              id = acc.next_session_id;
              user_id = user;
              token_hash = prims.sha256 raw_token;
              csrf_token_hash = prims.sha256 raw_csrf;
              expires_at = now + settings.session_absolute_lifetime;
              last_seen_at = now;
              revoked = none;
              user_agent_hash = agent_hash user_agent;
            } in
            (
              some session,
              record acc {
                sessions = session ∷ acc.sessions;
                next_session_id = suc acc.next_session_id;
              },
            )
      ]

  -- `resolve_session`, once the session is found to be live; the session is answered as it was found.
  abbrev pub Resolved : Type 0
  Resolved = Option (AuthSession × User × Text)

  unfoldable pub resolve_user : AuthSession → ℕ → Accounts → Resolved × Accounts
  resolve_user session now acc = elim (acc.users session.user_id) [
    | none ↦ (none, acc)
    | some user ↦
        if user.is_active
        then elim (live_role (is_operational_role prims.upper) acc user) [
          | none ↦ (none, acc)
          | some role ↦ (some (session, user, role), touch settings now session acc)
        ]
        else (none, acc)
  ]

  unfoldable pub resolve_found : AuthSession → ℕ → Accounts → Resolved × Accounts
  resolve_found session now acc =
      if is_revoked session.revoked
      then (none, acc)
      else if leb session.expires_at now
      then (none, acc)
      else if leb (session.last_seen_at + settings.session_idle_timeout) now
      then (none, revoke_session session.id (codes "idle_timeout") now acc)
      else resolve_user session now acc

  unfoldable pub resolve_session : Option Text → ℕ → Accounts → Resolved × Accounts
  resolve_session none now acc = (none, acc)
  resolve_session (some raw_token) now acc = elim (is_empty raw_token) [
    | true ↦ (none, acc)
    | false ↦ elim (find (has_token (prims.sha256 raw_token)) acc.sessions) [
      | none ↦ (none, acc)
      | some session ↦ resolve_found session now acc
    ]
  ]
