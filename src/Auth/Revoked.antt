-- ===== src/Auth/Revoked.antt =====
-- A revoked session stays revoked, of apps/api/app/services/auth_service.py.
use sweetops.Base.{
  ℕ, ◌≡◌, refl, Option, none, some, List, [], ◌∷◌, arith, ◌-◌, ◌+◌, leb, map, find, inl, inr,
  Bool-cases, Option-cases,
}
use sweetops.Text.{Text, text_eq, text_eq→eq, is_empty}
use sweetops.Auth.{
  Settings, Primitives, AuthSession, User, Accounts, register_failed_attempt,
  clear_lock_and_mark_login, live_role,
}
use sweetops.Digest.{codes}
use sweetops.Auth.Permissions.{is_operational_role}
use sweetops.Auth.Sessions.{
  has_token, revoke, update_session, revoke_session, revoke_of, revoke_all_sessions, seen, touch,
  is_revoked, create_session, check_password, resolve_user, resolve_found, resolve_session,
}
use sweetops.Auth.Kept.{
  IsRevoked, find-map, map-IsRevoked, revoked_or-some, update-KeepsRevoked, revoke-KeepsRevoked,
  revoke_of-KeepsRevoked, seen-KeepsRevoked,
}

-- What staff and their requests ask for. A login writes in its second half only, over whatever row of
-- the user it has read before.
pub data Step : Type 0 where
  logs_in : ℕ → User → Text → ℕ → Step
  creates : ℕ → Text → Text → Option Text → ℕ → Step
  requests : Option Text → ℕ → Step
  logs_out : ℕ → Text → ℕ → Step
  logs_out_everywhere : ℕ → Text → ℕ → Step

module _ (settings : Settings) (prims : Primitives) where
  abbrev pub step : Step → Accounts → Accounts
  step (logs_in id user password now) acc =
      (check_password settings prims id user password now acc).1
  step (creates user raw_token raw_csrf user_agent now) acc =
      (create_session settings prims user raw_token raw_csrf user_agent now acc).1
  step (requests cookie now) acc = (resolve_session settings prims cookie now acc).1
  step (logs_out id reason now) acc = revoke_session id reason now acc
  step (logs_out_everywhere user reason now) acc = revoke_all_sessions user reason now acc

  abbrev pub run : List Step → Accounts → Accounts
  run [] acc = acc
  run (s ∷ steps) acc = run steps (step s acc)

  revoke_session-IsRevoked :
      (hash : Text) (id : ℕ) (reason : Text) (now : ℕ) (acc : Accounts)
      → IsRevoked hash acc
      → IsRevoked hash (revoke_session id reason now acc)
  unfolding revoke_session
  revoke_session-IsRevoked hash id reason now acc h =
      map-IsRevoked (update_session id (revoke now reason)) hash acc
        (revoke_session id reason now acc)
        (update-KeepsRevoked id (revoke now reason) (revoke-KeepsRevoked now reason)) refl h

  revoke_all-IsRevoked :
      (hash : Text) (user : ℕ) (reason : Text) (now : ℕ) (acc : Accounts)
      → IsRevoked hash acc
      → IsRevoked hash (revoke_all_sessions user reason now acc)
  unfolding revoke_all_sessions
  revoke_all-IsRevoked hash user reason now acc h =
      map-IsRevoked (revoke_of user now reason) hash acc (revoke_all_sessions user reason now acc)
        (revoke_of-KeepsRevoked user now reason) refl h

  touch-IsRevoked :
      (hash : Text) (now : ℕ) (s : AuthSession) (acc : Accounts)
      → IsRevoked hash acc
      → IsRevoked hash (touch settings now s acc)
  unfolding touch
  touch-IsRevoked hash now s acc h =
      elim (Bool-cases (leb settings.session_last_seen_throttle (now - s.last_seen_at))) [
        | inl e ↦ rw e (
            map-IsRevoked (update_session s.id (seen now)) hash acc
              (record acc { sessions = map (update_session s.id (seen now)) acc.sessions })
              (update-KeepsRevoked s.id (seen now) (seen-KeepsRevoked now)) refl h)
        | inr e ↦ rw e h
      ]

  same-IsRevoked :
      (hash : Text) (acc acc' : Accounts)
      → acc'.sessions ≡ acc.sessions
      → IsRevoked hash acc
      → IsRevoked hash acc'
  same-IsRevoked hash acc acc' same (s, mark, here, gone) = (s, mark, rw same here, gone)

  check_password-sessions :
      (id : ℕ) (user : User) (password : Text) (now : ℕ) (acc : Accounts)
      → (check_password settings prims id user password now acc).1.sessions ≡ acc.sessions
  unfolding check_password register_failed_attempt clear_lock_and_mark_login
  check_password-sessions id user password now acc = ground arith

  create_session-IsRevoked :
      (hash : Text) (user : ℕ) (raw raw_csrf : Text) (agent : Option Text) (now : ℕ)
      (acc : Accounts)
      → IsRevoked hash acc
      → IsRevoked hash (create_session settings prims user raw raw_csrf agent now acc).1
  unfolding create_session
  create_session-IsRevoked hash user raw raw_csrf agent now acc (s, mark, here, gone) =
      elim (Option-cases (find (has_token (prims.sha256 raw)) acc.sessions)) [
        | inr (t, e) ↦ rw (e, create_session) (s, mark, here, gone)
        | inl e ↦ elim (Bool-cases (text_eq (prims.sha256 raw) hash)) [
          | inl f ↦
              let same : prims.sha256 raw ≡ hash = text_eq→eq (prims.sha256 raw) hash f in
              absurd (let w = rw same at e in cc)
          | inr f ↦ rw (e, create_session) (s, mark, rw f here, gone)
        ]
      ]

  resolve_user-IsRevoked :
      (hash : Text) (s : AuthSession) (now : ℕ) (acc : Accounts)
      → IsRevoked hash acc
      → IsRevoked hash (resolve_user settings prims s now acc).1
  unfolding resolve_user live_role
  resolve_user-IsRevoked hash s now acc h = elim (Option-cases (acc.users s.user_id)) [
    | inl e ↦ rw (e, resolve_user) h
    | inr (u, e) ↦ elim (Bool-cases u.is_active) [
      | inr off ↦ rw (e, resolve_user) (rw off h)
      | inl on ↦ elim (Option-cases (live_role (is_operational_role prims.upper) acc u)) [
        | inl f ↦ rw (e, resolve_user) (rw (on, f) h)
        | inr (role, f) ↦ rw (e, resolve_user) (rw (on, f) (touch-IsRevoked hash now s acc h))
      ]
    ]
  ]

  resolve_found-IsRevoked :
      (hash : Text) (s : AuthSession) (now : ℕ) (acc : Accounts)
      → IsRevoked hash acc
      → IsRevoked hash (resolve_found settings prims s now acc).1
  unfolding resolve_found
  resolve_found-IsRevoked hash s now acc h = elim (Bool-cases (is_revoked s.revoked)) [
    | inl a ↦ rw a h
    | inr a ↦ elim (Bool-cases (leb s.expires_at now)) [
      | inl b ↦ rw (a, b) h
      | inr b ↦ elim (Bool-cases (leb (s.last_seen_at + settings.session_idle_timeout) now)) [
        | inl c ↦ rw (a, b, c) (revoke_session-IsRevoked hash s.id (codes "idle_timeout") now acc h)
        | inr c ↦ rw (a, b, c) (resolve_user-IsRevoked hash s now acc h)
      ]
    ]
  ]

  resolve_session-IsRevoked :
      (hash : Text) (cookie : Option Text) (now : ℕ) (acc : Accounts)
      → IsRevoked hash acc
      → IsRevoked hash (resolve_session settings prims cookie now acc).1
  unfolding resolve_session
  resolve_session-IsRevoked hash none now acc h = h
  resolve_session-IsRevoked hash (some raw) now acc h = elim (Bool-cases (is_empty raw)) [
    | inl e ↦ rw (e, resolve_session) h
    | inr e ↦ elim (Option-cases (find (has_token (prims.sha256 raw)) acc.sessions)) [
      | inl f ↦ rw (e, f, resolve_session) h
      | inr (s, f) ↦ rw (e, f, resolve_session) (resolve_found-IsRevoked hash s now acc h)
    ]
  ]

  step-IsRevoked :
      (s : Step) (hash : Text) (acc : Accounts) → IsRevoked hash acc → IsRevoked hash (step s acc)
  step-IsRevoked (logs_in id user password now) hash acc =
      same-IsRevoked hash acc (step (logs_in id user password now) acc)
        (check_password-sessions id user password now acc)
  step-IsRevoked (creates user raw raw_csrf agent now) hash acc =
      create_session-IsRevoked hash user raw raw_csrf agent now acc
  step-IsRevoked (requests cookie now) hash acc = resolve_session-IsRevoked hash cookie now acc
  step-IsRevoked (logs_out id reason now) hash acc = revoke_session-IsRevoked hash id reason now acc
  step-IsRevoked (logs_out_everywhere user reason now) hash acc =
      revoke_all-IsRevoked hash user reason now acc

  run-IsRevoked :
      (steps : List Step) (hash : Text) (acc : Accounts)
      → IsRevoked hash acc
      → IsRevoked hash (run steps acc)
  run-IsRevoked [] hash acc h = h
  run-IsRevoked (s ∷ steps) hash acc h =
      run-IsRevoked steps hash (step s acc) (step-IsRevoked s hash acc h)

  resolve-revoked :
      (raw : Text) (now : ℕ) (acc : Accounts)
      → IsRevoked (prims.sha256 raw) acc
      → resolve_session settings prims (some raw) now acc ≡ (none, acc)
  unfolding resolve_session resolve_found
  resolve-revoked raw now acc (s, mark, here, gone) = elim (Bool-cases (is_empty raw)) [
    | inl e ↦ rw (e, resolve_session) refl
    | inr e ↦ rw (e, here, resolve_session) (rw gone refl)
  ]

  -- A session that its user's logout everywhere, or its own logout, has met never resolves again:
  -- whatever logins, new sessions, requests and logouts follow, its token gets no staff member, and
  -- asking changes nothing.
  pub logged_out-run :
      (raw : Text) (s : AuthSession) (reason : Text) (out : ℕ) (steps : List Step) (now : ℕ)
      (acc : Accounts)
      → find (has_token (prims.sha256 raw)) acc.sessions ≡ some s
      → (resolve_session settings prims
            (some raw)
            now
            (run steps (revoke_all_sessions s.user_id reason out acc))
          ≡ (none, run steps (revoke_all_sessions s.user_id reason out acc)))
        × (resolve_session settings prims
              (some raw)
              now
              (run steps (revoke_session s.id reason out acc))
            ≡ (none, run steps (revoke_session s.id reason out acc)))
  unfolding revoke_all_sessions revoke_session
  logged_out-run raw s reason out steps now acc here =
      let hash = prims.sha256 raw in
      let (mark, marked) = revoked_or-some s.revoked (out, reason) in
      let all : IsRevoked hash (revoke_all_sessions s.user_id reason out acc) = (
        revoke_of s.user_id out reason s,
        mark,
        find-map (revoke_of s.user_id out reason) hash s acc.sessions
            ((revoke_of-KeepsRevoked s.user_id out reason).token) here,
        ground (arith, marked),
      ) in
      let one : IsRevoked hash (revoke_session s.id reason out acc) = (
        update_session s.id (revoke out reason) s,
        mark,
        find-map (update_session s.id (revoke out reason)) hash s acc.sessions
            ((update-KeepsRevoked s.id (revoke out reason) (revoke-KeepsRevoked out reason)).token)
            here,
        ground (arith, marked),
      ) in
      (
        resolve-revoked raw now _ (run-IsRevoked steps hash _ all),
        resolve-revoked raw now _ (run-IsRevoked steps hash _ one),
      )
