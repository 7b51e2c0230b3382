-- ===== src/Auth/Authorised.antt =====
-- What a request must hold to pass require_permission of apps/api/app/core/deps.py.
use mathlib.Core.Path.{subst}
use sweetops.Base.{
  ap, sym, ◌>>=◌, ℕ, ◌+◌, ◌<◌, ◌≡◌, refl, true, false, Option, none, some, List, arith, leb, find,
  inl, inr, Bool-cases, Option-cases, ok, >>=-eq-ok,
}
use sweetops.Text.{Text, text_eq, is_empty, text_eq→eq}
use sweetops.Auth.{Settings, Primitives, User, AuthSession, Accounts, live_role}
use sweetops.Auth.Permissions.{elem, is_operational_role, permissions_for_role}
use sweetops.Auth.Sessions.{
  has_token, is_revoked, Resolved, resolve_user, resolve_found, resolve_session,
}
use sweetops.Auth.Guard.{
  CurrentStaff, Request, is_state_changing, enforce_origin, enforce_csrf, build_context, staff_of,
  enforce_state_changing, check_staff, require_permission,
}

module _ (settings : Settings) (prims : Primitives) where
  -- A session that a request may use, by the rows as they are.
  pub record IsLive (cookie : Option Text) (now : ℕ) (acc : Accounts) (s : AuthSession) (u : User)
      (role : Text) : Type 0 where
    pub raw : Text
    pub carried : cookie ≡ some raw
    pub found : find (has_token (prims.sha256 raw)) acc.sessions ≡ some s
    pub not_revoked : s.revoked ≡ none
    pub not_expired : now < s.expires_at
    pub not_idle : now < s.last_seen_at + settings.session_idle_timeout
    pub owner : acc.users s.user_id ≡ some u
    pub active : u.is_active ≡ true
    pub employed : live_role (is_operational_role prims.upper) acc u ≡ some role

  module _ (cookie : Option Text) (raw : Text) (carried : cookie ≡ some raw) (now : ℕ)
      (acc acc' : Accounts) (s s' : AuthSession) (u : User) (role : Text)
      (found : find (has_token (prims.sha256 raw)) acc.sessions ≡ some s) where
    resolve_user-IsLive :
        s.revoked ≡ none
        → now < s.expires_at
        → now < s.last_seen_at + settings.session_idle_timeout
        → resolve_user settings prims s now acc ≡ (some (s', u, role), acc')
        → IsLive cookie now acc s' u role
    unfolding resolve_user
    resolve_user-IsLive a b c h = elim (Option-cases (acc.users s.user_id)) [
      | inl e ↦ absurd (ground arith)
      | inr (v, e) ↦ elim (Bool-cases v.is_active) [
        | inr off ↦ absurd (ground arith)
        | inl on ↦ elim (Option-cases (live_role (is_operational_role prims.upper) acc v)) [
          | inl f ↦ absurd (ground arith)
          | inr (r, f) ↦
              let same_s : s ≡ s' = ground arith in
              let same_u : v ≡ u = ground arith in
              let same_r : r ≡ role = ground arith in
              subst (λ x. IsLive cookie now acc x u role) same_s
                (subst (λ x. IsLive cookie now acc s x role) same_u
                  (subst (λ x. IsLive cookie now acc s v x) same_r
                    (record {
                      raw = raw;
                      carried = carried;
                      found = found;
                      not_revoked = a;
                      not_expired = b;
                      not_idle = c;
                      owner = e;
                      active = on;
                      employed = f;
                    })))
        ]
      ]
    ]

    not_revoked_of : (r : Option (ℕ × Text)) → is_revoked r ≡ false → r ≡ none
    not_revoked_of none h = refl
    not_revoked_of (some _) h = cc

    resolve_found-IsLive :
        resolve_found settings prims s now acc ≡ (some (s', u, role), acc')
        → IsLive cookie now acc s' u role
    unfolding resolve_found
    resolve_found-IsLive h = elim (Bool-cases (is_revoked s.revoked)) [
      | inl e ↦ absurd (ground arith)
      | inr a ↦ elim (Bool-cases (leb s.expires_at now)) [
        | inl e ↦ absurd (ground arith)
        | inr b ↦ elim (Bool-cases (leb (s.last_seen_at + settings.session_idle_timeout) now)) [
          | inl e ↦ absurd (ground arith)
          | inr c ↦
              resolve_user-IsLive (not_revoked_of s.revoked a) (ground arith) (ground arith)
                (rw (a, b, c) at h)
        ]
      ]
    ]

  resolve_session-IsLive :
      (cookie : Option Text) (now : ℕ) (acc acc' : Accounts) (s : AuthSession) (u : User)
      (role : Text)
      → resolve_session settings prims cookie now acc ≡ (some (s, u, role), acc')
      → IsLive cookie now acc s u role
  unfolding resolve_session
  resolve_session-IsLive none now acc acc' s u role h = absurd (ground arith)
  resolve_session-IsLive (some raw) now acc acc' s u role h = elim (Bool-cases (is_empty raw)) [
    | inl e ↦ absurd (let w = rw (e, resolve_session) at h in ground (arith, w))
    | inr full ↦ elim (Option-cases (find (has_token (prims.sha256 raw)) acc.sessions)) [
      | inl e ↦ absurd (let w = rw (full, e, resolve_session) at h in ground (arith, w))
      | inr (t, e) ↦
          resolve_found-IsLive (some raw) raw refl now acc acc' t s u role e
            (rw (full, e, resolve_session) at h)
    ]
  ]

  -- A staff member whom the request may act for.
  pub record IsAuthorised (permission : Text) (req : Request) (acc : Accounts)
      (staff : CurrentStaff) : Type 0 where
    pub session : AuthSession
    pub user : User
    pub role : Text
    pub live : IsLive req.session_cookie req.now acc session user role
    pub context : staff ≡ build_context settings prims session user role
    pub permitted : elem permission (permissions_for_role prims.upper role) ≡ true
    pub same_origin :
        is_state_changing req.method ≡ true
        → (origin : Text) → req.origin ≡ some origin
        → elem origin settings.staff_origins ≡ true
    pub same_site :
        is_state_changing req.method ≡ true
        → (header : Text) × (req.csrf_header ≡ some header)
          × (prims.sha256 header ≡ session.csrf_token_hash)

  enforce_origin-elem :
      (trusted : List Text) (given referer : Option Text) (origin : Text)
      → enforce_origin trusted given referer ≡ ok tt
      → given ≡ some origin
      → elem origin trusted ≡ true
  unfolding enforce_origin
  enforce_origin-elem trusted none referer origin h e = cc
  enforce_origin-elem trusted (some given) referer origin h e =
      let same : given ≡ origin = ground arith in
      elim (Bool-cases (elem given trusted)) [
        | inl known ↦ subst (λ o. elem o trusted ≡ true) same known
        | inr unknown ↦ absurd (ground arith)
      ]

  enforce_csrf-same :
      (header : Option Text) (hash : Text)
      → enforce_csrf prims.sha256 header hash ≡ ok tt
      → (raw : Text) × (header ≡ some raw) × (prims.sha256 raw ≡ hash)
  unfolding enforce_csrf
  enforce_csrf-same none hash h = absurd (cc)
  enforce_csrf-same (some raw) hash h = elim (Bool-cases (text_eq (prims.sha256 raw) hash)) [
    | inl e ↦ (raw, refl, text_eq→eq (prims.sha256 raw) hash e)
    | inr e ↦ absurd (ground arith)
  ]

  check_staff-protected :
      (permission : Text) (req : Request) (staff given : CurrentStaff)
      → check_staff settings prims permission req given ≡ ok staff
      → (given ≡ staff)
        × (elem permission given.permissions ≡ true)
        × (enforce_state_changing settings prims req given ≡ ok tt)
  unfolding check_staff
  check_staff-protected permission req staff given h =
      let (_, checked, h) = >>=-eq-ok (enforce_state_changing settings prims req given) _ h in
      elim (Bool-cases (elem permission given.permissions)) [
        | inl e ↦ (ground arith, e, checked)
        | inr e ↦ absurd (ground arith)
      ]

  state_changing-checks :
      (req : Request) (staff : CurrentStaff)
      → enforce_state_changing settings prims req staff ≡ ok tt
      → is_state_changing req.method ≡ true
      → (enforce_origin settings.staff_origins req.origin req.referer ≡ ok tt)
        × (enforce_csrf prims.sha256 req.csrf_header staff.csrf_token_hash ≡ ok tt)
  unfolding enforce_state_changing
  state_changing-checks req staff h e =
      let (_, origin, csrf) =
        >>=-eq-ok (enforce_origin settings.staff_origins req.origin req.referer)
          (λ _. enforce_csrf prims.sha256 req.csrf_header staff.csrf_token_hash) (rw e at h) in
      (origin, csrf)

  -- A request passes require_permission only with a session that is found by its cookie's hash, is
  -- not revoked, expired or idle, and whose user is active and has a role, with a store where the
  -- role needs one, by the rows as they are then; the role has the permission; and when the method
  -- changes state, an Origin header is a trusted one and the CSRF header hashes to the session's.
  pub require_permission-IsAuthorised :
      (permission : Text) (req : Request) (acc acc' : Accounts) (staff : CurrentStaff)
      → require_permission settings prims permission req acc ≡ (ok staff, acc')
      → IsAuthorised permission req acc staff
  unfolding require_permission
  require_permission-IsAuthorised permission req acc acc' staff h =
      go (resolve_session settings prims req.session_cookie req.now acc) refl (ap (λ p. p.0) h)
    where
      go :
          (r : Resolved settings prims × Accounts)
          → resolve_session settings prims req.session_cookie req.now acc ≡ r
          → (staff_of settings prims r.0 >>= check_staff settings prims permission req) ≡ ok staff
          → IsAuthorised permission req acc staff
      go (none, _) e w = absurd (ground arith)
      go (some (session, user, role), after) e w =
          let given = build_context settings prims session user role in
          let (same, may, checked) = check_staff-protected permission req staff given w in
          record {
            session = session;
            user = user;
            role = role;
            live = resolve_session-IsLive req.session_cookie req.now acc after session user role e;
            context = sym same;
            permitted = may;
            same_origin = λ changes origin from.
                let (o, _) = state_changing-checks req given checked changes in
                enforce_origin-elem settings.staff_origins req.origin req.referer origin o from;
            same_site = λ changes.
                let (_, c) = state_changing-checks req given checked changes in
                enforce_csrf-same req.csrf_header session.csrf_token_hash c;
          }
