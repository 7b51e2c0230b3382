-- ===== src/Auth/Guard.antt =====
-- The dependency that protects every staff endpoint, of apps/api/app/core/deps.py:
-- require_permission, with the session, the origin and the CSRF token.
use sweetops.Base.{
  ℕ, Bool, true, false, not, ◌&&◌, ◌||◌, ◌==◌, Option, none, some, List, [], ◌∷◌, if◌then◌else◌,
  Result, ok, err, http, raise_if, unauthorized, forbidden, origin_rejected, csrf_invalid, ◌>>=◌,
  ◌>>◌,
}
use sweetops.Text.{Text, text_eq, is_empty}
use sweetops.Digest.{codes}
use sweetops.Auth.{Settings, Primitives, User, AuthSession, Accounts}
use sweetops.Auth.Permissions.{elem, permissions_for_role}
use sweetops.Auth.Sessions.{Resolved, resolve_session}

pub record CurrentStaff : Type 0 where
  pub user_id : ℕ
  pub username : Text
  pub role : Text
  pub store_id : Option ℕ
  pub permissions : List Text
  pub session_id : ℕ
  pub csrf_token_hash : Text

-- What the dependency reads of a request.
pub record Request : Type 0 where
  pub method : Text
  pub session_cookie : Option Text
  pub origin : Option Text
  pub referer : Option Text
  pub csrf_header : Option Text
  pub now : ℕ

-- `_STATE_CHANGING`
unfoldable pub is_state_changing : Text → Bool
is_state_changing method =
    elem method (codes "POST" ∷ codes "PUT" ∷ codes "PATCH" ∷ codes "DELETE" ∷ [])

-- `text.startswith(prefix)`
abbrev pub starts_with : Text → Text → Bool
starts_with text [] = true
starts_with [] (c ∷ prefix) = false
starts_with (d ∷ text) (c ∷ prefix) = d == c && starts_with text prefix

abbrev pub any_prefix : Text → List Text → Bool
any_prefix text [] = false
any_prefix text (o ∷ os) = starts_with text o || any_prefix text os

-- `enforce_origin`
unfoldable pub enforce_origin : List Text → Option Text → Option Text → Result (Unit {0})
enforce_origin trusted (some origin) referer =
    raise_if (not (elem origin trusted)) 403 origin_rejected
enforce_origin trusted none (some referer) =
    raise_if (not (any_prefix referer trusted)) 403 origin_rejected
enforce_origin trusted none none = ok tt

-- `enforce_csrf`
unfoldable pub enforce_csrf : (Text → Text) → Option Text → Text → Result (Unit {0})
enforce_csrf sha256 none csrf_token_hash = err (http 403 csrf_invalid)
enforce_csrf sha256 (some header) csrf_token_hash =
    raise_if (is_empty header || not (text_eq (sha256 header) csrf_token_hash)) 403 csrf_invalid

module _ (settings : Settings) (prims : Primitives) where
  -- `build_context`
  abbrev pub build_context : AuthSession → User → Text → CurrentStaff
  build_context session user role = record {
    user_id = session.user_id;
    username = user.username;
    role = role;
    store_id = user.store_id;
    permissions = permissions_for_role prims.upper role;
    session_id = session.id;
    csrf_token_hash = session.csrf_token_hash;
  }

  -- `get_current_staff`
  abbrev pub staff_of : Resolved settings prims → Result CurrentStaff
  staff_of none = err (http 401 unauthorized)
  staff_of (some (session, user, role)) = ok (build_context session user role)

  unfoldable pub enforce_state_changing : Request → CurrentStaff → Result (Unit {0})
  enforce_state_changing req staff =
      if is_state_changing req.method
      then enforce_origin settings.staff_origins req.origin req.referer
        >> enforce_csrf prims.sha256 req.csrf_header staff.csrf_token_hash
      else ok tt

  unfoldable pub check_staff : Text → Request → CurrentStaff → Result CurrentStaff
  check_staff permission req staff = do
    enforce_state_changing req staff
    raise_if (not (elem permission staff.permissions)) 403 forbidden
    ok staff

  -- `require_permission`
  unfoldable pub require_permission : Text → Request → Accounts → Result CurrentStaff × Accounts
  require_permission permission req acc =
      let (resolved, acc') = resolve_session settings prims req.session_cookie req.now acc in
      (staff_of resolved >>= check_staff permission req, acc')
