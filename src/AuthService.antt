-- ===== src/AuthService.antt =====
-- The authentication service: src/core/auth-service.ts, class `AuthenticationService`. JSON web tokens
-- (the package jsonwebtoken with the secret) are the parameter `Jwt`, the hash of a key (SHA-256, its
-- first 16 hex digits) the parameter `hash`. The clock in milliseconds and the random UUIDs are
-- arguments; ISO texts stand for their times. Logging has no effect on these.
pub mod Identify
mod Cases
mod Revoked
mod Sessions
mod Access
mod Tests
unfoldable pub use Identify.*
use cam_protocol.Base.{
  ℕ, ◌+◌, ◌/◌, String, Bool, true, false, not, ◌||◌, Option, none, some, List, [], ◌∷◌, ◌++◌, ltb,
  str_eq, if◌then◌else◌,
}
use cam_protocol.Errors.{Thrown, cam_error, runtime_error, Result, ok, throw, ◌>>=◌, ◌>>◌, code_or}
use cam_protocol.JsMap
use cam_protocol.JsMap.{JsMap}
use cam_protocol.JsText.{codes, is_prefix, truthy, text_or}

-- `permissions.some(…)` of `hasPermission`.
unfoldable pub grants : String → List Permission → Bool
grants required [] = false
grants required (p ∷ ps) =
    str_eq p.resource required
    || str_eq p.resource "*"
    || is_prefix (codes p.resource) (codes required)
    || grants required ps

abbrev pub or_no_permissions : Option (List Permission) → List Permission
or_no_permissions none = []
or_no_permissions (some ps) = ps

abbrev pub jti_of : Option Payload → Option String
jti_of none = none
jti_of (some p) = truthy p.jti

abbrev pub payload_of : String → ℕ → ℕ → UserInfo → List Permission → Payload
payload_of uuid now expires user permissions = record {
  jti = some uuid;
  iat = now / 1000;
  exp = expires / 1000;
  user_info = some user;
  permissions = some permissions;
}

module _ (j : Jwt) where
  open j use {Token, token_eq, sign, verify, decode}

  pub record AuthToken : Type 0 where
    pub id : String
    pub token : Token
    pub user_id : String
    pub expires_at : ℕ
    pub permissions : List Permission

  pub record AuthService : Type 0 where
    pub token_expiry : String
    pub active_sessions : JsMap AuthToken
    pub revoked_tokens : List Token

  -- `revokedTokens.has(token)`.
  unfoldable pub is_revoked : Token → List Token → Bool
  is_revoked t [] = false
  is_revoked t (u ∷ ts) = elim (token_eq u t) [ yes p ↦ true | no p ↦ is_revoked t ts ]

  -- `revokedTokens.add(token)`.
  unfoldable pub revoke : Token → List Token → List Token
  unfolding is_revoked
  revoke t ts = if is_revoked t ts then ts else ts ++ t ∷ []

  unfoldable pub init : Option String → AuthService
  init expiry = record {
    token_expiry = text_or expiry "24h";
    active_sessions = [];
    revoked_tokens = [];
  }

  -- With an expiry that is not a number the date is invalid, and an error is thrown.
  unfoldable pub generate_token :
      AuthService → UserInfo → List Permission → String → ℕ → Result AuthToken
  generate_token s user permissions uuid now = elim (parse_expiry s.token_expiry) [
    | none ↦ throw runtime_error
    | some ms ↦ ok (record {
      id = uuid;
      token = sign (payload_of uuid now (now + ms) user permissions);
      user_id = user.id;
      expires_at = now + ms;
      permissions = permissions;
    })
  ]

  pub data AuthResponse : Type 0 where
    success : AuthToken → UserInfo → List Permission → AuthResponse
    failure : Thrown → String → AuthResponse

  -- The `try` and the `catch` of `authenticate` and `refreshToken`: an error leaves the state.
  abbrev pub respond :
      AuthService → String → Result (AuthService × AuthResponse) → AuthService × AuthResponse
  respond s code (ok done) = done
  respond s code (throw e) = (s, failure e (code_or e code))

  abbrev pub add_session : AuthService → AuthToken → AuthService
  add_session s t = record s { active_sessions = JsMap.set t.id t s.active_sessions }

  unfoldable pub authenticate :
      (String → String)
      → AuthService
      → AuthRequest
      → String
      → String
      → ℕ
      → AuthService × AuthResponse
  authenticate hash s r user_uuid token_uuid now = respond s "AUTH_FAILED" (do
    c ← validate_auth_request r
    identity ← identify hash user_uuid r c
    token ← generate_token s identity.user_info identity.permissions token_uuid now
    ok (add_session s token, success token identity.user_info identity.permissions))

  pub data TokenValidation : Type 0 where
    valid : AuthToken → Option UserInfo → Option (List Permission) → TokenValidation
    invalid : String → String → TokenValidation

  -- `activeSessions.get(jti)`, where a missing `jti` finds nothing.
  abbrev pub session_of : AuthService → Option String → Option AuthToken
  session_of s none = none
  session_of s (some id) = JsMap.get id s.active_sessions

  abbrev pub delete_session : AuthService → Option String → AuthService
  delete_session s none = s
  delete_session s (some id) = record s { active_sessions = JsMap.delete id s.active_sessions }

  -- What follows the look-up of the session.
  unfoldable pub validate_session :
      AuthService → Payload → Option AuthToken → ℕ → AuthService × TokenValidation
  validate_session s p none now = (s, invalid "Session not found" "SESSION_NOT_FOUND")
  validate_session s p (some session) now =
      if ltb session.expires_at now
      then (delete_session s p.jti, invalid "Token has expired" "TOKEN_EXPIRED")
      else (s, valid session p.user_info p.permissions)

  unfoldable pub validate_token : AuthService → Token → ℕ → AuthService × TokenValidation
  validate_token s t now =
      if is_revoked t s.revoked_tokens
      then (s, invalid "Token has been revoked" "TOKEN_REVOKED")
      else elim (verify t now) [
        | none ↦ (s, invalid "Invalid token" "INVALID_TOKEN")
        | some p ↦ validate_session s p (session_of s p.jti) now
      ]

  -- What `refreshToken` does with the result of the validation, in the state that this left.
  unfoldable pub refresh_valid :
      AuthService → Token → TokenValidation → String → ℕ → Result (AuthService × AuthResponse)
  refresh_valid s t (invalid message code) uuid now =
      throw (cam_error "Cannot refresh invalid token" "INVALID_TOKEN")
  refresh_valid s t (valid old none permissions) uuid now =
      throw (cam_error "Cannot refresh invalid token" "INVALID_TOKEN")
  refresh_valid s t (valid old (some user) permissions) uuid now = do
    token ← generate_token s user (or_no_permissions permissions) uuid now
    let moved = add_session (delete_session s (some old.id)) token
    ok (
      record moved { revoked_tokens = revoke t moved.revoked_tokens },
      success token user (or_no_permissions permissions),
    )

  unfoldable pub refresh_token : AuthService → Token → String → ℕ → AuthService × AuthResponse
  refresh_token s t uuid now =
      let (s', validation) = validate_token s t now in
      respond s' "REFRESH_FAILED" (refresh_valid s' t validation uuid now)

  unfoldable pub revoke_token : AuthService → Token → AuthService × Bool
  revoke_token s t = elim (jti_of (decode t)) [
    | none ↦ (s, false)
    | some id ↦
        (record (delete_session s (some id)) { revoked_tokens = revoke t s.revoked_tokens }, true)
  ]

  abbrev pub permitted : String → TokenValidation → Bool
  permitted required (invalid message code) = false
  permitted required (valid session user none) = false
  permitted required (valid session user (some ps)) = grants required ps

  unfoldable pub has_permission : AuthService → Token → String → ℕ → AuthService × Bool
  has_permission s t required now =
      let (s', validation) = validate_token s t now in (s', permitted required validation)

  unfoldable pub get_active_sessions_count : AuthService → ℕ
  get_active_sessions_count s = JsMap.size s.active_sessions

  unfoldable pub cleanup_expired_sessions : AuthService → ℕ → AuthService
  cleanup_expired_sessions s now = record s {
    active_sessions = JsMap.reject (λ t. ltb t.expires_at now) s.active_sessions;
  }

  unfoldable pub shutdown : AuthService → AuthService
  shutdown s = record s { active_sessions = []; revoked_tokens = [] }
