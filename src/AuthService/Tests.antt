-- ===== src/AuthService/Tests.antt =====
-- Runs of the authentication service. The tokens of the tests are their payloads.
use cam_protocol.Base.{
  ◌/◌, ◌≡◌, ◌≢◌, ap, refl, String, false, none, some, List, [], ◌∷◌, arith, ltb, str_eq,
  if◌then◌else◌, eq_iff, Bool-cases, inl, inr, ℕ_discrete,
}
use cam_protocol.Errors.{cam_error}
use cam_protocol.JsMap
use cam_protocol.JsText.{is_prefix}
use cam_protocol.AuthService.{
  Jwt, IsJwt, Payload, AuthRequest, Permission, UserInfo, AuthService, AuthToken, init, is_revoked,
  revoke, authenticate, validate_token, validate_session, refresh_token, refresh_valid,
  generate_token, parse_expiry, identify, validate_auth_request, authenticate_api_key,
  has_permission, revoke_token, grants, valid, invalid, success, failure, payload_of,
}
use cam_protocol.AuthService.Revoked
use cam_protocol.AuthService.Sessions
use cam_protocol.AuthService.Access

String-discrete : Discrete String
String-discrete s t = elim (Bool-cases (str_eq s t)) [
  | inl e ↦ yes ((eq_iff s t).0 e)
  | inr e ↦ no (λ p. ground (arith, eq_iff s t))
]

Payload-discrete : Discrete Payload
Payload-discrete = hlevel (ℕ_discrete, String-discrete)

abbrev plain : Jwt
plain = record {
  Token = Payload;
  token_eq = Payload-discrete;
  sign = λ p. p;
  verify = λ p now. if ltb (now / 1000) p.exp then some p else none;
  decode = λ p. some p;
}

plain-IsJwt : IsJwt plain
plain-IsJwt = record { verify-sign = λ p now. refl; decode-sign = λ p. refl }

program : Unit {0}
unfolding init is_revoked revoke authenticate validate_token validate_session refresh_token
    refresh_valid generate_token parse_expiry identify validate_auth_request authenticate_api_key
    has_permission revoke_token grants is_prefix JsMap.get JsMap.set JsMap.delete
program = tt

abbrev start : AuthService plain
start = init plain none

abbrev hash : String → String
hash key = key

abbrev request : AuthRequest
request = record {
  client_id = "ann";
  kind = "api_key";
  credentials = some (record {
    api_key = some "cam_1";
    access_token = none;
    certificate = none;
    session_token = none;
    agent_name = none;
    name = none;
    email = none;
  });
}

abbrev user : UserInfo
user = record {
  id = "cam_1";
  name = "API User ann";
  email = "ann@api.cam";
  roles = "api_user" ∷ [];
}

abbrev permissions : List Permission
permissions =
    record { resource = "routing"; actions = "read" ∷ "write" ∷ [] }
    ∷ record { resource = "metrics"; actions = "read" ∷ [] }
    ∷ []

abbrev token : AuthToken plain
token = record {
  id = "t1";
  token = payload_of "t1" 5000 86405000 user permissions;
  user_id = "cam_1";
  expires_at = 86405000;
  permissions = permissions;
}

abbrev logged_in : AuthService plain
logged_in = record start { active_sessions = ("t1", token) ∷ [] }

authenticate_runs :
    authenticate plain hash start request "u" "t1" 5000
    ≡ (logged_in, success token user permissions)
unfolding program
authenticate_runs = refl

bad_key :
    (authenticate plain hash start (record request { kind = "ldap" }) "u" "t1" 5000).1
    ≡ failure
        (cam_error "Unsupported authentication type: ldap" "INVALID_AUTH_TYPE")
        "INVALID_AUTH_TYPE"
unfolding program
bad_key = refl

expiry_runs : parse_expiry "90m" ≡ some 5400000
unfolding program
expiry_runs = refl

validate-authenticate_example : (validate_token plain logged_in token.token 86404999).1 ≡ (
    if ltb (86404999 / 1000) (86405000 / 1000)
    then valid token (some user) (some permissions)
    else invalid "Invalid token" "INVALID_TOKEN")
unfolding program
validate-authenticate_example =
    Sessions.validate-authenticate plain plain-IsJwt start logged_in hash request "u" "t1" 5000
      86404999 token user permissions refl refl

authenticate-IsLimited_example : Access.IsLimited permissions
unfolding program
authenticate-IsLimited_example =
    Access.authenticate-IsLimited plain start logged_in hash request "u" "t1" 5000 token user
      permissions refl refl

revoked_for_good_example :
    let s' =
      Revoked.run plain hash
        (revoke_token plain logged_in token.token).0
        (Revoked.Call.cleans 9000 ∷ []) in
    (validate_token plain s' token.token 9000
      ≡ (s', invalid "Token has been revoked" "TOKEN_REVOKED"))
    × ((has_permission plain s' token.token "routing" 9000).1 ≡ false)
unfolding program
revoked_for_good_example =
    Revoked.revoked_for_good plain hash logged_in token.token "t1" (Revoked.Call.cleans 9000 ∷ [])
      "routing" 9000 refl

-- A token with the same id, that no verification passes: its time is over.
abbrev forged : Payload
forged = payload_of "t1" 0 1000 user permissions

forged-ne : forged ≢ token.token
forged-ne e = omega (arith, ap (λ (p : Payload). p.exp) e)

revoke_unverified_example :
    (validate_token plain (revoke_token plain logged_in forged).0 token.token 7000).1
    ≡ invalid "Session not found" "SESSION_NOT_FOUND"
unfolding program
revoke_unverified_example =
    Revoked.revoke_unverified plain logged_in forged token.token "t1" token.token 6000 7000 refl
      refl refl refl (Revoked.is_revoked-revoke_ne plain token.token forged [] forged-ne refl)

abbrev renewed : AuthToken plain
renewed = record {
  id = "t2";
  token = payload_of "t2" 9000 86409000 user permissions;
  user_id = "cam_1";
  expires_at = 86409000;
  permissions = permissions;
}

abbrev refreshed : AuthService plain
refreshed = record start {
  active_sessions = ("t2", renewed) ∷ [];
  revoked_tokens = token.token ∷ [];
}

token-ne : token.token ≢ renewed.token
token-ne e = omega (arith, ap (λ (p : Payload). p.exp) e)
