-- ===== src/AuthService/Identify.antt =====
-- Who asks: requests and their checks, the four ways to authenticate, and the text of an expiry:
-- src/core/auth-service.ts, the private methods that keep no state, with the types of
-- src/shared/types.ts.
use Prim.Native.String.{◌++◌ as str_append}
use cam_protocol.Base.{
  ℕ, ◌+◌, ◌-◌, ◌*◌, ◌/◌, ◌≡◌, String, Bool, ◌&&◌, ◌||◌, Option, none, some, List, [], ◌∷◌, ltb, leb,
  ◌==◌, str_eq, if◌then◌else◌,
}
use cam_protocol.Errors.{cam_error, Result, ok, throw, ◌>>=◌, ◌>>◌, guard}
use cam_protocol.JsText.{codes, is_prefix, is_truthy, truthy, text_or}

pub record UserInfo : Type 0 where
  pub id : String
  pub name : String
  pub email : String
  pub roles : List String

pub record Permission : Type 0 where
  pub resource : String
  pub actions : List String

pub record Credentials : Type 0 where
  pub api_key : Option String
  pub access_token : Option String
  pub certificate : Option String
  pub session_token : Option String
  pub agent_name : Option String
  pub name : Option String
  pub email : Option String

-- A missing `clientId` or `type` is the empty text: both are falsy.
pub record AuthRequest : Type 0 where
  pub client_id : String
  pub kind : String
  pub credentials : Option Credentials

-- What a token carries. The service reads `decoded` as `any`, so each part may be missing.
pub record Payload : Type 0 where
  pub jti : Option String
  pub iat : ℕ
  pub exp : ℕ
  pub user_info : Option UserInfo
  pub permissions : Option (List Permission)

-- The package jsonwebtoken, with the secret: `sign`, `verify` at a time in milliseconds, and `decode`,
-- which does not check the signature. `none` is a thrown error or a `null`.
pub record Jwt : Type 1 where
  pub Token : Type 0
  pub token_eq : Discrete Token
  pub sign : Payload → Token
  pub verify : Token → ℕ → Option Payload
  pub decode : Token → Option Payload

-- What its documentation says of these: a signed token is verified until the second of its expiry, and
-- decoded to its payload.
pub record IsJwt (j : Jwt) : Type 0 where
  pub verify-sign :
      (p : Payload) (now : ℕ)
      → j.verify (j.sign p) now ≡ (if ltb (now / 1000) p.exp then some p else none)
  pub decode-sign : (p : Payload) → j.decode (j.sign p) ≡ some p

abbrev pub milliseconds : ℕ → ℕ → ℕ
milliseconds value unit =
    if unit == b's'
    then value * 1000
    else (if unit == b'm'
        then value * 60000
        else (if unit == b'h'
            then value * 3600000
            else (if unit == b'd' then value * 86400000 else 86400000)))

abbrev pub is_digit : ℕ → Bool
is_digit c = leb b'0' c && leb c b'9'

-- `parseInt` on a text that starts with a digit or has no number: no sign, no space, no `0x`.
unfoldable pub parse_digits : Option ℕ → List ℕ → Option ℕ
parse_digits acc [] = acc
parse_digits none (c ∷ cs) =
    let rest = parse_digits (some (c - b'0')) cs in if is_digit c then rest else none
parse_digits (some n) (c ∷ cs) =
    let rest = parse_digits (some (n * 10 + (c - b'0'))) cs in if is_digit c then rest else some n

-- `slice(-1)`: the last character of a text, and what stands before it.
unfoldable pub split_last : List ℕ → Option (List ℕ × ℕ)
split_last [] = none
split_last (c ∷ []) = some ([], c)
split_last (c ∷ d ∷ cs) = elim (split_last (d ∷ cs)) [
  | none ↦ none
  | some (front, last) ↦ some (c ∷ front, last)
]

abbrev pub is_unit : ℕ → Bool
is_unit u = u == b's' || u == b'm' || u == b'h' || u == b'd'

-- `none` is `NaN`: a unit with no number before it.
abbrev pub expiry_of : Option (List ℕ × ℕ) → Option ℕ
expiry_of none = some 86400000
expiry_of (some (front, last)) =
    if is_unit last
    then elim (parse_digits none front) [ none ↦ none | some n ↦ some (milliseconds n last) ]
    else some 86400000

unfoldable pub parse_expiry : String → Option ℕ
unfolding parse_digits split_last
parse_expiry expiry = expiry_of (split_last (codes expiry))

unfoldable pub validate_auth_request : AuthRequest → Result Credentials
validate_auth_request r = do
  guard (is_truthy r.client_id) (cam_error "Client ID is required" "MISSING_CLIENT_ID")
  guard (is_truthy r.kind) (cam_error "Authentication type is required" "MISSING_AUTH_TYPE")
  elim r.credentials [
    | none ↦ throw (cam_error "Credentials are required" "MISSING_CREDENTIALS")
    | some c ↦ ok c
  ]

-- A credential that has to be there.
abbrev pub required : Option String → String → String → Result String
required value message code = elim (truthy value) [
  | none ↦ throw (cam_error message code)
  | some v ↦ ok v
]

pub record Identity : Type 0 where
  pub user_info : UserInfo
  pub permissions : List Permission

unfoldable pub authenticate_api_key : (String → String) → String → Credentials → Result Identity
authenticate_api_key hash client_id c = do
  key ← required c.api_key "API key is required" "MISSING_API_KEY"
  guard (is_prefix (codes "cam_") (codes key))
      (cam_error "Invalid API key format" "INVALID_API_KEY")
  ok (record {
    user_info = record {
      id = hash key;
      name = str_append "API User " client_id;
      email = str_append client_id "@api.cam";
      roles = "api_user" ∷ [];
    };
    permissions =
        record { resource = "routing"; actions = "read" ∷ "write" ∷ [] }
        ∷ record { resource = "metrics"; actions = "read" ∷ [] }
        ∷ [];
  })

unfoldable pub authenticate_oauth : String → Credentials → Result Identity
authenticate_oauth uuid c = do
  token ← required c.access_token "OAuth access token is required" "MISSING_ACCESS_TOKEN"
  ok (record {
    user_info = record {
      id = uuid;
      name = text_or c.name "OAuth User";
      email = text_or c.email "oauth@user.com";
      roles = "collaboration_user" ∷ [];
    };
    permissions =
        record { resource = "collaboration"; actions = "read" ∷ "write" ∷ "create" ∷ [] }
        ∷ record { resource = "routing"; actions = "read" ∷ [] }
        ∷ [];
  })

unfoldable pub authenticate_certificate : (String → String) → String → Credentials → Result Identity
authenticate_certificate hash client_id c = do
  certificate ← required c.certificate "Client certificate is required" "MISSING_CERTIFICATE"
  ok (record {
    user_info = record {
      id = hash certificate;
      name = str_append "Certificate User " client_id;
      email = str_append client_id "@cert.cam";
      roles = "enterprise_user" ∷ [];
    };
    permissions = record { resource = "*"; actions = "*" ∷ [] } ∷ [];
  })

unfoldable pub authenticate_collaboration : String → String → Credentials → Result Identity
authenticate_collaboration uuid client_id c = do
  token ← required c.session_token "Collaboration session token is required" "MISSING_SESSION_TOKEN"
  ok (record {
    user_info = record {
      id = uuid;
      name = text_or c.agent_name "Collaboration Agent";
      email = str_append client_id "@collab.cam";
      roles = "agent" ∷ [];
    };
    permissions =
        record { resource = "collaboration"; actions = "read" ∷ "write" ∷ "coordinate" ∷ [] }
        ∷ record { resource = "routing"; actions = "read" ∷ [] }
        ∷ record { resource = "state"; actions = "read" ∷ "write" ∷ [] }
        ∷ [];
  })

-- The `switch` of `authenticate`; `uuid` is the random id of the user, where one is drawn.
unfoldable pub identify : (String → String) → String → AuthRequest → Credentials → Result Identity
identify hash uuid r c =
    if str_eq r.kind "api_key"
    then authenticate_api_key hash r.client_id c
    else (if str_eq r.kind "oauth"
        then authenticate_oauth uuid c
        else (if str_eq r.kind "certificate"
            then authenticate_certificate hash r.client_id c
            else (if str_eq r.kind "collaboration"
                then authenticate_collaboration uuid r.client_id c
                else throw (
                    cam_error (str_append "Unsupported authentication type: " r.kind)
                      "INVALID_AUTH_TYPE"))))
