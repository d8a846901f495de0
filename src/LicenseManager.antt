-- ===== src/LicenseManager.antt =====
-- The license manager: src/licensing/license-manager.ts, class `LicenseManager`. A license key is the
-- base64 text of the JSON of a license; its text, the text that is signed and the HMAC are the
-- parameter `c`. The tables of the features stand in LicenseManager/Features.antt.
pub mod Features
mod Gating
mod Keys
mod Tests
use cam_protocol.Base.{
  ℕ, ◌≡◌, String, Bool, true, false, Option, none, some, ltb, str_eq, if◌then◌else◌,
}
use Prim.Native.String.{◌++◌}
use cam_protocol.Errors.{Thrown, license_error, runtime_error, Result, ok, throw}
use cam_protocol.JsText.{truthy, text_or}
use Features.{
  Edition, community, pro, enterprise, EditionFeatures, Feature, feature_of, feature_text,
  edition_text, community_features, pro_features, enterprise_features,
}

-- A date, by its time in milliseconds: a `Date`, or the ISO text that JSON makes of one.
pub data Expiry : Type 0 where
  date iso_text : ℕ → Expiry

-- The time of `new Date(expiresAt)`.
abbrev pub time_of : Expiry → ℕ
time_of (date t) = t
time_of (iso_text t) = t

-- `Omit<LicenseInfo, "signature">`. No expiry is a perpetual license.
pub record LicenseData : Type 0 where
  pub edition : Edition
  pub licensee : String
  pub email : String
  pub expires_at : Option Expiry
  pub max_users : Option ℕ
  pub features : EditionFeatures

pub record LicenseInfo : Type 0 where
  pub data_ : LicenseData
  pub signature : String

-- What `JSON.parse(JSON.stringify(...))` makes of a date, and of a license: every other field is a
-- text, a number, a Boolean or `null`, and stays.
abbrev pub expiry_after_json : Option Expiry → Option Expiry
expiry_after_json none = none
expiry_after_json (some e) = some (iso_text (time_of e))

unfoldable pub data_after_json : LicenseData → LicenseData
data_after_json d = record d { expires_at = expiry_after_json d.expires_at }

unfoldable pub license_after_json : LicenseInfo → LicenseInfo
unfolding data_after_json
license_after_json l = record l { data_ = data_after_json l.data_ }

-- JSON, base64 and the HMAC, with the texts that serve as license keys. `decode` is `none` where a key
-- is malformed.
pub record Crypto : Type 1 where
  pub Key : Type 0
  pub json : LicenseData → String
  pub hmac : String → String → String
  pub encode : LicenseInfo → Key
  pub decode : Key → Option LicenseInfo

pub record LicenseManager : Type 0 where
  pub current_license : Option LicenseInfo
  pub secret_key : String

-- Called with the environment's `CAM_LICENSE_SECRET`.
unfoldable pub init : Option String → Result LicenseManager
init secret = elim (truthy secret) [
  | none ↦ throw runtime_error
  | some key ↦ ok (record { current_license = none; secret_key = key })
]

unfoldable pub get_edition : LicenseManager → Edition
get_edition m = elim m.current_license [ none ↦ community | some l ↦ l.data_.edition ]

abbrev pub features_of : Edition → EditionFeatures
features_of enterprise = enterprise_features
features_of pro = pro_features
features_of community = community_features

unfoldable pub get_features : LicenseManager → EditionFeatures
get_features m = features_of (get_edition m)

unfoldable pub has_feature : LicenseManager → Feature → Bool
unfolding get_features
has_feature m f = feature_of (get_features m) f

unfoldable pub get_required_edition : Feature → Edition
get_required_edition f =
    if feature_of community_features f
    then community
    else if feature_of pro_features f
    then pro
    else enterprise

abbrev pub not_available : LicenseManager → Feature → Option String → Thrown
not_available m f name = license_error (
    "Feature \""
    ++ text_or name (feature_text f)
    ++ "\" requires "
    ++ edition_text (get_required_edition f)
    ++ " edition. Current edition: "
    ++ edition_text (get_edition m)
    ++ ". Upgrade at https://cam-protocol.dev/pricing")

unfoldable pub require_feature : LicenseManager → Feature → Option String → Result (Unit {0})
require_feature m f name = if has_feature m f then ok tt else throw (not_available m f name)

unfoldable pub deactivate_license : LicenseManager → LicenseManager
deactivate_license m = record m { current_license = none }

unfoldable pub get_license_info : LicenseManager → Option LicenseData
get_license_info m = elim m.current_license [ none ↦ none | some l ↦ some l.data_ ]

-- `expiresAt && new Date(expiresAt) < new Date()`.
abbrev pub is_past : ℕ → Option Expiry → Bool
is_past now none = false
is_past now (some e) = ltb (time_of e) now

abbrev pub dated : Option ℕ → Option Expiry
dated none = none
dated (some t) = some (date t)

unfoldable pub license_data : Edition → String → String → Option ℕ → Option ℕ → LicenseData
license_data edition licensee email expires_at max_users = record {
  edition = edition;
  licensee = licensee;
  email = email;
  expires_at = dated expires_at;
  max_users = max_users;
  features = features_of edition;
}

module _ (c : Crypto) where
  unfoldable pub sign_license : LicenseManager → LicenseData → String
  sign_license m d = c.hmac m.secret_key (c.json d)

  unfoldable pub validate_license : LicenseManager → LicenseInfo → Bool
  unfolding sign_license
  validate_license m l = str_eq l.signature (sign_license m l.data_)

  -- What `activateLicense` does with a key that it could decode.
  unfoldable pub activate_decoded :
      LicenseManager → LicenseInfo → ℕ → LicenseManager × Result LicenseInfo
  unfolding validate_license
  activate_decoded m l now =
      if validate_license m l
      then if is_past now l.data_.expires_at
        then (m, throw (license_error "License has expired"))
        else (record m { current_license = some l }, ok l)
      else (m, throw (license_error "Invalid license signature"))

  unfoldable pub activate_license : LicenseManager → c.Key → ℕ → LicenseManager × Result LicenseInfo
  activate_license m key now = elim (c.decode key) [
    | none ↦ (m, throw (license_error "Invalid license key format"))
    | some l ↦ activate_decoded m l now
  ]

  unfoldable pub generate_license_key :
      LicenseManager → Edition → String → String → Option ℕ → Option ℕ → c.Key
  unfolding sign_license license_data
  generate_license_key m edition licensee email expires_at max_users =
      let d = license_data edition licensee email expires_at max_users in
      c.encode (record { data_ = d; signature = sign_license m d })
