-- ===== src/LicenseManager/Tests.antt =====
-- Runs of the license manager. The keys of the tests are the licenses themselves, and only the
-- licensee is signed.
use Prim.Native.String.{◌++◌}
use cam_protocol.Base.{◌≡◌, refl, none, some, [], ◌∷◌}
use cam_protocol.Errors.{throw, license_error}
use cam_protocol.LicenseManager.{
  LicenseManager, LicenseInfo, Crypto, init, get_edition, get_features, has_feature,
  require_feature, get_required_edition, activate_license, activate_decoded, validate_license,
  generate_license_key, sign_license, license_data, get_license_info, deactivate_license,
  license_after_json, data_after_json, iso_text,
}
use cam_protocol.LicenseManager.Features.{
  pro, community_features, pro_features, enterprise_features,
}
use cam_protocol.LicenseManager.Keys

program : Unit {0}
unfolding init get_edition get_features has_feature require_feature get_required_edition
    activate_license activate_decoded validate_license generate_license_key sign_license
    license_data get_license_info deactivate_license license_after_json data_after_json
    community_features pro_features enterprise_features Keys.run Keys.step
program = tt

abbrev plain : Crypto
plain = record {
  Key = LicenseInfo;
  json = λ d. d.licensee;
  hmac = λ key text. key ++ text;
  encode = λ l. l;
  decode = λ l. some (license_after_json l);
}

abbrev fresh : LicenseManager
fresh = record { current_license = none; secret_key = "s" }

abbrev key : LicenseInfo
unfolding program
key = generate_license_key plain fresh pro "Acme" "a@acme.org" (some 500) none

abbrev licensed : LicenseManager
licensed = record { current_license = some key; secret_key = "s" }

init_test : init (some "") ≡ init none
unfolding program
init_test = refl

late_test : (activate_license plain fresh key 501).1 ≡ throw (license_error "License has expired")
unfolding program
late_test = refl

activate-generate_example :
    let after =
      (activate_license plain fresh
        (generate_license_key plain fresh pro "Acme" "a@acme.org" (some 500) none)
        400).0 in
    (get_edition after ≡ pro)
    × (get_license_info after
        ≡ some (record (license_data pro "Acme" "a@acme.org" (some 500) none) {
          expires_at = some (iso_text 500);
        }))
unfolding program
activate-generate_example =
    Keys.activate-generate plain (λ l. refl) (λ d. refl) fresh fresh pro "Acme" "a@acme.org"
      (some 500) none 400 refl refl

run_signed_example :
    (license_after_json key).signature ≡ plain.hmac "s" (plain.json (license_after_json key).data_)
unfolding program
run_signed_example =
    Keys.run_signed plain fresh (Keys.Call.activates key 501 ∷ Keys.Call.activates key 400 ∷ [])
      (license_after_json key) refl refl
