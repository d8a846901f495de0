-- ===== src/LicenseManager/Keys.antt =====
-- The license keys: what activates, and what stays in force.
use cam_protocol.Base.{
  ℕ, ◌≡◌, ◌⊎◌, refl, String, false, Option, none, some, List, [], ◌∷◌, arith, str_eq, eq_iff,
  Bool-cases, Option-cases, inl, inr,
}
use cam_protocol.Errors.{license_error, ok, throw}
use cam_protocol.LicenseManager.{
  LicenseInfo, Crypto, LicenseManager, get_edition, sign_license, validate_license,
  activate_decoded, activate_license, generate_license_key, license_data, deactivate_license,
  is_past, get_license_info, LicenseData, license_after_json, data_after_json, dated, iso_text,
  features_of,
}
use cam_protocol.LicenseManager.Features.{Edition}

some-injective : {A : Type 0} (x y : A) → some x ≡ some y → x ≡ y
some-injective x y e = cc

module _ (c : Crypto) where
  -- A key that was generated activates, in any manager with the same secret and until its expiry, and
  -- gives the edition and the data that it was generated for, but that a date of expiry comes back as
  -- its ISO text. Decoding undoes encoding up to what JSON makes of a license, and JSON writes a date
  -- as it writes its ISO text.
  pub activate-generate :
      ((l : LicenseInfo) → c.decode (c.encode l) ≡ some (license_after_json l))
      → ((d : LicenseData) → c.json (data_after_json d) ≡ c.json d)
      → (m n : LicenseManager) (e : Edition) (licensee email : String)
        (expires_at max_users : Option ℕ) (now : ℕ)
      → m.secret_key ≡ n.secret_key
      → is_past now (dated expires_at) ≡ false
      → let after =
          (activate_license c n
            (generate_license_key c m e licensee email expires_at max_users)
            now).0 in
        (get_edition after ≡ e)
        × (get_license_info after
            ≡ some (record {
              edition = e;
              licensee = licensee;
              email = email;
              expires_at = elim expires_at [ none ↦ none | some t ↦ some (iso_text t) ];
              max_users = max_users;
              features = features_of e;
            }))
  unfolding activate_license activate_decoded validate_license sign_license generate_license_key
      license_data get_edition get_license_info license_after_json data_after_json
  activate-generate round written m n e licensee email expires_at max_users now same fresh =
      let d = license_data e licensee email expires_at max_users in
      let l : LicenseInfo = record { data_ = d; signature = sign_license c m d } in
      elim (Option-cases expires_at) [
        | inl none_ ↦
            ground (arith, round l, written d, eq_iff (sign_license c m d) (sign_license c n d))
        | inr (t, some_) ↦
            ground (arith, round l, written d, eq_iff (sign_license c m d) (sign_license c n d))
      ]

  activate_decoded_cases :
      (m : LicenseManager) (l : LicenseInfo) (now : ℕ)
      → ((l.signature ≡ sign_license c m l.data_)
          × (is_past now l.data_.expires_at ≡ false)
          × (activate_decoded c m l now ≡ (record m { current_license = some l }, ok l)))
        ⊎ ((message : String) × (activate_decoded c m l now ≡ (m, throw (license_error message))))
  unfolding activate_decoded validate_license
  activate_decoded_cases m l now =
      elim (Bool-cases (str_eq l.signature (sign_license c m l.data_))) [
        | inr forged ↦ inr ("Invalid license signature", ground arith)
        | inl signed ↦ elim (Bool-cases (is_past now l.data_.expires_at)) [
          | inl past ↦ inr ("License has expired", ground arith)
          | inr fresh ↦
              inl ((eq_iff l.signature (sign_license c m l.data_)).0 signed, fresh, ground arith)
        ]
      ]

  -- Whatever is tried as a key, it is either refused with a `LicenseError` and changes nothing, or it
  -- decodes to a license with the signature of the secret that has not expired, and that license is
  -- then in force.
  pub activate_license_cases :
      (m : LicenseManager) (key : c.Key) (now : ℕ)
      → ((l : LicenseInfo) × (c.decode key ≡ some l)
          × (l.signature ≡ sign_license c m l.data_)
          × (is_past now l.data_.expires_at ≡ false)
          × (activate_license c m key now ≡ (record m { current_license = some l }, ok l)))
        ⊎ ((message : String) × (activate_license c m key now ≡ (m, throw (license_error message))))
  unfolding activate_license
  activate_license_cases m key now = elim (Option-cases (c.decode key)) [
    | inl e ↦ inr ("Invalid license key format", rw (e, activate_license) refl)
    | inr (l, e) ↦ elim (activate_decoded_cases m l now) [
      | inl (s, p, a) ↦ inl (l, e, s, p, rw (e, activate_license) a)
      | inr (text, a) ↦ inr (text, rw (e, activate_license) a)
    ]
  ]

  pub data Call : Type 0 where
    activates : c.Key → ℕ → Call
    deactivates : Call

  unfoldable pub step : LicenseManager → Call → LicenseManager
  step m (activates key now) = (activate_license c m key now).0
  step m deactivates = deactivate_license m

  unfoldable pub run : LicenseManager → List Call → LicenseManager
  run m [] = m
  run m (x ∷ xs) = run (step m x) xs

  -- The manager has the secret `key`, and its license, where it has one, carries a signature of it.
  abbrev IsSigned : String → LicenseManager → Type 0
  IsSigned key m =
      (m.secret_key ≡ key)
      × ((l : LicenseInfo) → m.current_license ≡ some l → l.signature ≡ c.hmac key (c.json l.data_))

  step-IsSigned :
      (key : String) (m : LicenseManager) (x : Call) → IsSigned key m → IsSigned key (step m x)
  unfolding step deactivate_license sign_license
  step-IsSigned key m deactivates (k, h) = (k, λ l e. cc)
  step-IsSigned key m (activates text now) (k, h) = elim (activate_license_cases m text now) [
    | inl (l, _, s, _, a) ↦ rw (a, step) (k, λ l' e. rw (← some-injective l l' e, ← k) s)
    | inr (_, a) ↦ rw (a, step) (k, h)
  ]

  run-IsSigned :
      (key : String) (m : LicenseManager) (xs : List Call)
      → IsSigned key m
      → IsSigned key (run m xs)
  unfolding run
  run-IsSigned key m [] h = h
  run-IsSigned key m (x ∷ xs) h = run-IsSigned key (step m x) xs (step-IsSigned key m x h)

  -- A license that is in force in a manager that started with none carries the signature of the
  -- manager's secret, whatever texts were tried as keys before, and whatever was deactivated.
  pub run_signed :
      (m : LicenseManager) (xs : List Call) (l : LicenseInfo)
      → m.current_license ≡ none
      → (run m xs).current_license ≡ some l
      → l.signature ≡ c.hmac m.secret_key (c.json l.data_)
  run_signed m xs l start e = (run-IsSigned m.secret_key m xs (refl, λ k f. cc)).1 l e
