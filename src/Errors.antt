-- ===== src/Errors.antt =====
-- Exceptions as values: src/shared/errors.ts. A `CAMError` is kept by its message and its code, a
-- `LicenseError` of src/licensing/license-manager.ts by its message; any other error, thrown by the
-- language or by a library, is `runtime_error`.
use cam_protocol.Base.{◌≡◌, ◌⊎◌, inl, inr, refl, String, Bool, if◌then◌else◌}

pub data Thrown : Type 0 where
  cam_error : String → String → Thrown
  license_error : String → Thrown
  runtime_error : Thrown

pub data Result {ℓ} (A : Type ℓ) : Type ℓ where
  ok : A → Result A
  throw : Thrown → Result A

module _ {ℓ κ} {A : Type ℓ} {B : Type κ} where
  infixl 5 ◌>>=◌ ◌>>◌
  -- The rest of a `try` block runs only where nothing was thrown.
  abbrev pub ◌>>=◌ : Result A → (A → Result B) → Result B
  throw thrown >>= rest = throw thrown
  ok value >>= rest = rest value

  abbrev pub ◌>>◌ : Result A → Result B → Result B
  first >> rest = first >>= (λ value. rest)

-- `if (!b) throw e`.
abbrev pub guard : Bool → Thrown → Result (Unit {0})
guard test thrown = if test then ok tt else throw thrown

-- `error instanceof CAMError ? error.code : code`.
abbrev pub code_or : Thrown → String → String
code_or (cam_error message code) other = code
code_or (license_error message) other = other
code_or runtime_error other = other

pub Result-cases {ℓ} :
    {A : Type ℓ} (m : Result A) → ((a : A) × (m ≡ ok a)) ⊎ ((e : Thrown) × (m ≡ throw e))
Result-cases (ok a) = inl (a, refl)
Result-cases (throw e) = inr (e, refl)

pub ok-injective {ℓ} : {A : Type ℓ} (a b : A) → ok a ≡ ok b → a ≡ b
ok-injective a b e = cc
