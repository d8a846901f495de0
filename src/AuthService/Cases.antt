-- ===== src/AuthService/Cases.antt =====
-- The paths of `authenticate` and `refreshToken`.
use cam_protocol.Base.{ℕ, ◌≡◌, ◌⊎◌, refl, String, Option, none, some, List, inl, inr}
use cam_protocol.Errors.{Thrown, cam_error, ok, code_or, Result-cases}
use cam_protocol.AuthService.{
  Jwt, AuthRequest, Permission, UserInfo, Credentials, Identity, AuthService, AuthToken,
  authenticate, validate_auth_request, identify, generate_token, add_session, delete_session,
  revoke, refresh_token, refresh_valid, validate_token, TokenValidation, valid, invalid, success,
  failure, or_no_permissions,
}

module _ (j : Jwt) (s : AuthService j) where
  -- It fails and leaves the state, or passes the three steps and adds the new session.
  pub authenticate_cases :
      (hash : String → String) (r : AuthRequest) (user_uuid token_uuid : String) (now : ℕ)
      → let a = authenticate j hash s r user_uuid token_uuid now in
        ((e : Thrown) × (a ≡ (s, failure e (code_or e "AUTH_FAILED"))))
        ⊎ ((c : Credentials) × (i : Identity) × (t : AuthToken j) × (validate_auth_request r ≡ ok c)
            × (identify hash user_uuid r c ≡ ok i)
            × (generate_token j s i.user_info i.permissions token_uuid now ≡ ok t)
            × (a ≡ (add_session j s t, success t i.user_info i.permissions)))
  unfolding authenticate
  authenticate_cases hash r user_uuid token_uuid now =
      elim (Result-cases (validate_auth_request r)) [
        | inr (e, p) ↦ inl (e, rw p)
        | inl (c, p) ↦ elim (Result-cases (identify hash user_uuid r c)) [
          | inr (e, q) ↦ inl (e, rw (p, q))
          | inl (i, q) ↦
              elim (Result-cases (generate_token j s i.user_info i.permissions token_uuid now)) [
                | inr (e, g) ↦ inl (e, rw (p, q, g))
                | inl (t, g) ↦ inr (c, i, t, p, q, g, rw (p, q, g))
              ]
        ]
      ]

  -- It fails and leaves the state as the validation left it, or the token is valid, and its session
  -- is replaced by the new one.
  pub refresh_cases :
      (t : j.Token) (uuid : String) (now : ℕ)
      → let a = refresh_token j s t uuid now in
        let s' = (validate_token j s t now).0 in
        ((e : Thrown) × (a ≡ (s', failure e (code_or e "REFRESH_FAILED"))))
        ⊎ ((old new : AuthToken j) × (user : UserInfo) × (ps : Option (List Permission))
            × ((validate_token j s t now).1 ≡ valid old (some user) ps)
            × (generate_token j s' user (or_no_permissions ps) uuid now ≡ ok new)
            × (a ≡ (
              record (add_session j (delete_session j s' (some old.id)) new) {
                revoked_tokens = revoke j t s'.revoked_tokens;
              },
              success new user (or_no_permissions ps),
            )))
  unfolding refresh_token refresh_valid
  refresh_cases t uuid now = go (validate_token j s t now).1 refl
    where
      go :
          (v : TokenValidation j)
          → (validate_token j s t now).1 ≡ v
          → let a = refresh_token j s t uuid now in
            let s' = (validate_token j s t now).0 in
            ((e : Thrown) × (a ≡ (s', failure e (code_or e "REFRESH_FAILED"))))
            ⊎ ((old new : AuthToken j) × (user : UserInfo) × (ps : Option (List Permission))
                × ((validate_token j s t now).1 ≡ valid old (some user) ps)
                × (generate_token j s' user (or_no_permissions ps) uuid now ≡ ok new)
                × (a ≡ (
                  record (add_session j (delete_session j s' (some old.id)) new) {
                    revoked_tokens = revoke j t s'.revoked_tokens;
                  },
                  success new user (or_no_permissions ps),
                )))
      go (invalid m c) e =
          inl (cam_error "Cannot refresh invalid token" "INVALID_TOKEN", rw (e, refresh_valid))
      go (valid old none ps) e =
          inl (cam_error "Cannot refresh invalid token" "INVALID_TOKEN", rw (e, refresh_valid))
      go (valid old (some user) ps) e =
          elim (Result-cases
            (generate_token j (validate_token j s t now).0 user (or_no_permissions ps) uuid now)) [
              | inr (x, g) ↦ inl (x, rw (e, refresh_valid, g))
              | inl (new, g) ↦ inr (old, new, user, ps, e, g, rw (e, refresh_valid, g))
            ]
