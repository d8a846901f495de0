-- ===== src/AuthService/Sessions.antt =====
-- How long a token is valid.
use cam_protocol.Base.{
  ap, ℕ, ◌+◌, ◌/◌, ◌≡◌, refl, String, false, none, some, List, arith, ltb, if◌then◌else◌, eq_iff,
  Option-cases, inl, inr,
}
use cam_protocol.Errors.{ok, ok-injective}
use cam_protocol.JsMap
use cam_protocol.AuthService.{
  Jwt, IsJwt, AuthRequest, Permission, UserInfo, AuthService, AuthToken, is_revoked, revoke,
  authenticate, validate_token, validate_session, refresh_token, generate_token, parse_expiry,
  add_session, delete_session, invalid, valid, success, payload_of, TokenValidation,
  or_no_permissions,
}
use cam_protocol.AuthService.Cases.{authenticate_cases, refresh_cases}
use cam_protocol.AuthService.Revoked

module _ (j : Jwt) (laws : IsJwt j) where
  open j use {Token, verify, sign}

  -- What a new token is.
  generate_token_lem :
      (s : AuthService j) (user : UserInfo) (ps : List Permission) (uuid : String) (now : ℕ)
      (t : AuthToken j)
      → generate_token j s user ps uuid now ≡ ok t
      → (t.id ≡ uuid)
        × (t.token ≡ sign (payload_of uuid now t.expires_at user ps))
        × (t.permissions ≡ ps)
  unfolding generate_token
  generate_token_lem s user ps uuid now t e = elim (Option-cases (parse_expiry s.token_expiry)) [
    | inl bad ↦ absurd (ground arith)
    | inr (ms, good) ↦
        let issued =
          ok-injective
            (record {
              id = uuid;
              token = sign (payload_of uuid now (now + ms) user ps);
              user_id = user.id;
              expires_at = now + ms;
              permissions = ps;
            })
            t (ground arith) in
        rw (← issued) (refl, refl, refl)
  ]

  validate-issued :
      (s : AuthService j) (user : UserInfo) (ps : List Permission) (now later : ℕ) (t : AuthToken j)
      → t.token ≡ sign (payload_of t.id now t.expires_at user ps)
      → JsMap.get t.id s.active_sessions ≡ some t
      → is_revoked j t.token s.revoked_tokens ≡ false
      → (validate_token j s t.token later).1 ≡ (
          if ltb (later / 1000) (t.expires_at / 1000)
          then valid t (some user) (some ps)
          else invalid "Invalid token" "INVALID_TOKEN")
  unfolding validate_token validate_session
  validate-issued s user ps now later t signed there fresh =
      let p = payload_of t.id now t.expires_at user ps in
      let v : verify t.token later
          ≡ (if ltb (later / 1000) (t.expires_at / 1000) then some p else none) =
        rw signed (laws.verify-sign p later) in
      ground arith

  validate-new :
      (s q : AuthService j) (user : UserInfo) (ps : List Permission) (uuid : String) (now later : ℕ)
      (n : AuthToken j)
      → generate_token j s user ps uuid now ≡ ok n
      → JsMap.get n.id q.active_sessions ≡ some n
      → is_revoked j n.token q.revoked_tokens ≡ false
      → (validate_token j q n.token later).1 ≡ (
          if ltb (later / 1000) (n.expires_at / 1000)
          then valid n (some user) (some ps)
          else invalid "Invalid token" "INVALID_TOKEN")
  validate-new s q user ps uuid now later n g there fresh =
      let (named, signed, _) = generate_token_lem s user ps uuid now n g in
      validate-issued q user ps now later n (rw named signed) there fresh

  -- The token of a successful authentication is valid, for its user with its permissions, until the
  -- second of its expiry, and an invalid token from then on, if it was not revoked and the tokens
  -- behave as documented. So the answer that it has expired is never given for it.
  pub validate-authenticate :
      (s s' : AuthService j) (hash : String → String) (r : AuthRequest)
      (user_uuid token_uuid : String) (now later : ℕ) (t : AuthToken j) (user : UserInfo)
      (ps : List Permission)
      → authenticate j hash s r user_uuid token_uuid now ≡ (s', success t user ps)
      → is_revoked j t.token s.revoked_tokens ≡ false
      → (validate_token j s' t.token later).1 ≡ (
          if ltb (later / 1000) (t.expires_at / 1000)
          then valid t (some user) (some ps)
          else invalid "Invalid token" "INVALID_TOKEN")
  validate-authenticate s s' hash r user_uuid token_uuid now later t user ps e fresh =
      elim (authenticate_cases j s hash r user_uuid token_uuid now) [
        | inl (x, a) ↦ absurd (cc)
        | inr (c, i, n, _, _, g, a) ↦
            let st : add_session j s n ≡ s' = cc in
            let same : n ≡ t = cc in
            let us : i.user_info ≡ user = cc in
            let pp : i.permissions ≡ ps = cc in
            rw (← st, ← same, ← us, ← pp)
              (validate-new s (add_session j s n) i.user_info i.permissions token_uuid now later n g
                (ground (arith, JsMap.get-set n.id n.id n s.active_sessions, eq_iff n.id n.id))
                (rw same fresh))
      ]

  -- After a refresh that succeeds, the old token is revoked, and the new one is valid until the second
  -- of its expiry, if it was not revoked before and is another token than the old one.
  pub validate-refresh :
      (s s' : AuthService j) (old : Token) (uuid : String) (now later : ℕ) (t : AuthToken j)
      (user : UserInfo) (ps : List Permission)
      → refresh_token j s old uuid now ≡ (s', success t user ps)
      → is_revoked j t.token (revoke j old s.revoked_tokens) ≡ false
      → ((validate_token j s' old later).1 ≡ invalid "Token has been revoked" "TOKEN_REVOKED")
        × ((validate_token j s' t.token later).1 ≡ (
            if ltb (later / 1000) (t.expires_at / 1000)
            then valid t (some user) (some ps)
            else invalid "Invalid token" "INVALID_TOKEN"))
  validate-refresh s s' old uuid now later t user ps e fresh =
      elim (refresh_cases j s old uuid now) [
        | inl (x, a) ↦ absurd (cc)
        | inr (o, n, u, q, _, g, a) ↦
            let v = (validate_token j s old now).0 in
            let kept : v.revoked_tokens ≡ s.revoked_tokens =
              Revoked.validate-revoked_tokens j s old now in
            let after : AuthService j = record (add_session j (delete_session j v (some o.id)) n) {
              revoked_tokens = revoke j old v.revoked_tokens;
            } in
            let st : after ≡ s' = cc in
            let same : n ≡ t = cc in
            let us : u ≡ user = cc in
            let pp : or_no_permissions q ≡ ps = cc in
            rw (← st, ← same, ← us, ← pp)
              (
                ap (λ (q : AuthService j × TokenValidation j). q.1)
                    (Revoked.validate-revoked j after old later
                      (Revoked.is_revoked-revoke_self j old v.revoked_tokens)),
                validate-new v after u (or_no_permissions q) uuid now later n g
                    (ground (
                      arith,
                      JsMap.get-set n.id n.id n (delete_session j v (some o.id)).active_sessions,
                      eq_iff n.id n.id,
                    ))
                    (rw (same, kept) fresh),
              )
      ]
