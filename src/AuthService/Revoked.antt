-- ===== src/AuthService/Revoked.antt =====
-- Revocation: what it ends, and that it lasts.
use cam_protocol.Base.{
  ℕ, ◌≡◌, ◌≢◌, refl, String, true, false, none, some, List, [], ◌∷◌, ◌++◌, arith, eq_iff,
  Option-cases, inl, inr,
}
use cam_protocol.JsMap
use cam_protocol.AuthService.Cases.{authenticate_cases, refresh_cases}
use cam_protocol.AuthService.{
  Jwt, Payload, AuthRequest, AuthService, is_revoked, revoke, authenticate, validate_token,
  validate_session, refresh_token, revoke_token, has_permission, cleanup_expired_sessions, jti_of,
  invalid,
}

module _ (j : Jwt) where
  open j use {Token, token_eq, verify, decode}

  is_revoked_mono :
      (t u : Token) (ts : List Token)
      → is_revoked j t ts ≡ true
      → is_revoked j t (ts ++ u ∷ []) ≡ true
  unfolding is_revoked
  is_revoked_mono t u [] h = cc
  is_revoked_mono t u (v ∷ ts) h =
      elim (token_eq v t)
          as (λ d.
            elim d [ yes p ↦ true | no p ↦ is_revoked j t ts ] ≡ true
            → elim d [ yes p ↦ true | no p ↦ is_revoked j t (ts ++ u ∷ []) ] ≡ true) [
              | yes p ↦ λ k. refl
              | no p ↦ λ k. is_revoked_mono t u ts k
            ]
        h

  is_revoked_added : (t : Token) (ts : List Token) → is_revoked j t (ts ++ t ∷ []) ≡ true
  unfolding is_revoked
  is_revoked_added t [] = ground arith
  is_revoked_added t (v ∷ ts) = ground (arith, is_revoked_added t ts)

  pub is_revoked-revoke :
      (t u : Token) (ts : List Token)
      → is_revoked j t ts ≡ true
      → is_revoked j t (revoke j u ts) ≡ true
  unfolding revoke
  is_revoked-revoke t u ts h = ground (arith, is_revoked_mono t u ts)

  pub is_revoked-revoke_self : (t : Token) (ts : List Token) → is_revoked j t (revoke j t ts) ≡ true
  unfolding revoke
  is_revoked-revoke_self t ts = ground (arith, is_revoked_added t ts)

  is_revoked-append_ne :
      (t u : Token) (ts : List Token)
      → u ≢ t
      → is_revoked j t ts ≡ false
      → is_revoked j t (ts ++ u ∷ []) ≡ false
  unfolding is_revoked
  is_revoked-append_ne t u [] h e = ground arith
  is_revoked-append_ne t u (v ∷ ts) h e = ground (arith, is_revoked-append_ne t u ts h)

  -- To revoke one token revokes no other.
  pub is_revoked-revoke_ne :
      (t u : Token) (ts : List Token)
      → u ≢ t
      → is_revoked j t ts ≡ false
      → is_revoked j t (revoke j u ts) ≡ false
  unfolding revoke
  is_revoked-revoke_ne t u ts h e = ground (arith, is_revoked-append_ne t u ts h)

  pub validate-revoked_tokens :
      (s : AuthService j) (t : Token) (now : ℕ)
      → (validate_token j s t now).0.revoked_tokens ≡ s.revoked_tokens
  unfolding validate_token validate_session
  validate-revoked_tokens s t now = ground arith

  pub validate-revoked :
      (s : AuthService j) (t : Token) (now : ℕ)
      → is_revoked j t s.revoked_tokens ≡ true
      → validate_token j s t now ≡ (s, invalid "Token has been revoked" "TOKEN_REVOKED")
  unfolding validate_token
  validate-revoked s t now h = rw (h, validate_token)

  -- The methods that a client can call, with their arguments; `shutdown` is not one.
  pub data Call : Type 0 where
    authenticates : AuthRequest → String → String → ℕ → Call
    validates : Token → ℕ → Call
    refreshes : Token → String → ℕ → Call
    revokes : Token → Call
    asks_permission : Token → String → ℕ → Call
    cleans : ℕ → Call

  module _ (hash : String → String) where
    unfoldable pub step : AuthService j → Call → AuthService j
    step s (authenticates r user_uuid token_uuid now) =
        (authenticate j hash s r user_uuid token_uuid now).0
    step s (validates t now) = (validate_token j s t now).0
    step s (refreshes t uuid now) = (refresh_token j s t uuid now).0
    step s (revokes t) = (revoke_token j s t).0
    step s (asks_permission t required now) = (has_permission j s t required now).0
    step s (cleans now) = cleanup_expired_sessions j s now

    unfoldable pub run : AuthService j → List Call → AuthService j
    run s [] = s
    run s (c ∷ cs) = run (step s c) cs

    step-is_revoked :
        (t : Token) (s : AuthService j) (c : Call)
        → is_revoked j t s.revoked_tokens ≡ true
        → is_revoked j t (step s c).revoked_tokens ≡ true
    unfolding step revoke_token has_permission cleanup_expired_sessions
    step-is_revoked t s (authenticates r user_uuid token_uuid now) h =
        elim (authenticate_cases j s hash r user_uuid token_uuid now) [
          | inl (e, a) ↦ rw (a, step) h
          | inr (c, i, n, _, _, _, a) ↦ rw (a, step) h
        ]
    step-is_revoked t s (validates u now) h = rw (validate-revoked_tokens s u now) h
    step-is_revoked t s (refreshes u uuid now) h =
        let k : is_revoked j t (validate_token j s u now).0.revoked_tokens ≡ true =
          rw (validate-revoked_tokens s u now) h in
        elim (refresh_cases j s u uuid now) [
          | inl (e, a) ↦ rw (a, step) k
          | inr (old, new, user, ps, _, _, a) ↦ rw (a, step) (is_revoked-revoke t u _ k)
        ]
    step-is_revoked t s (revokes u) h = elim (Option-cases (jti_of (decode u))) [
      | inl e ↦ rw (e, step, revoke_token) h
      | inr (id, e) ↦ rw (e, step, revoke_token) (is_revoked-revoke t u s.revoked_tokens h)
    ]
    step-is_revoked t s (asks_permission u required now) h = rw (validate-revoked_tokens s u now) h
    step-is_revoked t s (cleans now) h = h

    run-is_revoked :
        (t : Token) (s : AuthService j) (cs : List Call)
        → is_revoked j t s.revoked_tokens ≡ true
        → is_revoked j t (run s cs).revoked_tokens ≡ true
    unfolding run
    run-is_revoked t s [] h = h
    run-is_revoked t s (c ∷ cs) h = run-is_revoked t (step s c) cs (step-is_revoked t s c h)

    -- A token that carries an id and was handed to `revokeToken` is never valid again, nor has it any
    -- permission: not after any later calls but a shutdown, which forgets the revoked tokens, and at
    -- no time.
    pub revoked_for_good :
        (s : AuthService j) (t : Token) (id : String) (cs : List Call) (required : String) (now : ℕ)
        → jti_of (decode t) ≡ some id
        → let s' = run (revoke_token j s t).0 cs in
          (validate_token j s' t now ≡ (s', invalid "Token has been revoked" "TOKEN_REVOKED"))
          × ((has_permission j s' t required now).1 ≡ false)
    unfolding validate_token has_permission revoke_token
    revoked_for_good s t id cs required now e =
        let s₁ = (revoke_token j s t).0 in
        let first : is_revoked j t s₁.revoked_tokens ≡ true =
          rw (e, revoke_token) (is_revoked-revoke_self t s.revoked_tokens) in
        let last = run-is_revoked t s₁ cs first in
        (rw (last, validate_token), rw (last, has_permission, validate_token))

  -- `revokeToken` does not verify the token: one that carries the id of a session, whatever its
  -- signature, ends that session, so that the session's own token is refused.
  pub revoke_unverified :
      (s : AuthService j) (forged own : Token) (id : String) (p : Payload) (now later : ℕ)
      → verify forged now ≡ none
      → jti_of (decode forged) ≡ some id
      → verify own later ≡ some p
      → p.jti ≡ some id
      → is_revoked j own (revoke j forged s.revoked_tokens) ≡ false
      → (validate_token j (revoke_token j s forged).0 own later).1
        ≡ invalid "Session not found" "SESSION_NOT_FOUND"
  unfolding revoke_token validate_token validate_session
  revoke_unverified s forged own id p now later _ named good mine fresh =
      let gone = JsMap.get-delete id id s.active_sessions in ground (arith, gone, eq_iff id id)
