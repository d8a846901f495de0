-- ===== src/AuthService/Access.antt =====
-- Which permissions a client can come by.
use cam_protocol.Base.{
  ℕ, ◌≡◌, subst, String, false, none, some, List, arith, str_eq, if◌then◌else◌, All, inl, inr,
  if_both, ltb,
}
use cam_protocol.Errors.{Result, ok}
use cam_protocol.JsMap
use cam_protocol.JsMap.{IsUnique}
use cam_protocol.AuthService.{
  Jwt, AuthRequest, Credentials, Identity, Permission, UserInfo, AuthService, AuthToken,
  authenticate, identify, authenticate_api_key, authenticate_oauth, authenticate_collaboration,
  success, cleanup_expired_sessions,
}
use cam_protocol.AuthService.Cases.{authenticate_cases}

abbrev pub IsLimited : List Permission → Type 0
IsLimited = All (λ p. str_eq p.resource "*" ≡ false)

api_key-IsLimited :
    (hash : String → String) (client : String) (c : Credentials) (i : Identity)
    → authenticate_api_key hash client c ≡ ok i
    → IsLimited i.permissions
unfolding authenticate_api_key
api_key-IsLimited hash client c i e = ground arith

oauth-IsLimited :
    (uuid : String) (c : Credentials) (i : Identity)
    → authenticate_oauth uuid c ≡ ok i
    → IsLimited i.permissions
unfolding authenticate_oauth
oauth-IsLimited uuid c i e = ground arith

collaboration-IsLimited :
    (uuid client : String) (c : Credentials) (i : Identity)
    → authenticate_collaboration uuid client c ≡ ok i
    → IsLimited i.permissions
unfolding authenticate_collaboration
collaboration-IsLimited uuid client c i e = ground arith

identify-IsLimited :
    (hash : String → String) (uuid : String) (r : AuthRequest) (c : Credentials) (i : Identity)
    → str_eq r.kind "certificate" ≡ false
    → identify hash uuid r c ≡ ok i
    → IsLimited i.permissions
unfolding identify
identify-IsLimited hash uuid r c i other =
    if_both Limited (str_eq r.kind "api_key") (λ _. api_key-IsLimited hash r.client_id c i)
      (λ _.
        if_both Limited (str_eq r.kind "oauth") (λ _. oauth-IsLimited uuid c i)
          (λ _.
            if_both Limited (str_eq r.kind "certificate") (λ e. absurd (cc))
              (λ _.
                if_both Limited (str_eq r.kind "collaboration")
                  (λ _. collaboration-IsLimited uuid r.client_id c i) (λ _ e. absurd (cc)))))
  where
    Limited : Result Identity → Type 0
    Limited m = m ≡ ok i → IsLimited i.permissions

module _ (j : Jwt) where
  -- Full access, the resource "*", comes with a client certificate only: a successful authentication
  -- of any other kind gives no permission for it.
  pub authenticate-IsLimited :
      (s s' : AuthService j) (hash : String → String) (r : AuthRequest)
      (user_uuid token_uuid : String) (now : ℕ) (t : AuthToken j) (user : UserInfo)
      (ps : List Permission)
      → str_eq r.kind "certificate" ≡ false
      → authenticate j hash s r user_uuid token_uuid now ≡ (s', success t user ps)
      → IsLimited ps
  authenticate-IsLimited s s' hash r user_uuid token_uuid now t user ps other e =
      elim (authenticate_cases j s hash r user_uuid token_uuid now) [
        | inl (x, a) ↦ absurd (cc)
        | inr (c, i, n, _, q, _, a) ↦
            let pp : i.permissions ≡ ps = cc in
            subst IsLimited pp (identify-IsLimited hash user_uuid r c i other q)
      ]

  -- The cleanup ends exactly the sessions whose time is over. Each id stands once.
  pub cleanup_expired_sessions_lem :
      (s : AuthService j) (id : String) (now : ℕ)
      → IsUnique s.active_sessions
      → JsMap.get id (cleanup_expired_sessions j s now).active_sessions
        ≡ elim (JsMap.get id s.active_sessions) [
          | none ↦ none
          | some t ↦ if ltb t.expires_at now then none else some t
        ]
  unfolding cleanup_expired_sessions
  cleanup_expired_sessions_lem s id now u =
      JsMap.get-reject (λ t. ltb t.expires_at now) id s.active_sessions u
