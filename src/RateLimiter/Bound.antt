-- ===== src/RateLimiter/Bound.antt =====
-- The histories of a rate limiter whose configuration stays, and the bound on what they grant.
use cam_protocol.Base.{
  ℕ, ◌≤◌, ◌<◌, ◌≡◌, ◌≢◌, refl, sym, ap, String, Bool, true, false, Option, none, some, List, [],
  ◌∷◌, ◌++◌, arith, str_eq, if◌then◌else◌, length, filter, eq_iff, Bool-cases, inl, inr,
}
use cam_protocol.JsMap
use cam_protocol.JsMap.{JsMap}
use cam_protocol.JsText.{truthy}
use cam_protocol.RateLimiter.Window.{SlidingWindowEntry, is_live}
use cam_protocol.RateLimiter.{
  RateLimiter, RateLimitConfig, Tier, init, user_limit, provider_limit, check_limit, cleanup,
  push_timestamp,
}
use cam_protocol.RateLimiter.Recorded.{
  used, get-get_or_create_window, recorded-get_or_create_window, filter-is_live_later, recorded,
}
use cam_protocol.RateLimiter.Tracks.{
  Tracks, Tracks-later, Tracks-slide, Tracks-clean, Tracks-ext, Tracks-push,
}
use cam_protocol.RateLimiter.Outcome.{
  blocked_user, granted_user, blocked_provider, granted_both, check_limit-Outcome, slid_windows,
}

-- A request that was let through.
pub record Grant : Type 0 where
  pub user : String
  pub provider : Option String
  pub at : ℕ

-- When a user's requests were let through.
unfoldable pub user_times : String → List Grant → List ℕ
user_times u [] = []
user_times u (g ∷ log) = if str_eq g.user u then g.at ∷ user_times u log else user_times u log

is_for : String → Option String → Bool
is_for p none = false
is_for p (some q) = str_eq q p

-- When requests for a provider were let through.
unfoldable pub provider_times : String → List Grant → List ℕ
unfolding is_for
provider_times p [] = []
provider_times p (g ∷ log) =
    if is_for p g.provider then g.at ∷ provider_times p log else provider_times p log

-- The log after a request.
abbrev pub note : List Grant → String → Option String → ℕ → Bool → List Grant
note log u p now true = log ++ record { user = u; provider = truthy p; at = now } ∷ []
note log u p now false = log

-- The states that a limiter reaches, the requests that it let through, and the time of the last
-- event. The clock does not run backwards.
pub data Reach (c : RateLimitConfig) (test : Bool) : RateLimiter → List Grant → ℕ → Type 0 where
  start : (t : ℕ) → Reach c test (init c test) [] t
  check :
      {s : RateLimiter} {log : List Grant} {t : ℕ}
      → Reach c test s log t
      → (u : String) (p : Option String) (tier : Option Tier) (now : ℕ) → t ≤ now
      → Reach c test
          (check_limit s u p tier now).0
          (note log u p now (check_limit s u p tier now).1.allowed)
          now
  clean :
      {s : RateLimiter} {log : List Grant} {t : ℕ}
      → Reach c test s log t
      → (now : ℕ) → t ≤ now
      → Reach c test (cleanup s now) log now

user_times-note :
    (log : List Grant) (g : Grant) (u : String)
    → user_times u (log ++ g ∷ [])
      ≡ (if str_eq g.user u then user_times g.user log ++ g.at ∷ [] else user_times u log)
unfolding user_times
user_times-note [] g u = ground arith
user_times-note (h ∷ log) g u =
    ground (arith, user_times-note log g u, eq_iff g.user u, eq_iff h.user u, eq_iff h.user g.user)

provider_times-some :
    (log : List Grant) (u p q : String) (now : ℕ)
    → provider_times q (log ++ record { user = u; provider = some p; at = now } ∷ [])
      ≡ (if str_eq p q then provider_times p log ++ now ∷ [] else provider_times q log)
unfolding provider_times
provider_times-some [] u p q now = ground arith
provider_times-some (h ∷ log) u p q now = elim (Bool-cases (str_eq p q)) [
  | inl e ↦
      ground
        (arith, provider_times-some log u p q now, ap (λ x. is_for x h.provider) ((eq_iff p q).0 e))
  | inr e ↦ ground (arith, provider_times-some log u p q now)
]

provider_times-none :
    (log : List Grant) (u q : String) (now : ℕ)
    → provider_times q (log ++ record { user = u; provider = none; at = now } ∷ [])
      ≡ provider_times q log
unfolding provider_times
provider_times-none [] u q now = refl
provider_times-none (h ∷ log) u q now = ground (arith, provider_times-none log u q now)

used-slid :
    (m : JsMap SlidingWindowEntry) (k : String) (now : ℕ)
    → used (slid_windows m k now) k now ≡ used m k now
used-slid m k now = ground (
  arith,
  recorded-get_or_create_window m k k now,
  eq_iff k k,
  filter-is_live_later now now (recorded m k),
)

slid-there :
    (m : JsMap SlidingWindowEntry) (k : String) (now : ℕ)
    → JsMap.get k (slid_windows m k now) ≢ none
slid-there m k now e = cc (get-get_or_create_window m k now)

-- The windows of the users and of the providers both track the log. `m` bounds every user's limit.
record Inv (c : RateLimitConfig) (m : ℕ) (s : RateLimiter) (log : List Grant) (t : ℕ) : Type 0 where
  same : s.config ≡ c
  users : Tracks s.user_windows t (λ u. user_times u log) (λ _. m)
  providers : Tracks s.provider_windows t (λ p. provider_times p log) (provider_limit c)

module _ (c : RateLimitConfig) (m : ℕ) (on : c.enabled ≡ true)
    (cap : (tier : Option Tier) → user_limit c tier ≤ m) where
  module _ {s : RateLimiter} {log : List Grant} (u : String) (p : Option String)
      (tier : Option Tier) (now : ℕ) (v : Inv c m s log now) where
    user_pushed :
        used s.user_windows u now < user_limit s.config tier
        → Tracks
            (push_timestamp (slid_windows s.user_windows u now) u now)
            now
            (λ j. if str_eq u j then user_times u log ++ now ∷ [] else user_times j log)
            (λ _. m)
    user_pushed room =
        Tracks-push u now (slid-there s.user_windows u now)
          (omega
            (arith, used-slid s.user_windows u now, cap tier, ap (λ k. user_limit k tier) v.same))
          (Tracks-slide u now v.users)

    provider_pushed :
        (q : String)
        → used s.provider_windows q now < provider_limit s.config q
        → Tracks
            (push_timestamp (slid_windows s.provider_windows q now) q now)
            now
            (λ j. if str_eq q j then provider_times q log ++ now ∷ [] else provider_times j log)
            (provider_limit c)
    provider_pushed q room =
        Tracks-push q now (slid-there s.provider_windows q now)
          (omega (arith, used-slid s.provider_windows q now, ap (λ k. provider_limit k q) v.same))
          (Tracks-slide q now v.providers)

    check-Inv :
        Inv c m
          (check_limit s u p tier now).0
          (note log u p now (check_limit s u p tier now).1.allowed)
          now
    check-Inv = elim (check_limit-Outcome s u p tier now (rw v.same on)) [
      | blocked_user full a e ↦
          rw (a, e)
            (record { same = v.same; users = Tracks-slide u now v.users; providers = v.providers })
      | granted_user room alone a e ↦
          rw (a, e)
            (record {
              same = v.same;
              users = Tracks-ext now (λ j. sym (user_times-note log _ j)) (user_pushed room);
              providers =
                  Tracks-ext now (λ j. rw alone (sym (provider_times-none log u j now)))
                    v.providers;
            })
      | blocked_provider q room named full a e ↦
          rw (a, e)
            (record {
              same = v.same;
              users = Tracks-slide u now v.users;
              providers = Tracks-slide q now v.providers;
            })
      | granted_both q room named free a e ↦
          rw (a, e)
            (record {
              same = v.same;
              users = Tracks-ext now (λ j. sym (user_times-note log _ j)) (user_pushed room);
              providers =
                  Tracks-ext now (λ j. rw named (sym (provider_times-some log u q j now)))
                    (provider_pushed q free);
            })
    ]

  Inv-later :
      {s : RateLimiter} {log : List Grant} (t now : ℕ)
      → t ≤ now
      → Inv c m s log t
      → Inv c m s log now
  Inv-later t now h v = record {
    same = v.same;
    users = Tracks-later t now h v.users;
    providers = Tracks-later t now h v.providers;
  }

  Reach-Inv :
      {test : Bool} {s : RateLimiter} {log : List Grant} {t : ℕ}
      → Reach c test s log t
      → Inv c m s log t
  unfolding init user_times provider_times cleanup JsMap.get
  Reach-Inv (start t) = record {
    same = refl;
    users = record { unique = tt; agree = λ k. refl; within = λ k. omega arith };
    providers = record { unique = tt; agree = λ k. refl; within = λ k. omega arith };
  }
  Reach-Inv (check {t = t} r u p tier now h) =
      check-Inv u p tier now (Inv-later t now h (Reach-Inv r))
  Reach-Inv (clean {t = t} r now h) =
      let v = Inv-later t now h (Reach-Inv r) in
      record {
        same = v.same;
        users = Tracks-clean now v.users;
        providers = Tracks-clean now v.providers;
      }

  -- In any history of an enabled limiter whose configuration stays, with requests and cleanups in
  -- any order under a clock that does not run backwards, the requests that were let through within
  -- the last window are at most `m` for each user, where no tier's limit is above `m`, and at most
  -- the provider's limit for each provider.
  pub Reach-within :
      {test : Bool} {s : RateLimiter} {log : List Grant} {t : ℕ}
      → Reach c test s log t
      → (u p : String)
      → (length (filter (is_live t) (user_times u log)) ≤ m)
        × (length (filter (is_live t) (provider_times p log)) ≤ provider_limit c p)
  Reach-within r u p = ((Reach-Inv r).users.within u, (Reach-Inv r).providers.within p)
