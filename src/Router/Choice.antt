-- ===== src/Router/Choice.antt =====
-- The choice of a provider, and which requests are answered.
use cam_protocol.Base.{
  ℕ, ◌+◌, ◌≤◌, ◌≡◌, refl, String, Bool, true, false, not, ◌&&◌, some, List, [], ◌∷◌, arith, any,
  filter, All, is_nil, first_of, sort_by, sort_by-All, sort_by-IsFirst, is_nil-sort_by,
  first_of-All, filter-All, IsListed, All-IsListed, is_nil-filter, inl, inr,
}
use cam_protocol.Errors.{Result, ok, throw, ◌>>◌, Result-cases}
use cam_protocol.JsText.{is_truthy}
use cam_protocol.CacheManager.{KeyData}
use cam_protocol.Router.Requests.{AiCoreRequest, ProviderRequirements}
use cam_protocol.Router.Policies.{policy_request, apply_policies}
use cam_protocol.Router.Providers.{
  ProviderInfo, Sources, load_provider_configs, get_available_providers, is_eligible,
  score_provider, by_score, pick_first, choose_provider,
}
use cam_protocol.Router.Compliance.{complies, validate_policy-complies}
use cam_protocol.Router.Execute.{Router, Sdk}
use cam_protocol.Router.{
  take_permit, validate_request, check_policies, get_optimal_provider, requirements_of, admit,
  answer_admitted, route_request,
}

-- No provider of the list has a higher score.
abbrev pub AllScoreLess : ProviderRequirements → ProviderInfo → List ProviderInfo → Type 0
AllScoreLess r p = All (λ q.
    (score_provider r q).plus + (score_provider r p).minus
    ≤ (score_provider r p).plus + (score_provider r q).minus)

read_scores :
    (r : ProviderRequirements) (p : ProviderInfo) (qs : List ProviderInfo)
    → All (λ q. by_score r p q ≡ true) qs
    → AllScoreLess r p qs
read_scores r p [] h = tt
read_scores r p (q ∷ qs) (e, h) = (ground arith, read_scores r p qs h)

pick_first-first_of :
    (ps : List ProviderInfo) (p : ProviderInfo) → pick_first ps ≡ ok p → first_of ps ≡ some p
pick_first-first_of [] p e = absurd (cc)
pick_first-first_of (q ∷ ps) p e = cc

-- The provider that is chosen is one of those that are loaded, meets every requirement, and no other
-- that meets them has a higher score.
pub choose_provider-best :
    (r : ProviderRequirements) (ps : List ProviderInfo) (p : ProviderInfo)
    → choose_provider r ps ≡ ok p
    → IsListed ps p × (is_eligible r p ≡ true) × AllScoreLess r p (filter (is_eligible r) ps)
unfolding choose_provider
choose_provider-best r [] p e = absurd (cc)
choose_provider-best r (q ∷ qs) p e =
    let ps = q ∷ qs in
    let fit = filter (is_eligible r) ps in
    let first = pick_first-first_of (sort_by (by_score r) fit) p e in
    let P : ProviderInfo → Type 0 = λ x. IsListed ps x × (is_eligible r x ≡ true) in
    let (listed, eligible) =
      first_of-All P (sort_by (by_score r) fit) p
        (sort_by-All (by_score r) P fit
          (filter-All (IsListed ps) (is_eligible r) ps (All-IsListed ps)))
        first in
    (
      listed,
      eligible,
      read_scores r p fit (
          sort_by-IsFirst (by_score r) (λ x y h. ground arith) (λ x y z h k. ground arith) fit p
            first),
    )

unfoldable pub is_ok {ℓ} : {A : Type ℓ} (r : Result A) → Bool
is_ok (ok x) = true
is_ok (throw e) = false

pick_first-is_ok : (ps : List ProviderInfo) → is_ok (pick_first ps) ≡ not (is_nil ps)
unfolding is_ok
pick_first-is_ok [] = refl
pick_first-is_ok (p ∷ ps) = refl

choose_provider-is_ok :
    (r : ProviderRequirements) (ps : List ProviderInfo)
    → is_ok (choose_provider r ps) ≡ any (is_eligible r) ps
unfolding choose_provider is_ok
choose_provider-is_ok r [] = refl
choose_provider-is_ok r (q ∷ qs) =
    let fit = filter (is_eligible r) (q ∷ qs) in
    ground (
      arith,
      pick_first-is_ok (sort_by (by_score r) fit),
      is_nil-sort_by (by_score r) fit,
      is_nil-filter (is_eligible r) (q ∷ qs),
    )

checks-is_ok :
    (r : AiCoreRequest)
    → is_ok (validate_request r >> check_policies r)
      ≡ (is_truthy r.prompt && complies (policy_request r))
unfolding validate_request check_policies apply_policies is_ok
checks-is_ok r = rw (validate_policy-complies (policy_request r)) (ground arith)

module _ (sources : Sources) (sdk : Sdk) (digest : KeyData → String) where
  -- The providers that a request can be given to.
  abbrev pub providers_of : Router → List ProviderInfo
  providers_of s = get_available_providers (load_provider_configs sources s.provider_configs)

  admit-is_ok :
      (s : Router) (r : AiCoreRequest)
      → is_ok (admit sources s r).1 ≡ (
          is_truthy r.prompt
          && complies (policy_request r)
          && any (is_eligible (requirements_of sources r)) (providers_of s))
  unfolding admit get_optimal_provider is_ok
  admit-is_ok s r = elim (Result-cases (validate_request r >> check_policies r)) [
    | inl (u, e) ↦
        ground (
          arith,
          checks-is_ok r,
          choose_provider-is_ok (requirements_of sources r) (providers_of s),
        )
    | inr (t, e) ↦ ground (arith, checks-is_ok r)
  ]

  answer_admitted-is_ok :
      (r : AiCoreRequest) (start end_ : ℕ) (x : Router × Result ProviderInfo)
      → is_ok (answer_admitted sources sdk digest r start end_ x).1 ≡ is_ok x.1
  unfolding is_ok
  answer_admitted-is_ok r start end_ (s, ok p) = refl
  answer_admitted-is_ok r start end_ (s, throw e) = refl

  -- A request is answered exactly when its user has a permit, its prompt is there, it keeps the rules
  -- of the policies, and some provider that is loaded meets its requirements. In every other case it
  -- ends in an error; a provider that fails does not end it.
  pub route_request-is_ok :
      (s : Router) (r : AiCoreRequest) (start end_ : ℕ)
      → is_ok (route_request sources sdk digest s r start end_).1 ≡ (
          (take_permit s r start).1
          && is_truthy r.prompt
          && complies (policy_request r)
          && any (is_eligible (requirements_of sources r)) (providers_of s))
  unfolding route_request take_permit is_ok
  route_request-is_ok s r start end_ = ground (
    arith,
    answer_admitted-is_ok r start end_ (admit sources (take_permit s r start).0 r),
    admit-is_ok (take_permit s r start).0 r,
  )
