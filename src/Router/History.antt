-- ===== src/Router/History.antt =====
-- The health metrics of a provider after any number of calls of several providers, as
-- `recordProviderMetrics` of src/routing/fastpath-router.ts keeps them.
use cam_protocol.Base.{
  ℕ, suc, ◌+◌, ◌-◌, ◌≤◌, ◌≡◌, refl, ap, ◌∙◌, sym, String, true, List, [], ◌∷◌, ◌++◌, arith, ltb,
  str_eq, if◌then◌else◌, length, length-append, drop, Bool-cases, inl, inr, subst, eq_iff,
}
use cam_protocol.JsMap
use cam_protocol.JsMap.{JsMap}
use cam_protocol.Router.Metrics.{length-push_latency}
use cam_protocol.Router.Health.{
  ProviderHealthMetrics, metrics_or_new, push_latency, Went, well, badly, add_sample,
  record_provider_metrics,
}

-- One call of `recordProviderMetrics`.
pub record Sample : Type 0 where
  pub provider : String
  pub latency : ℕ
  pub went : Went
  pub at : ℕ

unfoldable pub record_all : JsMap ProviderHealthMetrics → List Sample → JsMap ProviderHealthMetrics
record_all m [] = m
record_all m (x ∷ xs) = record_all (record_provider_metrics m x.provider x.latency x.went x.at) xs

abbrev pub errors_in : Went → ℕ
errors_in well = 0
errors_in (badly error) = 1

-- Of the samples of a provider: the latencies in order, their sum, and how many went badly.
unfoldable pub latencies_of : String → List Sample → List ℕ
latencies_of p [] = []
latencies_of p (x ∷ xs) =
    let rest = latencies_of p xs in if str_eq x.provider p then x.latency ∷ rest else rest

unfoldable pub sum : List ℕ → ℕ
sum [] = 0
sum (l ∷ ls) = l + sum ls

unfoldable pub errors_of : String → List Sample → ℕ
errors_of p [] = 0
errors_of p (x ∷ xs) =
    let rest = errors_of p xs in if str_eq x.provider p then errors_in x.went + rest else rest

-- The last 100 of a list.
abbrev pub last_100 : List ℕ → List ℕ
last_100 ls = drop (length ls - 100) ls

append_nil : (ls : List ℕ) → ls ++ [] ≡ ls
append_nil [] = refl
append_nil (l ∷ ls) = ap (λ t. l ∷ t) (append_nil ls)

append_behind : (ls : List ℕ) (l : ℕ) (r : List ℕ) → (ls ++ l ∷ []) ++ r ≡ ls ++ l ∷ r
append_behind [] l r = refl
append_behind (x ∷ ls) l r = ap (λ t. x ∷ t) (append_behind ls l r)

last_100_short : (ls : List ℕ) → length ls ≤ 100 → last_100 ls ≡ ls
last_100_short ls h = let e : length ls - 100 ≡ 0 = omega arith in rw e refl

-- What stands before the last 100 does not matter.
last_100-drop : (q r : List ℕ) → length q ≡ 101 → last_100 (drop 1 q ++ r) ≡ last_100 (q ++ r)
last_100-drop [] r h = absurd (cc)
last_100-drop (y ∷ q) r h =
    let e : length (y ∷ q ++ r) - 100 ≡ suc (length (q ++ r) - 100) =
      omega (arith, length-append q r) in
    rw e refl

last_100-push_latency :
    (ls : List ℕ) (l : ℕ) (r : List ℕ)
    → length ls ≤ 100
    → last_100 (push_latency ls l ++ r) ≡ last_100 (ls ++ l ∷ r)
unfolding push_latency
last_100-push_latency ls l r h = elim (Bool-cases (ltb 100 (length (ls ++ l ∷ [])))) [
  | inl full ↦
      let e : length (ls ++ l ∷ []) ≡ 101 = ground (arith, length-append ls (l ∷ [])) in
      rw full (last_100-drop (ls ++ l ∷ []) r e ∙ ap last_100 (append_behind ls l r))
  | inr room ↦ rw room (ap last_100 (append_behind ls l r))
]

add_sample-fields :
    (m : ProviderHealthMetrics) (latency : ℕ) (went : Went) (now : ℕ)
    → let q = add_sample m latency went now in
      (q.request_count ≡ m.request_count + 1)
      × (q.error_count ≡ m.error_count + errors_in went)
      × (q.total_latency ≡ m.total_latency + latency)
      × (q.latencies ≡ push_latency m.latencies latency)
unfolding add_sample
add_sample-fields m latency well now = (refl, omega arith, refl, refl)
add_sample-fields m latency (badly error) now = (refl, refl, refl, refl)

-- What the metrics `q` are after the samples `xs` of the provider `p`, from the metrics `b`.
abbrev pub Follows : ProviderHealthMetrics → String → List Sample → ProviderHealthMetrics → Type 0
Follows b p xs q =
    (q.request_count ≡ b.request_count + length (latencies_of p xs))
    × (q.error_count ≡ b.error_count + errors_of p xs)
    × (q.total_latency ≡ b.total_latency + sum (latencies_of p xs))
    × (q.latencies ≡ last_100 (b.latencies ++ latencies_of p xs))

-- A sample of the provider comes before the others.
Follows-sample :
    (b : ProviderHealthMetrics) (p : String) (x : Sample) (xs : List Sample)
    (q : ProviderHealthMetrics)
    → str_eq x.provider p ≡ true
    → length b.latencies ≤ 100
    → Follows (add_sample b x.latency x.went x.at) p xs q
    → Follows b p (x ∷ xs) q
unfolding latencies_of errors_of sum
Follows-sample b p x xs q same few (requests, errors, total, kept) =
    let (r, e, t, l) = add_sample-fields b x.latency x.went x.at in
    rw same (
      omega arith,
      omega arith,
      omega arith,
      kept
          ∙ ap (λ ls. last_100 (ls ++ latencies_of p xs)) l
          ∙ last_100-push_latency b.latencies x.latency (latencies_of p xs) few,
    )

-- The metrics of a provider after one sample.
get-record_provider_metrics :
    (m : JsMap ProviderHealthMetrics) (p : String) (x : Sample)
    → metrics_or_new (JsMap.get p (record_provider_metrics m x.provider x.latency x.went x.at)) ≡ (
        let b = metrics_or_new (JsMap.get p m) in
        if str_eq x.provider p then add_sample b x.latency x.went x.at else b)
unfolding record_provider_metrics
get-record_provider_metrics m p x =
    let b = metrics_or_new (JsMap.get x.provider m) in
    let e = JsMap.get-set x.provider p (add_sample b x.latency x.went x.at) m in
    elim (Bool-cases (str_eq x.provider p)) [
      | inl same ↦
          let k : x.provider ≡ p = (eq_iff x.provider p).0 same in
          rw (e, same)
            (ap (λ j. add_sample (metrics_or_new (JsMap.get j m)) x.latency x.went x.at) k)
      | inr other ↦ rw (e, other) refl
    ]

-- However many calls of whichever providers are recorded, the metrics of each provider count its own
-- calls, those of them that went badly and the sum of their latencies, and keep the last 100 of the
-- latencies in order; all that is added to what the metrics held before. They held at most 100
-- latencies.
pub record_all-Follows :
    (m : JsMap ProviderHealthMetrics) (p : String) (xs : List Sample)
    → length (metrics_or_new (JsMap.get p m)).latencies ≤ 100
    → Follows (metrics_or_new (JsMap.get p m)) p xs (metrics_or_new (JsMap.get p (record_all m xs)))
unfolding record_all latencies_of errors_of sum
record_all-Follows m p [] few =
    let b = metrics_or_new (JsMap.get p m) in
    (
      omega arith,
      omega arith,
      omega arith,
      sym (ap last_100 (append_nil b.latencies) ∙ last_100_short b.latencies few),
    )
record_all-Follows m p (x ∷ xs) few =
    let m' = record_provider_metrics m x.provider x.latency x.went x.at in
    let next = record_all-Follows m' p xs in
    elim (Bool-cases (str_eq x.provider p)) [
      | inl same ↦
          let b = metrics_or_new (JsMap.get p m) in
          let q = metrics_or_new (JsMap.get p (record_all m' xs)) in
          let e : metrics_or_new (JsMap.get p m') ≡ add_sample b x.latency x.went x.at =
            get-record_provider_metrics m p x
            ∙ ap (λ t. if t then add_sample b x.latency x.went x.at else b) same in
          let l = (add_sample-fields b x.latency x.went x.at).3 in
          let less : length (metrics_or_new (JsMap.get p m')).latencies ≤ 100 =
            rw (e, l) (length-push_latency b.latencies x.latency few) in
          Follows-sample b p x xs q same few (subst (λ c. Follows c p xs q) e (next less))
      | inr other ↦
          let b = metrics_or_new (JsMap.get p m) in
          let e : metrics_or_new (JsMap.get p m') ≡ b =
            get-record_provider_metrics m p x
            ∙ ap (λ t. if t then add_sample b x.latency x.went x.at else b) other in
          let rest : Follows b p xs (metrics_or_new (JsMap.get p (record_all m' xs))) =
            subst (λ c. Follows c p xs (metrics_or_new (JsMap.get p (record_all m' xs)))) e
              (next (rw e few)) in
          rw other rest
    ]
