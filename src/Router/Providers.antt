-- ===== src/Router/Providers.antt =====
-- The providers and the choice among them: src/routing/fastpath-router.ts, `loadProviderConfigs`,
-- `getAvailableProviders`, `getOptimalProvider`, with the types of src/shared/types.ts. A price is for
-- 1000 tokens, in whole numbers of 1/10^5 dollar. A score is a difference of natural numbers, scaled
-- by 10^5.
use cam_protocol.Base.{
  ℕ, ◌+◌, ◌*◌, String, Bool, true, false, not, ◌&&◌, Option, none, some, List, [], ◌∷◌, map, leb,
  str_eq, if◌then◌else◌, is_nil, every, filter, sort_by,
}
use cam_protocol.Errors.{cam_error, Result, ok, throw}
use cam_protocol.JsMap
use cam_protocol.JsMap.{JsMap}
use cam_protocol.JsText.{contains, truthy}
use cam_protocol.Router.Requests.{
  ProviderRequirements, CostGoal, minimize, optimize, performance, SpeedGoal, fast, balanced,
  quality,
}

pub record Pricing : Type 0 where
  pub input_tokens : ℕ
  pub output_tokens : ℕ

-- With the fields that the router reads besides those of the type.
pub record ProviderConfig : Type 0 where
  pub id : String
  pub type_ : String
  pub api_key : String
  pub endpoint : Option String
  pub enabled : Bool
  pub models : Option (List String)
  pub pricing : Option Pricing
  pub capabilities : Option (List String)
  pub regions : Option (List String)

pub data ProviderStatus : Type 0 where
  available degraded unavailable : ProviderStatus

pub record ProviderInfo : Type 0 where
  pub id : String
  pub name : String
  pub type_ : String
  pub models : List String
  pub pricing : Pricing
  pub capabilities : List String
  pub regions : List String
  pub status : ProviderStatus

-- What the environment variable and the file hold: `none` where it is not there, and inside where it
-- is no JSON.
pub record Sources : Type 0 where
  pub env : Option (Option (List ProviderConfig))
  pub file : Option (Option (List ProviderConfig))

-- The enabled ones, under their ids.
unfoldable pub add_enabled : JsMap ProviderConfig → List ProviderConfig → JsMap ProviderConfig
add_enabled m [] = m
add_enabled m (p ∷ ps) = add_enabled (if p.enabled then JsMap.set p.id p m else m) ps

abbrev pub load_source :
    JsMap ProviderConfig → Option (Option (List ProviderConfig)) → JsMap ProviderConfig
load_source m none = m
load_source m (some none) = m
load_source m (some (some ps)) = add_enabled m ps

unfoldable pub load_provider_configs : Sources → JsMap ProviderConfig → JsMap ProviderConfig
unfolding add_enabled
load_provider_configs sources m =
    if is_nil m
    then (let from_env = load_source m sources.env in
        if is_nil from_env then load_source from_env sources.file else from_env)
    else m

abbrev pub list_or_empty : Option (List String) → List String
list_or_empty none = []
list_or_empty (some ts) = ts

abbrev pub pricing_or_free : Option Pricing → Pricing
pricing_or_free none = record { input_tokens = 0; output_tokens = 0 }
pricing_or_free (some p) = p

unfoldable pub info_of : ProviderConfig → ProviderInfo
info_of c = record {
  id = c.id;
  name = c.id;
  type_ = c.type_;
  models = list_or_empty c.models;
  pricing = pricing_or_free c.pricing;
  capabilities = list_or_empty c.capabilities;
  regions = list_or_empty c.regions;
  status = if c.enabled then available else unavailable;
}

-- Of the configurations that are loaded.
unfoldable pub get_available_providers : JsMap ProviderConfig → List ProviderInfo
unfolding info_of
get_available_providers m = map info_of (JsMap.values m)

abbrev pub is_unavailable : ProviderStatus → Bool
is_unavailable unavailable = true
is_unavailable _ = false

abbrev pub fits_region : Option String → List String → Bool
fits_region none regions = true
fits_region (some region) regions = contains region regions

abbrev pub fits_capabilities : Option (List String) → List String → Bool
fits_capabilities none capabilities = true
fits_capabilities (some wanted) capabilities = every (λ cap. contains cap capabilities) wanted

unfoldable pub is_eligible : ProviderRequirements → ProviderInfo → Bool
is_eligible r p =
    not (is_unavailable p.status)
    && fits_region (truthy r.region) p.regions
    && fits_capabilities r.capabilities p.capabilities

pub record Score : Type 0 where
  pub plus : ℕ
  pub minus : ℕ

abbrev pub cost_weight : Option CostGoal → ℕ
cost_weight none = 0
cost_weight (some minimize) = 3
cost_weight (some optimize) = 2
cost_weight (some performance) = 1

abbrev pub one_if : Bool → ℕ → ℕ
one_if true n = n
one_if false n = 0

-- The points for speed or quality.
unfoldable pub performance_points : Option SpeedGoal → ProviderInfo → ℕ
performance_points none p = 0
performance_points (some fast) p =
    one_if (str_eq p.type_ "anthropic") 1 + one_if (str_eq p.type_ "openai") 2
performance_points (some balanced) p =
    one_if (str_eq p.type_ "anthropic") 2
    + one_if (str_eq p.type_ "openai") 2
    + one_if (str_eq p.type_ "google") 2
performance_points (some quality) p =
    one_if (str_eq p.type_ "anthropic") 3
    + one_if (str_eq p.type_ "openai" && contains "gpt-4" p.models) 3
    + one_if (str_eq p.type_ "google") 2

-- `score *= 0.9` for a degraded one, in tenths.
abbrev pub status_tenths : ProviderStatus → ℕ
status_tenths degraded = 9
status_tenths _ = 10

-- The cost factor is `1 - (input + output) / 0.1`, ten thousand times that `10000 - (input + output)`.
unfoldable pub score_provider : ProviderRequirements → ProviderInfo → Score
unfolding performance_points
score_provider r p =
    let weight = cost_weight r.cost in
    let tenths = status_tenths p.status in
    record {
      plus = (weight * 10000 + performance_points r.performance p * 10000) * tenths;
      minus = weight * (p.pricing.input_tokens + p.pricing.output_tokens) * tenths;
    }

-- `b.score - a.score` does not put `b` before `a`.
abbrev pub score_le : Score → Score → Bool
score_le b a = leb (b.plus + a.minus) (a.plus + b.minus)

abbrev pub by_score : ProviderRequirements → ProviderInfo → ProviderInfo → Bool
by_score r a b = score_le (score_provider r b) (score_provider r a)

abbrev pub pick_first : List ProviderInfo → Result ProviderInfo
pick_first [] =
    throw (cam_error "No providers match the specified requirements" "NO_MATCHING_PROVIDERS")
pick_first (p ∷ ps) = ok p

-- Among the providers that are loaded.
unfoldable pub choose_provider : ProviderRequirements → List ProviderInfo → Result ProviderInfo
choose_provider r [] =
    throw (cam_error "No AI providers are currently available" "NO_PROVIDERS_AVAILABLE")
choose_provider r (p ∷ ps) = pick_first (sort_by (by_score r) (filter (is_eligible r) (p ∷ ps)))
