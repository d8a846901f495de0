-- ===== src/Router/Requests.antt =====
-- What the router is asked: src/shared/types.ts, `AICoreRequest` and `ProviderRequirements`, and the
-- reads of a request's metadata. A value of the metadata has the type that the reader casts it to.
use cam_protocol.Base.{ℕ, String, Bool, Option, none, some, List}
use cam_protocol.JsMap.{JsMap}
use cam_protocol.CacheManager
use cam_protocol.CacheManager.{Value, text, number, metadata_field, is_truthy}

pub data CostGoal : Type 0 where
  minimize optimize performance : CostGoal

pub data SpeedGoal : Type 0 where
  fast balanced quality : SpeedGoal

pub record ProviderRequirements : Type 0 where
  pub cost : Option CostGoal
  pub performance : Option SpeedGoal
  pub region : Option String
  pub capabilities : Option (List String)

unfoldable pub no_requirements : ProviderRequirements
no_requirements = record { cost = none; performance = none; region = none; capabilities = none }

pub record AiCoreRequest : Type 0 where
  pub prompt : String
  pub model : Option String
  pub temperature : Option ℕ
  pub max_tokens : Option ℕ
  pub requirements : Option ProviderRequirements
  pub metadata : Option (JsMap Value)

-- The part of a request that the cache reads.
unfoldable pub cache_request : AiCoreRequest → CacheManager.Request
cache_request r = record { prompt = r.prompt; model = r.model; temperature = r.temperature }

abbrev pub as_text : Option Value → Option String
as_text (some (text s)) = some s
as_text _ = none

abbrev pub as_number : Option Value → Option ℕ
as_number (some (number n)) = some n
as_number _ = none

-- `request.metadata?.[k]` and its truth.
abbrev pub field : AiCoreRequest → String → Option Value
field r k = metadata_field r.metadata k

abbrev pub has_field : AiCoreRequest → String → Bool
has_field r k = is_truthy (field r k)
