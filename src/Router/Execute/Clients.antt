-- ===== src/Router/Execute/Clients.antt =====
-- The state of the router and its clients: src/routing/fastpath-router.ts, `getOpenAIClient`,
-- `getAnthropicClient`, `getGoogleClient` and `getAzureClient`. A client is the configuration that it
-- was made of.
use Prim.Native.String.{◌++◌ as str_append}
use cam_protocol.Base.{String, Bool, true, false, Option, none, some, if◌then◌else◌}
use cam_protocol.Errors.{cam_error, Result, ok, throw}
use cam_protocol.JsMap
use cam_protocol.JsMap.{JsMap}
use cam_protocol.JsText.{truthy}
use cam_protocol.CacheManager.{CacheManager, Usage}
use cam_protocol.RateLimiter.{RateLimiter}
use cam_protocol.Router.Requests.{AiCoreRequest}
use cam_protocol.Router.Providers.{ProviderConfig}
use cam_protocol.Router.Health.{ProviderHealthMetrics}

-- The four packages' clients, by the type of the provider.
pub data ClientKind : Type 0 where
  openai anthropic google azure : ClientKind

-- What a package answers. Anthropic's text is that of its text blocks.
pub record Completion : Type 0 where
  pub content : Option String
  pub model : String
  pub usage : Option Usage
  pub finish_reason : Option String

-- An answer; an answer whose text cannot be read, which throws the text given; or the text of an
-- error, with whether it is the package's own `APIError`.
pub data Reply : Type 0 where
  replied : Completion → Reply
  unreadable : String → Reply
  failed : Bool → String → Reply

-- The packages: the client, the model and the request give a reply.
pub record Sdk : Type 0 where
  pub complete : ClientKind → ProviderConfig → String → AiCoreRequest → Reply

pub record Router : Type 0 where
  pub provider_configs : JsMap ProviderConfig
  pub openai_clients : JsMap ProviderConfig
  pub anthropic_clients : JsMap ProviderConfig
  pub google_clients : JsMap ProviderConfig
  pub azure_clients : JsMap ProviderConfig
  pub health_metrics : JsMap ProviderHealthMetrics
  pub cache_manager : CacheManager
  pub rate_limiter : RateLimiter

abbrev pub clients_of : ClientKind → Router → JsMap ProviderConfig
clients_of openai s = s.openai_clients
clients_of anthropic s = s.anthropic_clients
clients_of google s = s.google_clients
clients_of azure s = s.azure_clients

abbrev pub with_clients : ClientKind → JsMap ProviderConfig → Router → Router
with_clients openai m s = record s { openai_clients = m }
with_clients anthropic m s = record s { anthropic_clients = m }
with_clients google m s = record s { google_clients = m }
with_clients azure m s = record s { azure_clients = m }

-- Only Azure asks for an endpoint.
abbrev pub lacks_endpoint : ClientKind → ProviderConfig → Bool
lacks_endpoint azure c = elim (truthy c.endpoint) [ none ↦ true | some e ↦ false ]
lacks_endpoint _ c = false

-- A new client, from the configuration of the provider.
abbrev pub make_client : ClientKind → String → Option ProviderConfig → Result ProviderConfig
make_client kind id none =
    throw (cam_error (str_append "Missing configuration for provider " id) "CONFIG_NOT_FOUND")
make_client kind id (some c) =
    if lacks_endpoint kind c
    then throw (cam_error (str_append "Azure endpoint required for provider " id) "CONFIG_INVALID")
    else ok c

abbrev pub keep_client :
    ClientKind → String → Router → Result ProviderConfig → Router × Result ProviderConfig
keep_client kind id s (throw e) = (s, throw e)
keep_client kind id s (ok c) = (with_clients kind (JsMap.set id c (clients_of kind s)) s, ok c)

-- The client that is there, or a new one.
unfoldable pub get_client : ClientKind → Router → String → Router × Result ProviderConfig
get_client kind s id = elim (JsMap.get id (clients_of kind s)) [
  | some c ↦ (s, ok c)
  | none ↦ keep_client kind id s (make_client kind id (JsMap.get id s.provider_configs))
]
