-- ===== src/Router/Execute.antt =====
-- The call of a provider: src/routing/fastpath-router.ts, the clients, `executeOpenAIRequest`,
-- `executeAnthropicRequest`, `executeGoogleRequest`, `executeAzureRequest` and `executeRequest`. The
-- packages of the providers are the parameter `sdk`; a client is the configuration that it was made
-- of. The clock is read before the call, `start`, and after it, `end_`; ISO texts stand for their
-- times.
mod Clients
unfoldable pub use Clients.*
use Prim.Native.String.{◌++◌ as str_append}
use cam_protocol.Base.{
  ℕ, ◌+◌, ◌-◌, ◌*◌, ◌/◌, String, Bool, true, false, Option, none, some, [], ◌∷◌, str_eq,
  if◌then◌else◌, length, first_of,
}
use cam_protocol.Errors.{Thrown, cam_error, license_error, runtime_error, Result, ok, throw}
use cam_protocol.JsMap
use cam_protocol.JsMap.{JsMap}
use cam_protocol.JsText.{codes, utf16_length, contains, text_or, truthy}
use cam_protocol.CacheManager.{CacheManager, Value, text, number, flag, Usage, Response}
use cam_protocol.RateLimiter.{RateLimiter}
use cam_protocol.Router.Requests.{AiCoreRequest, ProviderRequirements}
use cam_protocol.Router.Providers.{ProviderConfig, ProviderInfo}
use cam_protocol.Router.Health.{ProviderHealthMetrics, record_provider_metrics, Went, well, badly}

abbrev pub usage_or_0 : Option Usage → Usage
usage_or_0 none = record { prompt_tokens = 0; completion_tokens = 0; total_tokens = 0 }
usage_or_0 (some u) = u

-- Anthropic's total is the sum.
abbrev pub usage_of : ClientKind → Usage → Usage
usage_of anthropic u = record u { total_tokens = u.prompt_tokens + u.completion_tokens }
usage_of _ u = u

abbrev pub content_or_empty : Option String → String
content_or_empty none = ""
content_or_empty (some t) = t

abbrev pub sdk_version : ClientKind → String
sdk_version openai = "openai-sdk"
sdk_version anthropic = "anthropic-sdk"
sdk_version google = "google-generative-ai"
sdk_version azure = "azure-openai-sdk"

abbrev pub reason_key : ClientKind → String
reason_key anthropic = "stopReason"
reason_key _ = "finishReason"

abbrev pub reason_fields : ClientKind → Option String → JsMap Value
reason_fields kind none = []
reason_fields kind (some t) = (reason_key kind, text t) ∷ []

abbrev pub region_of : Option ProviderRequirements → String
region_of none = "eastus"
region_of (some r) = text_or r.region "eastus"

abbrev pub region_fields : ClientKind → AiCoreRequest → JsMap Value → JsMap Value
region_fields azure r m = ("region", text (region_of r.requirements)) ∷ m
region_fields _ r m = m

-- Google's answer names the model that was asked for.
abbrev pub model_of : ClientKind → String → Completion → String
model_of google model c = model
model_of _ model c = c.model

-- The response, before the latency and the cost are filled in.
unfoldable pub response_of :
    ClientKind → AiCoreRequest → ProviderInfo → String → Completion → ℕ → Response
response_of kind r p model c end_ = record {
  content = content_or_empty c.content;
  provider = p.id;
  model = model_of kind model c;
  usage = usage_of kind (usage_or_0 c.usage);
  cost = 0;
  latency = 0;
  metadata = some (
      ("provider", text p.name)
      ∷ ("timestamp", number end_)
      ∷ region_fields kind r
          (("sdkVersion", text (sdk_version kind)) ∷ reason_fields kind c.finish_reason));
}

abbrev pub error_text : Thrown → String
error_text (cam_error message code) = message
error_text (license_error message) = message
error_text runtime_error = ""

-- The error that a package's failure becomes.
abbrev pub provider_error : ClientKind → Bool → String → Thrown
provider_error openai true m = cam_error (str_append "OpenAI API error: " m) "PROVIDER_ERROR"
provider_error openai false m = cam_error m "PROVIDER_ERROR"
provider_error anthropic true m = cam_error (str_append "Anthropic API error: " m) "PROVIDER_ERROR"
provider_error anthropic false m = cam_error m "PROVIDER_ERROR"
provider_error google api m = cam_error (str_append "Google AI error: " m) "PROVIDER_ERROR"
provider_error azure api m = cam_error (str_append "Azure OpenAI error: " m) "PROVIDER_ERROR"

-- `recordProviderMetrics` for a call that took from `start` to `end_`.
unfoldable pub recorded : Router → String → ℕ → ℕ → Went → Router
recorded s id start end_ went = record s {
  health_metrics = record_provider_metrics s.health_metrics id (end_ - start) went end_;
}

-- The `catch` of a call.
unfoldable pub call_failed :
    ClientKind → Router → String → ℕ → ℕ → Bool → String → Router × Result Response
unfolding recorded
call_failed kind s id start end_ api message =
    (recorded s id start end_ (badly message), throw (provider_error kind api message))

unfoldable pub handle_reply :
    ClientKind
    → Router
    → AiCoreRequest
    → ProviderInfo
    → String
    → ℕ
    → ℕ
    → Reply
    → Router × Result Response
unfolding response_of call_failed
handle_reply kind s r p model start end_ (failed api message) =
    call_failed kind s p.id start end_ api message
handle_reply kind s r p model start end_ (unreadable message) =
    call_failed kind (recorded s p.id start end_ well) p.id start end_ false message
handle_reply kind s r p model start end_ (replied c) =
    (recorded s p.id start end_ well, ok (response_of kind r p model c end_))

-- The model that the provider has.
unfoldable pub select_model : AiCoreRequest → ProviderInfo → String
select_model r p =
    let first = text_or (first_of p.models) "default-model" in
    elim (truthy r.model) [ none ↦ first | some m ↦ if contains m p.models then m else first ]

-- With a price for 1000 tokens in 1/10^5 dollar, a token costs that many 1/10^8.
unfoldable pub with_cost : ProviderInfo → ℕ → Response → Response
with_cost p latency a = record a {
  latency = latency;
  cost =
      a.usage.prompt_tokens * p.pricing.input_tokens
      + a.usage.completion_tokens * p.pricing.output_tokens;
}

-- The response where the call failed. It costs 0.001 dollar.
unfoldable pub fallback_response : AiCoreRequest → ProviderInfo → String → ℕ → ℕ → Response
unfolding utf16_length
fallback_response r p message start end_ = record {
  content = str_append "Error from " (
      str_append p.name
        (str_append ": " (str_append message (str_append ". Fallback response for: " r.prompt))));
  provider = p.id;
  model = text_or (first_of p.models) "default-model";
  usage = record {
    prompt_tokens = utf16_length (codes r.prompt) / 4;
    completion_tokens = 50;
    total_tokens = utf16_length (codes r.prompt) / 4 + 50;
  };
  cost = 100000;
  latency = end_ - start;
  metadata = some (
      ("provider", text p.name)
      ∷ ("timestamp", number end_)
      ∷ ("error", text message)
      ∷ ("fallback", flag true)
      ∷ []);
}

abbrev pub answer_or_fallback :
    AiCoreRequest → ProviderInfo → ℕ → ℕ → Router × Result Response → Router × Response
answer_or_fallback r p start end_ (s, ok a) = (s, with_cost p (end_ - start) a)
answer_or_fallback r p start end_ (s, throw e) =
    (s, fallback_response r p (error_text e) start end_)

module _ (sdk : Sdk) where
  -- A call of the four methods; the configurations are loaded by then.
  unfoldable pub execute_with :
      ClientKind → Router → AiCoreRequest → ProviderInfo → String → ℕ → ℕ → Router × Result Response
  unfolding handle_reply
  execute_with kind s r p model start end_ =
      let (s', client) = get_client kind s p.id in
      elim client [
        | throw e ↦ call_failed kind s' p.id start end_ false (error_text e)
        | ok c ↦ handle_reply kind s' r p model start end_ (sdk.complete kind c model r)
      ]

  -- The switch over the type of the provider.
  unfoldable pub execute_by_type :
      Router → AiCoreRequest → ProviderInfo → String → ℕ → ℕ → Router × Result Response
  execute_by_type s r p model start end_ =
      if str_eq p.type_ "openai"
      then execute_with openai s r p model start end_
      else if str_eq p.type_ "anthropic"
      then execute_with anthropic s r p model start end_
      else if str_eq p.type_ "google"
      then execute_with google s r p model start end_
      else if str_eq p.type_ "azure"
      then execute_with azure s r p model start end_
      else (
        s,
        throw (
            cam_error (str_append "Provider type " (str_append p.type_ " is not supported"))
              "UNSUPPORTED_PROVIDER"),
      )

  -- It never throws.
  unfoldable pub execute_request : Router → AiCoreRequest → ProviderInfo → ℕ → ℕ → Router × Response
  unfolding execute_by_type select_model with_cost fallback_response
  execute_request s r p start end_ =
      answer_or_fallback r p start end_ (execute_by_type s r p (select_model r p) start end_)
