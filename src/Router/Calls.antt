-- ===== src/Router/Calls.antt =====
-- What holds for every way that a call of a provider can go.
use cam_protocol.Base.{
  ℕ, String, false, Option, none, some, str_eq, if_both, Option-cases, inl, inr,
}
use cam_protocol.Errors.{Thrown, Result, ok, throw}
use cam_protocol.CacheManager.{KeyData, Response}
use cam_protocol.JsMap
use cam_protocol.Router.Requests.{AiCoreRequest}
use cam_protocol.Router.Providers.{ProviderInfo, ProviderConfig, Sources}
use cam_protocol.Router.Execute.{
  Router, Sdk, Reply, ClientKind, openai, anthropic, google, azure, get_client, keep_client,
  make_client, clients_of, handle_reply, call_failed, execute_with, execute_by_type, error_text,
}
use cam_protocol.Router.{look_up, ask_provider, answer}

pub get_client-both :
    (P : Router → Type 0) (kind : ClientKind) (s : Router) (id : String)
    → P s
    → ((c : Result ProviderConfig) → P (keep_client kind id s c).0)
    → P (get_client kind s id).0
unfolding get_client
get_client-both P kind s id h k = elim (Option-cases (JsMap.get id (clients_of kind s))) [
  | inl e ↦ rw (e, get_client) (k (make_client kind id (JsMap.get id s.provider_configs)))
  | inr (c, e) ↦ rw (e, get_client) h
]

module _ (sdk : Sdk) (P : Router × Result Response → Type 0) where
  pub execute_with-both :
      (kind : ClientKind) (s : Router) (r : AiCoreRequest) (p : ProviderInfo) (model : String)
      (start end_ : ℕ)
      → (let t = (get_client kind s p.id).0 in
          (message : String) → P (call_failed kind t p.id start end_ false message))
      → (let t = (get_client kind s p.id).0 in
          (reply : Reply) → P (handle_reply kind t r p model start end_ reply))
      → P (execute_with sdk kind s r p model start end_)
  unfolding execute_with
  execute_with-both kind s r p model start end_ fails replies =
      called (get_client kind s p.id) fails replies
    where
      called :
          (x : Router × Result ProviderConfig)
          → ((message : String) → P (call_failed kind x.0 p.id start end_ false message))
          → ((reply : Reply) → P (handle_reply kind x.0 r p model start end_ reply))
          → P (elim x.1 [
            | throw e ↦ call_failed kind x.0 p.id start end_ false (error_text e)
            | ok c ↦ handle_reply kind x.0 r p model start end_ (sdk.complete kind c model r)
          ])
      called (t, throw e) f g = f (error_text e)
      called (t, ok c) f g = g (sdk.complete kind c model r)

  pub execute_by_type-both :
      (s : Router) (r : AiCoreRequest) (p : ProviderInfo) (model : String) (start end_ : ℕ)
      → ((kind : ClientKind) → P (execute_with sdk kind s r p model start end_))
      → ((e : Thrown) → P (s, throw e))
      → P (execute_by_type sdk s r p model start end_)
  unfolding execute_by_type
  execute_by_type-both s r p model start end_ by_kind unknown =
      if_both P (str_eq p.type_ "openai") (λ e. by_kind openai)
        (λ e.
          if_both P (str_eq p.type_ "anthropic") (λ e. by_kind anthropic)
            (λ e.
              if_both P (str_eq p.type_ "google") (λ e. by_kind google)
                (λ e. if_both P (str_eq p.type_ "azure") (λ e. by_kind azure) (λ e. unknown _))))

module _ (sources : Sources) (sdk : Sdk) (digest : KeyData → String) where
  pub answer-both :
      (P : Router → Type 0) (s : Router) (r : AiCoreRequest) (p : ProviderInfo) (start end_ : ℕ)
      → (let t = (look_up sources sdk digest s r p start).0 in
          P t × P (ask_provider sources sdk digest t r p start end_).0)
      → P (answer sources sdk digest s r p start end_).0
  unfolding answer
  answer-both P s r p start end_ both = found (look_up sources sdk digest s r p start) both
    where
      found :
          (x : Router × Option Response)
          → P x.0 × P (ask_provider sources sdk digest x.0 r p start end_).0
          → P (
              (elim x.1 as (λ (a : Option Response). Router × Response) [
                | some a ↦ (x.0, a)
                | none ↦ ask_provider sources sdk digest x.0 r p start end_
              ]).0)
      found (t, some a) (h, k) = h
      found (t, none) (h, k) = k
