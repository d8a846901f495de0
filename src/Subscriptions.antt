-- ===== src/Subscriptions.antt =====
-- The subscriptions: src/payment/subscription-manager.ts, class `SubscriptionManager`, over the calls
-- of src/payment/stripe-service.ts that it makes. The Stripe package is the parameter `stripe`, with
-- the account as its state `A`. Times are milliseconds, the package's are seconds. Every failure of a call ends in the error of the caller.
mod Upgrade
mod Tests
use cam_protocol.Base.{
  ℕ, ◌*◌, String, Bool, true, false, ◌||◌, Option, none, some, List, [], ◌∷◌, str_eq, if◌then◌else◌,
}
use cam_protocol.Errors.{Thrown, cam_error, runtime_error, Result, ok, throw, ◌>>=◌, ◌>>◌, guard}
use cam_protocol.JsMap
use cam_protocol.JsMap.{JsMap}
use cam_protocol.JsText.{truthy}
use cam_protocol.StateManager.Usage.{CustomerUsage}

pub data SubscriptionTier : Type 0 where
  community professional enterprise : SubscriptionTier

pub record SubscriptionFeatures : Type 0 where
  pub max_requests : ℕ
  pub max_agents : ℕ
  pub advanced_routing : Bool
  pub custom_policies : Bool
  pub enterprise_auth : Bool
  pub advanced_collaboration : Bool
  pub dedicated_support : Bool
  pub sla : String

pub data SubscriptionStatus : Type 0 where
  active trialing past_due canceled unpaid incomplete incomplete_expired paused : SubscriptionStatus

-- Of the package's subscription, the fields that are read, and those of its first item.
pub record StripeSubscription : Type 0 where
  pub id : String
  pub customer : String
  pub status : SubscriptionStatus
  pub current_period_end : ℕ
  pub cancel_at_period_end : Bool
  pub metadata : JsMap String
  pub item : Option String
  pub product : Option String

pub record StripeCustomer : Type 0 where
  pub deleted : Bool
  pub subscriptions : Option (List StripeSubscription)

-- The package: a subscription is updated by its item's id, the price and the metadata.
pub record Stripe (A : Type 0) : Type 0 where
  pub customer : A → String → Result StripeCustomer
  pub retrieve : A → String → Result StripeSubscription
  pub update : A → String → String → String → JsMap String → A × Result StripeSubscription
  pub cancel : A → String → A × Result StripeSubscription

-- A tier that is none of the three, which the metadata may have, has no features.
pub record SubscriptionInfo : Type 0 where
  pub id : String
  pub customer_id : String
  pub tier : String
  pub status : SubscriptionStatus
  pub current_period_end : ℕ
  pub cancel_at_period_end : Bool
  pub features : Option SubscriptionFeatures

abbrev pub tier_text : SubscriptionTier → String
tier_text community = "community"
tier_text professional = "professional"
tier_text enterprise = "enterprise"

unfoldable pub tier_features : SubscriptionTier → SubscriptionFeatures
tier_features community = record {
  max_requests = 1000;
  max_agents = 5;
  advanced_routing = false;
  custom_policies = false;
  enterprise_auth = false;
  advanced_collaboration = false;
  dedicated_support = false;
  sla = "best-effort";
}
tier_features professional = record {
  max_requests = 10000;
  max_agents = 25;
  advanced_routing = true;
  custom_policies = true;
  enterprise_auth = false;
  advanced_collaboration = true;
  dedicated_support = false;
  sla = "8x5";
}
tier_features enterprise = record {
  max_requests = 100000;
  max_agents = 100;
  advanced_routing = true;
  custom_policies = true;
  enterprise_auth = true;
  advanced_collaboration = true;
  dedicated_support = true;
  sla = "24x7";
}

-- `this.tierFeatures[tier]`.
unfoldable pub features_of : String → Option SubscriptionFeatures
features_of tier =
    if str_eq tier "community"
    then some (tier_features community)
    else if str_eq tier "professional"
    then some (tier_features professional)
    else if str_eq tier "enterprise"
    then some (tier_features enterprise)
    else none

abbrev pub tier_of_product : Option String → String
tier_of_product none = "community"
tier_of_product (some p) =
    if str_eq p "prod_enterprise"
    then "enterprise"
    else if str_eq p "prod_professional"
    then "professional"
    else "community"

abbrev pub or_product : Option String → Option String → String
or_product (some tier) product = tier
or_product none product = tier_of_product product

abbrev pub truthy_field : Option String → Option String
truthy_field none = none
truthy_field (some t) = truthy (some t)

unfoldable pub determine_tier : StripeSubscription → String
determine_tier s = or_product (truthy_field (JsMap.get "tier" s.metadata)) s.product

unfoldable pub info_of : String → StripeSubscription → SubscriptionInfo
unfolding determine_tier features_of
info_of customer_id s = record {
  id = s.id;
  customer_id = customer_id;
  tier = determine_tier s;
  status = s.status;
  current_period_end = s.current_period_end * 1000;
  cancel_at_period_end = s.cancel_at_period_end;
  features = features_of (determine_tier s);
}

abbrev pub first_info : String → Option (List StripeSubscription) → Option SubscriptionInfo
first_info id none = none
first_info id (some []) = none
first_info id (some (s ∷ ss)) = some (info_of id s)

abbrev pub or_error : {A : Type 0} → Thrown → Result A → Result A
or_error e (ok a) = ok a
or_error e (throw other) = throw e

abbrev pub is_current : SubscriptionStatus → Bool
is_current active = true
is_current trialing = true
is_current _ = false

abbrev pub payment_error : Thrown
payment_error = cam_error "Payment service error" "PAYMENT_ERROR"

-- `this.priceMapping[planType]`, where a price that is empty is none.
unfoldable pub get_price_id : JsMap String → SubscriptionTier → Result String
get_price_id prices tier = elim (truthy_field (JsMap.get (tier_text tier) prices)) [
  | none ↦ throw (cam_error "No price ID configured" "PRICE_ID_NOT_FOUND")
  | some p ↦ ok p
]

-- The features that count: those of the subscription while it is current, else the community's.
unfoldable pub granted : Option SubscriptionInfo → Option SubscriptionFeatures
unfolding tier_features
granted none = some (tier_features community)
granted (some i) = if is_current i.status then i.features else some (tier_features community)

-- `features[feature]`, for the field that is read.
abbrev pub read_feature :
    {B : Type 0} → (SubscriptionFeatures → B) → Option SubscriptionFeatures → Result B
read_feature read none = throw runtime_error
read_feature read (some f) = ok (read f)

-- The limits of `getUsageStats`: `subscription?.features || this.tierFeatures.community`.
unfoldable pub limits : Option SubscriptionInfo → SubscriptionFeatures
unfolding tier_features
limits none = tier_features community
limits (some i) = elim i.features [ none ↦ tier_features community | some f ↦ f ]

pub record UsageStats : Type 0 where
  pub requests_used : ℕ
  pub requests_limit : ℕ
  pub agents_used : ℕ
  pub agents_limit : ℕ

-- With what `getCustomerUsage` of the state manager gives, where there is a manager. The tokens, the
-- cost and the period, which are handed on as they are, are left out.
abbrev pub usage_stats : Option CustomerUsage → SubscriptionFeatures → UsageStats
usage_stats none f = record {
  requests_used = 0;
  requests_limit = f.max_requests;
  agents_used = 0;
  agents_limit = f.max_agents;
}
usage_stats (some u) f = record {
  requests_used = u.requests;
  requests_limit = f.max_requests;
  agents_used = u.agents;
  agents_limit = f.max_agents;
}

module _ {A : Type 0} (stripe : Stripe A) where
  unfoldable pub get_customer : A → String → Result StripeCustomer
  get_customer a id = or_error payment_error (do
    c ← stripe.customer a id
    guard (if c.deleted then false else true) (cam_error "deleted" "CUSTOMER_DELETED")
    ok c)

  unfoldable pub get_subscription_info : A → String → Result (Option SubscriptionInfo)
  unfolding get_customer info_of
  get_subscription_info a id =
      or_error
        (cam_error "Subscription error: Failed to retrieve subscription information"
          "SUBSCRIPTION_RETRIEVAL_ERROR")
        (get_customer a id >>= λ c. ok (first_info id c.subscriptions))

  unfoldable pub has_feature : {B : Type 0} → A → String → (SubscriptionFeatures → B) → Result B
  unfolding granted
  has_feature a id read = get_subscription_info a id >>= λ i. read_feature read (granted i)

  unfoldable pub get_usage_stats : A → String → Option CustomerUsage → Result UsageStats
  unfolding limits
  get_usage_stats a id usage = get_subscription_info a id >>= λ i. ok (usage_stats usage (limits i))

  abbrev pub update_item :
      A → String → StripeSubscription → String → SubscriptionTier → A × Result StripeSubscription
  update_item a id s price tier = elim s.item [
    | none ↦ (a, throw payment_error)
    | some item ↦
        let (a', r) =
          stripe.update a id item price (JsMap.set "planType" (tier_text tier) s.metadata) in
        (a', or_error payment_error r)
  ]

  abbrev pub update_from :
      A
      → String
      → SubscriptionTier
      → Result (StripeSubscription × String)
      → A × Result StripeSubscription
  update_from a id tier (throw e) = (a, throw payment_error)
  update_from a id tier (ok (s, price)) = update_item a id s price tier

  unfoldable pub update_subscription :
      JsMap String → A → String → SubscriptionTier → A × Result StripeSubscription
  unfolding get_price_id
  update_subscription prices a id tier =
      update_from a id tier
        (do price ← get_price_id prices tier; s ← stripe.retrieve a id; ok (s, price))

  abbrev pub upgrade_error : Thrown
  upgrade_error =
      cam_error "Subscription error: Failed to upgrade subscription" "SUBSCRIPTION_UPGRADE_ERROR"

  unfoldable pub upgrade_subscription :
      JsMap String → A → String → SubscriptionTier → A × Result (Option SubscriptionInfo)
  unfolding update_subscription get_subscription_info
  upgrade_subscription prices a id tier =
      let (a', r) = update_subscription prices a id tier in
      (a', or_error upgrade_error (r >>= λ s. get_subscription_info a' s.customer))

  unfoldable pub cancel_subscription : A → String → A × Result (Unit {0})
  cancel_subscription a id =
      let (a', r) = stripe.cancel a id in
      (
        a',
        or_error
            (cam_error "Subscription error: Failed to cancel subscription"
              "SUBSCRIPTION_CANCEL_ERROR")
            (r >> ok tt),
      )
