-- ===== src/Subscriptions/Tests.antt =====
-- Runs of the subscriptions on an account with one subscription.
use cam_protocol.Base.{String, false, some, [], ◌∷◌}
use cam_protocol.Errors.{ok}
use cam_protocol.JsMap
use cam_protocol.JsMap.{JsMap}
use cam_protocol.Subscriptions
use cam_protocol.Subscriptions.{
  active, canceled, community, professional, tier_features, StripeSubscription, Stripe,
  SubscriptionInfo, info_of, usage_stats, has_feature, get_usage_stats, upgrade_subscription,
}

program : Unit {0}
unfolding JsMap.get JsMap.set Subscriptions.tier_features Subscriptions.features_of
    Subscriptions.determine_tier Subscriptions.info_of Subscriptions.get_price_id
    Subscriptions.granted Subscriptions.limits Subscriptions.get_customer
    Subscriptions.get_subscription_info Subscriptions.has_feature Subscriptions.get_usage_stats
    Subscriptions.update_subscription Subscriptions.upgrade_subscription
program = tt

abbrev account : Stripe StripeSubscription
account = record {
  customer = λ a id. ok (record { deleted = false; subscriptions = some (a ∷ []) });
  retrieve = λ a id. ok a;
  update = λ a id item price m. (record a { metadata = m }, ok (record a { metadata = m }));
  cancel = λ a id. (record a { status = canceled }, ok (record a { status = canceled }));
}

abbrev bought : StripeSubscription
bought = record {
  id = "sub";
  customer = "cus";
  status = active;
  current_period_end = 1000;
  cancel_at_period_end = false;
  metadata = ("tier", "professional") ∷ [];
  item = some "item";
  product = some "prod_professional";
}

abbrev prices : JsMap String
prices = ("enterprise", "price_e") ∷ []

abbrev upgraded : StripeSubscription
upgraded = record bought { metadata = ("tier", "professional") ∷ ("planType", "enterprise") ∷ [] }
