-- ===== src/LicenseManager/Features.antt =====
-- The features of the editions: src/licensing/license-manager.ts, `EditionFeatures` and its three
-- tables. A spread in a table is a record update.
use cam_protocol.Base.{Bool, true, false, String}

pub data Edition : Type 0 where
  community pro enterprise : Edition

pub record EditionFeatures : Type 0 where
  pub core_routing : Bool
  pub basic_mcp_gateway : Bool
  pub basic_policies : Bool
  pub console_logging : Bool
  pub single_tenant : Bool
  pub redis_caching : Bool
  pub rate_limiting : Bool
  pub jsonl_audit : Bool
  pub open_telemetry : Bool
  pub multi_tenant : Bool
  pub advanced_policies : Bool
  pub email_support : Bool
  pub sso_saml : Bool
  pub rbac : Bool
  pub signed_audit : Bool
  pub cloud_export : Bool
  pub sla_dashboard : Bool
  pub dedicated_support : Bool
  pub on_prem_deployment : Bool
  pub custom_integrations : Bool

-- `keyof EditionFeatures`.
pub data Feature : Type 0 where
  core_routing basic_mcp_gateway basic_policies console_logging single_tenant redis_caching
        rate_limiting jsonl_audit open_telemetry multi_tenant advanced_policies email_support
        sso_saml rbac signed_audit cloud_export sla_dashboard dedicated_support on_prem_deployment
        custom_integrations :
      Feature

-- `features[feature]`.
abbrev pub feature_of : EditionFeatures → Feature → Bool
feature_of features core_routing = features.core_routing
feature_of features basic_mcp_gateway = features.basic_mcp_gateway
feature_of features basic_policies = features.basic_policies
feature_of features console_logging = features.console_logging
feature_of features single_tenant = features.single_tenant
feature_of features redis_caching = features.redis_caching
feature_of features rate_limiting = features.rate_limiting
feature_of features jsonl_audit = features.jsonl_audit
feature_of features open_telemetry = features.open_telemetry
feature_of features multi_tenant = features.multi_tenant
feature_of features advanced_policies = features.advanced_policies
feature_of features email_support = features.email_support
feature_of features sso_saml = features.sso_saml
feature_of features rbac = features.rbac
feature_of features signed_audit = features.signed_audit
feature_of features cloud_export = features.cloud_export
feature_of features sla_dashboard = features.sla_dashboard
feature_of features dedicated_support = features.dedicated_support
feature_of features on_prem_deployment = features.on_prem_deployment
feature_of features custom_integrations = features.custom_integrations

abbrev pub feature_text : Feature → String
feature_text core_routing = "coreRouting"
feature_text basic_mcp_gateway = "basicMcpGateway"
feature_text basic_policies = "basicPolicies"
feature_text console_logging = "consoleLogging"
feature_text single_tenant = "singleTenant"
feature_text redis_caching = "redisCaching"
feature_text rate_limiting = "rateLimiting"
feature_text jsonl_audit = "jsonlAudit"
feature_text open_telemetry = "openTelemetry"
feature_text multi_tenant = "multiTenant"
feature_text advanced_policies = "advancedPolicies"
feature_text email_support = "emailSupport"
feature_text sso_saml = "ssoSaml"
feature_text rbac = "rbac"
feature_text signed_audit = "signedAudit"
feature_text cloud_export = "cloudExport"
feature_text sla_dashboard = "slaDashboard"
feature_text dedicated_support = "dedicatedSupport"
feature_text on_prem_deployment = "onPremDeployment"
feature_text custom_integrations = "customIntegrations"

abbrev pub edition_text : Edition → String
edition_text community = "community"
edition_text pro = "pro"
edition_text enterprise = "enterprise"

unfoldable pub community_features : EditionFeatures
community_features = record {
  core_routing = true;
  basic_mcp_gateway = true;
  basic_policies = true;
  console_logging = true;
  single_tenant = true;
  redis_caching = false;
  rate_limiting = false;
  jsonl_audit = false;
  open_telemetry = false;
  multi_tenant = false;
  advanced_policies = false;
  email_support = false;
  sso_saml = false;
  rbac = false;
  signed_audit = false;
  cloud_export = false;
  sla_dashboard = false;
  dedicated_support = false;
  on_prem_deployment = false;
  custom_integrations = false;
}

unfoldable pub pro_features : EditionFeatures
unfolding community_features
pro_features = record community_features {
  redis_caching = true;
  rate_limiting = true;
  jsonl_audit = true;
  open_telemetry = true;
  multi_tenant = true;
  advanced_policies = true;
  email_support = true;
}

unfoldable pub enterprise_features : EditionFeatures
unfolding pro_features
enterprise_features = record pro_features {
  sso_saml = true;
  rbac = true;
  signed_audit = true;
  cloud_export = true;
  sla_dashboard = true;
  dedicated_support = true;
  on_prem_deployment = true;
  custom_integrations = true;
}
