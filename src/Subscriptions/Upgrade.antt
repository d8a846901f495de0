-- ===== src/Subscriptions/Upgrade.antt =====
-- What an upgrade does to the tier.
use cam_protocol.JsMap
use cam_protocol.JsMap.{JsMap}
