-- ===== src/LicenseManager/Gating.antt =====
-- Which edition has which feature.
use cam_protocol.Base.{ℕ, ◌≤◌, ◌≡◌, ap, String, true, Option, arith, leb, if◌then◌else◌}
use cam_protocol.Errors.{ok, throw}
use cam_protocol.LicenseManager.{
  LicenseManager, get_edition, features_of, get_features, has_feature, get_required_edition,
  require_feature, not_available,
}
use cam_protocol.LicenseManager.Features.{
  Edition, community, pro, enterprise, Feature, feature_of, community_features, pro_features,
  enterprise_features,
}

-- The order of the editions.
abbrev pub rank : Edition → ℕ
rank community = 0
rank pro = 1
rank enterprise = 2

feature_of-rank :
    (e : Edition) (f : Feature)
    → feature_of (features_of e) f ≡ leb (rank (get_required_edition f)) (rank e)
unfolding get_required_edition community_features pro_features enterprise_features
feature_of-rank e f = ground arith

-- A feature is required without an error exactly in its own edition and in the greater ones; in a
-- smaller one the error names the feature, the edition it needs and the current one.
pub require_feature-rank :
    (m : LicenseManager) (f : Feature) (name : Option String)
    → require_feature m f name ≡ (
        if leb (rank (get_required_edition f)) (rank (get_edition m))
        then ok tt
        else throw (not_available m f name))
unfolding require_feature has_feature get_features
require_feature-rank m f name =
    ap (λ b. if b then ok tt else throw (not_available m f name))
      (feature_of-rank (get_edition m) f)

-- A greater edition takes no feature away.
pub has_feature_mono :
    (m n : LicenseManager) (f : Feature)
    → rank (get_edition m) ≤ rank (get_edition n)
    → has_feature m f ≡ true
    → has_feature n f ≡ true
unfolding has_feature get_features
has_feature_mono m n f le h =
    ground (arith, feature_of-rank (get_edition m) f, feature_of-rank (get_edition n) f)
