-- ===== src/Protocol/Version/Tests.antt =====
-- The choice of a version at concrete offers.
use agg_deliv.Common.{◌≡◌, refl, List, [], ◌∷◌}
use agg_deliv.Protocol.Version.{
  VersionNumber, version37, version38, version39, version_mp, version_unsupported,
  choose_supported_version, offers, version_number_to_tag,
}
use agg_deliv.Protocol.Version.Tags.{common_versions, head_or, choose_supported_version_lem}

abbrev ours : List VersionNumber
ours = version_mp ∷ version39 ∷ version38 ∷ []

abbrev theirs : List VersionNumber
theirs = version37 ∷ version38 ∷ version39 ∷ []

best : choose_supported_version ours theirs ≡ version39
unfolding choose_supported_version offers
best = refl

tag : version_number_to_tag version39 ≡ 0x39333051
unfolding version_number_to_tag
tag = refl

choose_supported_version_lem_run :
    choose_supported_version ours theirs ≡ head_or version_unsupported (common_versions ours theirs)
choose_supported_version_lem_run = choose_supported_version_lem ours theirs
