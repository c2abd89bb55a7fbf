-- ===== src/Protocol/Version/Tags.antt =====
-- The tags of versions, and the version that is chosen.
use agg_deliv.Common.{ℕ, ◌<◌, ◌≡◌, List, [], ◌∷◌, refl, arith, if◌then◌else◌, ap}
use agg_deliv.Protocol.Version.{
  VersionNumber, pos, negsuc, version_number_to_tag, version_tag_to_number, version_eq,
  version_unsupported, is_supported_version, offers, choose_supported_version,
}

-- The tag of a version of up to three digits is read back as the version.
pub version_tag_to_number-version_number_to_tag :
    (n : ℕ) → n < 1000 → version_tag_to_number (version_number_to_tag (pos n)) ≡ pos n
unfolding version_number_to_tag version_tag_to_number
version_tag_to_number-version_number_to_tag n small = ap pos (omega arith)

version_eq_comm : (a b : VersionNumber) → version_eq a b ≡ version_eq b a
version_eq_comm (pos a) (pos b) = ground arith
version_eq_comm (pos a) (negsuc b) = refl
version_eq_comm (negsuc a) (pos b) = refl
version_eq_comm (negsuc a) (negsuc b) = ground arith

offers_lem :
    (v : VersionNumber) (theirs : List VersionNumber)
    → offers v theirs ≡ is_supported_version theirs v
unfolding offers is_supported_version
offers_lem v [] = refl
offers_lem v (t ∷ theirs) = rw (version_eq_comm v t, offers_lem v theirs) refl

-- Our versions that the peer supports too, in our order.
unfoldable pub common_versions : List VersionNumber → List VersionNumber → List VersionNumber
common_versions [] theirs = []
common_versions (v ∷ ours) theirs =
    let rest = common_versions ours theirs in
    if is_supported_version theirs v then v ∷ rest else rest

abbrev pub head_or : VersionNumber → List VersionNumber → VersionNumber
head_or v [] = v
head_or v (w ∷ ws) = w

-- ChooseSupportedVersion gives the first of our versions that the peer supports too, and
-- VersionUnsupported if there is none.
pub choose_supported_version_lem :
    (ours theirs : List VersionNumber)
    → choose_supported_version ours theirs
      ≡ head_or version_unsupported (common_versions ours theirs)
unfolding choose_supported_version common_versions
choose_supported_version_lem [] theirs = refl
choose_supported_version_lem (v ∷ ours) theirs =
    rw (offers_lem v theirs) (ground (arith, choose_supported_version_lem ours theirs))
