-- ===== src/Protocol/Version.antt =====
-- mpquic_trans/internal/protocol/version.go: version numbers are a signed type, since two of them are
-- negative. A `rune` constant is its code.
pub mod Tags
mod Tests
use agg_deliv.Common.{
  ℕ, ◌+◌, ◌-◌, ◌*◌, ◌/◌, ◌%◌, ◌^◌, Bool, true, false, ltb, ◌==◌, List, [], ◌∷◌, if◌then◌else◌,
}

-- A Go `int`; `negsuc n` is -(n + 1).
pub data VersionNumber : Type 0 where
  pos : ℕ → VersionNumber
  negsuc : ℕ → VersionNumber

abbrev pub version37 : VersionNumber
version37 = pos 37

abbrev pub version38 : VersionNumber
version38 = pos 38

abbrev pub version39 : VersionNumber
version39 = pos 39

abbrev pub version_mp : VersionNumber
version_mp = pos 512

abbrev pub version_unsupported : VersionNumber
version_unsupported = negsuc 0

-- The order of the signed numbers.
abbrev pub version_lt : VersionNumber → VersionNumber → Bool
version_lt (pos a) (pos b) = ltb a b
version_lt (pos a) (negsuc b) = false
version_lt (negsuc a) (pos b) = true
version_lt (negsuc a) (negsuc b) = ltb b a

abbrev pub version_eq : VersionNumber → VersionNumber → Bool
version_eq (pos a) (pos b) = a == b
version_eq (pos a) (negsuc b) = false
version_eq (negsuc a) (pos b) = false
version_eq (negsuc a) (negsuc b) = a == b

-- The conversion to uint32.
abbrev pub uint32_of : VersionNumber → ℕ
uint32_of (pos n) = n % 2 ^ 32
uint32_of (negsuc n) = (2 ^ 32 - 1 - n % 2 ^ 32) % 2 ^ 32

-- 'Q' is 81 and '0' is 48.
unfoldable pub version_number_to_tag : VersionNumber → ℕ
version_number_to_tag vn =
    let v = uint32_of vn in
    (81 + (v / 100 % 10 + 48) * 2 ^ 8 + (v / 10 % 10 + 48) * 2 ^ 16 + (v % 10 + 48) * 2 ^ 24)
    % 2 ^ 32

-- A byte of the tag less '0', in uint32.
abbrev pub digit : ℕ → ℕ → ℕ
digit k v = (v / 2 ^ k % 256 + 2 ^ 32 - 48) % 2 ^ 32

unfoldable pub version_tag_to_number : ℕ → VersionNumber
version_tag_to_number v = pos ((digit 8 v * 100 + digit 16 v * 10 + digit 24 v) % 2 ^ 32)

unfoldable pub is_supported_version : List VersionNumber → VersionNumber → Bool
is_supported_version [] v = false
is_supported_version (t ∷ supported) v =
    let rest = is_supported_version supported v in if version_eq t v then true else rest

-- The inner loop is a search for a version of theirs that is `our_ver`.
unfoldable pub offers : VersionNumber → List VersionNumber → Bool
offers our_ver [] = false
offers our_ver (their_ver ∷ theirs) =
    let rest = offers our_ver theirs in if version_eq our_ver their_ver then true else rest

unfoldable pub choose_supported_version : List VersionNumber → List VersionNumber → VersionNumber
unfolding offers
choose_supported_version [] theirs = version_unsupported
choose_supported_version (our_ver ∷ ours) theirs =
    let rest = choose_supported_version ours theirs in
    if offers our_ver theirs then our_ver else rest
