-- ===== src/Tests/Texts.antt =====
-- Paths and keys.
use spacesvm.Prelude.{◌≡◌, ◌↔◌, refl, [], ◌∷◌, ◌++◌, arith, bytes_compare, Ordering}
use spacesvm.Errors.{ok}
use spacesvm.Parser.{byte_delimiter, IsIdentifier, resolve_path}
use spacesvm.Parser.Paths.{resolve_path_iff}
use spacesvm.Platform.Sample.{sample_platform, sample-IsLawful}
use spacesvm.Keys.{extract_specific_time_key, specific_time_key, range_time_key, expiry_prefix}
use spacesvm.Keys.Times.{compare-range_time_key}
use spacesvm.Keys.Encoding.{StoreKey, encode_injective, extract-specific_time_key}
use spacesvm.Tests.{address}

resolve_path_iff_example : (resolve_path (b'a' ∷ b'/' ∷ b'k' ∷ []) ≡ ok (b'a' ∷ [], b'k' ∷ [])) ↔ (
    ((b'a' ∷ b'/' ∷ b'k' ∷ []) ≡ (b'a' ∷ []) ++ byte_delimiter ∷ b'k' ∷ [])
    × IsIdentifier (b'a' ∷ [])
    × IsIdentifier (b'k' ∷ []))
resolve_path_iff_example = resolve_path_iff (b'a' ∷ b'/' ∷ b'k' ∷ []) (b'a' ∷ []) (b'k' ∷ [])

encode_injective_example :
    StoreKey.value (address 3) (b'k' ∷ []) ≡ StoreKey.value (address 3) (b'k' ∷ [])
encode_injective_example =
    encode_injective (StoreKey.value (address 3) (b'k' ∷ []))
      (StoreKey.value (address 3) (b'k' ∷ [])) refl refl refl

extract-specific_time_key_example :
    extract_specific_time_key (specific_time_key expiry_prefix 1000 (address 3))
    ≡ ok (1000, address 3)
extract-specific_time_key_example =
    extract-specific_time_key sample-IsLawful expiry_prefix 1000 (address 3) (omega arith) refl

compare-range_time_key_example :
    bytes_compare
      (range_time_key expiry_prefix 255)
      (specific_time_key expiry_prefix 256 (address 3))
    ≡ Ordering.lt
compare-range_time_key_example =
    compare-range_time_key expiry_prefix 255 256 (address 3) (omega arith) (omega arith) refl
