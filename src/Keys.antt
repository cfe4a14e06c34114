-- ===== src/Keys.antt =====
-- The key builders of chain/storage.go: a one-byte prefix, the delimiter, and the fields.
pub mod Times
pub mod Encoding
use spacesvm.Prelude.{
  ℕ, zero, suc, ◌+◌, ◌*◌, ◌/◌, ◌%◌, ◌<◌, ◌≡◌, Option, none, some, List, [], ◌∷◌, ◌++◌, Bytes,
  length, take, drop, u64, ◌==◌, if◌then◌else◌,
}
use spacesvm.Errors.{Result, ok, err, invalid_key_format, bad_id, ◌>>=◌}
use spacesvm.Parser.{byte_delimiter}
use spacesvm.Platform.{Platform}

abbrev pub block_prefix : ℕ
block_prefix = 0x0

abbrev pub tx_prefix : ℕ
tx_prefix = 0x1

abbrev pub tx_value_prefix : ℕ
tx_value_prefix = 0x2

abbrev pub info_prefix : ℕ
info_prefix = 0x3

abbrev pub key_prefix : ℕ
key_prefix = 0x4

abbrev pub expiry_prefix : ℕ
expiry_prefix = 0x5

abbrev pub pruning_prefix : ℕ
pruning_prefix = 0x6

abbrev pub balance_prefix : ℕ
balance_prefix = 0x7

abbrev pub owned_prefix : ℕ
owned_prefix = 0x8

abbrev pub short_id_len : ℕ
short_id_len = 20

abbrev pub address_length : ℕ
address_length = 20

-- the bytes of "last_accepted"
abbrev pub last_accepted : Bytes
last_accepted =
    b'l' ∷ b'a' ∷ b's' ∷ b't' ∷ b'_' ∷ b'a' ∷ b'c' ∷ b'c' ∷ b'e' ∷ b'p' ∷ b't' ∷ b'e' ∷ b'd' ∷ []

-- The lowest `n` bytes of a number, the highest first.
unfoldable pub big_endian : ℕ → ℕ → Bytes
big_endian zero t = []
big_endian (suc n) t = big_endian n (t / 256) ++ (t % 256) ∷ []

unfoldable pub from_big_endian : ℕ → Bytes → ℕ
from_big_endian acc [] = acc
from_big_endian acc (b ∷ bs) = from_big_endian (acc * 256 + b) bs

-- Go's binary.BigEndian.PutUint64 and Uint64
abbrev pub put_uint64 : ℕ → Bytes
put_uint64 t = big_endian 8 t

abbrev pub uint64 : Bytes → ℕ
uint64 b = from_big_endian 0 b

unfoldable pub prefix_block_key : Bytes → Bytes
prefix_block_key block_id = block_prefix ∷ byte_delimiter ∷ block_id

unfoldable pub prefix_tx_key : Bytes → Bytes
prefix_tx_key tx_id = tx_prefix ∷ byte_delimiter ∷ tx_id

unfoldable pub prefix_tx_value_key : Bytes → Bytes
prefix_tx_value_key tx_id = tx_value_prefix ∷ byte_delimiter ∷ tx_id

unfoldable pub space_info_key : Bytes → Bytes
space_info_key space = info_prefix ∷ byte_delimiter ∷ space

unfoldable pub space_value_key : Bytes → Bytes → Bytes
space_value_key rspace key = key_prefix ∷ byte_delimiter ∷ (rspace ++ byte_delimiter ∷ key)

unfoldable pub range_time_key : ℕ → ℕ → Bytes
range_time_key p t = p ∷ byte_delimiter ∷ (put_uint64 t ++ byte_delimiter ∷ [])

unfoldable pub specific_time_key : ℕ → ℕ → Bytes → Bytes
specific_time_key p t rspace = p ∷ byte_delimiter ∷ (put_uint64 t ++ byte_delimiter ∷ rspace)

unfoldable pub prefix_expiry_key : ℕ → Bytes → Bytes
unfolding specific_time_key
prefix_expiry_key expiry rspace = specific_time_key expiry_prefix expiry rspace

unfoldable pub prefix_pruning_key : ℕ → Bytes → Bytes
unfolding specific_time_key
prefix_pruning_key expired rspace = specific_time_key pruning_prefix expired rspace

unfoldable pub prefix_balance_key : Bytes → Bytes
prefix_balance_key address = balance_prefix ∷ byte_delimiter ∷ address

unfoldable pub prefix_owned_key : Bytes → Bytes → Bytes
prefix_owned_key address space = owned_prefix ∷ byte_delimiter ∷ (address ++ byte_delimiter ∷ space)

abbrev pub specific_time_key_len : ℕ
specific_time_key_len = 2 + 8 + 1 + short_id_len

-- The result of a call of another package that returns a value or an error.
abbrev pub or_error {ℓ} : {A : Type ℓ} → Option A → Result A
or_error (some a) = ok a
or_error none = err bad_id

module _ ⦃p : Platform⦄ where
  unfoldable pub extract_specific_time_key : Bytes → Result (ℕ × Bytes)
  extract_specific_time_key k =
      if length k == specific_time_key_len
      then (do
        rspace ← or_error (p.to_short_id (drop 11 k))
        ok (uint64 (take 8 (drop 2 k)), rspace))
      else err invalid_key_format

  unfoldable pub raw_space : Bytes → ℕ → Result Bytes
  raw_space space block_time =
      or_error (p.to_short_id (p.hash160 (space ++ byte_delimiter ∷ put_uint64 block_time)))
