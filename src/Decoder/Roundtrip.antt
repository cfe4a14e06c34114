-- ===== src/Decoder/Roundtrip.antt =====
-- What chain/decoder.go reads back from the typed data of a transaction.
use spacesvm.Prelude.{ℕ, ◌<◌, ◌≡◌, refl, some, List, [], ◌∷◌, Bytes, u64, length}
use spacesvm.Errors.{ok}
use spacesvm.Types.{
  BaseTx, UnsignedTransaction, claim_tx, lifeline_tx, set_tx, delete_tx, move_tx, transfer_tx,
}
use spacesvm.Tx.{base}
use spacesvm.Decoder.{
  TextFormats, Field, td_block_id, td_price, FieldType, td_string, td_uint64, td_bytes, td_address,
  FieldValue, text, other, same_field, find_field, string_field, base_fields, create_typed_data,
  typed_data, parse_uint64_message, parse_base_tx, parse_typed_data,
}

-- What the packages document of their texts.
pub record IsFaithful (t : TextFormats) : Type 0 where
  pub parse-format_uint : (n : ℕ) → n < u64 → t.parse_uint (t.format_uint n) ≡ some n
  pub from-id_string : (id : Bytes) → length id ≡ 32 → t.id_from_string (t.id_string id) ≡ some id
  pub decode-hex_encode : (v : Bytes) → t.hex_decode (t.hex_encode v) ≡ some v
  pub from-address_hex : (a : Bytes) → length a ≡ 20 → t.hex_to_address (t.address_hex a) ≡ a

-- The values have the ranges of their Go types.
abbrev pub IsInRange : UnsignedTransaction → Type 0
IsInRange (lifeline_tx b space units) = units < u64
IsInRange (move_tx b space to) = length to ≡ 20
IsInRange (transfer_tx b to units) = (length to ≡ 20) × (units < u64)
IsInRange _ = Unit

-- The typed data of a transaction in the ranges of its Go types is parsed to the same transaction.
pub parse-typed_data :
    (t : TextFormats) (u : UnsignedTransaction)
    → IsFaithful t
    → length (base u).block_id ≡ 32
    → (base u).magic < u64
    → (base u).price < u64
    → IsInRange u
    → parse_typed_data t (typed_data t u) ≡ ok u
unfolding parse_typed_data typed_data create_typed_data parse_base_tx parse_uint64_message
    string_field find_field same_field base
parse-typed_data t (claim_tx b space) f id magic price r =
    rw
      (
        f.from-id_string b.block_id id,
        f.parse-format_uint b.magic magic,
        f.parse-format_uint b.price price,
      )
      refl
parse-typed_data t (lifeline_tx b space units) f id magic price r =
    rw
      (
        f.from-id_string b.block_id id,
        f.parse-format_uint b.magic magic,
        f.parse-format_uint b.price price,
        f.parse-format_uint units r,
      )
      refl
parse-typed_data t (set_tx b space key value) f id magic price r =
    rw
      (
        f.from-id_string b.block_id id,
        f.parse-format_uint b.magic magic,
        f.parse-format_uint b.price price,
        f.decode-hex_encode value,
      )
      refl
parse-typed_data t (delete_tx b space key) f id magic price r =
    rw
      (
        f.from-id_string b.block_id id,
        f.parse-format_uint b.magic magic,
        f.parse-format_uint b.price price,
      )
      refl
parse-typed_data t (move_tx b space to) f id magic price r =
    rw
      (
        f.from-id_string b.block_id id,
        f.parse-format_uint b.magic magic,
        f.parse-format_uint b.price price,
        f.from-address_hex to r,
      )
      refl
parse-typed_data t (transfer_tx b to units) f id magic price (r, n) =
    rw
      (
        f.from-id_string b.block_id id,
        f.parse-format_uint b.magic magic,
        f.parse-format_uint b.price price,
        f.from-address_hex to r,
        f.parse-format_uint units n,
      )
      refl

-- The value can be read at the type.
abbrev pub Fits : TextFormats → FieldType → FieldValue → Type 0
Fits t td_string (text s) = Unit
Fits t td_uint64 (text s) = (n : ℕ) × (t.parse_uint s ≡ some n)
Fits t td_bytes (text s) = (v : Bytes) × (t.hex_decode s ≡ some v)
Fits t td_address (text s) = (a : Bytes) × (s ≡ t.address_hex a)
Fits t ty other = ⊥

-- The same fields, each with a value of its type.
abbrev pub Conforms : TextFormats → List (Field × FieldType) → List (Field × FieldValue) → Type 0
Conforms t [] [] = Unit
Conforms t ((f, ty) ∷ types) ((k, v) ∷ message) = (f ≡ k) × Fits t ty v × Conforms t types message
Conforms t _ _ = ⊥

base_fields-Conforms :
    (t : TextFormats) (b : BaseTx)
    → IsFaithful t
    → b.price < u64
    → Conforms t ((td_price, td_uint64) ∷ (td_block_id, td_string) ∷ []) (base_fields t b)
base_fields-Conforms t b f price =
    (refl, (b.price, f.parse-format_uint b.price price), (refl, tt, tt))

-- The message of a transaction in the ranges of its Go types has exactly the fields that its types
-- list, and each has a text that can be read at its type.
pub typed_data-Conforms :
    (t : TextFormats) (u : UnsignedTransaction)
    → IsFaithful t
    → (base u).price < u64
    → IsInRange u
    → Conforms t (typed_data t u).types (typed_data t u).message
unfolding typed_data create_typed_data base
typed_data-Conforms t (claim_tx b space) f price r = (refl, tt, base_fields-Conforms t b f price)
typed_data-Conforms t (lifeline_tx b space units) f price r =
    (refl, tt, (refl, (units, f.parse-format_uint units r), base_fields-Conforms t b f price))
typed_data-Conforms t (set_tx b space key value) f price r = (
  refl,
  tt,
  (refl, tt, (refl, (value, f.decode-hex_encode value), base_fields-Conforms t b f price)),
)
typed_data-Conforms t (delete_tx b space key) f price r =
    (refl, tt, (refl, tt, base_fields-Conforms t b f price))
typed_data-Conforms t (move_tx b space to) f price r =
    (refl, tt, (refl, (to, refl), base_fields-Conforms t b f price))
typed_data-Conforms t (transfer_tx b to units) f price (_, r) = (
  refl,
  (to, refl),
  (refl, (units, f.parse-format_uint units r), base_fields-Conforms t b f price),
)
