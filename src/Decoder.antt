-- ===== src/Decoder.antt =====
-- chain/decoder.go with TypedData of the six transactions: what a user is shown and signs, and how it
-- is read back. A field of the message has one of the names that the file lists; `none` as a type is
-- any string that names no transaction. Of tdata's TypedData the types of the message are kept, and
-- of the domain the magic number.
pub mod Roundtrip
use spacesvm.Prelude.{ℕ, Bool, true, false, Option, none, some, List, [], ◌∷◌, Bytes, if◌then◌else◌}
use spacesvm.Errors.{
  Result, ok, err, invalid_type, typed_data_key_missing, bad_encoding, bad_id, ◌>>=◌,
}
use spacesvm.Types.{
  BaseTx, UnsignedTransaction, claim_tx, lifeline_tx, set_tx, delete_tx, move_tx, transfer_tx,
  ActivityType, claim, lifeline, set, delete, move, transfer, reward,
}
use spacesvm.Genesis.{empty_id}

-- strconv, hexutil, common and ids on texts; `none` is an error
pub record TextFormats : Type 0 where
  pub format_uint : ℕ → Bytes
  pub parse_uint : Bytes → Option ℕ
  pub id_string : Bytes → Bytes
  pub id_from_string : Bytes → Option Bytes
  pub hex_encode : Bytes → Bytes
  pub hex_decode : Bytes → Option Bytes
  pub address_hex : Bytes → Bytes
  pub hex_to_address : Bytes → Bytes

pub data Field : Type 0 where
  td_block_id td_price td_space td_key td_value td_units td_to : Field

pub data FieldType : Type 0 where
  td_string td_uint64 td_bytes td_address : FieldType

unfoldable pub same_field : Field → Field → Bool
same_field td_block_id td_block_id = true
same_field td_price td_price = true
same_field td_space td_space = true
same_field td_key td_key = true
same_field td_value td_value = true
same_field td_units td_units = true
same_field td_to td_to = true
same_field _ _ = false

-- a value of the message: a string, or something else that JSON has
pub data FieldValue : Type 0 where
  text : Bytes → FieldValue
  other : FieldValue

pub record TypedData : Type 0 where
  pub types : List (Field × FieldType)
  pub primary_type : Option ActivityType
  pub magic : Bytes
  pub message : List (Field × FieldValue)

-- a read from the map; `none` where the key is missing
unfoldable pub find_field : List (Field × FieldValue) → Field → Option FieldValue
find_field [] k = none
find_field ((f, v) ∷ l) k = if same_field f k then some v else find_field l k

-- `td.Message[k].(string)` with its test
abbrev pub text_of : Option FieldValue → Result Bytes
text_of (some (text s)) = ok s
text_of (some other) = err typed_data_key_missing
text_of none = err typed_data_key_missing

unfoldable pub string_field : TypedData → Field → Result Bytes
string_field td k = text_of (find_field td.message k)

abbrev pub parsed {ℓ} : {A : Type ℓ} → Option A → Result A
parsed none = err bad_encoding
parsed (some a) = ok a

pub record Input : Type 0 where
  pub typ : Option ActivityType
  pub space : Bytes
  pub key : Bytes
  pub value : Bytes
  pub to : Bytes
  pub units : ℕ

-- `&BaseTx{}`
abbrev pub blank_base : BaseTx
blank_base = record { block_id = empty_id; magic = 0; price = 0 }

abbrev pub decode_as : Input → Option ActivityType → Result UnsignedTransaction
decode_as i (some claim) = ok (claim_tx blank_base i.space)
decode_as i (some lifeline) = ok (lifeline_tx blank_base i.space i.units)
decode_as i (some set) = ok (set_tx blank_base i.space i.key i.value)
decode_as i (some delete) = ok (delete_tx blank_base i.space i.key)
decode_as i (some move) = ok (move_tx blank_base i.space i.to)
decode_as i (some transfer) = ok (transfer_tx blank_base i.to i.units)
decode_as i (some reward) = err invalid_type
decode_as i none = err invalid_type

unfoldable pub decode : Input → Result UnsignedTransaction
decode i = decode_as i i.typ

module _ (t : TextFormats) where
  -- the fields that every transaction ends with
  abbrev pub base_fields : BaseTx → List (Field × FieldValue)
  base_fields b =
      (td_price, text (t.format_uint b.price)) ∷ (td_block_id, text (t.id_string b.block_id)) ∷ []

  -- tdata.CreateTypedData
  unfoldable pub create_typed_data :
      ℕ → ActivityType → List (Field × FieldType) → List (Field × FieldValue) → TypedData
  create_typed_data magic typ fields message = record {
    types = fields;
    primary_type = some typ;
    magic = t.format_uint magic;
    message = message;
  }

  abbrev pub claim_typed_data : BaseTx → Bytes → TypedData
  claim_typed_data b space =
      create_typed_data b.magic claim
        ((td_space, td_string) ∷ (td_price, td_uint64) ∷ (td_block_id, td_string) ∷ [])
        ((td_space, text space) ∷ base_fields b)

  abbrev pub lifeline_typed_data : BaseTx → Bytes → ℕ → TypedData
  lifeline_typed_data b space units =
      create_typed_data b.magic lifeline
        ((td_space, td_string)
          ∷ (td_units, td_uint64)
          ∷ (td_price, td_uint64)
          ∷ (td_block_id, td_string)
          ∷ [])
        ((td_space, text space) ∷ (td_units, text (t.format_uint units)) ∷ base_fields b)

  abbrev pub set_typed_data : BaseTx → Bytes → Bytes → Bytes → TypedData
  set_typed_data b space key value =
      create_typed_data b.magic set
        ((td_space, td_string)
          ∷ (td_key, td_string)
          ∷ (td_value, td_bytes)
          ∷ (td_price, td_uint64)
          ∷ (td_block_id, td_string)
          ∷ [])
        ((td_space, text space)
          ∷ (td_key, text key)
          ∷ (td_value, text (t.hex_encode value))
          ∷ base_fields b)

  abbrev pub delete_typed_data : BaseTx → Bytes → Bytes → TypedData
  delete_typed_data b space key =
      create_typed_data b.magic delete
        ((td_space, td_string)
          ∷ (td_key, td_string)
          ∷ (td_price, td_uint64)
          ∷ (td_block_id, td_string)
          ∷ [])
        ((td_space, text space) ∷ (td_key, text key) ∷ base_fields b)

  abbrev pub move_typed_data : BaseTx → Bytes → Bytes → TypedData
  move_typed_data b space to =
      create_typed_data b.magic move
        ((td_space, td_string)
          ∷ (td_to, td_address)
          ∷ (td_price, td_uint64)
          ∷ (td_block_id, td_string)
          ∷ [])
        ((td_space, text space) ∷ (td_to, text (t.address_hex to)) ∷ base_fields b)

  abbrev pub transfer_typed_data : BaseTx → Bytes → ℕ → TypedData
  transfer_typed_data b to units =
      create_typed_data b.magic transfer
        ((td_to, td_address)
          ∷ (td_units, td_uint64)
          ∷ (td_price, td_uint64)
          ∷ (td_block_id, td_string)
          ∷ [])
        ((td_to, text (t.address_hex to)) ∷ (td_units, text (t.format_uint units)) ∷ base_fields b)

  unfoldable pub typed_data : UnsignedTransaction → TypedData
  typed_data (claim_tx b space) = claim_typed_data b space
  typed_data (lifeline_tx b space units) = lifeline_typed_data b space units
  typed_data (set_tx b space key value) = set_typed_data b space key value
  typed_data (delete_tx b space key) = delete_typed_data b space key
  typed_data (move_tx b space to) = move_typed_data b space to
  typed_data (transfer_tx b to units) = transfer_typed_data b to units

  unfoldable pub parse_uint64_message : TypedData → Field → Result ℕ
  parse_uint64_message td k = do r ← string_field td k; parsed (t.parse_uint r)

  unfoldable pub parse_base_tx : TypedData → Result BaseTx
  parse_base_tx td = do
    rblock_id ← string_field td td_block_id
    block_id ← parsed (t.id_from_string rblock_id)
    magic ← parsed (t.parse_uint td.magic)
    price ← parse_uint64_message td td_price
    ok (record { block_id = block_id; magic = magic; price = price })

  -- the cases of ParseTypedData
  abbrev pub parse_as : TypedData → BaseTx → Option ActivityType → Result UnsignedTransaction
  parse_as td b (some claim) = do space ← string_field td td_space; ok (claim_tx b space)
  parse_as td b (some lifeline) = do
    space ← string_field td td_space
    units ← parse_uint64_message td td_units
    ok (lifeline_tx b space units)
  parse_as td b (some set) = do
    space ← string_field td td_space
    key ← string_field td td_key
    rvalue ← string_field td td_value
    value ← parsed (t.hex_decode rvalue)
    ok (set_tx b space key value)
  parse_as td b (some delete) = do
    space ← string_field td td_space
    key ← string_field td td_key
    ok (delete_tx b space key)
  parse_as td b (some move) = do
    space ← string_field td td_space
    to ← string_field td td_to
    ok (move_tx b space (t.hex_to_address to))
  parse_as td b (some transfer) = do
    to ← string_field td td_to
    units ← parse_uint64_message td td_units
    ok (transfer_tx b (t.hex_to_address to) units)
  parse_as td b (some reward) = err invalid_type
  parse_as td b none = err invalid_type

  unfoldable pub parse_typed_data : TypedData → Result UnsignedTransaction
  parse_typed_data td = do b ← parse_base_tx td; parse_as td b td.primary_type
