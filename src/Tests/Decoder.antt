-- ===== src/Tests/Decoder.antt =====
-- Texts that hold the values themselves.
use spacesvm.Prelude.{
  ℕ, ◌≡◌, refl, Option, none, some, [], ◌∷◌, Bytes, u64, ltb, lt→ltb, if◌then◌else◌, arith,
}
use spacesvm.Errors.{ok}
use spacesvm.Types.{UnsignedTransaction, transfer_tx}
use spacesvm.Tx.{base}
use spacesvm.Decoder.{TextFormats, typed_data, parse_typed_data}
use spacesvm.Decoder.Roundtrip.{IsFaithful, Conforms, parse-typed_data, typed_data-Conforms}
use spacesvm.Tests.{address, base_tx}

abbrev read_number : Bytes → Option ℕ
read_number (n ∷ []) = if ltb n u64 then some n else none
read_number _ = none

abbrev plain : TextFormats
plain = record {
  format_uint = λ n. n ∷ [];
  parse_uint = read_number;
  id_string = λ id. id;
  id_from_string = some;
  hex_encode = λ v. v;
  hex_decode = some;
  address_hex = λ a. a;
  hex_to_address = λ s. s;
}

plain-IsFaithful : IsFaithful plain
plain-IsFaithful = record {
  parse-format_uint = λ n h. rw (lt→ltb n u64 h) refl;
  from-id_string = λ id h. refl;
  decode-hex_encode = λ v. refl;
  from-address_hex = λ a h. refl;
}

abbrev payment : UnsignedTransaction
payment = transfer_tx (base_tx 3) (address 4) 5

parse-typed_data_example : parse_typed_data plain (typed_data plain payment) ≡ ok payment
unfolding base
parse-typed_data_example =
    parse-typed_data plain payment plain-IsFaithful refl (omega arith) (omega arith)
      (refl, omega arith)

typed_data-Conforms_example :
    Conforms plain (typed_data plain payment).types (typed_data plain payment).message
unfolding base
typed_data-Conforms_example =
    typed_data-Conforms plain payment plain-IsFaithful (omega arith) (refl, omega arith)
