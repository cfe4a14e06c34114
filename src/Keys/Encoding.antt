-- ===== src/Keys/Encoding.antt =====
-- The kinds of keys of chain/storage.go as data, and their encoding by the key builders.
use spacesvm.Prelude.{
  ℕ, ◌<◌, ◌≡◌, ◌≢◌, refl, ap, sym, ◌∙◌, [], ◌∷◌, ◌++◌, Bytes, length, take-append, drop-append_suc,
  length-append, u64, arith, bytes_eq, bytes_eq→eq, false, Bool-cases, inl, inr,
}
use spacesvm.Errors.{ok}
use spacesvm.Platform.{Platform, IsLawful}
use spacesvm.Keys.{
  put_uint64, uint64, prefix_block_key, prefix_tx_key, prefix_tx_value_key, space_info_key,
  space_value_key, specific_time_key, prefix_expiry_key, prefix_pruning_key, prefix_balance_key,
  prefix_owned_key, last_accepted, extract_specific_time_key,
}
use spacesvm.Keys.Times.{length-put_uint64, uint64-put_uint64}

-- The kinds of entry that the comment at the top of chain/storage.go lists.
pub data StoreKey : Type 0 where
  accepted : StoreKey
  block : (block_id : Bytes) → StoreKey
  tx : (tx_id : Bytes) → StoreKey
  tx_value : (tx_id : Bytes) → StoreKey
  info : (space : Bytes) → StoreKey
  value : (rspace key : Bytes) → StoreKey
  expiry : (time : ℕ) → (rspace : Bytes) → StoreKey
  pruning : (time : ℕ) → (rspace : Bytes) → StoreKey
  balance : (address : Bytes) → StoreKey
  owned : (address space : Bytes) → StoreKey

unfoldable pub encode : StoreKey → Bytes
encode accepted = last_accepted
encode (block i) = prefix_block_key i
encode (tx i) = prefix_tx_key i
encode (tx_value i) = prefix_tx_value_key i
encode (info s) = space_info_key s
encode (value r k) = space_value_key r k
encode (expiry t r) = prefix_expiry_key t r
encode (pruning t r) = prefix_pruning_key t r
encode (balance a) = prefix_balance_key a
encode (owned a s) = prefix_owned_key a s

-- The fields that stand before another field have their fixed length: raw spaces and addresses
-- have 20 bytes, times are uint64.
abbrev pub FitsKey : StoreKey → Type 0
FitsKey (value r k) = length r ≡ 20
FitsKey (expiry t r) = t < u64
FitsKey (pruning t r) = t < u64
FitsKey (owned a s) = length a ≡ 20
FitsKey _ = Unit

pub append_injective :
    {x y : Bytes} (a b : Bytes) → length a ≡ length b → a ++ x ≡ b ++ y → (a ≡ b) × (x ≡ y)
append_injective [] [] h e = (refl, e)
append_injective [] (d ∷ b) h e = absurd (omega arith)
append_injective (c ∷ a) [] h e = absurd (omega arith)
append_injective {x} {y} (c ∷ a) (d ∷ b) h e =
    let rest = append_injective {x = x} {y = y} a b (omega arith) (cc) in (cc, rest.1)

put_uint64_injective : (a b : ℕ) → a < u64 → b < u64 → put_uint64 a ≡ put_uint64 b → a ≡ b
put_uint64_injective a b h k e = sym (uint64-put_uint64 a h) ∙ ap uint64 e ∙ uint64-put_uint64 b k

time_injective :
    (t u : ℕ) (r q : Bytes)
    → put_uint64 t ++ 47 ∷ r ≡ put_uint64 u ++ 47 ∷ q
    → (put_uint64 t ≡ put_uint64 u) × (r ≡ q)
time_injective t u r q e =
    let p =
      append_injective {x = 47 ∷ r} {y = 47 ∷ q} (put_uint64 t) (put_uint64 u)
        (length-put_uint64 t ∙ sym (length-put_uint64 u)) e in
    (p.0, cc (p.1))

-- No two keys have one encoding, where raw spaces before a key and owners before a space have 20
-- bytes and times are less than 2^64.
pub encode_injective : (a b : StoreKey) → FitsKey a → FitsKey b → encode a ≡ encode b → a ≡ b
unfolding encode prefix_block_key prefix_tx_key prefix_tx_value_key space_info_key space_value_key
    prefix_expiry_key prefix_pruning_key prefix_balance_key prefix_owned_key
encode_injective accepted accepted fa fb e = refl
encode_injective (block i) (block j) fa fb e = cc
encode_injective (tx i) (tx j) fa fb e = cc
encode_injective (tx_value i) (tx_value j) fa fb e = cc
encode_injective (info s) (info t) fa fb e = cc
encode_injective (balance s) (balance t) fa fb e = cc
encode_injective (value r k) (value q j) fa fb e =
    let p = append_injective {x = 47 ∷ k} {y = 47 ∷ j} r q (fa ∙ sym fb) (cc) in cc (p.0, p.1)
encode_injective (owned r k) (owned q j) fa fb e =
    let p = append_injective {x = 47 ∷ k} {y = 47 ∷ j} r q (fa ∙ sym fb) (cc) in cc (p.0, p.1)
encode_injective (expiry r k) (expiry q j) fa fb e =
    let p = time_injective r q k j (cc) in cc (put_uint64_injective r q fa fb p.0, p.1)
encode_injective (pruning r k) (pruning q j) fa fb e =
    let p = time_injective r q k j (cc) in cc (put_uint64_injective r q fa fb p.0, p.1)
encode_injective _ _ fa fb e = ground arith

-- Different keys are told apart by the database.
pub encode_ne :
    (a b : StoreKey) → FitsKey a → FitsKey b → a ≢ b → bytes_eq (encode a) (encode b) ≡ false
encode_ne a b fa fb h = elim (Bool-cases (bytes_eq (encode a) (encode b))) [
  | inl e ↦ absurd (h (encode_injective a b fa fb (bytes_eq→eq (encode a) (encode b) e)))
  | inr e ↦ e
]

-- A time key gives its time and its raw space back, for a time less than 2^64 and a raw space of 20
-- bytes.
pub extract-specific_time_key :
    ⦃p : Platform⦄
    → IsLawful p
    → (prefix t : ℕ) (r : Bytes) → t < u64
    → length r ≡ 20
    → extract_specific_time_key (specific_time_key prefix t r) ≡ ok (t, r)
unfolding extract_specific_time_key specific_time_key
extract-specific_time_key ⦃p⦄ laws prefix t r h l =
    let eight = length-put_uint64 t in
    rw
      (
        drop-append_suc 8 (put_uint64 t) 47 r eight,
        take-append 8 (put_uint64 t) (47 ∷ r) eight,
        uint64-put_uint64 t h,
        laws.to_short_id_lem r,
      )
      (ground (arith, eight, length-append (put_uint64 t) (47 ∷ r)))
