-- ===== src/Storage/Apart.antt =====
-- The keys of infos and of values, apart from each other and from all others.
use spacesvm.Prelude.{◌≡◌, ◌≢◌, refl, false, Bytes, bytes_eq, length}
use spacesvm.Keys.{
  prefix_block_key, prefix_tx_value_key, prefix_pruning_key, space_info_key, space_value_key,
  prefix_expiry_key, prefix_owned_key, prefix_tx_key, prefix_balance_key,
}
use spacesvm.Keys.Encoding.{StoreKey, encode, encode_ne}

-- Keys under which no info and no value stands.
abbrev pub IsAside : StoreKey → Type 0
IsAside (StoreKey.info _) = ⊥
IsAside (StoreKey.value _ _) = ⊥
IsAside _ = Unit

aside-info : (k : StoreKey) (s : Bytes) → IsAside k → bytes_eq (encode k) (space_info_key s) ≡ false
unfolding encode space_info_key space_value_key prefix_block_key prefix_tx_key prefix_tx_value_key
    prefix_expiry_key prefix_pruning_key prefix_balance_key prefix_owned_key bytes_eq
aside-info StoreKey.accepted s a = refl
aside-info (StoreKey.block b) s a = refl
aside-info (StoreKey.tx b) s a = refl
aside-info (StoreKey.tx_value b) s a = refl
aside-info (StoreKey.expiry t r) s a = refl
aside-info (StoreKey.pruning t r) s a = refl
aside-info (StoreKey.balance b) s a = refl
aside-info (StoreKey.owned b c) s a = refl
aside-info (StoreKey.info _) s a = absurd a
aside-info (StoreKey.value _ _) s a = absurd a

aside-value :
    (k : StoreKey) (r key : Bytes) → IsAside k → bytes_eq (encode k) (space_value_key r key) ≡ false
unfolding encode space_info_key space_value_key prefix_block_key prefix_tx_key prefix_tx_value_key
    prefix_expiry_key prefix_pruning_key prefix_balance_key prefix_owned_key bytes_eq
aside-value StoreKey.accepted r key a = refl
aside-value (StoreKey.block b) r key a = refl
aside-value (StoreKey.tx b) r key a = refl
aside-value (StoreKey.tx_value b) r key a = refl
aside-value (StoreKey.expiry t q) r key a = refl
aside-value (StoreKey.pruning t q) r key a = refl
aside-value (StoreKey.balance b) r key a = refl
aside-value (StoreKey.owned b c) r key a = refl
aside-value (StoreKey.info _) r key a = absurd a
aside-value (StoreKey.value _ _) r key a = absurd a

-- Infos and values never share a key.
pub info-value : (s r key : Bytes) → bytes_eq (space_info_key s) (space_value_key r key) ≡ false
unfolding space_info_key space_value_key bytes_eq
info-value s r key = refl

value-info : (s r key : Bytes) → bytes_eq (space_value_key r key) (space_info_key s) ≡ false
unfolding space_info_key space_value_key bytes_eq
value-info s r key = refl

pub info-info : (s t : Bytes) → s ≢ t → bytes_eq (space_info_key s) (space_info_key t) ≡ false
unfolding encode
info-info s t h = encode_ne (StoreKey.info s) (StoreKey.info t) tt tt (λ e. h (cc))

value-value :
    (q r k j : Bytes)
    → length q ≡ 20
    → length r ≡ 20
    → q ≢ r
    → bytes_eq (space_value_key q k) (space_value_key r j) ≡ false
unfolding encode
value-value q r k j a b h = encode_ne (StoreKey.value q k) (StoreKey.value r j) a b (λ e. h (cc))

-- A key under which no info stands, and no value of the raw space `r`.
pub record IsAway (r k : Bytes) : Type 0 where
  pub info : (t : Bytes) → bytes_eq k (space_info_key t) ≡ false
  pub value : (key : Bytes) → bytes_eq k (space_value_key r key) ≡ false

pub aside-IsAway : (r : Bytes) (k : StoreKey) → IsAside k → IsAway r (encode k)
aside-IsAway r k a = record { info = λ t. aside-info k t a; value = λ key. aside-value k r key a }

pub value-IsAway :
    (r q key : Bytes) → length r ≡ 20 → length q ≡ 20 → q ≢ r → IsAway r (space_value_key q key)
value-IsAway r q key l m h = record {
  info = λ t. value-info t q key;
  value = λ j. value-value q r key j m l h;
}
