-- ===== src/Platform.antt =====
-- What the program calls and does not implement: the key-value database of avalanchego, and the
-- hashes, signatures and codecs of avalanchego and go-ethereum. The laws are what their
-- documentation says; `Platform.Sample` shows that they can hold together.
pub mod Sample
use spacesvm.Prelude.{
  ℕ, ◌+◌, ◌-◌, ◌≤◌, ◌<◌, ◌≡◌, ◌≢◌, ◌↔◌, ◌⊎◌, Bool, true, false, Option, none, some, List, [], ◌∷◌,
  Bytes, Ordering, bytes_eq, bytes_compare, has_prefix, length, u64, leb, ltb, ◌==◌, add64, sub64,
  if◌then◌else◌,
}
use spacesvm.Types.{SpaceInfo, ValueMeta, UnsignedTransaction, Transaction, StatefulBlock}

-- `x` is in the list.
abbrev pub In : {A : Type 0} → A → List A → Type 0
In x [] = ⊥
In x (y ∷ l) = (x ≡ y) ⊎ In x l

-- `k` is before every key of the list.
abbrev pub Before : Bytes → List (Bytes × Bytes) → Type 0
Before k [] = Unit
Before k ((j, v) ∷ l) = (bytes_compare k j ≡ Ordering.lt) × Before k l

abbrev pub Ascending : List (Bytes × Bytes) → Type 0
Ascending [] = Unit
Ascending ((k, v) ∷ l) = Before k l × Ascending l

-- avalanchego/database. The database is open and its reads and writes do not fail: `get` is `none`
-- for ErrNotFound. `iterate d k` is what a cursor of NewIteratorWithStart(k) goes through: a
-- snapshot of the entries from `k` on, in the order of the keys. `clear_prefix` is ClearPrefix.
pub record Database : Type 1 where
  pub Db : Type 0
  pub get : Db → Bytes → Option Bytes
  pub put : Db → Bytes → Bytes → Db
  pub delete : Db → Bytes → Db
  pub iterate : Db → Bytes → List (Bytes × Bytes)
  pub clear_prefix : Db → Bytes → Db
  pub get-put :
      (d : Db) (k v j : Bytes) → get (put d k v) j ≡ (if bytes_eq k j then some v else get d j)
  pub get-delete :
      (d : Db) (k j : Bytes) → get (delete d k) j ≡ (if bytes_eq k j then none else get d j)
  pub get-clear_prefix :
      (d : Db) (p j : Bytes) → get (clear_prefix d p) j ≡ (if has_prefix p j then none else get d j)
  pub in-iterate :
      (d : Db) (start k v : Bytes)
      → In (k, v) (iterate d start) ↔ ((get d k ≡ some v) × (bytes_compare start k ≢ Ordering.gt))
  pub iterate-Ascending : (d : Db) (start : Bytes) → Ascending (iterate d start)

-- The rest: ids, hashing, crypto, common, common/math, codec, and the EIP-712 digest of tdata.
pub record Platform : Type 0 where
  -- crypto.Keccak256, hashing.ComputeHash160
  pub keccak256 : Bytes → Bytes
  pub hash160 : Bytes → Bytes
  -- ids.ToID, ids.ToShortID; `none` is the error for another length
  pub to_id : Bytes → Option Bytes
  pub to_short_id : Bytes → Option Bytes
  -- math.SafeAdd, math.SafeSub: the wrapped result, and whether it wrapped
  pub safe_add : ℕ → ℕ → ℕ × Bool
  pub safe_sub : ℕ → ℕ → ℕ × Bool
  -- common.BytesToAddress; Address.Hex and common.BytesToHash(·).Hex as text
  pub bytes_to_address : Bytes → Bytes
  pub address_hex : Bytes → Bytes
  pub hash_hex : Bytes → Bytes
  -- tdata.DigestHash of TypedData; crypto.SigToPub followed by crypto.PubkeyToAddress
  pub digest : UnsignedTransaction → Option Bytes
  pub recover : Bytes → Bytes → Option Bytes
  -- chain.Marshal and chain.Unmarshal at each type; `none` is an error
  pub marshal_info : SpaceInfo → Bytes
  pub unmarshal_info : Bytes → Option SpaceInfo
  pub marshal_meta : ValueMeta → Bytes
  pub unmarshal_meta : Bytes → Option ValueMeta
  pub marshal_tx : UnsignedTransaction → Bytes → Option Bytes

-- What the program relies on of them.
pub record IsLawful (p : Platform) : Type 0 where
  pub length-keccak256 : (b : Bytes) → length (p.keccak256 b) ≡ 32
  pub length-hash160 : (b : Bytes) → length (p.hash160 b) ≡ 20
  pub to_id_lem : (b : Bytes) → p.to_id b ≡ (if length b == 32 then some b else none)
  pub to_short_id_lem : (b : Bytes) → p.to_short_id b ≡ (if length b == 20 then some b else none)
  pub safe_add_lem : (a b : ℕ) → a < u64 → b < u64 → p.safe_add a b ≡ (add64 a b, leb u64 (a + b))
  pub safe_sub_lem : (a b : ℕ) → a < u64 → b < u64 → p.safe_sub a b ≡ (sub64 a b, ltb a b)
  pub bytes_to_address_lem : (b : Bytes) → length b ≡ 20 → p.bytes_to_address b ≡ b
  pub unmarshal-marshal_info : (i : SpaceInfo) → p.unmarshal_info (p.marshal_info i) ≡ some i
  pub unmarshal-marshal_meta : (m : ValueMeta) → p.unmarshal_meta (p.marshal_meta m) ≡ some m
