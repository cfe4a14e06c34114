-- ===== src/Genesis.antt =====
-- chain/genesis.go: the parameters of a chain and its first balances. LookbackWindow and
-- TargetBlockRate are int64 in Go; they are not negative here.
use spacesvm.Prelude.{
  ℕ, ◌*◌, Bool, true, not, Option, none, some, List, [], ◌∷◌, Bytes, bytes_eq, length, ltb, ◌==◌,
  if◌then◌else◌,
}
use spacesvm.Errors.{
  Result, ok, err, invalid_magic, invalid_block_rate, airdrop_mismatch, bad_encoding,
}
use spacesvm.Exec.{Exec, return, fail, ◌>>◌}
use spacesvm.Platform.{Database, Platform}
use spacesvm.Types.{StatefulBlock}
use spacesvm.Storage.Balances.{set_balance}

abbrev pub lottery_reward_divisor : ℕ
lottery_reward_divisor = 100

abbrev pub min_block_cost : ℕ
min_block_cost = 0

pub record CustomAllocation : Type 0 where
  pub address : Bytes
  pub balance : ℕ

pub record Genesis : Type 0 where
  pub magic : ℕ
  pub base_tx_units : ℕ
  pub value_unit_size : ℕ
  pub max_value_size : ℕ
  pub value_expiry_discount : ℕ
  pub claim_load_multiplier : ℕ
  pub min_claim_fee : ℕ
  pub space_desirability_multiplier : ℕ
  pub space_renewal_discount : ℕ
  pub claim_reward : ℕ
  pub claim_expiry_units : ℕ
  pub lottery_reward_multipler : ℕ
  pub min_price : ℕ
  pub lookback_window : ℕ
  pub target_block_rate : ℕ
  pub target_block_size : ℕ
  pub max_block_size : ℕ
  pub block_cost_enabled : Bool
  pub custom_allocation : List CustomAllocation
  pub airdrop_hash : Bytes
  pub airdrop_units : ℕ

abbrev pub default_value_unit_size : ℕ
default_value_unit_size = 1024

abbrev pub default_free_claim_units : ℕ
default_free_claim_units = 1024

abbrev pub default_free_claim_duration : ℕ
default_free_claim_duration = 2592000

abbrev pub default_lookback_window : ℕ
default_lookback_window = 60

abbrev pub default_genesis : Genesis
default_genesis = record {
  magic = 0;
  base_tx_units = 1;
  value_unit_size = default_value_unit_size;
  max_value_size = 204800;
  value_expiry_discount = 10;
  claim_load_multiplier = 5;
  claim_expiry_units = 100;
  min_claim_fee = 100;
  space_desirability_multiplier = 5;
  space_renewal_discount = 10;
  claim_reward = default_free_claim_units * default_free_claim_duration;
  lottery_reward_multipler = 50;
  lookback_window = default_lookback_window;
  target_block_rate = 1;
  target_block_size = 225;
  max_block_size = 246;
  min_price = 1;
  block_cost_enabled = true;
  custom_allocation = [];
  airdrop_hash = [];
  airdrop_units = 0;
}

-- ids.Empty
abbrev pub empty_id : Bytes
empty_id =
    0 ∷ 0 ∷ 0 ∷ 0 ∷ 0 ∷ 0 ∷ 0 ∷ 0 ∷ 0 ∷ 0 ∷ 0 ∷ 0 ∷ 0 ∷ 0 ∷ 0 ∷ 0 ∷ 0 ∷ 0 ∷ 0 ∷ 0 ∷ 0 ∷ 0 ∷ 0 ∷ 0
    ∷ 0 ∷ 0 ∷ 0 ∷ 0 ∷ 0 ∷ 0 ∷ 0 ∷ 0 ∷ []

unfoldable pub stateful_block : Genesis → StatefulBlock
stateful_block g = record {
  prnt = empty_id;
  tmstmp = 0;
  hght = 0;
  price = g.min_price;
  cost = min_block_cost;
  txs = [];
}

unfoldable pub verify : Genesis → Result (Unit {0})
verify g =
    if g.magic == 0
    then err invalid_magic
    else if g.target_block_rate == 0
    then err invalid_block_rate
    else ok tt

module _ ⦃db : Database⦄ ⦃p : Platform⦄ where
  load_airdrop : ℕ → List Bytes → Exec db.Db Unit
  load_airdrop units [] = return tt
  load_airdrop units (address ∷ rest) = do set_balance address units; load_airdrop units rest

  load_custom : List CustomAllocation → Exec db.Db Unit
  load_custom [] = return tt
  load_custom (alloc ∷ rest) = do set_balance alloc.address alloc.balance; load_custom rest

  -- `addresses` is what json.Unmarshal reads from the airdrop data; `none` is its error.
  airdrop : Genesis → Bytes → Option (List Bytes) → Exec db.Db Unit
  airdrop g airdrop_data none = fail bad_encoding
  airdrop g airdrop_data (some addresses) = load_airdrop g.airdrop_units addresses

  -- The writes of an error return are not committed.
  unfoldable pub load : Genesis → Bytes → Option (List Bytes) → Exec db.Db Unit
  unfolding airdrop load_airdrop load_custom
  load g airdrop_data addresses = do
    if ltb 0 (length g.airdrop_hash)
        then (if not (bytes_eq g.airdrop_hash (p.hash_hex (p.keccak256 airdrop_data)))
            then fail airdrop_mismatch
            else airdrop g airdrop_data addresses)
        else return tt
    load_custom g.custom_allocation
