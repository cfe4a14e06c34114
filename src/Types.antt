-- ===== src/Types.antt =====
-- The records of package chain: space_info.go, base_tx.go, the six transactions, tx.go, block.go
-- and activity.go. Identifiers, addresses and hashes are byte arrays, so byte strings here.
use spacesvm.Prelude.{ℕ, List, Bytes}

-- chain/space_info.go
pub record SpaceInfo : Type 0 where
  pub owner : Bytes
  pub created : ℕ
  pub updated : ℕ
  pub expiry : ℕ
  pub units : ℕ
  pub raw_space : Bytes

-- chain/storage.go
pub record ValueMeta : Type 0 where
  pub size : ℕ
  pub tx_id : Bytes
  pub created : ℕ
  pub updated : ℕ

-- chain/base_tx.go
pub record BaseTx : Type 0 where
  pub block_id : Bytes
  pub magic : ℕ
  pub price : ℕ

-- The types that implement `UnsignedTransaction`: claim_tx.go, lifeline_tx.go, set_tx.go,
-- delete_tx.go, move_tx.go, transfer_tx.go. Each starts with its `BaseTx`.
pub data UnsignedTransaction : Type 0 where
  claim_tx : BaseTx → (space : Bytes) → UnsignedTransaction
  lifeline_tx : BaseTx → (space : Bytes) → (units : ℕ) → UnsignedTransaction
  set_tx : BaseTx → (space key value : Bytes) → UnsignedTransaction
  delete_tx : BaseTx → (space key : Bytes) → UnsignedTransaction
  move_tx : BaseTx → (space to : Bytes) → UnsignedTransaction
  transfer_tx : BaseTx → (to : Bytes) → (units : ℕ) → UnsignedTransaction

-- chain/tx.go; the fields behind `signature` are filled in by `Init`
pub record Transaction : Type 0 where
  pub unsigned : UnsignedTransaction
  pub signature : Bytes
  pub digest_hash : Bytes
  pub bytes : Bytes
  pub id : Bytes
  pub size : ℕ
  pub sender : Bytes

-- chain/block.go
pub record StatefulBlock : Type 0 where
  pub prnt : Bytes
  pub tmstmp : ℕ
  pub hght : ℕ
  pub price : ℕ
  pub cost : ℕ
  pub txs : List Transaction

-- chain/activity.go with the types of chain/decoder.go
pub data ActivityType : Type 0 where
  claim lifeline set delete move transfer reward : ActivityType

pub record Activity : Type 0 where
  pub tmstmp : ℕ
  pub tx_id : Bytes
  pub typ : ActivityType
  pub sender : Bytes
  pub space : Bytes
  pub key : Bytes
  pub to : Bytes
  pub units : ℕ

-- choices.Status, as far as the program sets it
pub data Status : Type 0 where
  processing accepted rejected : Status

-- chain/block.go, without the links to other blocks, which `Block.Node` adds
pub record StatelessBlock : Type 0 where
  pub block : StatefulBlock
  pub open block use *
  pub id : Bytes
  pub st : Status
  pub bytes : Bytes
