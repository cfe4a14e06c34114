-- ===== src/Tests.antt =====
-- Small instances of the model: blocks, transactions and databases.
mod Ownership
mod Accounts
mod Chain
mod Accepted
mod Spaces
mod Texts
mod Mempool
mod Builder
mod VirtualMachine
mod Decoder
mod Building
mod Tree
use spacesvm.Prelude.{ℕ, List, [], ◌∷◌, Bytes}
use spacesvm.Types.{
  BaseTx, UnsignedTransaction, Transaction, StatefulBlock, StatelessBlock, processing,
}
use spacesvm.Genesis.{Genesis, default_genesis}
use spacesvm.Platform.Sample.{Sorted, fit}
use spacesvm.Tx.{Context}
use spacesvm.Block.{Node}

abbrev pub empty_db : Sorted
empty_db = ([], tt)

-- an address, a raw space or an id that starts with a byte
abbrev pub address : ℕ → Bytes
address n = fit 20 (n ∷ [])

abbrev pub id32 : ℕ → Bytes
id32 n = fit 32 (n ∷ [])

abbrev pub base_tx : ℕ → BaseTx
base_tx price = record { block_id = id32 7; magic = 1; price = price }

abbrev pub from : ℕ → UnsignedTransaction → Transaction
from sender u = record {
  unsigned = u;
  signature = [];
  digest_hash = [];
  bytes = [];
  id = id32 9;
  size = 0;
  sender = address sender;
}

abbrev pub genesis : Genesis
genesis = record default_genesis { magic = 1 }

abbrev pub block_of : ℕ → ℕ → ℕ → Bytes → Bytes → List Transaction → StatelessBlock
block_of height time price prnt id txs = record {
  block = record { prnt = prnt; tmstmp = time; hght = height; price = price; cost = 0; txs = txs };
  id = id;
  st = processing;
  bytes = [];
}

abbrev pub window : Context
window = record {
  recent_block_ids = id32 7 ∷ [];
  recent_tx_ids = [];
  recent_load_units = 0;
  prices = [];
  costs = [];
  next_cost = 0;
  next_price = 1;
}
