-- ===== src/Lib.antt =====
-- SpacesVM: a chain on which an account claims a space, a name that it alone writes to, and pays to
-- keep it. Transactions come in blocks; each block is run on the key-value database that its parent
-- leaves. This library models the rules of the chain, package chain with the parts of vm and parser
-- that it needs, the mempool, the decoder of typed data, and the tree of files.
--
-- How the parts interact. A block (Block, chain/block.go) is checked against a context that the VM
-- computes from the recent blocks (Fees, vm/chain_vm.go and vm/helpers.go), takes the expired spaces
-- out of the state (Storage.Expiry), and executes its transactions (Tx.Execute, chain/tx.go). Each
-- is charged a fee (Tx.Fees, Storage.Balances), performs its action (Tx.Actions, the six *_tx.go
-- files and common_tx.go), and may pay a reward to the owner of a space. The actions read and write
-- the entries of chain/storage.go (Storage.Spaces, Storage.Values), under keys that one file builds
-- (Keys).
-- A transaction comes in by Submit (VirtualMachine.Submission, vm/vm.go), waits in the mempool
-- (Mempool, mempool/mempool.go), which wakes the builder (Builder, vm/block_builder.go), and is put
-- into a block by BuildBlock (chain/builder.go). The engine then verifies, accepts or rejects the
-- block (VirtualMachine).
--
-- The files, by the code they model:
--   Prelude     names that all share: numbers, byte strings and their order, uint64 arithmetic
--   Errors      chain/errors.go; a call returns a value, an error or a panic
--   Exec        functions that write to a state; Exec.Keeps has rules for their invariants
--   Parser      parser/space_key.go: CheckContents is check_contents, ResolvePath is resolve_path
--   Types       the records of package chain
--   Platform    the packages that the program calls: the database, hashes, signatures, the codec
--   Keys        the key builders of chain/storage.go, in Keys.Times their order, in Keys.Encoding
--               that they do not collide
--   Storage     the entries of chain/storage.go: spaces, values, balances and the two queues
--   Genesis     chain/genesis.go
--   Tx          chain/base_tx.go, the six transactions, chain/tx.go and chain/crypto.go
--   Block       verify and onAccept of chain/block.go; in Block.Accepted the accepted blocks of
--               chain/storage.go
--   Fees        ExecutionContext of vm/chain_vm.go, lookback of vm/helpers.go, with the blocks that it
--               visits in Fees.Walk
--   Mempool     mempool/mempool.go; in Mempool.Heap mempool/tx_heap.go, and in Mempool.Package what it
--               calls of container/heap. Mempool.Insertion has the abstract view, a set by ids
--   Builder     vm/block_builder.go; Builder.Machine puts it together with the engine
--   VirtualMachine  vm/vm.go and the callbacks of vm/chain_vm.go, with the life of a block in
--               chain/block.go; in Submission and Building also chain/builder.go and vm/network.go;
--               Replay is the VM under the consensus engine
--   Decoder     chain/decoder.go and TypedData of the six transactions
--   Tree        tree/tree.go
--   Tests       small instances, on which each result that has hypotheses is applied
--
-- Names are the source's in lower case with underscores: PutSpaceInfo is put_space_info. What the Go
-- code does with a *SpaceInfo after a read is done here with the value, since no pointer is shared.
-- A Go function that returns an error leaves what it wrote before; so an action gives back its state
-- beside the error, and run throws the state away where the code drops its versiondb.
--
-- Numbers. A uint64 is a natural number; where the code adds, subtracts or multiplies, the model
-- does it modulo 2^64 (add64, sub64, mul64). Timestamps and the two int64 parameters of the genesis
-- are natural numbers: negative ones are not modelled. Identifiers, addresses and hashes are byte
-- strings; where their length matters it is a hypothesis.
--
-- Fuel. Three loops do not follow a list. lookback follows the links from a block to its parent, with
-- no bound in the code: its fuel is a parameter, which State keeps as lookback_fuel, and out_of_fuel is
-- a result that the code does not have. The walk takes one round for each recent block, and one to see
-- that the next block is not recent. The loops of BuildBlock and of RegossipTxs take a transaction out
-- of the mempool in each round: their fuel is the length of the mempool.
--
-- Parameters. The database and the platform are instances (Platform.Database, Platform.Platform);
-- their laws are what the packages document, and Platform.Sample satisfies them with a sorted list
-- of entries and hashes that cut to the length. Database calls do not fail except with ErrNotFound.
--
-- Not modelled: Initialize, Shutdown and SetBlockBuilder, the tickers and other timers than the
-- builder's, the pruner and the compactor, the network, the RPC service, the client and the command
-- line, which are I/O around these parts; ValidBlockID and SuggestedFee, which are for later; the
-- typed-data digest, which is another project's. A versiondb is the state that it shows, so that the
-- pruner's writes below a block that waits are outside of VirtualMachine.Replay.
mod Prelude
pub mod Errors
pub mod Exec
pub mod Parser
pub mod Types
pub mod Platform
pub mod Keys
pub mod Storage
pub mod Genesis
pub mod Tx
pub mod Block
pub mod Fees
pub mod Mempool
pub mod Builder
pub mod VirtualMachine
pub mod Decoder
pub mod Tree
pub mod Tests
