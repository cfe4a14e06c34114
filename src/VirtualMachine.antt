-- ===== src/VirtualMachine.antt =====
-- The state of the VM (vm/vm.go), with the life of a block in it: chain/block.go parses a block,
-- verifies, accepts or rejects it, and tells the VM by the callbacks of vm/chain_vm.go. The VM's lock
-- is held for the whole of each call.
--
-- A block that the code changes behind pointers, its status and the database of its execution, is a
-- value here, and stands in the maps of the VM that hold the pointer. A versiondb is the state that
-- it shows, so that the new base which Accept and SetChildrenDB give to the children of a block,
-- which show the same as before, is no step. What the LRU cache of blocks forgets is a step of
-- Replay, since it may be any entry.
pub mod Life
pub mod Submission
pub mod Building
pub mod Replay
pub mod Kept
pub mod Ordered
pub mod Decisions
pub mod Safety
use spacesvm.Prelude.{
  ℕ, suc, ◌+◌, ◌%◌, Bool, true, false, Option, none, some, List, [], ◌∷◌, Bytes, length, set_elem,
  add64, ◌==◌, bytes_eq, if◌then◌else◌,
}
use spacesvm.Errors
use spacesvm.Errors.{Error, Result, ok, err, panic, bad_encoding, bad_id, out_of_fuel}
use spacesvm.Exec
use spacesvm.Exec.{Exec, return, lift, gets, modify, ◌>>=◌, ◌>>◌}
use spacesvm.Platform.{Database, Platform}
use spacesvm.Types.{
  Transaction, StatefulBlock, StatelessBlock, Activity, Status, processing, accepted, rejected,
}
use spacesvm.Genesis.{Genesis}
use spacesvm.Storage.{require}
use spacesvm.Tx.{Context}
use spacesvm.Tx.Execute.{init, activity}
use spacesvm.Block.{Node, Vm, verify}
use spacesvm.Block.Accepted.{BlockCodec, set_last_accepted, get_block}
use spacesvm.Fees.{execution_context}
use spacesvm.Mempool
use spacesvm.Mempool.{Mempool}
use spacesvm.Mempool.Heap.{with}
use spacesvm.Mempool.Package.{HeapPackage}

-- A block with its database and its Winners, one for each transaction.
pub record Live (D : Type 0) : Type 0 where
  pub node : Node D
  pub open node use *
  pub winners : List (Option Activity)

pub record State (D : Type 0) : Type 0 where
  pub genesis : Genesis
  pub target_range_units : ℕ
  -- the model's own: how many rounds the walk over the recent blocks may take
  pub lookback_fuel : ℕ
  pub bootstrapped : Bool
  pub db : D
  pub blocks : Bytes → Option (Live D)
  pub verified_blocks : Bytes → Option (Live D)
  pub preferred : Bytes
  pub last_accepted : Live D
  pub mempool : Mempool
  pub activity_cache_cursor : ℕ
  pub activity_cache : List (Option Activity)

-- snow.State; `none` is any other number
pub data SnowState : Type 0 where
  bootstrapping normal_op : SnowState

-- what Winners holds under an id: the last reward that a transaction of this id won
unfoldable pub winner_of : Bytes → List Transaction → List (Option Activity) → Option Activity
winner_of id [] ws = none
winner_of id (tx ∷ txs) [] = none
winner_of id (tx ∷ txs) (w ∷ ws) = elim (winner_of id txs ws) [
  | some a ↦ some a
  | none ↦ if bytes_eq tx.id id then w else none
]

module _ {D : Type 0} where
  -- SetState with onBootstrapStarted and onNormalOperationsStarted; false is ErrUnknownState
  unfoldable pub set_state : Option SnowState → State D → Bool × State D
  set_state (some bootstrapping) s = (true, record s { bootstrapped = false })
  set_state (some normal_op) s = (true, record s { bootstrapped = true })
  set_state none s = (false, s)

  unfoldable pub set_preference : Bytes → State D → State D
  set_preference id s = record s { preferred = id }

  unfoldable pub last_accepted_id : State D → Bytes
  last_accepted_id s = s.last_accepted.id

  -- a write into the ring of activities
  unfoldable pub put_activity : Activity → State D → State D
  put_activity a s = record s {
    activity_cache =
        set_elem s.activity_cache (s.activity_cache_cursor % length s.activity_cache) (some a);
    activity_cache_cursor = add64 s.activity_cache_cursor 1;
  }

  unfoldable pub put_reward : Option Activity → State D → State D
  put_reward none s = s
  put_reward (some a) s = put_activity a s

unfoldable pub mark : {D : Type 0} → Status → Live D → Live D
mark status b = record b {
  node = record b.node { stateless = record b.node.stateless { st = status } };
}

module _ ⦃db : Database⦄ ⦃p : Platform⦄ where
  unfoldable pub init_txs : List Transaction → Result (List Transaction)
  init_txs [] = ok []
  init_txs (tx ∷ txs) =
      Errors.◌>>=◌ (init tx) λ t. Errors.◌>>=◌ (init_txs txs) λ rest. ok (t ∷ rest)

  -- the loop over the transactions in Accepted
  unfoldable pub log_txs :
      ℕ → List Transaction → List (Option Activity) → List Transaction → State db.Db → State db.Db
  unfolding put_reward
  log_txs tmstmp all winners [] s = s
  log_txs tmstmp all winners (tx ∷ txs) s = log_txs tmstmp all winners txs (
      put_reward (winner_of tx.id all winners)
        (put_activity (record (activity tx) { tmstmp = tmstmp }) s))

  unfoldable pub accepted_block : Live db.Db → State db.Db → State db.Db
  unfolding log_txs
  accepted_block b s =
      let t : State db.Db = record s {
        blocks = with s.blocks b.id (some b);
        verified_blocks = with s.verified_blocks b.id none;
        last_accepted = b;
      } in
      if length s.activity_cache == 0 then t else log_txs b.tmstmp b.txs b.winners b.txs t

  -- Accept on the database of the block; without one, which only Verify gives a block, the Commit is
  -- a nil pointer's.
  unfoldable pub accept_on : Option db.Db → Live db.Db → Exec (State db.Db) (Live db.Db)
  unfolding mark
  accept_on none b = lift panic
  accept_on (some d) b = do
    modify (λ s. record s { db = d })
    modify (accepted_block (mark accepted b))
    return (mark accepted b)

  unfoldable pub accept : Live db.Db → Exec (State db.Db) (Live db.Db)
  accept b = accept_on b.on_accept_db b

  module _ (codec : BlockCodec) where
    unfoldable pub source_of : Bytes → StatefulBlock → Result Bytes
    source_of source blk =
        if length source == 0 then require bad_encoding (codec.marshal_block blk) else ok source

    unfoldable pub parse_stateful_block : StatefulBlock → Bytes → Status → Result (Live db.Db)
    unfolding source_of init_txs
    parse_stateful_block blk source status = Errors.◌>>=◌ (source_of source blk) λ bytes.
        Errors.◌>>=◌ (require bad_id (p.to_id (p.keccak256 bytes))) λ id.
          Errors.◌>>=◌ (init_txs blk.txs) λ txs. ok (record {
            node = record {
              stateless = record {
                block = record blk { txs = txs };
                id = id;
                st = status;
                bytes = bytes;
              };
              on_accept_db = none;
            };
            winners = [];
          })

    -- ParseBlock of chain/block.go
    unfoldable pub parse_source : Bytes → Status → Result (Live db.Db)
    parse_source source status =
        Errors.◌>>=◌ (require bad_encoding (codec.unmarshal_block source))
          λ blk. parse_stateful_block blk source status

    -- the last resort of GetStatelessBlock
    unfoldable pub get_from_disk : State db.Db → Bytes → Result (Live db.Db)
    get_from_disk s id =
        Errors.◌>>=◌ (get_block codec id s.db).0 λ blk. parse_stateful_block blk [] accepted

    unfoldable pub get_stateless_block : State db.Db → Bytes → Result (Live db.Db)
    unfolding get_from_disk
    get_stateless_block s id = elim (s.blocks id) [
      | some b ↦ ok b
      | none ↦ elim (s.verified_blocks id) [ some b ↦ ok b | none ↦ get_from_disk s id ]
    ]

    -- ParseBlock of vm/vm.go: a block that the VM has is returned as it is there.
    unfoldable pub parse_block : State db.Db → Bytes → Result (Live db.Db)
    parse_block s source = Errors.◌>>=◌ (parse_source source processing) λ b.
        elim (get_stateless_block s b.id) [
          | ok old ↦ ok old
          | err _ ↦ ok b
          | panic ↦ panic
          | out_of_fuel ↦ out_of_fuel
        ]

    -- the VM as the blocks see it
    unfoldable pub seen : State db.Db → Vm db.Db
    seen s =
        let get : Bytes → Result (Node db.Db) =
          λ id. Errors.◌>>=◌ (get_stateless_block s id) λ b. ok b.node in
        record {
          genesis = s.genesis;
          is_bootstrapped = s.bootstrapped;
          state = s.db;
          get_stateless_block = get;
          execution_context = execution_context s.genesis get s.lookback_fuel s.target_range_units;
        }
