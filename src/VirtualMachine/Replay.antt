-- ===== src/VirtualMachine/Replay.antt =====
-- The VM of vm/vm.go under the consensus engine, and the run of its accepted blocks.
use spacesvm.Prelude.{ℕ, ◌<◌, ◌≡◌, ◌⊎◌, Bool, true, false, Option, none, some, List, [], ◌∷◌, Bytes}
use spacesvm.Errors.{Result, ok, ◌>>=◌}
use spacesvm.Platform.{Database, Platform}
use spacesvm.Types.{StatelessBlock, Activity, processing, accepted}
use spacesvm.Genesis.{Genesis}
use spacesvm.Block.{Node, Vm}
use spacesvm.Block.Rules.{Obeys}
use spacesvm.Fees.{execution_context}
use spacesvm.Block.Accepted.{BlockCodec}
use spacesvm.Mempool.{Mempool}
use spacesvm.Mempool.Heap.{with}
use spacesvm.Mempool.Package.{HeapPackage}
use spacesvm.VirtualMachine.{
  Live, State, SnowState, set_state, set_preference, accept, get_stateless_block,
}
use spacesvm.VirtualMachine.Kept.{settings}
use spacesvm.VirtualMachine.Life.{verify_block, store_block, reject}

-- The state with what is remembered of its past: the ids that were decided, and the accepted blocks,
-- the last one first.
pub record World (D : Type 0) : Type 0 where
  pub state : State D
  pub decided : Bytes → Bool
  pub log : List (Live D)

module _ ⦃db : Database⦄ ⦃p : Platform⦄ (codec : BlockCodec) where
  -- The rules under which a VM with these settings verifies in the state: its genesis, its accepted
  -- database, the blocks that it has, and the context from these blocks.
  abbrev pub rules : Genesis × ℕ × ℕ → State db.Db → Vm db.Db
  rules (genesis, fuel, target_range_units) s =
      let get : Bytes → Result (Node db.Db) =
        λ id. get_stateless_block codec s id >>= λ b. ok b.node in
      record {
        genesis = genesis;
        is_bootstrapped = s.bootstrapped;
        state = s.db;
        get_stateless_block = get;
        execution_context = execution_context genesis get fuel target_range_units;
      }

  module _ ⦃pkg : HeapPackage⦄ where
    -- What the engine and the users of the VM do. The engine issues a block once, while its parent is
    -- the last accepted block or waits for a decision; it accepts a child of the last accepted block.
    -- A block has a height above 0, which `verify` does not check.
    pub data Move (w : World db.Db) : World db.Db → Type 0 where
      verify_move :
          (now : ℕ) (b : StatelessBlock) (live : Live db.Db) (t : State db.Db)
          → b.st ≡ processing
          → 0 < b.hght
          → w.decided b.id ≡ false
          → w.state.verified_blocks b.id ≡ none
          → (b.prnt ≡ w.state.last_accepted.id)
            ⊎ ((m : Live db.Db) × (w.state.verified_blocks b.prnt ≡ some m))
          → verify_block codec now b w.state ≡ (ok live, t)
          → Move w (record w { state = t })
      accept_move :
          (b after_accept : Live db.Db) (t : State db.Db)
          → w.state.verified_blocks b.id ≡ some b
          → b.prnt ≡ w.state.last_accepted.id
          → accept b w.state ≡ (ok after_accept, t)
          → Move w (record { state = t; decided = with w.decided b.id true; log = b ∷ w.log })
      reject_move :
          (b after_reject : Live db.Db) (t : State db.Db)
          → w.state.verified_blocks b.id ≡ some b
          → reject b w.state ≡ (ok after_reject, t)
          → Move w (record w { state = t; decided = with w.decided b.id true })
      preference_move : (id : Bytes) → Move w (record w { state = set_preference id w.state })
      state_move : (s : Option SnowState) → Move w (record w { state = (set_state s w.state).1 })
      mempool_move : (m : Mempool) → Move w (record w { state = record w.state { mempool = m } })
      -- the cache of blocks forgets one
      forget_move :
          (id : Bytes)
          → Move w (record w { state = record w.state { blocks = with w.state.blocks id none } })

    -- A VM that starts on its last accepted block, with nothing in memory.
    pub record IsStart (w : World db.Db) : Type 0 where
      pub no_blocks : (id : Bytes) → w.state.blocks id ≡ none
      pub no_verified : (id : Bytes) → w.state.verified_blocks id ≡ none
      pub no_log : w.log ≡ []
      pub decided_last : w.decided w.state.last_accepted.id ≡ true

    pub data Reach (w : World db.Db) : World db.Db → Type 0 where
      here : Reach w w
      next : (v u : World db.Db) → Reach w v → Move v u → Reach w u

    -- In a state that the VM reached before, the block obeyed the rules of `verify` under the settings of
    -- the start, and its database is `before` after the block was run on it and stored.
    pub record Executes (start : World db.Db) (before : db.Db) (live : Live db.Db) : Type 0 where
      pub past : World db.Db
      pub reached : Reach start past
      pub now : ℕ
      pub block : StatelessBlock
      pub parent : Node db.Db
      pub after_block : db.Db
      pub winners : List (Option Activity)
      pub obeys :
          Obeys (rules (settings start.state) past.state) now block parent after_block winners
      pub on : obeys.before_block ≡ before
      pub stored : store_block codec block after_block winners ≡ ok live

    -- Running the blocks one on the other, from the last accepted block of the start and its database,
    -- leads to the block `tip` and its database.
    pub data Replays (start : World db.Db) : List (Live db.Db) → Bytes → db.Db → Type 0 where
      root_block : Replays start [] start.state.last_accepted.id start.state.db
      then_block :
          (l : List (Live db.Db)) (tip : Bytes) (d after_block : db.Db) (b : Live db.Db)
          → Replays start l tip d
          → b.prnt ≡ tip
          → Executes start d b
          → b.on_accept_db ≡ some after_block
          → Replays start (b ∷ l) b.id after_block

    -- What the maps of the VM hold, with the past that is remembered.
    pub record IsOrdered (start : World db.Db) (decided : Bytes → Bool) (log : List (Live db.Db))
        (d : db.Db) (blocks verified_blocks : Bytes → Option (Live db.Db)) (last : Live db.Db)
        : Type 0 where
      pub cached :
          (id : Bytes) (b : Live db.Db)
          → blocks id ≡ some b
          → (decided id ≡ true) × (b.st ≡ accepted)
      pub own_id : (id : Bytes) (b : Live db.Db) → verified_blocks id ≡ some b → b.id ≡ id
      pub open_id : (id : Bytes) (b : Live db.Db) → verified_blocks id ≡ some b → decided id ≡ false
      pub waits :
          (id : Bytes) (b : Live db.Db)
          → verified_blocks id ≡ some b
          → (b.st ≡ processing) × (0 < b.hght)
      pub has_parent :
          (id : Bytes) (b : Live db.Db)
          → verified_blocks id ≡ some b
          → (decided b.prnt ≡ true) ⊎ ((m : Live db.Db) × (verified_blocks b.prnt ≡ some m))
      pub last_decided : decided last.id ≡ true
      pub on_last :
          (id : Bytes) (b : Live db.Db)
          → verified_blocks id ≡ some b
          → b.prnt ≡ last.id
          → Executes start d b
      pub on_verified :
          (id : Bytes) (b m : Live db.Db) (e : db.Db)
          → verified_blocks id ≡ some b
          → verified_blocks b.prnt ≡ some m
          → m.on_accept_db ≡ some e
          → Executes start e b
      pub replays : Replays start log last.id d
