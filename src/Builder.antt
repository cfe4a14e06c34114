-- ===== src/Builder.antt =====
-- vm/block_builder.go: when the VM asks the engine for a block. The lock is held for the whole of each
-- method, so a method is a step on the state, which has the parts of the VM that the methods share:
-- the mempool, the channel to the engine with the number of messages that it holds, and whether the
-- two-stage timer is set. Logging is left out.
pub mod Machine
pub mod Wakeups
pub mod Liveness
use spacesvm.Prelude.{ℕ, suc, ◌+◌, Bool, true, false, leb, ltb, if◌then◌else◌}
use spacesvm.Mempool
use spacesvm.Mempool.{Mempool}

pub data BuildingBlkStatus : Type 0 where
  dont_build may_build building : BuildingBlkStatus

pub record TimeBuilder : Type 0 where
  pub status : BuildingBlkStatus
  pub mempool : Mempool
  pub to_engine : ℕ
  pub capacity : ℕ
  pub timer_set : Bool

abbrev pub new_time_builder : Mempool → ℕ → TimeBuilder
new_time_builder mempool capacity = record {
  status = dont_build;
  mempool = mempool;
  to_engine = 0;
  capacity = capacity;
  timer_set = false;
}

-- a send that gives up when the channel is full
unfoldable pub mark_building : TimeBuilder → TimeBuilder
mark_building b =
    if ltb b.to_engine b.capacity
    then record b { status = building; to_engine = b.to_engine + 1 }
    else b

abbrev pub signal_for : BuildingBlkStatus → TimeBuilder → TimeBuilder
signal_for dont_build b = mark_building b
signal_for may_build b = b
signal_for building b = b

unfoldable pub signal_txs_ready : TimeBuilder → TimeBuilder
signal_txs_ready b = signal_for b.status b

unfoldable pub need_to_build : TimeBuilder → Bool
need_to_build b = ltb 0 (Mempool.len b.mempool)

unfoldable pub handle_generate_block : TimeBuilder → TimeBuilder
unfolding need_to_build
handle_generate_block b =
    if need_to_build b
    then record b { status = may_build; timer_set = true }
    else record b { status = dont_build }

abbrev pub timer_for : BuildingBlkStatus → TimeBuilder → TimeBuilder
timer_for dont_build b = b
timer_for may_build b = mark_building b
timer_for building b = b

unfoldable pub build_block_two_stage_timer : TimeBuilder → TimeBuilder
build_block_two_stage_timer b = timer_for b.status b

-- a round of the loop of Build that takes the item out of Pending
unfoldable pub build : TimeBuilder → TimeBuilder
build b = signal_txs_ready (record b { mempool = record b.mempool { pending = false } })

-- ManualBuilder; its HandleGenerateBlock does nothing
unfoldable pub notify_build : TimeBuilder → TimeBuilder
notify_build b = if ltb b.to_engine b.capacity then record b { to_engine = b.to_engine + 1 } else b
