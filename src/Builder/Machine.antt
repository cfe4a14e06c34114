-- ===== src/Builder/Machine.antt =====
-- The builder of vm/block_builder.go with the engine that it talks to and the mempool that others
-- use. The engine takes messages from the channel, and calls BuildBlock of vm/vm.go once for each,
-- some time later; BuildBlock uses the mempool and then calls HandleGenerateBlock.
use spacesvm.Prelude.{ℕ, suc, ◌≡◌, Bool, true, false}
use spacesvm.Genesis.{Genesis}
use spacesvm.Mempool.{Mempool, new}
use spacesvm.Mempool.Package.{HeapPackage}
use spacesvm.Mempool.Run.{Step}
use spacesvm.Builder.{
  TimeBuilder, new_time_builder, handle_generate_block, build_block_two_stage_timer, build,
}

-- `due` counts the messages that the engine took and did not answer with BuildBlock yet.
pub record World : Type 0 where
  pub builder : TimeBuilder
  pub due : ℕ

module _ ⦃pkg : HeapPackage⦄ where
  -- A run of operations of the mempool.
  pub data Uses (m : Mempool) : Mempool → Type 0 where
    done : Uses m m
    use_next : (n r : Mempool) → Uses m n → Step n r → Uses m r

  -- `dispatched` is whether the timer's Dispatch runs, which the timer's handler waits for.
  pub data Move (dispatched : Bool) (w : World) : World → Type 0 where
    mempool_move :
        (m : Mempool)
        → Step w.builder.mempool m
        → Move dispatched w (record w { builder = record w.builder { mempool = m } })
    pending_move :
        w.builder.mempool.pending ≡ true
        → Move dispatched w (record w { builder = build w.builder })
    timer_move :
        dispatched ≡ true
        → w.builder.timer_set ≡ true
        → Move dispatched w (record w {
          builder = build_block_two_stage_timer (record w.builder { timer_set = false });
        })
    receive_move :
        (n : ℕ)
        → w.builder.to_engine ≡ suc n
        → Move dispatched w
            (record { builder = record w.builder { to_engine = n }; due = suc w.due })
    build_block_move :
        (n : ℕ) (m : Mempool)
        → w.due ≡ suc n
        → Uses w.builder.mempool m
        → Move dispatched w
            (record { builder = handle_generate_block (record w.builder { mempool = m }); due = n })

  pub data Reach (dispatched : Bool) (g : Genesis) (max_size capacity : ℕ) : World → Type 0 where
    start :
        Reach dispatched g max_size capacity
          (record { builder = new_time_builder (new g max_size) capacity; due = 0 })
    next :
        (w v : World)
        → Reach dispatched g max_size capacity w
        → Move dispatched w v
        → Reach dispatched g max_size capacity v

  -- Some moves, one after the other.
  pub data Moves (dispatched : Bool) : World → World → Type 0 where
    none : (w : World) → Moves dispatched w w
    move : (w v u : World) → Move dispatched w v → Moves dispatched v u → Moves dispatched w u
