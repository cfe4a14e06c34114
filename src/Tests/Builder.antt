-- ===== src/Tests/Builder.antt =====
-- A builder whose mempool has one transaction.
use spacesvm.Prelude.{◌<◌, ◌≡◌, ◌⊎◌, refl, Bool, true, false, arith}
use spacesvm.Mempool.{new, push_both, announce, add_pending}
use spacesvm.Mempool.Package.Sample.{sample_heap}
use spacesvm.Builder.{new_time_builder, may_build, build}
use spacesvm.Builder.Machine.{World, Move, Moves, Reach}
use spacesvm.Builder.Wakeups.{Awaits}
use spacesvm.Builder.Liveness.{IsWaiting, Reach-Awaits, Reach-Comes, IsWaiting-stays}
use spacesvm.Tests.{genesis}
use spacesvm.Tests.Mempool.{pool_of_one, pool_of_one-Step, pool_of_one-more}

abbrev first_world : World
first_world = record {
  builder = record (new_time_builder (new genesis 1) 1) { mempool = pool_of_one };
  due = 0;
}

first_world-Reach : (dispatched : Bool) → Reach dispatched genesis 1 1 first_world
first_world-Reach d =
    Reach.next (record { builder = new_time_builder (new genesis 1) 1; due = 0 }) first_world
      Reach.start (Move.mempool_move pool_of_one pool_of_one-Step)

Reach-Awaits_example : Awaits first_world.builder.status first_world
Reach-Awaits_example =
    Reach-Awaits false genesis 1 1 first_world (omega arith) (first_world-Reach false)

Reach-Comes_example :
    IsWaiting first_world
    ⊎ ((v : World) × Moves false first_world v
        × (0 < v.due)
        × (v.builder.mempool.max_heap ≡ pool_of_one.max_heap))
Reach-Comes_example =
    Reach-Comes genesis 1 1 first_world (omega arith) (first_world-Reach false) pool_of_one-more

-- what HandleGenerateBlock leaves when a transaction is left over
abbrev waiting : World
waiting = record {
  builder = record first_world.builder { status = may_build; timer_set = true };
  due = 0;
}

abbrev notified : World
notified = record { builder = build waiting.builder; due = 0 }

pending_again : Moves false waiting notified
unfolding announce push_both add_pending build
pending_again = Moves.move waiting notified notified (Move.pending_move refl) (Moves.none notified)

IsWaiting-stays_example : IsWaiting notified
IsWaiting-stays_example =
    IsWaiting-stays waiting notified (record { status = refl; sent = refl; due = refl })
      pending_again
