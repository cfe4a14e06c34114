-- ===== src/Builder/Wakeups.antt =====
-- The builder of vm/block_builder.go loses no wake-up as long as its timer runs.
use spacesvm.Prelude.{
  ℕ, ◌+◌, ◌<◌, ◌≤◌, ◌≡◌, ◌⊎◌, refl, inl, inr, Bool, true, false, Bool-cases, ltb, ltb-false→le,
  arith,
}
use spacesvm.Genesis.{Genesis}
use spacesvm.Mempool.{Mempool, len}
use spacesvm.Mempool.Package.{HeapPackage}
use spacesvm.Mempool.Insertion.{IsPool}
use spacesvm.Mempool.Removal.{queue-IsConsistent}
use spacesvm.Mempool.Run.{Step, Step-Effect, new-IsPool}
use spacesvm.Builder.{
  BuildingBlkStatus, dont_build, may_build, building, TimeBuilder, mark_building, signal_for,
  signal_txs_ready, timer_for, need_to_build, handle_generate_block, build_block_two_stage_timer,
  build,
}
use spacesvm.Builder.Machine.{
  World, Uses, done, use_next, Move, mempool_move, pending_move, timer_move, receive_move,
  build_block_move, Reach, start, next,
}

-- a request for a block is on its way
abbrev pub IsRequested : World → Type 0
IsRequested w = 0 < w.builder.to_engine + w.due

-- What is to come when the builder has this status.
abbrev pub Awaits : BuildingBlkStatus → World → Type 0
Awaits dont_build w = 0 < len w.builder.mempool → (w.builder.mempool.pending ≡ true) ⊎ IsRequested w
Awaits may_build w = (w.builder.timer_set ≡ true) ⊎ IsRequested w
Awaits building w = IsRequested w

requested-Awaits : (s : BuildingBlkStatus) (w : World) → IsRequested w → Awaits s w
requested-Awaits dont_build w h = λ more. inr h
requested-Awaits may_build w h = inr h
requested-Awaits building w h = h

pub mark_building_lem :
    (b : TimeBuilder)
    → 1 ≤ b.capacity
    → (0 < (mark_building b).to_engine)
      × ((mark_building b).capacity ≡ b.capacity)
      × ((mark_building b).mempool ≡ b.mempool)
unfolding mark_building
mark_building_lem b h = elim (Bool-cases (ltb b.to_engine b.capacity)) [
  | inl fits ↦ rw fits (omega arith, refl, refl)
  | inr over ↦ rw over (omega (arith, ltb-false→le b.to_engine b.capacity over), refl, refl)
]

module _ ⦃pkg : HeapPackage⦄ where
  pub record IsAwake (w : World) : Type 0 where
    pub pool : IsPool w.builder.mempool
    pub room : 1 ≤ w.builder.capacity
    pub awaits : Awaits w.builder.status w

  marked-IsAwake :
      (b : TimeBuilder) (due : ℕ)
      → 1 ≤ b.capacity
      → IsPool b.mempool
      → IsAwake (record { builder = mark_building b; due = due })
  marked-IsAwake b due h p =
      let (more, cap, same) = mark_building_lem b h in
      let w : World = record { builder = mark_building b; due = due } in
      record {
        pool = rw same p;
        room = omega (arith, cap, h);
        awaits = requested-Awaits w.builder.status w (omega (arith, more));
      }

  uses-IsPool : (m r : Mempool) → IsPool m → Uses m r → IsPool r
  uses-IsPool m r p done = p
  uses-IsPool m r p (use_next n r' u s) = (Step-Effect n r (uses-IsPool m n p u) s).0

  signalled-IsAwake :
      (s : BuildingBlkStatus) (w : World) (m : Mempool)
      → IsPool m
      → 1 ≤ w.builder.capacity
      → w.builder.status ≡ s
      → Awaits s w
      → IsAwake (record w { builder = signal_for s (record w.builder { mempool = m }) })
  signalled-IsAwake dont_build w m p h same a =
      marked-IsAwake (record w.builder { mempool = m }) w.due h p
  signalled-IsAwake may_build w m p h same a = record { pool = p; room = h; awaits = rw same a }
  signalled-IsAwake building w m p h same a = record { pool = p; room = h; awaits = rw same a }

  timer-IsAwake :
      (s : BuildingBlkStatus) (w : World)
      → IsAwake w
      → w.builder.status ≡ s
      → Awaits s w
      → IsAwake (record w { builder = timer_for s (record w.builder { timer_set = false }) })
  timer-IsAwake dont_build w i same a = record { pool = i.pool; room = i.room; awaits = rw same a }
  timer-IsAwake may_build w i same a =
      marked-IsAwake (record w.builder { timer_set = false }) w.due i.room i.pool
  timer-IsAwake building w i same a = record { pool = i.pool; room = i.room; awaits = rw same a }

  mempool-Awaits :
      (s : BuildingBlkStatus) (w : World) (m : Mempool)
      → IsPool w.builder.mempool
      → Step w.builder.mempool m
      → Awaits s w
      → Awaits s (record w { builder = record w.builder { mempool = m } })
  mempool-Awaits may_build w m p t a = a
  mempool-Awaits building w m p t a = a
  mempool-Awaits dont_build w m p t a = λ more.
      let effect = (Step-Effect w.builder.mempool m p t).1 in
      elim (effect.told more) [
        | inr told ↦ inl told
        | inl before ↦ elim (a before) [
          | inl signal ↦ inl (effect.kept signal)
          | inr asked ↦ inr asked
        ]
      ]

  handled-IsAwake :
      (b : TimeBuilder) (due : ℕ)
      → IsPool b.mempool
      → 1 ≤ b.capacity
      → IsAwake (record { builder = handle_generate_block b; due = due })
  unfolding handle_generate_block need_to_build
  handled-IsAwake b due p h = elim (Bool-cases (ltb 0 (len b.mempool))) [
    | inl more ↦ rw more (record { pool = p; room = h; awaits = inl refl })
    | inr empty ↦ rw empty (record {
      pool = p;
      room = h;
      awaits = λ more. absurd (omega (arith, ltb-false→le 0 (len b.mempool) empty));
    })
  ]

  pub Move-IsAwake : (dispatched : Bool) (w v : World) → IsAwake w → Move dispatched w v → IsAwake v
  unfolding build signal_txs_ready build_block_two_stage_timer
  Move-IsAwake d w v i (mempool_move m s) = record {
    pool = (Step-Effect w.builder.mempool m i.pool s).0;
    room = i.room;
    awaits = mempool-Awaits w.builder.status w m i.pool s i.awaits;
  }
  Move-IsAwake d w v i (pending_move h) =
      let m : Mempool = record w.builder.mempool { pending = false } in
      let p : IsPool m = record {
        consistent = queue-IsConsistent w.builder.mempool m.new_txs false i.pool.consistent;
        bound = i.pool.bound;
      } in
      signalled-IsAwake w.builder.status w m p i.room refl i.awaits
  Move-IsAwake d w v i (timer_move h set) = timer-IsAwake w.builder.status w i refl i.awaits
  Move-IsAwake d w v i (receive_move n h) = record {
    pool = i.pool;
    room = i.room;
    awaits = requested-Awaits w.builder.status v (omega arith);
  }
  Move-IsAwake d w v i (build_block_move n m h u) =
      handled-IsAwake (record w.builder { mempool = m }) n
        (uses-IsPool w.builder.mempool m i.pool u) i.room

  pub Reach-IsAwake :
      (dispatched : Bool) (g : Genesis) (max_size capacity : ℕ) (w : World)
      → 1 ≤ capacity
      → Reach dispatched g max_size capacity w
      → IsAwake w
  Reach-IsAwake d g max_size capacity w h start = record {
    pool = new-IsPool g max_size;
    room = h;
    awaits = λ more. absurd (omega arith);
  }
  Reach-IsAwake d g max_size capacity w h (next u v r m) =
      Move-IsAwake d u w (Reach-IsAwake d g max_size capacity u h r) m
