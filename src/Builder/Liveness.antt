-- ===== src/Builder/Liveness.antt =====
-- When the builder of vm/block_builder.go gets its block, and when it waits for ever.
use spacesvm.Prelude.{
  ℕ, zero, suc, ◌<◌, ◌≤◌, ◌≡◌, refl, ap, ◌+◌, ◌==◌, ◌⊎◌, Bool-cases, inl, inr, ◌∙◌, Bool, false,
  arith,
}
use spacesvm.Genesis.{Genesis}
use spacesvm.Mempool.{len}
use spacesvm.Mempool.Package.{HeapPackage}
use spacesvm.Builder.{
  BuildingBlkStatus, dont_build, may_build, building, TimeBuilder, mark_building, signal_txs_ready,
  build,
}
use spacesvm.Builder.Machine.{
  World, Move, mempool_move, pending_move, timer_move, receive_move, build_block_move, Reach, Moves,
  none, move,
}
use spacesvm.Builder.Wakeups.{Awaits, IsRequested, mark_building_lem, Reach-IsAwake}

module _ ⦃pkg : HeapPackage⦄ where
  -- In every state that the builder, the engine and the users of the mempool reach, from a channel with
  -- room for a message: while it builds, a request is on its way to BuildBlock; while it may build,
  -- its timer is set or a request is on its way; and while it does not build, transactions in the
  -- mempool are announced in Pending or a request is on its way.
  pub Reach-Awaits :
      (dispatched : Bool) (g : Genesis) (max_size capacity : ℕ) (w : World)
      → 1 ≤ capacity
      → Reach dispatched g max_size capacity w
      → Awaits w.builder.status w
  Reach-Awaits d g max_size capacity w h r = (Reach-IsAwake d g max_size capacity w h r).awaits

  -- BuildBlock comes to be due, and no transaction has left the mempool.
  abbrev Comes : World → Type 0
  Comes w =
      (v : World) × Moves false w v
      × (0 < v.due)
      × (v.builder.mempool.max_heap ≡ w.builder.mempool.max_heap)

  requested-Comes : (w : World) → IsRequested w → Comes w
  requested-Comes w h = split w.builder.to_engine refl
    where
      split : (n : ℕ) → w.builder.to_engine ≡ n → Comes w
      split zero e = (w, none w, omega arith, refl)
      split (suc n) e =
          let v : World = record {
            builder = record w.builder { to_engine = n };
            due = suc w.due;
          } in
          (v, move w v v (receive_move n e) (none v), omega arith, refl)

  sent :
      (b : TimeBuilder)
      → 1 ≤ b.capacity
      → (0 < (mark_building b).to_engine) × ((mark_building b).mempool ≡ b.mempool)
  sent b h = let (more, _, same) = mark_building_lem b h in (more, same)

  step-Comes :
      (w v : World)
      → Move false w v
      → IsRequested v
      → v.builder.mempool.max_heap ≡ w.builder.mempool.max_heap
      → Comes w
  step-Comes w v m h same =
      let (u, moves, asked, heap) = requested-Comes v h in
      (u, move w v u m moves, asked, heap ∙ same)

  -- The builder waits for its timer, and nothing is on its way.
  pub record IsWaiting (w : World) : Type 0 where
    pub status : w.builder.status ≡ may_build
    pub sent : w.builder.to_engine ≡ 0
    pub due : w.due ≡ 0

  awake-Comes :
      (s : BuildingBlkStatus) (w : World)
      → w.builder.status ≡ s
      → 1 ≤ w.builder.capacity
      → 0 < len w.builder.mempool
      → Awaits s w
      → IsWaiting w ⊎ Comes w
  unfolding build signal_txs_ready
  awake-Comes building w e h more a = inr (requested-Comes w a)
  awake-Comes may_build w e h more a = elim (Bool-cases (w.builder.to_engine + w.due == 0)) [
    | inl nothing ↦ inl (record { status = e; sent = ground arith; due = ground arith })
    | inr asked ↦ inr (requested-Comes w (ground arith))
  ]
  awake-Comes dont_build w e h more a = elim (a more) [
    | inr asked ↦ inr (requested-Comes w asked)
    | inl signal ↦
        let b : TimeBuilder = record w.builder {
          mempool = record w.builder.mempool { pending = false };
        } in
        let v : World = record { builder = build w.builder; due = w.due } in
        let run : build w.builder ≡ mark_building b = rw e refl in
        let (asked, same) = sent b h in
        inr (
          step-Comes w v (pending_move signal) (omega (arith, asked, ap (λ x. x.to_engine) run))
            (ap (λ x. x.mempool.max_heap) run ∙ ap (λ x. x.max_heap) same))
  ]

  -- The timer's Dispatch does not run, and the channel has room for a message. In every state that is
  -- reached with a transaction in the mempool, either the builder may build while no request is on its
  -- way, or there are moves after which BuildBlock is due, with the transactions of the mempool as they
  -- were.
  pub Reach-Comes :
      (g : Genesis) (max_size capacity : ℕ) (w : World)
      → 1 ≤ capacity
      → Reach false g max_size capacity w
      → 0 < len w.builder.mempool
      → IsWaiting w
        ⊎ ((v : World) × Moves false w v
            × (0 < v.due)
            × (v.builder.mempool.max_heap ≡ w.builder.mempool.max_heap))
  Reach-Comes g max_size capacity w h r more =
      let awake = Reach-IsAwake false g max_size capacity w h r in
      awake-Comes w.builder.status w refl awake.room more awake.awaits

  Move-IsWaiting : (w v : World) → IsWaiting w → Move false w v → IsWaiting v
  unfolding build signal_txs_ready
  Move-IsWaiting w v i (mempool_move m s) = record { status = i.status; sent = i.sent; due = i.due }
  Move-IsWaiting w v i (pending_move h) =
      rw (i.status) (record { status = refl; sent = i.sent; due = i.due })
  Move-IsWaiting w v i (timer_move h set) = absurd (cc)
  Move-IsWaiting w v i (receive_move n h) = absurd (omega (arith, i.sent))
  Move-IsWaiting w v i (build_block_move n m h u) = absurd (omega (arith, i.due))

  -- If the timer's Dispatch does not run, then a builder that may build while no request is on its way
  -- stays so through all moves, whatever is added to the mempool: no message is sent and no BuildBlock
  -- comes.
  pub IsWaiting-stays : (w v : World) → IsWaiting w → Moves false w v → IsWaiting v
  IsWaiting-stays w v i (none w') = i
  IsWaiting-stays w v i (move w' u v' m more) = IsWaiting-stays u v (Move-IsWaiting w u i m) more
