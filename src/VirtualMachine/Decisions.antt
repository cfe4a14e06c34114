-- ===== src/VirtualMachine/Decisions.antt =====
-- A decision on a block keeps the maps of vm/vm.go ordered.
use spacesvm.Prelude.{
  ◌≡◌, inl, inr, refl, sym, ap, ◌∙◌, Bool, true, Option, none, some, List, ◌∷◌, Bytes, bytes_eq,
  bytes_eq_self, Bool-cases, arith,
}
use spacesvm.Platform.{Database, Platform}
use spacesvm.Types.{accepted}
use spacesvm.Block.Accepted.{BlockCodec}
use spacesvm.Mempool.Heap.{with}
use spacesvm.Mempool.Package.{HeapPackage}
use spacesvm.VirtualMachine.{Live, mark}
use spacesvm.VirtualMachine.Replay.{World, Executes, Replays, then_block, IsOrdered}
use spacesvm.VirtualMachine.Ordered.{Ordered, with-cases, without}

decided_more : (f : Bytes → Bool) (id j : Bytes) → f j ≡ true → with f id true j ≡ true
decided_more f id j h = ground arith

decided_self : (f : Bytes → Bool) (id : Bytes) → with f id true id ≡ true
decided_self f id = rw (bytes_eq_self id) refl

module _ ⦃db : Database⦄ ⦃p : Platform⦄ (codec : BlockCodec) ⦃pkg : HeapPackage⦄
    (start : World db.Db) where
  -- A block leaves the verified ones with a decision.
  module _ (w : World db.Db) (o : Ordered codec start w) (b : Live db.Db) (log : List (Live db.Db))
      (d : db.Db) (blocks : Bytes → Option (Live db.Db)) (last : Live db.Db) where
    decided : Bytes → Bool
    decided = with w.decided b.id true

    fewer : Bytes → Option (Live db.Db)
    fewer = with w.state.verified_blocks b.id none

    fewer-Ordered :
        ((id : Bytes) (c : Live db.Db)
          → blocks id ≡ some c
          → (decided id ≡ true) × (c.st ≡ accepted))
        → decided last.id ≡ true
        → ((id : Bytes) (c : Live db.Db)
            → w.state.verified_blocks id ≡ some c
            → c.prnt ≡ last.id
            → Executes codec start d c)
        → Replays codec start log last.id d
        → IsOrdered codec start decided log d blocks fewer last
    unfolding decided fewer
    fewer-Ordered cached last_decided on_last replays = record {
      cached = cached;
      own_id = λ id c h. o.own_id id c (without w.state.verified_blocks b.id id c h).0;
      open_id = λ id c h.
          let (old, other) = without w.state.verified_blocks b.id id c h in
          rw other (o.open_id id c old);
      waits = λ id c h. o.waits id c (without w.state.verified_blocks b.id id c h).0;
      has_parent = λ id c h.
          let (old, other) = without w.state.verified_blocks b.id id c h in
          elim (o.has_parent id c old) [
            | inl closed ↦ inl (decided_more w.decided b.id c.prnt closed)
            | inr (m, found) ↦ elim (Bool-cases (bytes_eq b.id c.prnt)) [
              | inl gone ↦ inl (rw gone refl)
              | inr stays ↦ inr (m, rw stays found)
            ]
          ];
      last_decided = last_decided;
      on_last = λ id c h e. on_last id c (without w.state.verified_blocks b.id id c h).0 e;
      on_verified = λ id c m e h k f.
          o.on_verified id c m e (without w.state.verified_blocks b.id id c h).0
            (without w.state.verified_blocks b.id c.prnt m k).0 f;
      replays = replays;
    }

  pub accept-Ordered :
      (w : World db.Db) (b : Live db.Db) (d : db.Db)
      → Ordered codec start w
      → w.state.verified_blocks b.id ≡ some b
      → b.prnt ≡ w.state.last_accepted.id
      → b.on_accept_db ≡ some d
      → IsOrdered codec start
          (with w.decided b.id true)
          (b ∷ w.log)
          d
          (with w.state.blocks b.id (some (mark accepted b)))
          (with w.state.verified_blocks b.id none)
          (mark accepted b)
  unfolding decided fewer mark
  accept-Ordered w b d o waiting child executed =
      fewer-Ordered w o b (b ∷ w.log) d (with w.state.blocks b.id (some (mark accepted b)))
        (mark accepted b)
        (λ id c h. elim (with-cases w.state.blocks b.id id (mark accepted b) c h) [
          | inl (e, same) ↦ (
            ap (with w.decided b.id true) (sym e) ∙ decided_self w.decided b.id,
            ap (λ x. x.st) (sym same),
          )
          | inr old ↦
              let (closed, st) = o.cached id c old in (decided_more w.decided b.id id closed, st)
        ])
        (decided_self w.decided b.id)
        (λ id c h e. o.on_verified id c b d h (ap w.state.verified_blocks e ∙ waiting) executed)
        (then_block w.log w.state.last_accepted.id w.state.db d b o.replays child
          (o.on_last b.id b waiting child) executed)

  pub reject-Ordered :
      (w : World db.Db) (b : Live db.Db)
      → Ordered codec start w
      → IsOrdered codec start
          (with w.decided b.id true)
          w.log
          w.state.db
          w.state.blocks
          (with w.state.verified_blocks b.id none)
          w.state.last_accepted
  unfolding decided fewer
  reject-Ordered w b o =
      fewer-Ordered w o b w.log w.state.db w.state.blocks w.state.last_accepted
        (λ id c h.
          let (closed, st) = o.cached id c h in (decided_more w.decided b.id id closed, st))
        (decided_more w.decided b.id w.state.last_accepted.id o.last_decided) o.on_last o.replays
