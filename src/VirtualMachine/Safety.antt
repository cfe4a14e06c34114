-- ===== src/VirtualMachine/Safety.antt =====
-- What the database of vm/vm.go is after any run of the consensus engine.
use spacesvm.Prelude.{ℕ, ◌<◌, ◌≡◌, ◌⊎◌, refl, sym, ap, subst, ◌∙◌, false, none, some, Bytes, arith}
use spacesvm.Errors.{ok}
use spacesvm.Platform.{Database, Platform}
use spacesvm.Types.{StatelessBlock, processing}
use spacesvm.Block.{Vm, on_accept, verify}
use spacesvm.Block.Rules.{verify-Obeys}
use spacesvm.Block.Accepted.{BlockCodec}
use spacesvm.Mempool.Heap.{with}
use spacesvm.Mempool.Package.{HeapPackage}
use spacesvm.VirtualMachine.{Live, State, bootstrapping, normal_op, set_state, set_preference, seen}
use spacesvm.VirtualMachine.Life.{verify_block}
use spacesvm.VirtualMachine.Kept.{
  settings, store_block-SameHeader, accept-Becomes, reject-Rests, verify_block-Rests,
}
use spacesvm.VirtualMachine.Replay.{
  World, rules, Executes, Replays, root_block, Move, verify_move, accept_move, reject_move,
  preference_move, state_move, mempool_move, forget_move, IsStart, Reach, here, next, IsOrdered,
}
use spacesvm.VirtualMachine.Ordered.{Ordered, parent-db, more, more-Ordered, without}
use spacesvm.VirtualMachine.Decisions.{accept-Ordered, reject-Ordered}

module _ ⦃db : Database⦄ ⦃p : Platform⦄ (codec : BlockCodec) ⦃pkg : HeapPackage⦄
    (start : World db.Db) where
  Move-settings : (w v : World db.Db) → Move codec w v → settings v.state ≡ settings w.state
  unfolding set_state set_preference
  Move-settings w v (verify_move now b live t st high fresh new guard h) =
      let (parent, d, winners, passed, stored, rests) =
        verify_block-Rests codec now b live w.state t h in
      rests.on_settings
  Move-settings w v (accept_move b b' t waiting child h) =
      let (d, executed, becomes) = accept-Becomes b b' w.state t h in becomes.on_settings
  Move-settings w v (reject_move b b' t waiting h) = (reject-Rests b b' w.state t h).on_settings
  Move-settings w v (preference_move id) = refl
  Move-settings w v (state_move (some bootstrapping)) = refl
  Move-settings w v (state_move (some normal_op)) = refl
  Move-settings w v (state_move none) = refl
  Move-settings w v (mempool_move m) = refl
  Move-settings w v (forget_move id) = refl

  Reach-settings : (w : World db.Db) → Reach codec start w → settings w.state ≡ settings start.state
  Reach-settings w here = refl
  Reach-settings w (next u w' r m) = Move-settings u w m ∙ Reach-settings u r

  -- What the blocks see of the VM is its own rules.
  seen-rules :
      (s : State db.Db)
      → settings s ≡ settings start.state
      → seen codec s ≡ rules codec (settings start.state) s
  unfolding seen
  seen-rules s same = ap (λ k. rules codec k s) same

  verify-Ordered :
      (w : World db.Db) (now : ℕ) (b : StatelessBlock) (live : Live db.Db) (t : State db.Db)
      → Reach codec start w
      → Ordered codec start w
      → b.st ≡ processing
      → 0 < b.hght
      → w.decided b.id ≡ false
      → w.state.verified_blocks b.id ≡ none
      → (b.prnt ≡ w.state.last_accepted.id)
        ⊎ ((m : Live db.Db) × (w.state.verified_blocks b.prnt ≡ some m))
      → verify_block codec now b w.state ≡ (ok live, t)
      → Ordered codec start (record w { state = t })
  unfolding more
  verify-Ordered w now b live t reached o st high fresh new guard h =
      let (parent, d, winners, passed, stored, rests) =
        verify_block-Rests codec now b live w.state t h in
      let (header, _, on) = store_block-SameHeader codec b d winners live stored in
      let own = seen-rules w.state (Reach-settings w reached) in
      let vm = rules codec (settings start.state) w.state in
      let obeys =
        verify-Obeys vm now b parent d winners
          (subst (λ v. verify v now b ≡ ok (parent, d, winners)) own passed) in
      let (from_last, from_parent) =
        parent-db codec start w b parent obeys.before_block o
          (subst (λ (v : Vm db.Db). v.get_stateless_block b.prnt ≡ ok parent) (sym own)
            obeys.has_parent)
          (subst (λ v. on_accept v parent ≡ ok obeys.before_block) (sym own) obeys.on_parent) in
      let executes : (e : db.Db) → obeys.before_block ≡ e → Executes codec start e live = λ e same.
        record {
          past = w;
          reached = reached;
          now = now;
          block = b;
          parent = parent;
          after_block = d;
          winners = winners;
          obeys = obeys;
          on = same;
          stored = stored;
        } in
      rw (rests.on_db, rests.on_blocks, rests.on_verified, rests.on_last)
        (more-Ordered codec start w o b live header st high fresh new guard
          (λ e. executes w.state.db (sym (from_last e)))
          (λ m e found has. executes e (ground (arith, from_parent m found, has))))

  forget-Ordered :
      (w : World db.Db) (id : Bytes)
      → Ordered codec start w
      → IsOrdered codec start w.decided w.log w.state.db
          (with w.state.blocks id none)
          w.state.verified_blocks
          w.state.last_accepted
  forget-Ordered w id o = record {
    cached = λ j c h. o.cached j c (without w.state.blocks id j c h).0;
    own_id = o.own_id;
    open_id = o.open_id;
    waits = o.waits;
    has_parent = o.has_parent;
    last_decided = o.last_decided;
    on_last = o.on_last;
    on_verified = o.on_verified;
    replays = o.replays;
  }

  Move-Ordered :
      (w v : World db.Db)
      → Reach codec start w
      → Ordered codec start w
      → Move codec w v
      → Ordered codec start v
  unfolding set_state set_preference
  Move-Ordered w v r o (verify_move now b live t st high fresh new guard h) =
      verify-Ordered w now b live t r o st high fresh new guard h
  Move-Ordered w v r o (accept_move b b' t waiting child h) =
      let (d, executed, becomes) = accept-Becomes b b' w.state t h in
      rw (becomes.on_db, becomes.on_blocks, becomes.on_verified, becomes.on_last)
        (accept-Ordered codec start w b d o waiting child executed)
  Move-Ordered w v r o (reject_move b b' t waiting h) =
      let rests = reject-Rests b b' w.state t h in
      rw (rests.on_db, rests.on_blocks, rests.on_verified, rests.on_last)
        (reject-Ordered codec start w b o)
  Move-Ordered w v r o (preference_move id) = o
  Move-Ordered w v r o (state_move (some bootstrapping)) = o
  Move-Ordered w v r o (state_move (some normal_op)) = o
  Move-Ordered w v r o (state_move none) = o
  Move-Ordered w v r o (mempool_move m) = o
  Move-Ordered w v r o (forget_move id) = forget-Ordered w id o

start-Ordered :
    ⦃db : Database⦄ ⦃p : Platform⦄ ⦃pkg : HeapPackage⦄
    → (codec : BlockCodec) (w : World db.Db) → IsStart codec w
    → Ordered codec w w
start-Ordered codec w s = record {
  cached = λ id c h. absurd (ground (arith, s.no_blocks id, h));
  own_id = λ id c h. absurd (ground (arith, s.no_verified id, h));
  open_id = λ id c h. absurd (ground (arith, s.no_verified id, h));
  waits = λ id c h. absurd (ground (arith, s.no_verified id, h));
  has_parent = λ id c h. absurd (ground (arith, s.no_verified id, h));
  last_decided = s.decided_last;
  on_last = λ id c h e. absurd (ground (arith, s.no_verified id, h));
  on_verified = λ id c m d h k e. absurd (ground (arith, s.no_verified id, h));
  replays = rw (s.no_log) root_block;
}

Reach-Ordered :
    ⦃db : Database⦄ ⦃p : Platform⦄ ⦃pkg : HeapPackage⦄
    → (codec : BlockCodec) (w v : World db.Db) → IsStart codec w
    → Reach codec w v
    → Ordered codec w v
Reach-Ordered codec w v s here = start-Ordered codec w s
Reach-Ordered codec w v s (next u v' r m) =
    Move-Ordered codec w u v r (Reach-Ordered codec w u s r) m

-- After any run of Verify, Accept and Reject in which the engine issues children of the last accepted
-- block or of blocks that wait, each once and with a height above 0, and accepts children of the last
-- accepted block, the database of the VM is what running the accepted blocks gives, one on the other,
-- from the database of the start, and the last one is the VM's last accepted block. Each of them, at
-- some time and in some state that such a run reaches, obeyed the rules of `verify` under the genesis
-- and the target that the VM started with, and under that state's blocks and bootstrapping.
pub Reach-Replays :
    ⦃db : Database⦄ ⦃p : Platform⦄ ⦃pkg : HeapPackage⦄
    → (codec : BlockCodec) (w v : World db.Db) → IsStart codec w
    → Reach codec w v
    → Replays codec w v.log v.state.last_accepted.id v.state.db
Reach-Replays codec w v s r = (Reach-Ordered codec w v s r).replays
