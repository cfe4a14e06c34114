-- ===== src/VirtualMachine/Ordered.antt =====
-- Every move of the engine and of the users keeps the maps of vm/vm.go ordered.
use spacesvm.Prelude.{
  ◌<◌, ◌≡◌, ◌≢◌, ◌⊎◌, inl, inr, sym, ap, subst, ◌∙◌, true, false, Option, none, some, Bytes,
  bytes_eq, bytes_eq→eq, arith,
}
use spacesvm.Errors.{ok, bind-ok}
use spacesvm.Platform.{Database, Platform}
use spacesvm.Types.{StatelessBlock, processing, accepted}
use spacesvm.Block.{Node, on_accept, is_accepted}
use spacesvm.Block.Accepted.{BlockCodec}
use spacesvm.Mempool.Heap.{with}
use spacesvm.Mempool.Package.{HeapPackage}
use spacesvm.VirtualMachine.{Live, State, get_stateless_block, seen}
use spacesvm.VirtualMachine.Kept.{SameHeader, get_stateless_block-cases}
use spacesvm.VirtualMachine.Replay.{World, Executes, IsOrdered}

pub with-cases :
    {A : Type 0} (f : Bytes → Option A) (id j : Bytes) (a b : A)
    → with f id (some a) j ≡ some b
    → ((id ≡ j) × (a ≡ b)) ⊎ (f j ≡ some b)
with-cases f id j a b h = ground (arith, bytes_eq→eq id j)

pub without :
    {A : Type 0} (f : Bytes → Option A) (id j : Bytes) (b : A)
    → with f id none j ≡ some b
    → (f j ≡ some b) × (bytes_eq id j ≡ false)
without f id j b h = ground arith

module _ ⦃db : Database⦄ ⦃p : Platform⦄ (codec : BlockCodec) ⦃pkg : HeapPackage⦄
    (start : World db.Db) where
  abbrev pub Ordered : World db.Db → Type 0
  Ordered w =
      IsOrdered codec start w.decided w.log w.state.db w.state.blocks w.state.verified_blocks
        w.state.last_accepted

  -- the database on which the block's execution started
  on_accept-last :
      (s : State db.Db) (n : Node db.Db) (d : db.Db)
      → n.st ≡ accepted
      → on_accept (seen codec s) n ≡ ok d
      → s.db ≡ d
  unfolding on_accept is_accepted seen
  on_accept-last s n d e h = ground (arith, e, h)

  on_accept-waiting :
      (s : State db.Db) (n : Node db.Db) (d : db.Db)
      → n.st ≡ processing
      → 0 < n.hght
      → on_accept (seen codec s) n ≡ ok d
      → n.on_accept_db ≡ some d
  unfolding on_accept is_accepted seen
  on_accept-waiting s n d e high h = ground (arith, e, high, h)

  -- Where the execution of a block starts: on its parent's database.
  pub parent-db :
      (w : World db.Db) (b : StatelessBlock) (parent : Node db.Db) (d : db.Db)
      → Ordered w
      → (seen codec w.state).get_stateless_block b.prnt ≡ ok parent
      → on_accept (seen codec w.state) parent ≡ ok d
      → (b.prnt ≡ w.state.last_accepted.id → w.state.db ≡ d)
        × ((m : Live db.Db) → w.state.verified_blocks b.prnt ≡ some m → m.on_accept_db ≡ some d)
  unfolding seen
  parent-db w b parent d o has run =
      let s = w.state in
      let (live, found, same) = bind-ok (get_stateless_block codec s b.prnt) _ parent has in
      let own : live.node ≡ parent = cc in
      let on : on_accept (seen codec s) live.node ≡ ok d = rw own run in
      elim (get_stateless_block-cases codec s b.prnt live found) [
        | inl cached ↦
            let (closed, st) = o.cached b.prnt live cached in
            (
              λ e. on_accept-last s live.node d st on,
              λ m h. absurd (ground (arith, closed, o.open_id b.prnt m h)),
            )
        | inr (inl (missing, waiting)) ↦
            let (st, high) = o.waits b.prnt live waiting in
            (
              λ e. absurd (ground (arith, o.open_id b.prnt live waiting, o.last_decided, e)),
              λ m h.
                  let same_live : live ≡ m = cc in
                  ap (λ (x : Live db.Db). x.on_accept_db) (sym same_live)
                  ∙ on_accept-waiting s live.node d st high on,
            )
        | inr (inr (missing, st)) ↦ (λ e. on_accept-last s live.node d st on, λ m h. absurd (cc))
      ]

  -- A block that Verify has let in.
  module _ (w : World db.Db) (o : Ordered w) (b : StatelessBlock) (live : Live db.Db)
      (header : SameHeader live.stateless b) (st : b.st ≡ processing) (high : 0 < b.hght)
      (fresh : w.decided b.id ≡ false) (new : w.state.verified_blocks b.id ≡ none)
      (guard : (b.prnt ≡ w.state.last_accepted.id)
        ⊎ ((m : Live db.Db) × (w.state.verified_blocks b.prnt ≡ some m)))
      (on_db : b.prnt ≡ w.state.last_accepted.id → Executes codec start w.state.db live)
      (on_parent : (m : Live db.Db) (d : db.Db)
        → w.state.verified_blocks b.prnt ≡ some m
        → m.on_accept_db ≡ some d
        → Executes codec start d live) where
    unfoldable pub more : Bytes → Option (Live db.Db)
    more = with w.state.verified_blocks live.id (some live)

    still : (id : Bytes) (m : Live db.Db) → w.state.verified_blocks id ≡ some m → more id ≡ some m
    unfolding more
    still id m h = ground (arith, bytes_eq→eq live.id id, header.id, new)

    not_parent :
        (id : Bytes) (c : Live db.Db) → w.state.verified_blocks id ≡ some c → live.id ≢ c.prnt
    not_parent id c h = λ e. elim (o.has_parent id c h) [
      | inl closed ↦ absurd (ground (arith, header.id, fresh))
      | inr (m, found) ↦ absurd (ground (arith, header.id, new))
    ]

    not_own : live.id ≢ live.prnt
    not_own = λ e. elim guard [
      | inl last ↦ absurd (ground (arith, header.id, header.prnt, fresh, o.last_decided))
      | inr (m, found) ↦ absurd (ground (arith, header.id, header.prnt, new))
    ]

    pub more-Ordered :
        IsOrdered codec start w.decided w.log w.state.db w.state.blocks more w.state.last_accepted
    unfolding more
    more-Ordered = record {
      cached = o.cached;
      own_id = λ id c h. elim (with-cases w.state.verified_blocks live.id id live c h) [
        | inl (e, same) ↦ ap (λ x. x.id) (sym same) ∙ e
        | inr old ↦ o.own_id id c old
      ];
      open_id = λ id c h. elim (with-cases w.state.verified_blocks live.id id live c h) [
        | inl (e, same) ↦ ap w.decided (sym e ∙ header.id) ∙ fresh
        | inr old ↦ o.open_id id c old
      ];
      waits = λ id c h. elim (with-cases w.state.verified_blocks live.id id live c h) [
        | inl (e, same) ↦
            subst (λ x. (x.st ≡ processing) × (0 < x.hght)) same
              (header.st ∙ st, omega (arith, header.hght, high))
        | inr old ↦ o.waits id c old
      ];
      has_parent = λ id c h. elim (with-cases w.state.verified_blocks live.id id live c h) [
        | inl (e, same) ↦
            subst (λ x. (w.decided x.prnt ≡ true) ⊎ ((m : Live db.Db) × (more x.prnt ≡ some m)))
              same
              (elim guard [
                | inl last ↦ inl (ap w.decided (header.prnt ∙ last) ∙ o.last_decided)
                | inr (m, found) ↦
                    inr (m, still live.prnt m (ap w.state.verified_blocks header.prnt ∙ found))
              ])
        | inr old ↦ elim (o.has_parent id c old) [
          | inl closed ↦ inl closed
          | inr (m, found) ↦ inr (m, still c.prnt m found)
        ]
      ];
      last_decided = o.last_decided;
      on_last = λ id c h e. elim (with-cases w.state.verified_blocks live.id id live c h) [
        | inl (own, same) ↦
            subst (Executes codec start w.state.db) same
              (on_db (sym header.prnt ∙ ap (λ x. x.prnt) same ∙ e))
        | inr old ↦ o.on_last id c old e
      ];
      on_verified = λ id c m d h k e.
          elim (with-cases w.state.verified_blocks live.id id live c h) [
            | inl (own, same) ↦ elim (with-cases w.state.verified_blocks live.id c.prnt live m k) [
              | inl (self, _) ↦ absurd (not_own (self ∙ ap (λ x. x.prnt) (sym same)))
              | inr known ↦ subst (Executes codec start d) same (
                  on_parent m d
                    (ap w.state.verified_blocks (sym header.prnt ∙ ap (λ x. x.prnt) same) ∙ known)
                    e)
            ]
            | inr old ↦ elim (with-cases w.state.verified_blocks live.id c.prnt live m k) [
              | inl (self, _) ↦ absurd (not_parent id c old self)
              | inr known ↦ o.on_verified id c m d old known e
            ]
          ];
      replays = o.replays;
    }
