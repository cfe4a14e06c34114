-- ===== src/VirtualMachine/Kept.antt =====
-- What the calls on a block leave as it was: its id, its parent and its height.
use spacesvm.Prelude.{
  ℕ, ◌≡◌, ◌⊎◌, inl, inr, refl, sym, ap, subst, ◌∙◌, Option, none, some, List, [], ◌∷◌, Bytes, ◌==◌,
  length, Bool-cases,
}
use spacesvm.Errors
use spacesvm.Errors.{Result, ok, err, panic, out_of_fuel}
use spacesvm.Exec.{return, lift, gets, modify, ◌>>=◌, bind-ok}
use spacesvm.Platform.{Database, Platform}
use spacesvm.Types.{
  Transaction, StatefulBlock, StatelessBlock, Activity, Status, accepted, rejected,
}
use spacesvm.Genesis.{Genesis}
use spacesvm.Storage.{require, store}
use spacesvm.Keys.{last_accepted, prefix_block_key}
use spacesvm.Tx.Execute
use spacesvm.Block.{Node, verify}
use spacesvm.Block.Accepted.{BlockCodec, set_last_accepted, link_values, get_block}
use spacesvm.Mempool.{Mempool}
use spacesvm.Mempool.Heap.{with}
use spacesvm.Mempool.Package.{HeapPackage}
use spacesvm.VirtualMachine.{
  Live, State, mark, put_activity, put_reward, winner_of, log_txs, accepted_block, accept_on,
  accept, parse_stateful_block, source_of, init_txs, get_from_disk, get_stateless_block, seen,
}
use spacesvm.VirtualMachine.Life.{
  store_block, on_mempool, remove_txs, add_txs, verified, rejected_block, reject, verify_block,
}

-- The same block, with other transactions perhaps.
pub record SameHeader (a b : StatelessBlock) : Type 0 where
  pub id : a.id ≡ b.id
  pub st : a.st ≡ b.st
  pub hght : a.hght ≡ b.hght
  pub prnt : a.prnt ≡ b.prnt

module _ ⦃db : Database⦄ ⦃p : Platform⦄ (codec : BlockCodec) where
  set_last_accepted-SameHeader :
      (b stored : StatelessBlock) (d : db.Db)
      → (set_last_accepted codec b d).0 ≡ ok stored
      → SameHeader stored b
  unfolding set_last_accepted
  set_last_accepted-SameHeader b stored d h =
      let end = (set_last_accepted codec b d).1 in
      let all : set_last_accepted codec b d ≡ (ok stored, end) =
        ap (λ (r : Result StatelessBlock). (r, end)) h in
      let (u, h1, k1) = bind-ok _ stored end (store last_accepted b.id) d all in
      let (txs, h2, k2) = bind-ok _ stored end (link_values b.txs) _ k1 in
      let (v, h3, k3) =
        bind-ok _ stored end
          (lift
            (require Errors.bad_encoding (codec.marshal_block (record b.block { txs = txs.1 }))))
          _ k2 in
      let (w, h4, k4) = bind-ok _ stored end (store (prefix_block_key b.id) v) _ k3 in
      let same : record b { block = record b.block { txs = txs.0 } } ≡ stored =
        unfold return in cc in
      subst (λ s. SameHeader s b) same (record { id = refl; st = refl; hght = refl; prnt = refl })

  pub store_block-SameHeader :
      (b : StatelessBlock) (d : db.Db) (winners : List (Option Activity)) (live : Live db.Db)
      → store_block codec b d winners ≡ ok live
      → SameHeader live.stateless b
        × (live.winners ≡ winners)
        × (live.on_accept_db ≡ some (set_last_accepted codec b d).1)
  unfolding store_block
  store_block-SameHeader b d winners live h =
      let done = set_last_accepted codec b d in
      let (stored, h1, k1) = Errors.bind-ok done.0 _ live h in
      let same : record {
        node = record { stateless = stored; on_accept_db = some done.1 };
        winners = winners;
      }
          ≡ live =
        cc in
      subst (λ l. SameHeader l.stateless b × (l.winners ≡ winners) × (l.on_accept_db ≡ some done.1))
        same (set_last_accepted-SameHeader b stored d h1, refl, refl)

  parse_stateful_block-status :
      (blk : StatefulBlock) (source : Bytes) (s : Status) (live : Live db.Db)
      → parse_stateful_block codec blk source s ≡ ok live
      → live.st ≡ s
  unfolding parse_stateful_block
  parse_stateful_block-status blk source s live h =
      let (bytes, h1, k1) = Errors.bind-ok (source_of codec source blk) _ live h in
      let (id, h2, k2) =
        Errors.bind-ok (require Errors.bad_id (p.to_id (p.keccak256 bytes))) _ live k1 in
      let (txs, h3, k3) = Errors.bind-ok (init_txs blk.txs) _ live k2 in
      ap
        (λ (l : Result (Live db.Db)). elim l [
          | ok x ↦ x.st
          | err _ ↦ s
          | panic ↦ s
          | out_of_fuel ↦ s
        ])
        (sym k3)

  -- Where the VM finds a block.
  pub get_stateless_block-cases :
      (s : State db.Db) (id : Bytes) (live : Live db.Db)
      → get_stateless_block codec s id ≡ ok live
      → (s.blocks id ≡ some live)
        ⊎ ((s.blocks id ≡ none) × (s.verified_blocks id ≡ some live))
        ⊎ ((s.verified_blocks id ≡ none) × (live.st ≡ accepted))
  unfolding get_stateless_block get_from_disk
  get_stateless_block-cases s id live h = split (s.blocks id) refl (s.verified_blocks id) refl h
    where
      found : Option (Live db.Db) → Option (Live db.Db) → Result (Live db.Db)
      found cached waiting = elim cached [
        | some b ↦ ok b
        | none ↦ elim waiting [ some b ↦ ok b | none ↦ get_from_disk codec s id ]
      ]

      split :
          (cached : Option (Live db.Db))
          → s.blocks id ≡ cached
          → (waiting : Option (Live db.Db)) → s.verified_blocks id ≡ waiting
          → found cached waiting ≡ ok live
          → (s.blocks id ≡ some live)
            ⊎ ((s.blocks id ≡ none) × (s.verified_blocks id ≡ some live))
            ⊎ ((s.verified_blocks id ≡ none) × (live.st ≡ accepted))
      split (some b) e w f g = inl (e ∙ cc)
      split none e (some b) f g = inr (inl (e, f ∙ cc))
      split none e none f g =
          let (blk, h1, k1) =
            Errors.bind-ok (get_block codec id s.db).0
              (λ blk. parse_stateful_block codec blk [] accepted) live g in
          inr (inr (f, parse_stateful_block-status blk [] accepted live k1))

module _ ⦃db : Database⦄ where
  -- What the VM is started with and no call changes.
  abbrev pub settings : State db.Db → Genesis × ℕ × ℕ
  settings s = (s.genesis, s.lookback_fuel, s.target_range_units)

  -- What a call does to the maps of blocks and to the database.
  pub record Becomes (k : Genesis × ℕ × ℕ) (t : State db.Db) (d : db.Db)
      (blocks verified_blocks : Bytes → Option (Live db.Db)) (last : Live db.Db) : Type 0 where
    pub on_settings : settings t ≡ k
    pub on_db : t.db ≡ d
    pub on_blocks : t.blocks ≡ blocks
    pub on_verified : t.verified_blocks ≡ verified_blocks
    pub on_last : t.last_accepted ≡ last

  put_reward-Becomes :
      (w : Option Activity) (s : State db.Db)
      → Becomes (settings s) (put_reward w s) s.db s.blocks s.verified_blocks s.last_accepted
  unfolding put_reward put_activity
  put_reward-Becomes none s = record {
    on_settings = refl;
    on_db = refl;
    on_blocks = refl;
    on_verified = refl;
    on_last = refl;
  }
  put_reward-Becomes (some a) s = record {
    on_settings = refl;
    on_db = refl;
    on_blocks = refl;
    on_verified = refl;
    on_last = refl;
  }

  log_txs-Becomes :
      ⦃p : Platform⦄
      → (time : ℕ) (all : List Transaction) (winners : List (Option Activity))
        (txs : List Transaction) (s : State db.Db)
      → Becomes
          (settings s)
          (log_txs time all winners txs s)
          s.db
          s.blocks
          s.verified_blocks
          s.last_accepted
  unfolding log_txs put_activity
  log_txs-Becomes time all winners [] s = record {
    on_settings = refl;
    on_db = refl;
    on_blocks = refl;
    on_verified = refl;
    on_last = refl;
  }
  log_txs-Becomes time all winners (tx ∷ txs) s =
      let one = put_activity (record (Execute.activity tx) { tmstmp = time }) s in
      let paid = put_reward-Becomes (winner_of tx.id all winners) one in
      let rest =
        log_txs-Becomes time all winners txs (put_reward (winner_of tx.id all winners) one) in
      record {
        on_settings = rest.on_settings ∙ paid.on_settings;
        on_db = rest.on_db ∙ paid.on_db;
        on_blocks = rest.on_blocks ∙ paid.on_blocks;
        on_verified = rest.on_verified ∙ paid.on_verified;
        on_last = rest.on_last ∙ paid.on_last;
      }

  accepted_block-Becomes :
      ⦃p : Platform⦄
      → (b : Live db.Db) (s : State db.Db)
      → Becomes
          (settings s)
          (accepted_block b s)
          s.db
          (with s.blocks b.id (some b))
          (with s.verified_blocks b.id none)
          b
  unfolding accepted_block
  accepted_block-Becomes b s = elim (Bool-cases (length s.activity_cache == 0)) [
    | inl off ↦ rw off (record {
      on_settings = refl;
      on_db = refl;
      on_blocks = refl;
      on_verified = refl;
      on_last = refl;
    })
    | inr kept ↦ rw kept (log_txs-Becomes b.tmstmp b.txs b.winners b.txs _)
  ]

  -- A block that is accepted was verified, and its database is the VM's now.
  pub accept-Becomes :
      ⦃p : Platform⦄
      → (b after_accept : Live db.Db) (s t : State db.Db) → accept b s ≡ (ok after_accept, t)
      → (d : db.Db) × (b.on_accept_db ≡ some d)
        × Becomes
            (settings s)
            t
            d
            (with s.blocks b.id (some (mark accepted b)))
            (with s.verified_blocks b.id none)
            (mark accepted b)
  unfolding accept accept_on mark ◌>>=◌
  accept-Becomes b b' s t h = split b.on_accept_db refl h
    where
      split :
          (o : Option db.Db)
          → b.on_accept_db ≡ o
          → accept_on o b s ≡ (ok b', t)
          → (d : db.Db) × (b.on_accept_db ≡ some d)
            × Becomes
                (settings s)
                t
                d
                (with s.blocks b.id (some (mark accepted b)))
                (with s.verified_blocks b.id none)
                (mark accepted b)
      split none e k = absurd (cc)
      split (some d) e k =
          let moved : State db.Db = record s { db = d } in
          let same : accepted_block (mark accepted b) moved ≡ t = cc in
          (
            d,
            e,
            subst
                (λ u.
                  Becomes (settings s) u d (with s.blocks b.id (some (mark accepted b)))
                    (with s.verified_blocks b.id none) (mark accepted b))
                same (accepted_block-Becomes (mark accepted b) moved),
          )

  module _ ⦃pkg : HeapPackage⦄ where
    on_mempool-ok :
        (f : Mempool → Result Mempool) (s t : State db.Db) (u : Unit {0})
        → on_mempool f s ≡ (ok u, t)
        → (m : Mempool) × (record s { mempool = m } ≡ t)
    unfolding on_mempool gets lift modify
    on_mempool-ok f s t u h =
        let (r, h1, k1) = bind-ok _ u t (gets (λ (x : State db.Db). f x.mempool)) s h in
        let (m, h2, k2) = bind-ok _ u t (lift r) s k1 in (m, cc)

    -- A call on a block that only changes the map of the verified ones and the mempool.
    abbrev pub Rests : State db.Db → (Bytes → Option (Live db.Db)) → State db.Db → Type 0
    Rests s f t = Becomes (settings s) t s.db s.blocks f s.last_accepted

    pub reject-Rests :
        (b after_reject : Live db.Db) (s t : State db.Db)
        → reject b s ≡ (ok after_reject, t)
        → Rests s (with s.verified_blocks b.id none) t
    unfolding reject rejected_block mark modify
    reject-Rests b b' s t h =
        let (u, h1, k1) = bind-ok _ b' t (rejected_block (mark rejected b)) s h in
        let done = (rejected_block (mark rejected b) s).1 in
        let all : rejected_block (mark rejected b) s ≡ (ok u, done) =
          ap (λ (r : Result (Unit {0})). (r, done)) h1 in
        let (v, h2, k2) =
          bind-ok _ u done
            (modify (λ (x : State db.Db). record x {
              verified_blocks = with x.verified_blocks b.id none;
            }))
            s all in
        let (m, same) =
          on_mempool-ok (add_txs b.txs)
            (record s { verified_blocks = with s.verified_blocks b.id none }) done u k2 in
        let last : done ≡ t = unfold return in cc in
        subst (Rests s (with s.verified_blocks b.id none)) (same ∙ last) (record {
          on_settings = refl;
          on_db = refl;
          on_blocks = refl;
          on_verified = refl;
          on_last = refl;
        })

    -- Verify returned: the block obeys the rules and its database was stored.
    pub verify_block-Rests :
        ⦃p : Platform⦄
        → (codec : BlockCodec) (now : ℕ) (b : StatelessBlock) (live : Live db.Db)
          (s t : State db.Db)
        → verify_block codec now b s ≡ (ok live, t)
        → (parent : Node db.Db) × (d : db.Db) × (winners : List (Option Activity)) × (verify
              (seen codec s)
              now
              b
            ≡ ok (parent, d, winners))
          × (store_block codec b d winners ≡ ok live)
          × Rests s (with s.verified_blocks live.id (some live)) t
    unfolding verify_block verified gets lift modify
    verify_block-Rests codec now b live s t h =
        let (r, h1, k1) =
          bind-ok _ live t (gets (λ (x : State db.Db). verify (seen codec x) now b)) s h in
        let ((parent, d, winners), h2, k2) = bind-ok _ live t (lift r) s k1 in
        let (l, h3, k3) = bind-ok _ live t (lift (store_block codec b d winners)) s k2 in
        let (u, h4, k4) = bind-ok _ live t (verified l) s k3 in
        let done = (verified l s).1 in
        let all : verified l s ≡ (ok u, done) = ap (λ (x : Result (Unit {0})). (x, done)) h4 in
        let (v, h5, k5) =
          bind-ok _ u done
            (modify (λ (x : State db.Db). record x {
              verified_blocks = with x.verified_blocks l.id (some l);
            }))
            s all in
        let (m, same) =
          on_mempool-ok (remove_txs l.txs)
            (record s { verified_blocks = with s.verified_blocks l.id (some l) }) done u k5 in
        let last : done ≡ t = unfold return in cc in
        let own : l ≡ live = unfold return in cc in
        (
          parent,
          d,
          winners,
          cc,
          h3 ∙ ap ok own,
          subst (λ x. Rests s (with s.verified_blocks x.id (some x)) t) own
              (subst (Rests s (with s.verified_blocks l.id (some l))) (same ∙ last) (record {
                on_settings = refl;
                on_db = refl;
                on_blocks = refl;
                on_verified = refl;
                on_last = refl;
              })),
        )
