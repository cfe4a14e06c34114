-- ===== src/Block/Accepted/Roundtrip.antt =====
-- SetLastAccepted followed by GetBlock, of chain/storage.go.
use spacesvm.Prelude.{
  ◌≡◌, ◌≢◌, refl, sym, ap, ◌∙◌, Option, none, some, List, [], ◌∷◌, map, Bytes, length,
  bytes_eq_self, arith,
}
use spacesvm.Errors.{ok, bad_encoding}
use spacesvm.Exec.{lift, bind-ok, ◌>>=◌}
use spacesvm.Platform.{Database, Platform, IsLawful}
use spacesvm.Types.{
  UnsignedTransaction, Transaction, StatefulBlock, StatelessBlock, claim_tx, lifeline_tx, set_tx,
  delete_tx, move_tx, transfer_tx,
}
use spacesvm.Keys.{last_accepted, prefix_block_key, prefix_tx_value_key}
use spacesvm.Keys.Encoding.{StoreKey, encode, encode_ne}
use spacesvm.Storage.{require}
use spacesvm.Block.Accepted.{
  BlockCodec, copy, link_set, link_unsigned, link_values, restore_value, restore_unsigned,
  restore_values, set_last_accepted, get_block,
}

-- What the codec writes of a block: the fields that its struct tags name.
abbrev pub serialized : StatefulBlock → StatefulBlock
serialized b = record b { txs = map copy b.txs }

-- No transaction of the list has this id.
abbrev pub Without : Bytes → List Transaction → Type 0
Without id [] = Unit
Without id (tx ∷ txs) = (tx.id ≢ id) × Without id txs

-- The transactions have ids of 32 bytes, each its own.
abbrev pub Distinct : List Transaction → Type 0
Distinct [] = Unit
Distinct (tx ∷ txs) = (length tx.id ≡ 32) × Without tx.id txs × Distinct txs

require-ok : {A : Type 0} (o : Option A) (a : A) → require bad_encoding o ≡ ok a → o ≡ some a
require-ok none a h = absurd (cc)
require-ok (some b) a h = cc

module _ ⦃db : Database⦄ ⦃p : Platform⦄ where
  link_unsigned-other :
      (tx : Transaction) (u : UnsignedTransaction) (id : Bytes) (d : db.Db)
      → tx.id ≢ id
      → db.get (link_unsigned tx u d).1 (prefix_tx_value_key id) ≡ db.get d (prefix_tx_value_key id)
  unfolding link_unsigned link_set ◌>>=◌ encode
  link_unsigned-other tx (set_tx b space key value) id d h =
      let apart = encode_ne (StoreKey.tx_value tx.id) (StoreKey.tx_value id) tt tt (λ e. h (cc)) in
      let put = db.get-put d (prefix_tx_value_key tx.id) value (prefix_tx_value_key id) in
      ground arith
  link_unsigned-other tx (claim_tx _ _) id d h = refl
  link_unsigned-other tx (lifeline_tx _ _ _) id d h = refl
  link_unsigned-other tx (delete_tx _ _ _) id d h = refl
  link_unsigned-other tx (move_tx _ _ _) id d h = refl
  link_unsigned-other tx (transfer_tx _ _ _) id d h = refl

  link_unsigned-restores :
      IsLawful p
      → (tx : Transaction) (u : UnsignedTransaction) (d e : db.Db) (original linked : Transaction)
      → tx.unsigned ≡ u
      → length tx.id ≡ 32
      → (link_unsigned tx u d).0 ≡ ok (original, linked)
      → db.get e (prefix_tx_value_key tx.id)
        ≡ db.get (link_unsigned tx u d).1 (prefix_tx_value_key tx.id)
      → (restore_unsigned linked.unsigned e ≡ (ok u, e)) × (linked.signature ≡ tx.signature)
  unfolding link_unsigned link_set restore_unsigned restore_value ◌>>=◌
  link_unsigned-restores laws tx (set_tx b space key value) d e original linked same l h g =
      let put = db.get-put d (prefix_tx_value_key tx.id) value (prefix_tx_value_key tx.id) in
      let self = bytes_eq_self (prefix_tx_value_key tx.id) in
      let id = laws.to_id_lem tx.id in ground arith
  link_unsigned-restores laws tx (claim_tx b space) d e original linked same l h g =
      let kept : tx ≡ linked = cc in rw (← kept, same) (refl, refl)
  link_unsigned-restores laws tx (lifeline_tx _ _ _) d e original linked same l h g =
      let kept : tx ≡ linked = cc in rw (← kept, same) (refl, refl)
  link_unsigned-restores laws tx (delete_tx _ _ _) d e original linked same l h g =
      let kept : tx ≡ linked = cc in rw (← kept, same) (refl, refl)
  link_unsigned-restores laws tx (move_tx _ _ _) d e original linked same l h g =
      let kept : tx ≡ linked = cc in rw (← kept, same) (refl, refl)
  link_unsigned-restores laws tx (transfer_tx _ _ _) d e original linked same l h g =
      let kept : tx ≡ linked = cc in rw (← kept, same) (refl, refl)

  link_values-other :
      (txs : List Transaction) (id : Bytes) (d : db.Db)
      → Without id txs
      → db.get (link_values txs d).1 (prefix_tx_value_key id) ≡ db.get d (prefix_tx_value_key id)
  unfolding link_values ◌>>=◌
  link_values-other [] id d h = refl
  link_values-other (tx ∷ txs) id d h =
      let first = link_unsigned-other tx tx.unsigned id d h.0 in
      let rest = link_values-other txs id (link_unsigned tx tx.unsigned d).1 h.1 in ground arith

  link_values-restores :
      IsLawful p
      → (txs : List Transaction) (d d' e : db.Db) (originals linked : List Transaction)
      → Distinct txs
      → link_values txs d ≡ (ok (originals, linked), d')
      → ((id : Bytes) → db.get e (prefix_tx_value_key id) ≡ db.get d' (prefix_tx_value_key id))
      → restore_values (map copy linked) e ≡ (ok (map copy txs), e)
  unfolding link_values restore_values ◌>>=◌ copy
  link_values-restores laws [] d d' e originals linked ids h g =
      let none_linked : [] ≡ linked = cc in rw (← none_linked) refl
  link_values-restores laws (tx ∷ txs) d d' e originals linked ids h g =
      let (one, h1, k1) = bind-ok _ (originals, linked) d' (link_unsigned tx tx.unsigned) d h in
      let d1 = (link_unsigned tx tx.unsigned d).1 in
      let (rest, h2, k2) = bind-ok _ (originals, linked) d' (link_values txs) d1 k1 in
      let d2 = (link_values txs d1).1 in
      let both : (one.1 ∷ rest.1) ≡ linked = cc in
      let last : d2 ≡ d' = cc in
      let kept = link_values-other txs tx.id d1 ids.1 in
      let first =
        link_unsigned-restores laws tx tx.unsigned d e one.0 one.1 refl ids.0 h1
          (g tx.id ∙ ap (λ s. db.get s (prefix_tx_value_key tx.id)) (sym last) ∙ kept) in
      let others =
        link_values-restores laws txs d1 d2 e rest.0 rest.1 ids.2 (ap (λ r. (r, d2)) h2)
          (λ id. g id ∙ ap (λ s. db.get s (prefix_tx_value_key id)) (sym last)) in
      rw (← both, first.0, others, first.1) refl

  -- A block that was stored without an error is read back as its serialized fields, with the values
  -- of its set transactions in their places, and reading it changes nothing. Its transactions have
  -- ids of 32 bytes, each its own, and the codec reads back what it writes.
  pub get_block-set_last_accepted :
      IsLawful p
      → (codec : BlockCodec)
      → ((x : StatefulBlock) (v : Bytes)
          → codec.marshal_block x ≡ some v
          → codec.unmarshal_block v ≡ some (serialized x))
      → (b stored : StatelessBlock) (d d' : db.Db) → Distinct b.txs
      → set_last_accepted codec b d ≡ (ok stored, d')
      → get_block codec b.id d' ≡ (ok (serialized b.block), d')
  unfolding set_last_accepted get_block ◌>>=◌ encode
  get_block-set_last_accepted laws codec reads b stored d d' ids h =
      let d1 = db.put d last_accepted b.id in
      let (txs, h2, k2) = bind-ok _ stored d' (link_values b.txs) d1 h in
      let d2 = (link_values b.txs d1).1 in
      let linked = record b.block { txs = txs.1 } in
      let (sbytes, h3, k3) =
        bind-ok _ stored d' (lift (require bad_encoding (codec.marshal_block linked))) d2 k2 in
      let written : codec.marshal_block linked ≡ some sbytes =
        require-ok (codec.marshal_block linked) sbytes h3 in
      let last : db.put d2 (prefix_block_key b.id) sbytes ≡ d' = cc in
      let found : db.get d' (prefix_block_key b.id) ≡ some sbytes =
        rw
          (
            ← last,
            db.get-put d2 (prefix_block_key b.id) sbytes (prefix_block_key b.id),
            bytes_eq_self (prefix_block_key b.id),
          )
          refl in
      let restored =
        link_values-restores laws b.txs d1 d2 d' txs.0 txs.1 ids (ap (λ r. (r, d2)) h2) λ id.
          rw
            (
              ← last,
              db.get-put d2 (prefix_block_key b.id) sbytes (prefix_tx_value_key id),
              encode_ne (StoreKey.block b.id) (StoreKey.tx_value id) tt tt (λ e. ground arith),
            )
            refl in
      rw (found, reads linked sbytes written, restored) refl
