-- ===== src/Tests/Accepted.antt =====
-- A block with one set transaction, stored and read back through a codec for such blocks.
use spacesvm.Prelude.{
  ◌≡◌, refl, Option, none, some, List, [], ◌∷◌, ◌++◌, Bytes, length, take, drop, take-append,
  drop-append,
}
use spacesvm.Errors.{ok}
use spacesvm.Exec
use spacesvm.Exec.{after}
use spacesvm.Platform.Sample.{fit, sample_database, sample_platform, sample-IsLawful}
use spacesvm.Types.{
  UnsignedTransaction, Transaction, StatefulBlock, StatelessBlock, set_tx, claim_tx, lifeline_tx,
  delete_tx, move_tx, transfer_tx,
}
use spacesvm.Tx.Execute.{init, derive_sender, change_at}
use spacesvm.Block.Accepted.{
  BlockCodec, copy, link_values, link_unsigned, link_set, set_last_accepted, get_block,
}
use spacesvm.Block.Accepted.Roundtrip.{serialized, Distinct, get_block-set_last_accepted}
use spacesvm.Tests.{empty_db, id32, base_tx, block_of}

write_set : StatefulBlock → Bytes → UnsignedTransaction → Option Bytes
write_set x sig (set_tx b space key value) = some (
    x.tmstmp
    ∷ x.hght
    ∷ x.price
    ∷ x.cost
    ∷ b.magic
    ∷ b.price
    ∷ length x.prnt
    ∷ length b.block_id
    ∷ length space
    ∷ length key
    ∷ length value
    ∷ (x.prnt ++ (b.block_id ++ (space ++ (key ++ (value ++ sig))))))
write_set x sig _ = none

write_txs : StatefulBlock → List Transaction → Option Bytes
unfolding write_set
write_txs x (tx ∷ []) = write_set x tx.signature tx.unsigned
write_txs x _ = none

read_set : Bytes → Option StatefulBlock
unfolding copy
read_set (t ∷ h ∷ price ∷ cost ∷ magic ∷ paid ∷ n1 ∷ n2 ∷ n3 ∷ n4 ∷ n5 ∷ r1) =
    let r2 = drop n1 r1 in
    let r3 = drop n2 r2 in
    let r4 = drop n3 r3 in
    let r5 = drop n4 r4 in
    some (record {
      prnt = take n1 r1;
      tmstmp = t;
      hght = h;
      price = price;
      cost = cost;
      txs =
          copy (record {
            unsigned =
                set_tx (record { block_id = take n2 r2; magic = magic; price = paid }) (take n3 r3)
                  (take n4 r4) (take n5 r5);
            signature = drop n5 r5;
            digest_hash = [];
            bytes = [];
            id = [];
            size = 0;
            sender = [];
          })
          ∷ [];
    })
read_set _ = none

one_set_codec : BlockCodec
unfolding write_txs read_set
one_set_codec = record { marshal_block = λ x. write_txs x x.txs; unmarshal_block = read_set }

written_bytes : (a b : Bytes) → ◌≡◌ {A = Option Bytes} (some a) (some b) → a ≡ b
written_bytes a b h = cc

read-write_set :
    (x : StatefulBlock) (tx : Transaction) (u : UnsignedTransaction) (v : Bytes)
    → tx.unsigned ≡ u
    → write_set x tx.signature u ≡ some v
    → read_set v ≡ some (serialized (record x { txs = tx ∷ [] }))
unfolding write_set read_set copy
read-write_set x tx (set_tx b space key value) v same h =
    let a5 = value ++ tx.signature in
    let a4 = key ++ a5 in
    let a3 = space ++ a4 in
    let a2 = b.block_id ++ a3 in
    let written : (x.tmstmp
          ∷ x.hght
          ∷ x.price
          ∷ x.cost
          ∷ b.magic
          ∷ b.price
          ∷ length x.prnt
          ∷ length b.block_id
          ∷ length space
          ∷ length key
          ∷ length value
          ∷ (x.prnt ++ a2))
        ≡ v =
      written_bytes _ v h in
    rw
      (
        ← written,
        same,
        take-append (length x.prnt) x.prnt a2 refl,
        drop-append (length x.prnt) x.prnt a2 refl,
        take-append (length b.block_id) b.block_id a3 refl,
        drop-append (length b.block_id) b.block_id a3 refl,
        take-append (length space) space a4 refl,
        drop-append (length space) space a4 refl,
        take-append (length key) key a5 refl,
        drop-append (length key) key a5 refl,
        take-append (length value) value tx.signature refl,
        drop-append (length value) value tx.signature refl,
      )
      refl
read-write_set x tx (claim_tx _ _) v same h = absurd (cc)
read-write_set x tx (lifeline_tx _ _ _) v same h = absurd (cc)
read-write_set x tx (delete_tx _ _ _) v same h = absurd (cc)
read-write_set x tx (move_tx _ _ _) v same h = absurd (cc)
read-write_set x tx (transfer_tx _ _ _) v same h = absurd (cc)

read-write :
    (x : StatefulBlock) (v : Bytes) (txs : List Transaction)
    → write_txs x txs ≡ some v
    → read_set v ≡ some (serialized (record x { txs = txs }))
unfolding write_txs write_set read_set copy
read-write x v [] h = absurd (cc)
read-write x v (tx ∷ []) h = read-write_set x tx tx.unsigned v refl h
read-write x v (tx ∷ other ∷ txs) h = absurd (cc)

one_set_codec-reads :
    (x : StatefulBlock) (v : Bytes)
    → one_set_codec.marshal_block x ≡ some v
    → one_set_codec.unmarshal_block v ≡ some (serialized x)
unfolding one_set_codec
one_set_codec-reads x v h = read-write x v x.txs h

abbrev set_item : Transaction
set_item = record {
  unsigned = set_tx (base_tx 1) (b'a' ∷ []) (b'k' ∷ []) (1 ∷ 2 ∷ []);
  signature = fit 65 [];
  digest_hash = [];
  bytes = fit 65 [];
  id = fit 32 [];
  size = 65;
  sender = fit 20 [];
}

abbrev set_block : StatelessBlock
set_block = block_of 1 10 1 (id32 1) (id32 5) (set_item ∷ [])

set_block-Distinct : Distinct set_block.txs
set_block-Distinct = (refl, tt, tt)

set_block-stored :
    set_last_accepted one_set_codec set_block empty_db
    ≡ (ok set_block, after (set_last_accepted one_set_codec set_block) empty_db)
unfolding set_last_accepted link_values link_unsigned link_set one_set_codec write_txs write_set
    Exec.◌>>=◌ copy init derive_sender change_at
set_block-stored = refl

get_block-set_last_accepted_example :
    get_block one_set_codec (id32 5) (after (set_last_accepted one_set_codec set_block) empty_db)
    ≡ (ok (serialized set_block.block), after (set_last_accepted one_set_codec set_block) empty_db)
get_block-set_last_accepted_example =
    get_block-set_last_accepted sample-IsLawful one_set_codec one_set_codec-reads set_block
      set_block empty_db (after (set_last_accepted one_set_codec set_block) empty_db)
      set_block-Distinct set_block-stored
