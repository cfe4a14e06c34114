-- ===== src/Tx/Actions/Permissions.antt =====
-- The checks of verifySpace in chain/common_tx.go behind a set, a delete and a move.
use spacesvm.Prelude.{
  ◌≤◌, ◌≡◌, refl, ap, ◌∙◌, length, ltb, ◌==◌, Bool, true, false, Option, none, some, Bytes,
  bytes_eq→eq, arith,
}
use spacesvm.Errors.{Error, Result, ok, value_empty, value_too_big}
use spacesvm.Exec.{Exec, lift, bind-ok, ◌>>=◌, ◌>>◌}
use spacesvm.Platform.{Database, Platform}
use spacesvm.Types.{
  SpaceInfo, UnsignedTransaction, claim_tx, lifeline_tx, set_tx, delete_tx, move_tx, transfer_tx,
}
use spacesvm.Parser.{check_contents}
use spacesvm.Storage.Spaces.{get_space_info}
use spacesvm.Tx.{TransactionContext}
use spacesvm.Tx.Actions.{
  reject_if, authorized, check_space, verify_space, execute_set, execute_delete, execute_move,
  execute_unsigned,
}

-- The space that a set, a delete or a move writes to.
abbrev pub written_space : UnsignedTransaction → Option Bytes
written_space (set_tx _ space _ _) = some space
written_space (delete_tx _ space _) = some space
written_space (move_tx _ space _) = some space
written_space _ = none

some-eq : (a b : Bytes) → ◌≡◌ {A = Option Bytes} (some a) (some b) → a ≡ b
some-eq a b h = cc

module _ {S B : Type 0} where
  pub reject_if-ok :
      (c : Bool) (e : Error) (k : Exec S B) (b : B) (s s' : S)
      → (reject_if c e >> k) s ≡ (ok b, s')
      → k s ≡ (ok b, s')
  unfolding ◌>>=◌
  reject_if-ok true e k b s s' h = absurd (cc)
  reject_if-ok false e k b s s' h = h

  pub lift-ok :
      {A : Type 0} (r : Result A) (f : A → Exec S B) (b : B) (s s' : S)
      → (lift r >>= f) s ≡ (ok b, s')
      → (a : A) × (r ≡ ok a) × (f a s ≡ (ok b, s'))
  unfolding lift
  lift-ok r f b s s' h = bind-ok f b s' (lift r) s h

module _ ⦃db : Database⦄ ⦃p : Platform⦄ (t : TransactionContext) where
  -- The space is there, is the sender's, and has not expired.
  abbrev pub IsPermitted : Bytes → db.Db → Type 0
  IsPermitted space d =
      (i : SpaceInfo) × (get_space_info space d ≡ (ok (some i), d))
      × (i.owner ≡ t.sender)
      × (t.block_time ≤ i.expiry)

  check_space-ok :
      (found : Option SpaceInfo) (i : SpaceInfo)
      → check_space t found ≡ ok i
      → (found ≡ some i) × (i.owner ≡ t.sender) × (t.block_time ≤ i.expiry)
  unfolding check_space authorized
  check_space-ok none i h = absurd (cc)
  check_space-ok (some j) i h =
      let owned : j.owner ≡ t.sender = ground (arith, bytes_eq→eq j.owner t.sender) in
      let alive : t.block_time ≤ j.expiry = ground arith in
      let same : j ≡ i = ground arith in rw (← same) (refl, owned, alive)

  pub verify_space-ok :
      (space : Bytes) (i : SpaceInfo) (d : db.Db)
      → (verify_space space t d).0 ≡ ok i
      → (get_space_info space d ≡ (ok (some i), d))
        × (i.owner ≡ t.sender)
        × (t.block_time ≤ i.expiry)
  unfolding verify_space get_space_info ◌>>=◌
  verify_space-ok space i d h =
      let end = (verify_space space t d).1 in
      let (found, h1, k1) =
        bind-ok (λ f. lift (check_space t f)) i end (get_space_info space) d
          (ap (λ r. (r, end)) h) in
      let passed : check_space t found ≡ ok i = cc in
      let (same, owned, alive) = check_space-ok found i passed in
      (ap (λ r. (r, d)) (h1 ∙ ap ok same), owned, alive)

  verify_space-IsPermitted :
      (space : Bytes) (i : SpaceInfo) (d : db.Db)
      → (verify_space space t d).0 ≡ ok i
      → IsPermitted space d
  verify_space-IsPermitted space i d h =
      let (found, owned, alive) = verify_space-ok space i d h in (i, found, owned, alive)

  execute_move-IsPermitted :
      (space to : Bytes) (d d' : db.Db)
      → execute_move t space to d ≡ (ok tt, d')
      → IsPermitted space d
  unfolding execute_move
  execute_move-IsPermitted space to d d' h =
      let (_, _, k1) = lift-ok (check_contents space) _ tt d d' h in
      let k2 = reject_if-ok _ _ _ tt d d' k1 in
      let k3 = reject_if-ok _ _ _ tt d d' k2 in
      let (i, found, _) = bind-ok _ tt d' (verify_space space t) d k3 in
      verify_space-IsPermitted space i d found

  execute_delete-IsPermitted :
      (space key : Bytes) (d d' : db.Db)
      → execute_delete t space key d ≡ (ok tt, d')
      → IsPermitted space d
  unfolding execute_delete
  execute_delete-IsPermitted space key d d' h =
      let (_, _, k1) = lift-ok (check_contents space) _ tt d d' h in
      let (_, _, k2) = lift-ok (check_contents key) _ tt d d' k1 in
      let (i, found, _) = bind-ok _ tt d' (verify_space space t) d k2 in
      verify_space-IsPermitted space i d found

  execute_set-IsPermitted :
      (space key value : Bytes) (d d' : db.Db)
      → execute_set t space key value d ≡ (ok tt, d')
      → IsPermitted space d
  unfolding execute_set
  execute_set-IsPermitted space key value d d' h =
      let (_, _, k1) = lift-ok (check_contents space) _ tt d d' h in
      let (_, _, k2) = lift-ok (check_contents key) _ tt d d' k1 in
      let k3 = reject_if-ok (length value == 0) value_empty _ tt d d' k2 in
      let k4 =
        reject_if-ok (ltb t.genesis.max_value_size (length value)) value_too_big _ tt d d' k3 in
      let (i, found, _) = bind-ok _ tt d' (verify_space space t) d k4 in
      verify_space-IsPermitted space i d found

  -- A set, a delete or a move that succeeds has found the space that it writes to, owned by its
  -- sender and not expired at the block's time.
  pub execute_unsigned-IsPermitted :
      (u : UnsignedTransaction) (space : Bytes) (d d' : db.Db)
      → written_space u ≡ some space
      → execute_unsigned t u d ≡ (ok tt, d')
      → IsPermitted space d
  unfolding execute_unsigned
  execute_unsigned-IsPermitted (set_tx b s key value) space d d' w h =
      rw (some-eq s space w) at (execute_set-IsPermitted s key value d d' h)
  execute_unsigned-IsPermitted (delete_tx b s key) space d d' w h =
      rw (some-eq s space w) at (execute_delete-IsPermitted s key d d' h)
  execute_unsigned-IsPermitted (move_tx b s to) space d d' w h =
      rw (some-eq s space w) at (execute_move-IsPermitted s to d d' h)
  execute_unsigned-IsPermitted (claim_tx _ _) space d d' w h = absurd (cc)
  execute_unsigned-IsPermitted (lifeline_tx _ _ _) space d d' w h = absurd (cc)
  execute_unsigned-IsPermitted (transfer_tx _ _ _) space d d' w h = absurd (cc)
