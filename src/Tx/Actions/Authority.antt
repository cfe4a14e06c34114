-- ===== src/Tx/Actions/Authority.antt =====
-- The actions of the *_tx.go files, seen from a space whose owner is not their sender.
pub mod Anyone
use mathlib.Core.Bool.{false≢true}
use spacesvm.Prelude.{
  ℕ, ◌≡◌, ◌≢◌, refl, sym, ap, ◌∙◌, ◌⊎◌, inl, inr, Bool, true, false, not, Option, none, some, Bytes,
  bytes_eq, bytes_eq→eq, length, ltb, if◌then◌else◌, Bool-cases, add64,
}
use spacesvm.Errors.{Error, ok, err, div64, unauthorized, space_expired, space_missing, key_missing}
use spacesvm.Exec.{Exec}
use spacesvm.Exec.Keeps.{
  Keeps, Ends, Any, Keeps-return, Keeps-fail, Keeps-lift, Keeps-pure, Keeps-gets, Keeps-modify,
  Keeps-bind, Keeps-if,
}
use spacesvm.Platform.{Database, Platform, IsLawful}
use spacesvm.Types.{
  SpaceInfo, ValueMeta, UnsignedTransaction, claim_tx, lifeline_tx, set_tx, delete_tx, move_tx,
  transfer_tx,
}
use spacesvm.Keys.{raw_space, space_value_key}
use spacesvm.Storage.Apart.{IsAway, value-IsAway}
use spacesvm.Storage.Spaces.{short_empty}
use spacesvm.Storage.Values.{
  decode_meta, meta_in, get_value_meta, put_in, delete_in, put_space_key, delete_space_key,
}
use spacesvm.Storage.Protected.{IsOther, Protected, put_away, delete_away}
use spacesvm.Storage.Protected.Actions.{
  FoundAt, get_space_info-Keeps, put_space_info-Keeps, has_space-Keeps, move_space_info-Keeps,
}
use spacesvm.Storage.Protected.Accounts.{modify_balance-Keeps}
use spacesvm.Tx.{TransactionContext}
use spacesvm.Tx.Actions.{
  reject_if, authorized, check_space, verify_space, update_space, execute_claim, lengthen,
  execute_lifeline, without_old, execute_set, delete_found, execute_delete, execute_move,
  execute_transfer, execute_unsigned,
}
use spacesvm.Tx.Actions.Authority.Anyone.{
  execute_transfer-Keeps, execute_lifeline-Keeps, execute_claim-Keeps,
}

module _ ⦃db : Database⦄ ⦃p : Platform⦄ (laws : IsLawful p) (s : Bytes) (i : SpaceInfo)
    (vals : Bytes → Option Bytes) (t : TransactionContext) (raw20 : length i.raw_space ≡ 20)
    (nonempty : i.raw_space ≢ short_empty) (foreign : i.owner ≢ t.sender) where
  abbrev K : {A : Type 0} → (A → Type 0) → Exec db.Db A → Type 0
  K Q m = Keeps (Protected s i vals) Q m

  reject_if-Keeps : (b : Bool) (e : Error) → K Any (reject_if b e)
  reject_if-Keeps b e = Keeps-if b (λ _. Keeps-fail e) (λ _. Keeps-return tt tt)

  -- Who passes the check owns another space.
  abbrev Foreign : Bytes → SpaceInfo → Type 0
  Foreign x j = (x ≢ s) × IsOther i.raw_space j.raw_space

  -- An info that is not the space's own passes on what is known of it.
  checked :
      (x : Bytes) (j : SpaceInfo) (owned late : Bool)
      → Foreign x j ⊎ (owned ≡ false)
      → Ends
          (Foreign x)
          (if not owned then err unauthorized else if late then err space_expired else ok j)
  checked x j false late f = tt
  checked x j true true f = tt
  checked x j true false (inl f) = f
  checked x j true false (inr e) = absurd (false≢true (sym e))

  unowned : bytes_eq i.owner t.sender ≡ false
  unowned = elim (Bool-cases (bytes_eq i.owner t.sender)) [
    | inl e ↦ absurd (foreign (bytes_eq→eq i.owner t.sender e))
    | inr e ↦ e
  ]

  check_space-Foreign :
      (x : Bytes) (o : Option SpaceInfo) → FoundAt s i vals x o → Ends (Foreign x) (check_space t o)
  unfolding check_space authorized
  check_space-Foreign x none f = tt
  check_space-Foreign x (some j) (inr a) =
      checked x j (bytes_eq j.owner t.sender) (ltb j.expiry t.block_time) (inl a)
  check_space-Foreign x (some j) (inl (e, q, f)) =
      checked x j (bytes_eq j.owner t.sender) (ltb j.expiry t.block_time)
        (inr (ap (λ k. bytes_eq (SpaceInfo.owner k) t.sender) f ∙ unowned))

  verify_space-Keeps : (x : Bytes) → K (Foreign x) (verify_space x t)
  unfolding verify_space
  verify_space-Keeps x =
      Keeps-bind (get_space_info-Keeps s i vals laws x)
        λ o f. Keeps-lift (check_space t o) (check_space-Foreign x o f)

  update_space-Keeps :
      (x : Bytes) (n : ℕ) (j : SpaceInfo) → Foreign x j → K Any (update_space x t n j)
  unfolding update_space
  update_space-Keeps x n j f = Keeps-bind (Keeps-pure (div64 n j.units)) λ r _.
      put_space_info-Keeps s i vals laws nonempty x
        (record j { updated = t.block_time; expiry = add64 t.block_time r }) j.expiry (inl (inr f))

  -- The key of a value of another space.
  Foreign-IsAway :
      (x key : Bytes) (j : SpaceInfo)
      → Foreign x j
      → IsAway i.raw_space (space_value_key j.raw_space key)
  Foreign-IsAway x key j f = value-IsAway i.raw_space j.raw_space key raw20 f.1.0 f.1.1

  meta_in-Keeps : (key : Bytes) (o : Option SpaceInfo) → K Any (meta_in key o)
  unfolding meta_in
  meta_in-Keeps key none = Keeps-return none tt
  meta_in-Keeps key (some j) =
      Keeps-bind (Keeps-gets _ (λ _ _. tt)) λ v (_ : Unit). Keeps-pure (decode_meta v)

  -- Reading a key of any space changes nothing.
  get_value_meta-Keeps : (x key : Bytes) → K Any (get_value_meta x key)
  unfolding get_value_meta
  get_value_meta-Keeps x key =
      Keeps-bind (get_space_info-Keeps s i vals laws x) λ o _. meta_in-Keeps key o

  -- Where the space is not `s`, what is found is foreign.
  found-Foreign : (x : Bytes) (j : SpaceInfo) → x ≢ s → FoundAt s i vals x (some j) → Foreign x j
  found-Foreign x j n (inl (e, q, f)) = absurd (n q)
  found-Foreign x j n (inr f) = f

  put_in-Keeps :
      (x key : Bytes) (m : ValueMeta) (o : Option SpaceInfo)
      → x ≢ s
      → FoundAt s i vals x o
      → K Any (put_in key m o)
  unfolding put_in
  put_in-Keeps x key m none n f = Keeps-fail space_missing
  put_in-Keeps x key m (some j) n f =
      Keeps-modify _
        λ d h. put_away s i vals _ _ (Foreign-IsAway x key j (found-Foreign x j n f)) d h

  put_space_key-Keeps : (x key : Bytes) (m : ValueMeta) → x ≢ s → K Any (put_space_key x key m)
  unfolding put_space_key
  put_space_key-Keeps x key m n =
      Keeps-bind (get_space_info-Keeps s i vals laws x) λ o f. put_in-Keeps x key m o n f

  delete_in-Keeps :
      (x key : Bytes) (o : Option SpaceInfo)
      → x ≢ s
      → FoundAt s i vals x o
      → K Any (delete_in key o)
  unfolding delete_in
  delete_in-Keeps x key none n f = Keeps-fail space_missing
  delete_in-Keeps x key (some j) n f =
      Keeps-modify _
        λ d h. delete_away s i vals _ (Foreign-IsAway x key j (found-Foreign x j n f)) d h

  delete_space_key-Keeps : (x key : Bytes) → x ≢ s → K Any (delete_space_key x key)
  unfolding delete_space_key
  delete_space_key-Keeps x key n =
      Keeps-bind (get_space_info-Keeps s i vals laws x) λ o f. delete_in-Keeps x key o n f

  without_old-Keeps : (j : SpaceInfo) (v : Option ValueMeta) → K Any (without_old t j v)
  unfolding without_old
  without_old-Keeps j none = Keeps-return _ tt
  without_old-Keeps j (some v) = Keeps-bind (Keeps-pure _) λ old (_ : Unit). Keeps-return _ tt

  execute_set-Keeps : (x key value : Bytes) → K Any (execute_set t x key value)
  unfolding execute_set
  execute_set-Keeps x key value = Keeps-bind (Keeps-pure _) λ _ _. Keeps-bind (Keeps-pure _) λ _ _.
      Keeps-bind (reject_if-Keeps _ _) λ _ _. Keeps-bind (reject_if-Keeps _ _) λ _ _.
        Keeps-bind (verify_space-Keeps x) λ j f. Keeps-bind (reject_if-Keeps _ _) λ _ _.
          Keeps-bind (get_value_meta-Keeps x key) λ v _. Keeps-bind (without_old-Keeps j v) λ kc _.
            Keeps-bind (Keeps-pure _) λ more _.
              Keeps-bind (put_space_key-Keeps x key _ f.0) λ _ _. update_space-Keeps x _ _ f

  delete_found-Keeps :
      (x key : Bytes) (j : SpaceInfo) (v : Option ValueMeta)
      → Foreign x j
      → K Any (delete_found t x key j v)
  unfolding delete_found
  delete_found-Keeps x key j none f = Keeps-fail key_missing
  delete_found-Keeps x key j (some v) f =
      Keeps-bind (Keeps-pure _)
        λ old _. Keeps-bind (delete_space_key-Keeps x key f.0) λ _ _. update_space-Keeps x _ _ f

  execute_delete-Keeps : (x key : Bytes) → K Any (execute_delete t x key)
  unfolding execute_delete
  execute_delete-Keeps x key = Keeps-bind (Keeps-pure _) λ _ _. Keeps-bind (Keeps-pure _) λ _ _.
      Keeps-bind (verify_space-Keeps x)
        λ j f. Keeps-bind (get_value_meta-Keeps x key) λ v _. delete_found-Keeps x key j v f

  execute_move-Keeps : (x to : Bytes) → K Any (execute_move t x to)
  unfolding execute_move
  execute_move-Keeps x to = Keeps-bind (Keeps-pure _) λ _ _. Keeps-bind (reject_if-Keeps _ _) λ _ _.
      Keeps-bind (reject_if-Keeps _ _) λ _ _.
        Keeps-bind (verify_space-Keeps x)
          λ j f. move_space_info-Keeps s i vals laws t.sender x _ f.0 f.1

-- The raw space that a claim will make is not `r`: the 160-bit hashes do not collide.
abbrev pub IsFresh : ⦃p : Platform⦄ → Bytes → ℕ → UnsignedTransaction → Type 0
IsFresh r time (claim_tx _ x) = Ends (IsOther r) (raw_space x time)
IsFresh r time _ = Unit

module _ ⦃db : Database⦄ ⦃p : Platform⦄ (laws : IsLawful p) (s : Bytes) (i : SpaceInfo)
    (vals : Bytes → Option Bytes) (t : TransactionContext) where
  pub execute_unsigned-Keeps :
      length i.raw_space ≡ 20
      → i.raw_space ≢ short_empty
      → i.owner ≢ t.sender
      → (u : UnsignedTransaction) → IsFresh i.raw_space t.block_time u
      → Keeps (Protected s i vals) Any (execute_unsigned t u)
  unfolding execute_unsigned
  execute_unsigned-Keeps l n f (claim_tx _ x) h = execute_claim-Keeps laws s i vals t l n f x h
  execute_unsigned-Keeps l n f (lifeline_tx _ x k) h =
      execute_lifeline-Keeps laws s i vals t l n f x k
  execute_unsigned-Keeps l n f (set_tx _ x k v) h = execute_set-Keeps laws s i vals t l n f x k v
  execute_unsigned-Keeps l n f (delete_tx _ x k) h = execute_delete-Keeps laws s i vals t l n f x k
  execute_unsigned-Keeps l n f (move_tx _ x to) h = execute_move-Keeps laws s i vals t l n f x to
  execute_unsigned-Keeps l n f (transfer_tx _ to k) h =
      execute_transfer-Keeps laws s i vals t l n f to k
