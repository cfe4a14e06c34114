-- ===== src/Storage/Protected.antt =====
-- A space seen by the transactions of others: its info up to the expiry and its values, and the
-- writes of chain/storage.go on such a state.
pub mod Actions
pub mod Accounts
use spacesvm.Prelude.{
  ℕ, ◌≡◌, ◌≢◌, refl, sym, ap, subst, ◌∙◌, ◌⊎◌, inl, inr, Bool, true, false, Option, none, some,
  List, [], ◌∷◌, Bytes, bytes_eq, bytes_eq→eq, bytes_eq_self, bytes_eq_iff, ltb, length, arith,
  if◌then◌else◌, Bool-cases,
}
use mathlib.Core.Bool.{false≢true}
use spacesvm.Errors.{Result, ok, err, bad_encoding}
use spacesvm.Exec.{Exec, return, lift, gets, ◌>>=◌, ◌>>◌}
use spacesvm.Exec.Keeps.{
  Keeps, Ends, Any, Keeps-return, Keeps-lift, Keeps-pure, Keeps-gets, Keeps-modify, Keeps-bind,
  Keeps-if,
}
use spacesvm.Platform.{Database, Platform, IsLawful}
use spacesvm.Types.{SpaceInfo}
use spacesvm.Keys.{
  prefix_block_key, prefix_tx_value_key, prefix_pruning_key, raw_space, space_info_key,
  space_value_key, prefix_expiry_key, prefix_owned_key, prefix_tx_key, prefix_balance_key,
}
use spacesvm.Keys.Encoding.{StoreKey, encode, encode_ne}
use spacesvm.Storage.{store, erase}
use spacesvm.Storage.Spaces.{
  short_empty, with_raw_space, unqueue, expiry_data_value, decode_info, get_space_info,
  put_space_info, move_space_info,
}
use spacesvm.Storage.Apart.{IsAway, info-info, info-value}

-- The raw space of another entry: of the right length, not empty, and not `r`.
abbrev pub IsOther : Bytes → Bytes → Type 0
IsOther r q = (length q ≡ 20) × (q ≢ r) × (q ≢ short_empty)

module _ ⦃db : Database⦄ ⦃p : Platform⦄ where
  abbrev pub HoldsOther : Bytes → Option Bytes → Type 0
  HoldsOther r none = Unit
  HoldsOther r (some v) = (j : SpaceInfo) → p.unmarshal_info v ≡ some j → IsOther r j.raw_space

  -- In `d` the space `s` has the info `i`, up to its expiry, and the values `vals`; all other
  -- spaces have other raw spaces.
  pub record Protected (s : Bytes) (i : SpaceInfo) (vals : Bytes → Option Bytes) (d : db.Db)
      : Type 0 where
    pub held :
        (e : ℕ) × (db.get d (space_info_key s) ≡ some (p.marshal_info (record i { expiry = e })))
    pub values : (key : Bytes) → db.get d (space_value_key i.raw_space key) ≡ vals key
    pub others : (s' : Bytes) → s' ≢ s → HoldsOther i.raw_space (db.get d (space_info_key s'))

holds_marshal :
    ⦃db : Database⦄ ⦃p : Platform⦄ (laws : IsLawful p) (j : SpaceInfo) (r : Bytes)
    → IsOther r j.raw_space
    → HoldsOther r (some (p.marshal_info j))
holds_marshal laws j r o k e = subst (λ x. IsOther r x) (cc (laws.unmarshal-marshal_info j)) o

module _ ⦃db : Database⦄ ⦃p : Platform⦄ (s : Bytes) (i : SpaceInfo)
    (vals : Bytes → Option Bytes) where
  pub put_away :
      (k v : Bytes)
      → IsAway i.raw_space k
      → (d : db.Db) → Protected s i vals d
      → Protected s i vals (db.put d k v)
  put_away k v a d h = record {
    held = (h.held.0, rw (db.get-put d k v (space_info_key s), a.info s) (h.held.1));
    values =
        λ key. rw (db.get-put d k v (space_value_key i.raw_space key), a.value key) (h.values key);
    others = λ s' n. rw (db.get-put d k v (space_info_key s'), a.info s') (h.others s' n);
  }

  pub delete_away :
      (k : Bytes)
      → IsAway i.raw_space k
      → (d : db.Db) → Protected s i vals d
      → Protected s i vals (db.delete d k)
  delete_away k a d h = record {
    held = (h.held.0, rw (db.get-delete d k (space_info_key s), a.info s) (h.held.1));
    values =
        λ key. rw (db.get-delete d k (space_value_key i.raw_space key), a.value key) (h.values key);
    others = λ s' n. rw (db.get-delete d k (space_info_key s'), a.info s') (h.others s' n);
  }

  -- the info of another space
  pub put_other_info :
      (laws : IsLawful p) (t : Bytes) (j : SpaceInfo)
      → t ≢ s
      → IsOther i.raw_space j.raw_space
      → (d : db.Db) → Protected s i vals d
      → Protected s i vals (db.put d (space_info_key t) (p.marshal_info j))
  put_other_info laws t j n o d h = record {
    held = (
      h.held.0,
      rw (db.get-put d (space_info_key t) (p.marshal_info j) (space_info_key s), info-info t s n)
          (h.held.1),
    );
    values = λ key.
        rw
          (
            db.get-put d (space_info_key t) (p.marshal_info j) (space_value_key i.raw_space key),
            info-value t i.raw_space key,
          )
          (h.values key);
    others = λ s' m. elim (Bool-cases (bytes_eq (space_info_key t) (space_info_key s'))) [
      | inl e ↦
          rw (db.get-put d (space_info_key t) (p.marshal_info j) (space_info_key s'), e)
            (holds_marshal laws j i.raw_space o)
      | inr e ↦
          rw (db.get-put d (space_info_key t) (p.marshal_info j) (space_info_key s'), e)
            (h.others s' m)
    ];
  }

  -- the info of the space itself, with another expiry
  pub put_own_info :
      (e : ℕ) (d : db.Db)
      → Protected s i vals d
      → Protected s i vals (db.put d (space_info_key s) (p.marshal_info (record i { expiry = e })))
  put_own_info e d h =
      let v = p.marshal_info (record i { expiry = e }) in
      record {
        held = (
          e,
          rw (
            db.get-put d (space_info_key s) v (space_info_key s),
            bytes_eq_self (space_info_key s),
          ),
        );
        values = λ key.
            rw
              (
                db.get-put d (space_info_key s) v (space_value_key i.raw_space key),
                info-value s i.raw_space key,
              )
              (h.values key);
        others = λ s' m.
            rw
              (
                db.get-put d (space_info_key s) v (space_info_key s'),
                info-info s s' (λ q. m (sym q)),
              )
              (h.others s' m);
      }
