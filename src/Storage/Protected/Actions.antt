-- ===== src/Storage/Protected/Actions.antt =====
-- The actions of Storage.Spaces on a state with a protected space.
use spacesvm.Prelude.{
  ℕ, ◌≡◌, ◌≢◌, refl, sym, ap, ◌∙◌, ◌⊎◌, inl, inr, Option, none, some, [], Bytes, bytes_eq,
  bytes_eq→eq, bytes_eq_self, bytes_eq_iff, ltb, Bool-cases,
}
use mathlib.Core.Bool.{false≢true}
use spacesvm.Errors.{ok, err, bad_encoding}
use spacesvm.Exec.Keeps.{
  Keeps, Ends, Any, Keeps-return, Keeps-lift, Keeps-modify, Keeps-bind, Keeps-if,
}
use spacesvm.Platform.{Database, Platform, IsLawful}
use spacesvm.Types.{SpaceInfo}
use spacesvm.Keys.{raw_space, space_info_key}
use spacesvm.Keys.Encoding.{StoreKey, encode}
use spacesvm.Storage.{store, erase}
use spacesvm.Storage.Spaces.{
  short_empty, with_raw_space, unqueue, expiry_data_value, decode_info, get_space_info,
  put_space_info,
}
use spacesvm.Storage.Apart.{IsAside, aside-IsAway}
use mathlib.Core.Bool.{false}
use mathlib.Core.List.{[]}
use spacesvm.Exec.{◌>>=◌}
use spacesvm.Storage.Spaces.{has_space, move_space_info}
use spacesvm.Storage.Protected.{
  IsOther, HoldsOther, Protected, put_away, delete_away, put_other_info, put_own_info,
}

module _ ⦃db : Database⦄ ⦃p : Platform⦄ (s : Bytes) (i : SpaceInfo)
    (vals : Bytes → Option Bytes) where
  -- What may be written as the info of `t`: the space's own info with another expiry, or the info of
  -- another space.
  abbrev pub Allowed : Bytes → SpaceInfo → Type 0
  Allowed t j =
      ((e : ℕ) × (t ≡ s) × (j ≡ record i { expiry = e }))
      ⊎ ((t ≢ s) × IsOther i.raw_space j.raw_space)

  abbrev pub FoundAt : Bytes → Option SpaceInfo → Type 0
  FoundAt t none = t ≢ s
  FoundAt t (some j) = Allowed t j

  decode_other :
      (t : Bytes) (o : Option Bytes)
      → t ≢ s
      → HoldsOther i.raw_space o
      → Ends (FoundAt t) (decode_info o)
  unfolding decode_info
  decode_other t none n h = n
  decode_other t (some v) n h = go (p.unmarshal_info v) h
    where
      go :
          (o : Option SpaceInfo)
          → ((j : SpaceInfo) → o ≡ some j → IsOther i.raw_space j.raw_space)
          → Ends (FoundAt t) (elim o [ none ↦ err bad_encoding | some j ↦ ok (some j) ])
      go none k = tt
      go (some j) k = inr (n, k j refl)

  decode_own :
      IsLawful p
      → (t : Bytes) (e : ℕ) (o : Option Bytes) → t ≡ s
      → o ≡ some (p.marshal_info (record i { expiry = e }))
      → Ends (FoundAt t) (decode_info o)
  unfolding decode_info
  decode_own laws t e o qt qo =
      rw qo (
        rw (laws.unmarshal-marshal_info (record i { expiry = e }), decode_info) (inl (e, qt, refl)))

  pub get_space_info-Keeps :
      IsLawful p → (t : Bytes) → Keeps (Protected s i vals) (FoundAt t) (get_space_info t)
  unfolding get_space_info ◌>>=◌
  get_space_info-Keeps laws t = record {
    at = λ d h. (
      h,
      elim (Bool-cases (bytes_eq t s)) [
        | inl e ↦
            let q = bytes_eq→eq t s e in
            decode_own laws t h.held.0 (db.get d (space_info_key t)) q (rw q (h.held.1))
        | inr e ↦
            let n : t ≢ s = λ q. cc (e, bytes_eq_self s, q) in
            decode_other t (db.get d (space_info_key t)) n (h.others t n)
      ],
    );
  }

  pub store_aside :
      (k : StoreKey) (v : Bytes) → IsAside k → Keeps (Protected s i vals) Any (store (encode k) v)
  store_aside k v a =
      Keeps-modify _ (λ d h. put_away s i vals (encode k) v (aside-IsAway i.raw_space k a) d h)

  pub erase_aside : (k : StoreKey) → IsAside k → Keeps (Protected s i vals) Any (erase (encode k))
  erase_aside k a =
      Keeps-modify _ (λ d h. delete_away s i vals (encode k) (aside-IsAway i.raw_space k a) d h)

  -- What PutSpaceInfo may be given: an allowed info, or a new one whose raw space will be another.
  abbrev pub Writable : Bytes → SpaceInfo → Type 0
  Writable t j =
      Allowed t j
      ⊎ ((t ≢ s) × (j.raw_space ≡ short_empty) × Ends (IsOther i.raw_space) (raw_space t j.created))

  Allowed-raw :
      (t : Bytes) (j : SpaceInfo)
      → i.raw_space ≢ short_empty
      → Allowed t j
      → j.raw_space ≢ short_empty
  Allowed-raw t j n (inl (e, q, f)) g = n (ap (λ x. SpaceInfo.raw_space x) (sym f) ∙ g)
  Allowed-raw t j n (inr (q, o)) g = o.2 g

  with_raw_space-Keeps :
      (t : Bytes) (j : SpaceInfo)
      → i.raw_space ≢ short_empty
      → Writable t j
      → Keeps (Protected s i vals) (Allowed t) (with_raw_space t j)
  unfolding with_raw_space encode
  with_raw_space-Keeps t j n (inl a) =
      Keeps-if (bytes_eq j.raw_space short_empty)
        (λ e. absurd (Allowed-raw t j n a (bytes_eq→eq j.raw_space short_empty e)))
        (λ _. Keeps-return j a)
  with_raw_space-Keeps t j n (inr (m, z, o)) =
      Keeps-if (bytes_eq j.raw_space short_empty)
        (λ _. Keeps-bind (Keeps-lift (raw_space t j.created) o) λ q oq.
          Keeps-bind (store_aside (StoreKey.owned j.owner t) [] tt)
            λ _ _. Keeps-return (record j { raw_space = q }) (inr (m, oq)))
        (λ e. absurd (false≢true (sym e ∙ (bytes_eq_iff j.raw_space short_empty).1 z)))

  unqueue-Keeps : (last : ℕ) (j : SpaceInfo) → Keeps (Protected s i vals) Any (unqueue last j)
  unfolding unqueue encode
  unqueue-Keeps last j =
      Keeps-if (ltb 0 last) (λ _. erase_aside (StoreKey.expiry last j.raw_space) tt)
        (λ _. Keeps-return tt tt)

  pub store_info :
      IsLawful p
      → (t : Bytes) (j : SpaceInfo) → Allowed t j
      → Keeps (Protected s i vals) Any (store (space_info_key t) (p.marshal_info j))
  store_info laws t j (inl (e, q, f)) =
      rw (q, f) (Keeps-modify _ (λ d h. put_own_info s i vals e d h))
  store_info laws t j (inr (n, o)) =
      Keeps-modify _ (λ d h. put_other_info s i vals laws t j n o d h)

  pub put_space_info-Keeps :
      IsLawful p
      → i.raw_space ≢ short_empty
      → (t : Bytes) (j : SpaceInfo) (last : ℕ) → Writable t j
      → Keeps (Protected s i vals) Any (put_space_info t j last)
  unfolding put_space_info encode
  put_space_info-Keeps laws n t j last w = Keeps-bind (with_raw_space-Keeps t j n w) λ k a.
      Keeps-bind (unqueue-Keeps last k) λ _ _.
        Keeps-bind
          (store_aside (StoreKey.expiry k.expiry k.raw_space) (expiry_data_value k.owner t) tt)
          λ _ _. store_info laws t k a

  -- A space that is not there is not the protected one.
  pub has_space-Keeps :
      (t : Bytes) → Keeps (Protected s i vals) (λ b. b ≡ false → t ≢ s) (has_space t)
  unfolding has_space ◌>>=◌
  has_space-Keeps t = record {
    at = λ d h. (h, λ e q. absurd (false≢true (sym e ∙ rw (q, h.held.1) refl)));
  }

  pub move_space_info-Keeps :
      IsLawful p
      → (old t : Bytes) (j : SpaceInfo) → t ≢ s
      → IsOther i.raw_space j.raw_space
      → Keeps (Protected s i vals) Any (move_space_info old t j)
  unfolding move_space_info encode
  move_space_info-Keeps laws old t j n o = Keeps-bind (store_info laws t j (inr (n, o))) λ _ _.
      Keeps-bind (erase_aside (StoreKey.owned old t) tt) λ _ _.
        Keeps-bind (store_aside (StoreKey.owned j.owner t) [] tt)
          λ _ _. store_aside (StoreKey.expiry j.expiry j.raw_space) (expiry_data_value j.owner t) tt
