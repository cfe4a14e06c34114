-- ===== src/Storage/Expiry/Window.antt =====
-- Which entries of the expiry queue ExpireNext of chain/storage.go takes out, and what it does with
-- one of them.
use spacesvm.Prelude.{
  ℕ, ◌≤◌, ◌<◌, ◌≡◌, ◌↔◌, inl, inr, refl, ap, Bool-cases, compare-gt→lt, compare-lt→gt,
  compare-lt_trans, Bool, true, false, some, List, [], ◌∷◌, ◌++◌, Bytes, u64, length, take-append,
  drop-append, length-append, arith, if◌then◌else◌,
}
use spacesvm.Errors.{ok}
use spacesvm.Exec.{Exec, return, ◌>>=◌, ◌>>◌}
use spacesvm.Platform.{In, Before, Ascending, Database, Platform, IsLawful}
use spacesvm.Keys.{
  expiry_prefix, specific_time_key, range_time_key, prefix_expiry_key, prefix_pruning_key,
  prefix_owned_key, space_info_key, space_value_key,
}
use spacesvm.Keys.Times.{compare-range_time_key, compare-specific_time_key}
use spacesvm.Keys.Encoding.{extract-specific_time_key}
use spacesvm.Storage.Spaces.{expiry_data_value}
use spacesvm.Storage.Expiry.{is_after, split_expiry_value, expire_entry, expire_loop, expire_next}

-- The entries before the first one that is after the end.
abbrev pub due : Bytes → List (Bytes × Bytes) → List (Bytes × Bytes)
due end_key [] = []
due end_key ((k, v) ∷ rest) =
    let more = due end_key rest in if is_after k end_key then [] else (k, v) ∷ more

after_later :
    (end_key k : Bytes) (l : List (Bytes × Bytes)) (j w : Bytes)
    → is_after k end_key ≡ true
    → Before k l
    → In (j, w) l
    → is_after j end_key ≡ true
after_later end_key k [] j w a b i = absurd i
after_later end_key k ((m, u) ∷ l) j w a b (inl e) =
    let below = compare-gt→lt k end_key in
    let above = compare-lt_trans end_key k m in let back = compare-lt→gt end_key m in ground arith
after_later end_key k ((m, u) ∷ l) j w a b (inr i) = after_later end_key k l j w a b.1 i

-- In an ascending list these are all the entries that are not after the end.
In-due :
    (end_key : Bytes) (l : List (Bytes × Bytes)) (k v : Bytes)
    → Ascending l
    → In (k, v) (due end_key l) ↔ (In (k, v) l × (is_after k end_key ≡ false))
In-due end_key [] k v a = (λ i. absurd i, λ i. absurd i.0)
In-due end_key ((j, w) ∷ l) k v a =
    let later = after_later end_key j l k v in
    let ih = In-due end_key l k v a.1 in
    elim (Bool-cases (is_after j end_key)) [
      | inl e ↦ rw (e) (
        λ i. absurd i,
        λ h. elim h.0 [
          | inl q ↦ let same : k ≡ j = cc in absurd (ground arith)
          | inr i ↦ let after_end = later e a.0 i in absurd (ground arith)
        ],
      )
      | inr e ↦ rw (e) (
        λ i. elim i [
          | inl q ↦ let same : k ≡ j = cc in (inl q, ground arith)
          | inr i' ↦ let found = ih.0 i' in (inr found.0, found.1)
        ],
        λ h. elim h.0 [ inl q ↦ inl q | inr i ↦ inr (ih.1 (i, h.1)) ],
      )
    ]

module _ ⦃db : Database⦄ where
  In-window :
      (d : db.Db) (parent current t : ℕ) (r v : Bytes)
      → parent < u64
      → current < u64
      → t < u64
      → length r ≡ 20
      → (let key = prefix_expiry_key t r in
          (In (key, v) (db.iterate d (range_time_key expiry_prefix parent))
            × (is_after key (range_time_key expiry_prefix current) ≡ false))
          ↔ ((db.get d key ≡ some v) × (parent ≤ t) × (t < current)))
  unfolding prefix_expiry_key
  In-window d parent current t r v hp hc ht l =
      let key = specific_time_key expiry_prefix t r in
      let cursor = db.in-iterate d (range_time_key expiry_prefix parent) key v in
      let start = compare-range_time_key expiry_prefix parent t r hp ht l in
      let stop = compare-specific_time_key expiry_prefix current t r hc ht l in
      (
        λ h. let (stored, not_before) = cursor.0 h.0 in (stored, ground arith, ground arith),
        λ h. (cursor.1 (h.0, ground arith), ground arith),
      )

  module _ ⦃p : Platform⦄ where
    -- Every one of the entries taken out, in their order.
    abbrev pub expire_all : Bool → List (Bytes × Bytes) → Exec db.Db Unit
    expire_all bootstrapped [] = return tt
    expire_all bootstrapped ((k, v) ∷ rest) = do
      expire_entry bootstrapped k v
      expire_all bootstrapped rest

    expire_loop-due :
        (end_key : Bytes) (bootstrapped : Bool) (l : List (Bytes × Bytes))
        → expire_loop end_key bootstrapped l ≡ expire_all bootstrapped (due end_key l)
    unfolding expire_loop
    expire_loop-due end_key bootstrapped [] = refl
    expire_loop-due end_key bootstrapped ((k, v) ∷ l) = elim (Bool-cases (is_after k end_key)) [
      | inl e ↦ rw (e) refl
      | inr e ↦ rw (e, expire_loop-due end_key bootstrapped l) refl
    ]

    -- ExpireNext takes out, one after the other, the entries from its cursor's start to the first
    -- one after its end; an entry of the queue is among them exactly when it is stored and its time
    -- is not before the parent's and before the block's. The times are less than 2^64, and the raw
    -- space has 20 bytes.
    pub expire_next_lem :
        (d : db.Db) (bootstrapped : Bool) (parent current t : ℕ) (r v : Bytes)
        → parent < u64
        → current < u64
        → t < u64
        → length r ≡ 20
        → (let entries =
              due
                (range_time_key expiry_prefix current)
                (db.iterate d (range_time_key expiry_prefix parent)) in
            let key = prefix_expiry_key t r in
            (expire_next parent current bootstrapped d ≡ expire_all bootstrapped entries d)
            × (In (key, v) entries ↔ ((db.get d key ≡ some v) × (parent ≤ t) × (t < current))))
    unfolding expire_next ◌>>=◌
    expire_next_lem d bootstrapped parent current t r v hp hc ht l =
        let start = range_time_key expiry_prefix parent in
        let stop = range_time_key expiry_prefix current in
        let found = db.iterate d start in
        let chosen = In-due stop found (prefix_expiry_key t r) v (db.iterate-Ascending d start) in
        let bounds = In-window d parent current t r v hp hc ht l in
        (
          ap (λ f. f d) (expire_loop-due stop bootstrapped found),
          (λ i. bounds.0 (chosen.0 i), λ h. chosen.1 (bounds.1 h)),
        )

  module _ ⦃p : Platform⦄ (laws : IsLawful p) where
    -- An entry of the queue in the form that PutSpaceInfo writes, with an owner and a raw space of
    -- 20 bytes and a time less than 2^64, is taken out with the space's info and its place in the
    -- owner's list; the values are left to the pruner when bootstrapped, and cleared at once
    -- otherwise.
    pub expire_entry_lem :
        (d : db.Db) (bootstrapped : Bool) (t : ℕ) (r owner space : Bytes)
        → t < u64
        → length r ≡ 20
        → length owner ≡ 20
        → expire_entry bootstrapped (prefix_expiry_key t r) (expiry_data_value owner space) d ≡ (
            let unlisted =
              db.delete
                (db.delete (db.delete d (prefix_expiry_key t r)) (prefix_owned_key owner space))
                (space_info_key space) in
            (
              ok tt,
              if bootstrapped
                  then db.put unlisted (prefix_pruning_key t r) []
                  else db.clear_prefix unlisted (space_value_key r []),
            ))
    unfolding expire_entry split_expiry_value expiry_data_value prefix_expiry_key ◌>>=◌
    expire_entry_lem d bootstrapped t r owner space ht l o =
        let split = take-append 20 owner space o in
        let rest = drop-append 20 owner space o in
        let whole = laws.bytes_to_address_lem owner o in
        let times = extract-specific_time_key laws expiry_prefix t r ht l in
        let long : 20 ≤ length (owner ++ space) = omega (arith, length-append owner space) in
        ground (arith, split, rest, whole, times)
