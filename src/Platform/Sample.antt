-- ===== src/Platform/Sample.antt =====
-- A database and a platform that satisfy the laws, for the tests: a sorted list of entries, hashes
-- that cut or fill to the length, and a codec that lists the fields.
use spacesvm.Prelude.{
  ℕ, zero, suc, ◌+◌, ◌≡◌, ◌≢◌, ◌↔◌, refl, ap, inl, inr, Bool, true, false, not, Option, none, some,
  List, [], ◌∷◌, ◌++◌, Bytes, Ordering, bytes_eq, bytes_eq→eq, bytes_eq_self, bytes_compare,
  compare_self, compare-eq→eq, compare-gt→lt, compare-lt_trans, lt→bytes_ne, has_prefix, arith,
  if◌then◌else◌, Bool-cases, length, take, drop, take-append, drop-append, ◌-◌, ◌%◌, u64, add64,
  sub64, leb, ltb, ◌==◌,
}
use spacesvm.Platform.{In, Before, Ascending, Database, Platform, IsLawful}
use spacesvm.Types.{SpaceInfo, ValueMeta}

abbrev Entries : Type 0
Entries = List (Bytes × Bytes)

abbrev find : Entries → Bytes → Option Bytes
find [] j = none
find ((k, v) ∷ l) j = if bytes_eq k j then some v else find l j

abbrev insert : Bytes → Bytes → Entries → Entries
insert k v [] = (k, v) ∷ []
insert k v ((j, w) ∷ l) =
    let rest = insert k v l in
    elim (bytes_compare k j) [
      | Ordering.lt ↦ (k, v) ∷ (j, w) ∷ l
      | Ordering.eq ↦ (k, v) ∷ l
      | Ordering.gt ↦ (j, w) ∷ rest
    ]

-- the entries whose key passes
abbrev keep : (Bytes → Bool) → Entries → Entries
keep p [] = []
keep p ((k, v) ∷ l) = let rest = keep p l in if p k then (k, v) ∷ rest else rest

pub find-insert :
    (k v j : Bytes) (l : Entries)
    → find (insert k v l) j ≡ (if bytes_eq k j then some v else find l j)
find-insert k v j [] = refl
find-insert k v j ((i, w) ∷ l) = ground (
  arith,
  find-insert k v j l,
  compare-eq→eq k i,
  bytes_eq→eq i j,
  bytes_eq→eq k j,
  bytes_eq_self k,
  compare_self k,
)

Before-insert :
    (m k v : Bytes) (l : Entries)
    → bytes_compare m k ≡ Ordering.lt
    → Before m l
    → Before m (insert k v l)
Before-insert m k v [] h b = (h, tt)
Before-insert m k v ((j, w) ∷ l) h b = ground (arith, Before-insert m k v l h b.1)

Before-trans :
    (m k : Bytes) (l : Entries) → bytes_compare m k ≡ Ordering.lt → Before k l → Before m l
Before-trans m k [] h b = tt
Before-trans m k ((j, w) ∷ l) h b = (compare-lt_trans m k j h b.0, Before-trans m k l h b.1)

pub insert-Ascending : (k v : Bytes) (l : Entries) → Ascending l → Ascending (insert k v l)
insert-Ascending k v [] a = (tt, tt)
insert-Ascending k v ((j, w) ∷ l) a = go (bytes_compare k j) refl (insert-Ascending k v l a.1)
  where
    go :
        (o : Ordering)
        → bytes_compare k j ≡ o
        → Ascending (insert k v l)
        → Ascending (elim o [
          | Ordering.lt ↦ (k, v) ∷ (j, w) ∷ l
          | Ordering.eq ↦ (k, v) ∷ l
          | Ordering.gt ↦ (j, w) ∷ insert k v l
        ])
    go Ordering.lt e ih = ((e, Before-trans k j l e a.0), a)
    go Ordering.eq e ih = (rw (compare-eq→eq k j e) (a.0), a.1)
    go Ordering.gt e ih = (Before-insert j k v l (compare-gt→lt k j e) a.0, ih)

pub find-keep :
    (p : Bytes → Bool) (l : Entries) (j : Bytes)
    → find (keep p l) j ≡ (if p j then find l j else none)
find-keep p [] j = ground arith
find-keep p ((k, v) ∷ l) j = ground (arith, find-keep p l j, bytes_eq→eq k j)

Before-keep : (p : Bytes → Bool) (m : Bytes) (l : Entries) → Before m l → Before m (keep p l)
Before-keep p m [] b = tt
Before-keep p m ((k, v) ∷ l) b = ground (arith, Before-keep p m l b.1)

pub keep-Ascending : (p : Bytes → Bool) (l : Entries) → Ascending l → Ascending (keep p l)
keep-Ascending p [] a = tt
keep-Ascending p ((k, v) ∷ l) a = ground (arith, Before-keep p k l a.0, keep-Ascending p l a.1)

In-Before : (m k v : Bytes) (l : Entries) → Before m l → In (k, v) l → bytes_eq m k ≡ false
In-Before m k v [] b (i) = absurd i
In-Before m k v ((j, w) ∷ l) b (inl e) = ground (arith, lt→bytes_ne m j b.0)
In-Before m k v ((j, w) ∷ l) b (inr i) = In-Before m k v l b.1 i

In-find : (l : Entries) (k v : Bytes) → Ascending l → In (k, v) l → find l k ≡ some v
In-find [] k v a i = absurd i
In-find ((j, w) ∷ l) k v a (inl e) = ground (arith, bytes_eq_self j)
In-find ((j, w) ∷ l) k v a (inr i) = rw (In-Before j k v l a.0 i) (In-find l k v a.1 i)

find-In : (l : Entries) (k v : Bytes) → find l k ≡ some v → In (k, v) l
find-In [] k v e = cc
find-In ((j, w) ∷ l) k v e = elim (Bool-cases (bytes_eq j k)) [
  | inl h ↦ inl (ground (arith, bytes_eq→eq j k))
  | inr h ↦ inr (find-In l k v (ground arith))
]

-- `bytes_compare start k` is not `gt`
abbrev from_start : Bytes → Bytes → Bool
from_start start k = elim (bytes_compare start k) [ Ordering.gt ↦ false | _ ↦ true ]

pub sample_iterate :
    (l : Entries) (start k v : Bytes)
    → Ascending l
    → In (k, v) (keep (from_start start) l)
      ↔ ((find l k ≡ some v) × (bytes_compare start k ≢ Ordering.gt))
sample_iterate l start k v a = (
  λ i.
      let e = In-find (keep (from_start start) l) k v (keep-Ascending (from_start start) l a) i in
      let f = find-keep (from_start start) l k in (ground arith, ground arith),
  λ h.
      find-In (keep (from_start start) l) k v
        (ground (arith, find-keep (from_start start) l k, h.0)),
)

pub find-delete :
    (l : Entries) (k j : Bytes)
    → find (keep (λ i. not (bytes_eq k i)) l) j ≡ (if bytes_eq k j then none else find l j)
find-delete l k j = ground (arith, find-keep (λ i. not (bytes_eq k i)) l j)

pub find-clear_prefix :
    (l : Entries) (k j : Bytes)
    → find (keep (λ i. not (has_prefix k i)) l) j ≡ (if has_prefix k j then none else find l j)
find-clear_prefix l k j = ground (arith, find-keep (λ i. not (has_prefix k i)) l j)

abbrev pub Sorted : Type 0
Sorted = (l : Entries) × Ascending l

instance abbrev pub sample_database : Database
sample_database = record {
  Db = Sorted;
  get = λ d k. find d.0 k;
  put = λ d k v. (insert k v d.0, insert-Ascending k v d.0 d.1);
  delete = λ d k. (keep (λ j. not (bytes_eq k j)) d.0, keep-Ascending _ d.0 d.1);
  iterate = λ d start. keep (from_start start) d.0;
  clear_prefix = λ d p. (keep (λ j. not (has_prefix p j)) d.0, keep-Ascending _ d.0 d.1);
  get-put = λ d k v j. find-insert k v j d.0;
  get-delete = λ d k j. find-delete d.0 k j;
  get-clear_prefix = λ d p j. find-clear_prefix d.0 p j;
  in-iterate = λ d start k v. sample_iterate d.0 start k v d.1;
  iterate-Ascending = λ d start. keep-Ascending (from_start start) d.0 d.1;
}

-- the first `n` bytes, with zeros behind a shorter string
abbrev pub fit : ℕ → Bytes → Bytes
fit zero b = []
fit (suc n) [] = 0 ∷ fit n []
fit (suc n) (c ∷ b) = c ∷ fit n b

pub length-fit : (n : ℕ) (b : Bytes) → length (fit n b) ≡ n
length-fit zero b = refl
length-fit (suc n) [] = ap suc (length-fit n [])
length-fit (suc n) (c ∷ b) = ap suc (length-fit n b)

abbrev pub read_info : Bytes → Option SpaceInfo
read_info (c ∷ u ∷ e ∷ n ∷ k ∷ rest) = some (record {
  owner = take k rest;
  created = c;
  updated = u;
  expiry = e;
  units = n;
  raw_space = drop k rest;
})
read_info _ = none

abbrev pub read_meta : Bytes → Option ValueMeta
read_meta (n ∷ c ∷ u ∷ rest) = some (record { size = n; tx_id = rest; created = c; updated = u })
read_meta _ = none

instance abbrev pub sample_platform : Platform
sample_platform = record {
  keccak256 = λ b. fit 32 b;
  hash160 = λ b. fit 20 b;
  to_id = λ b. if length b == 32 then some b else none;
  to_short_id = λ b. if length b == 20 then some b else none;
  safe_add = λ a b. ((a + b) % u64, leb u64 (a + b));
  safe_sub = λ a b. ((a + u64 - b) % u64, ltb a b);
  bytes_to_address = λ b. fit 20 b;
  address_hex = λ b. 48 ∷ 120 ∷ b;
  hash_hex = λ b. 48 ∷ 120 ∷ b;
  digest = λ _. some [];
  recover = λ _ sig. some (fit 20 sig);
  marshal_info =
      λ i. i.created ∷ i.updated ∷ i.expiry ∷ i.units ∷ length i.owner ∷ (i.owner ++ i.raw_space);
  unmarshal_info = read_info;
  marshal_meta = λ m. m.size ∷ m.created ∷ m.updated ∷ m.tx_id;
  unmarshal_meta = read_meta;
  marshal_tx = λ _ sig. some sig;
}

pub fit_self : (n : ℕ) (b : Bytes) → length b ≡ n → fit n b ≡ b
fit_self zero [] h = refl
fit_self zero (c ∷ b) h = absurd (omega arith)
fit_self (suc n) [] h = absurd (omega arith)
fit_self (suc n) (c ∷ b) h = ap (◌∷◌ c) (fit_self n b (omega arith))

pub sample-IsLawful : IsLawful sample_platform
unfolding add64 sub64
sample-IsLawful = record {
  length-keccak256 = λ b. length-fit 32 b;
  length-hash160 = λ b. length-fit 20 b;
  to_id_lem = λ b. refl;
  to_short_id_lem = λ b. refl;
  safe_add_lem = λ a b _ _. refl;
  safe_sub_lem = λ a b _ _. refl;
  bytes_to_address_lem = λ b h. fit_self 20 b h;
  unmarshal-marshal_info = λ i. rw (
    take-append (length i.owner) i.owner i.raw_space refl,
    drop-append (length i.owner) i.owner i.raw_space refl,
  );
  unmarshal-marshal_meta = λ m. refl;
}
