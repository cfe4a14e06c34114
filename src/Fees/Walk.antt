-- ===== src/Fees/Walk.antt =====
-- Which blocks the walk of vm/helpers.go goes over, and what ExecutionContext of vm/chain_vm.go collects
-- from them.
use spacesvm.Prelude.{
  ℕ, zero, suc, ◌+◌, ◌≤◌, ◌<◌, ◌≡◌, ◌≢◌, ◌⊎◌, inl, inr, refl, ◌||◌, true, false, Bool-cases, List,
  [], ◌∷◌, Bytes, length, bytes_eq, bytes_eq→eq, bytes_eq_self, leb, ◌==◌, arith,
}
use spacesvm.Errors.{Error, Result, ok, err, panic, out_of_fuel, ◌>>=◌}
use spacesvm.Genesis.{Genesis}
use spacesvm.Block.{Node}
use spacesvm.Fees.{Window, empty_window, collect, lookback_loop, lookback}

module _ {D : Type 0} (g : Genesis) (get_stateless_block : Bytes → Result (Node D)) where
  module _ (curr_time : ℕ) (last_id : Bytes) where
    -- The block is in the window of the genesis, or the one that the walk starts from.
    abbrev pub IsRecent : Node D → Type 0
    IsRecent b = (curr_time ≤ b.tmstmp + g.lookback_window) ⊎ (b.id ≡ last_id)

    -- From a block on, the recent blocks, each the parent of the one before, up to the first that is not
    -- recent, to a block of height 0, or to one whose parent is not found, and how the walk ends there.
    pub data Visits : Node D → List (Node D) → Result (Unit {0}) → Type 0 where
      too_old :
          (b : Node D)
          → b.tmstmp + g.lookback_window < curr_time
          → b.id ≢ last_id
          → Visits b [] (ok tt)
      at_genesis : (b : Node D) → IsRecent b → b.hght ≡ 0 → Visits b (b ∷ []) (ok tt)
      no_parent :
          (b : Node D) (e : Error)
          → IsRecent b
          → 0 < b.hght
          → get_stateless_block b.prnt ≡ err e
          → Visits b (b ∷ []) (err e)
      at_parent :
          (b parent : Node D) (l : List (Node D)) (end : Result (Unit {0}))
          → IsRecent b
          → 0 < b.hght
          → get_stateless_block b.prnt ≡ ok parent
          → Visits parent l end
          → Visits b (b ∷ l) end

    IsRecent_lem :
        (b : Node D)
        → IsRecent b
        → (leb curr_time (b.tmstmp + g.lookback_window) || bytes_eq b.id last_id) ≡ true
    IsRecent_lem b (inl near) = ground arith
    IsRecent_lem b (inr own) = rw own (ground (arith, bytes_eq_self last_id))

    old_lem :
        (b : Node D)
        → b.tmstmp + g.lookback_window < curr_time
        → b.id ≢ last_id
        → (leb curr_time (b.tmstmp + g.lookback_window) || bytes_eq b.id last_id) ≡ false
    old_lem b far other = elim (Bool-cases (bytes_eq b.id last_id)) [
      | inl own ↦ absurd (other (bytes_eq→eq b.id last_id own))
      | inr differs ↦ ground (arith, far, differs)
    ]

    IsRecent-cases :
        (b : Node D) → IsRecent b ⊎ ((b.tmstmp + g.lookback_window < curr_time) × (b.id ≢ last_id))
    IsRecent-cases b = elim (Bool-cases (leb curr_time (b.tmstmp + g.lookback_window))) [
      | inl near ↦ inl (inl (ground arith))
      | inr far ↦ elim (Bool-cases (bytes_eq b.id last_id)) [
        | inl own ↦ inl (inr (bytes_eq→eq b.id last_id own))
        | inr differs ↦
            inr (ground arith, λ e. absurd (ground (arith, e, differs, bytes_eq_self last_id)))
      ]
    ]

  -- The callback of ExecutionContext on the blocks one after the other.
  abbrev pub collect_all : List (Node D) → Window → Result Window
  collect_all [] w = ok w
  collect_all (b ∷ l) w = collect g b.stateless w >>= λ v. collect_all l v

  -- the window, when the walk ended well
  abbrev pub finish : Result (Unit {0}) → Window → Result Window
  finish end w = end >>= λ _. ok w

  then-finish :
      (m : Result Window) (f k h : Window → Result Window)
      → ((w : Window) → f w ≡ (k w >>= h))
      → (m >>= f) ≡ ((m >>= k) >>= h)
  then-finish (ok w) f k h same = same w
  then-finish (err e) f k h same = refl
  then-finish panic f k h same = refl
  then-finish out_of_fuel f k h same = refl

  lookback_loop-Visits :
      (fuel curr_time : ℕ) (last_id : Bytes) (b : Node D) (l : List (Node D))
      (end : Result (Unit {0})) (w : Window)
      → Visits curr_time last_id b l end
      → length l < fuel
      → lookback_loop g get_stateless_block fuel curr_time last_id b w
        ≡ (collect_all l w >>= finish end)
  unfolding lookback_loop
  lookback_loop-Visits zero curr_time last_id b l end w visits more = absurd (omega arith)
  lookback_loop-Visits (suc fuel) curr_time last_id b l end w (too_old b' far other) more =
      rw (old_lem curr_time last_id b far other) refl
  lookback_loop-Visits (suc fuel) curr_time last_id b l end w (at_genesis b' near low) more =
      rw (IsRecent_lem curr_time last_id b near)
        (then-finish (collect g b.stateless w) _ _ _ λ v. rw low refl)
  lookback_loop-Visits (suc fuel) curr_time last_id b l end w (no_parent b' e near high missing)
        more =
      let above : (b.hght == 0) ≡ false = ground arith in
      rw (IsRecent_lem curr_time last_id b near)
        (then-finish (collect g b.stateless w) _ _ _ λ v. rw (above, missing) refl)
  lookback_loop-Visits (suc fuel) curr_time last_id b l end w
        (at_parent b' parent l' end' near high found visits) more =
      let above : (b.hght == 0) ≡ false = ground arith in
      rw (IsRecent_lem curr_time last_id b near) (
        then-finish (collect g b.stateless w) _ _ _ λ v.
          rw (above, found)
            (lookback_loop-Visits fuel curr_time last_id parent l' end v visits (omega arith)))

  -- From the last block the walk goes over exactly the recent blocks, in their order: with fuel for one
  -- round more than there are, it returns what the callback collects from them all, or the callback's
  -- first error, or else that of the parent that is not found.
  pub lookback-Visits :
      (fuel curr_time : ℕ) (last : Node D) (last_id : Bytes) (l : List (Node D))
      (end : Result (Unit {0}))
      → get_stateless_block last_id ≡ ok last
      → Visits curr_time last_id last l end
      → length l < fuel
      → lookback g get_stateless_block fuel curr_time last_id
        ≡ (collect_all l empty_window >>= finish end)
  unfolding lookback
  lookback-Visits fuel curr_time last last_id l end found visits more =
      rw found (lookback_loop-Visits fuel curr_time last_id last l end empty_window visits more)

  -- The store gives a block or an error, and the measure falls from a block to its parent, as it does
  -- along links that make no cycle.
  pub record IsLinked (measure : Node D → ℕ) : Type 0 where
    pub returns :
        (id : Bytes)
        → ((b : Node D) × (get_stateless_block id ≡ ok b))
          ⊎ ((e : Error) × (get_stateless_block id ≡ err e))
    pub falls :
        (id : Bytes) (b parent : Node D)
        → get_stateless_block id ≡ ok b
        → get_stateless_block b.prnt ≡ ok parent
        → measure parent < measure b

  abbrev Visited : ℕ → Bytes → Node D → ℕ → Type 0
  Visited curr_time last_id b bound =
      (l : List (Node D)) × (end : Result (Unit {0})) × Visits curr_time last_id b l end
      × (length l < bound)

  Visits-exists :
      (measure : Node D → ℕ) (bound curr_time : ℕ) (last_id id : Bytes) (b : Node D)
      → IsLinked measure
      → get_stateless_block id ≡ ok b
      → measure b + 1 < bound
      → Visited curr_time last_id b bound
  Visits-exists measure zero curr_time last_id id b linked held more = absurd (omega arith)
  Visits-exists measure (suc bound) curr_time last_id id b linked held more =
      elim (IsRecent-cases curr_time last_id b) [
        | inr (far, differs) ↦ ([], ok tt, too_old b far differs, omega arith)
        | inl near ↦ elim (Bool-cases (b.hght == 0)) [
          | inl low ↦ (b ∷ [], ok tt, at_genesis b near (ground arith), omega arith)
          | inr above ↦ elim (linked.returns b.prnt) [
            | inr (e, missing) ↦
                (b ∷ [], err e, no_parent b e near (ground arith) missing, omega arith)
            | inl (parent, found) ↦
                let (l, end, visits, short) =
                  Visits-exists measure bound curr_time last_id b.prnt parent linked found
                    (omega (arith, linked.falls id b parent held found)) in
                (b ∷ l, end, at_parent b parent l end near (ground arith) found visits, omega arith)
          ]
        ]
      ]

  -- Over a store whose links make no cycle, with fuel for two rounds more than the measure of the last
  -- block, the walk ends: there are recent blocks that it goes over, and it returns what the callback
  -- collects from them, or the first error.
  pub lookback-ends :
      (measure : Node D → ℕ) (fuel curr_time : ℕ) (last : Node D) (last_id : Bytes)
      → IsLinked measure
      → get_stateless_block last_id ≡ ok last
      → measure last + 1 < fuel
      → (l : List (Node D)) × (end : Result (Unit {0})) × Visits curr_time last_id last l end
        × (lookback g get_stateless_block fuel curr_time last_id
            ≡ (collect_all l empty_window >>= finish end))
  lookback-ends measure fuel curr_time last last_id linked found more =
      let (l, end, visits, short) =
        Visits-exists measure fuel curr_time last_id last_id last linked found more in
      (l, end, visits, lookback-Visits fuel curr_time last last_id l end found visits short)
