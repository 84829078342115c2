-- ===== src/Tile/KeyIndex.antt =====
-- src/tile/model/TIndex.h and TIndex.cpp: the features of a tile by category, each category with a
-- spatial index, small categories merged into one.
-- A feature is its address, and `next` the store of the links between features. An index into the
-- array of roots is `none` where the source has -1. The assertions do not run in a release build.
pub mod Ring
pub mod Counts
pub mod Chain
pub mod Sorting
pub mod Cutting
pub mod Merging
pub mod Closing
mod Tests
use geodesk_gol.Prelude.{
  ℕ, zero, suc, ◌+◌, ◌-◌, ◌*◌, ◌%◌, ◌^◌, min, bit_or, Bool, true, false, ◌&&◌, Option, none, some,
  List, [], ◌∷◌, ltb, ◌==◌, if◌then◌else◌,
}

abbrev pub update {ℓ} : {A : Type ℓ} → (ℕ → A) → ℕ → A → ℕ → A
update f p v q = if p == q then v else f q

-- `MULTI_CATEGORY`, behind the 31 others
abbrev pub multi_category : ℕ
multi_category = 31

-- The union of the source holds `first` until the root is built, and `trunk` from then on.
pub record Root (Trunk : Type 0) : Type 0 where
  pub index_bits : ℕ
  pub feature_count : ℕ
  pub first : Option ℕ
  pub trunk : Option Trunk

pub record IndexSettings : Type 0 where
  pub max_key_indexes : ℕ
  pub key_index_min_features : ℕ

-- `Root::addFeature`: the links, and the root.
pub link_feature : ℕ → Option ℕ → (ℕ → ℕ) → ℕ → ℕ
link_feature f none next = update next f f
link_feature f (some head) next = update (update next f (next head)) head f

-- `Root::add(other)`: the links of two rings that become one.
pub splice : ℕ → ℕ → (ℕ → ℕ) → ℕ → ℕ
splice a b next = update (update next a (next b)) b (next a)

module _ {Trunk : Type 0} where
  abbrev pub is_empty : Root Trunk → Bool
  is_empty r = r.feature_count == 0

  -- `Root::addFeature`: the root.
  pub add_feature : ℕ → ℕ → Root Trunk → Root Trunk
  add_feature f bits r = record r {
    first = elim r.first [ none ↦ some f | some head ↦ some head ];
    feature_count = (r.feature_count + 1) % 2 ^ 32;
    index_bits = bit_or r.index_bits bits;
  }

  -- `Root::add(other)`: the links, the root that grows, and the other.
  pub link_rings : Root Trunk → Root Trunk → (ℕ → ℕ) → ℕ → ℕ
  link_rings r other next =
      if is_empty other then next else if is_empty r then next else elim r.first [
        | none ↦ next
        | some a ↦ elim other.first [ none ↦ next | some b ↦ splice a b next ]
      ]

  pub add : Root Trunk → Root Trunk → Root Trunk
  add r other = if is_empty other then r else record r {
    index_bits = bit_or r.index_bits other.index_bits;
    first = if is_empty r then other.first else r.first;
    feature_count = (r.feature_count + other.feature_count) % 2 ^ 32;
  }

  abbrev pub emptied : Root Trunk → Root Trunk
  emptied other = if is_empty other then other else record other { feature_count = 0; first = none }

pub record Index (Trunk : Type 0) : Type 0 where
  pub next : ℕ → ℕ
  pub roots : ℕ → Root Trunk
  pub next_root : ℕ → Option ℕ
  pub first_root : Option ℕ
  pub root_count : ℕ

-- What the pointer `pNextRoot` points to.
pub data Slot : Type 0 where
  first_slot : Slot
  after : ℕ → Slot

-- The builder of a spatial index: the links, the first feature of a ring and their number.
module _ {Trunk : Type 0} (rtree : (ℕ → ℕ) → Option ℕ → ℕ → Option Trunk) where
  abbrev pub read : Slot → Index Trunk → Option ℕ
  read first_slot t = t.first_root
  read (after r) t = t.next_root r

  abbrev pub write_slot : Slot → Option ℕ → Index Trunk → Index Trunk
  write_slot first_slot v t = record t { first_root = v }
  write_slot (after r) v t = record t { next_root = update t.next_root r v }

  -- `addFeature(feature, category, indexBits)`
  pub add_to_category : ℕ → ℕ → ℕ → Index Trunk → Index Trunk
  add_to_category f category bits t = record t {
    next = link_feature f (t.roots category).first t.next;
    roots = update t.roots category (add_feature f bits (t.roots category));
  }

  -- `roots_[MULTI_CATEGORY].add(roots_[i])`
  pub consolidate : ℕ → Index Trunk → Index Trunk
  consolidate i t = record t {
    next = link_rings (t.roots multi_category) (t.roots i) t.next;
    roots =
        update (update t.roots multi_category (add (t.roots multi_category) (t.roots i))) i
          (emptied (t.roots i));
  }

  -- `*pNextRoot = i; next_[i] = nextRoot`
  pub place_root : ℕ → Slot → Option ℕ → Index Trunk → Index Trunk
  place_root i slot next_root t =
      let linked = write_slot slot (some i) t in
      record linked { next_root = update linked.next_root i next_root }

  -- The inner loop that finds the place of root `i`, largest roots first.
  pub insert_root : ℕ → ℕ → Slot → Index Trunk → Index Trunk
  insert_root zero i slot t = t
  insert_root (suc fuel) i slot t = elim (read slot t) [
    | none ↦ place_root i slot none t
    | some r ↦
        let rest = insert_root fuel i (after r) t in
        if ltb (t.roots i).feature_count (t.roots r).feature_count
        then rest
        else place_root i slot (some r) t
  ]

  pub sort_root : IndexSettings → ℕ → Index Trunk → Index Trunk
  sort_root s i t =
      if ltb (t.roots i).feature_count s.key_index_min_features
      then consolidate i t
      else (let placed = insert_root (multi_category + 1) i first_slot t in
          record placed { root_count = placed.root_count + 1 })

  -- The outer loop, over `n` categories from `i` on.
  pub sort_roots : IndexSettings → ℕ → ℕ → Index Trunk → Index Trunk
  sort_roots s zero i t = t
  sort_roots s (suc n) i t = sort_roots s n (i + 1) (sort_root s i t)

  abbrev pub built : (ℕ → ℕ) → Root Trunk → Root Trunk
  built next r = record r { trunk = rtree next r.first r.feature_count }

  pub build_root : ℕ → Index Trunk → Index Trunk
  build_root r t = record t { roots = update t.roots r (built t.next (t.roots r)) }

  -- The loop that builds the largest roots, and where it leaves the pointer.
  pub build_roots : ℕ → Slot → Index Trunk → Slot × Index Trunk
  build_roots zero slot t = (slot, t)
  build_roots (suc n) slot t = elim (read slot t) [
    | none ↦ (slot, t)
    | some r ↦ build_roots n (after r) (build_root r t)
  ]

  -- The loop that merges the smallest roots.
  pub merge_roots : ℕ → Slot → Index Trunk → Index Trunk
  merge_roots zero slot t = t
  merge_roots (suc n) slot t = elim (read slot t) [
    | none ↦ t
    | some r ↦ merge_roots n (after r) (consolidate r t)
  ]

  -- The end of `build`, from the pointer to the last root that was kept.
  pub close : ℕ → Slot → Index Trunk → Index Trunk
  close keep last t =
      let cut = record (write_slot last none t) { root_count = keep } in
      if is_empty (t.roots multi_category)
      then cut
      else record (build_root multi_category (write_slot last (some multi_category) cut)) {
        root_count = keep + 1;
      }

  abbrev pub kept : IndexSettings → Index Trunk → ℕ
  kept s t = min t.root_count (s.max_key_indexes - 1)

  pub build : IndexSettings → Index Trunk → Index Trunk
  build s t =
      let sorted = sort_roots s multi_category 0 t in
      let (last, trunks) = build_roots (kept s sorted) first_slot sorted in
      close (kept s sorted) last (merge_roots (sorted.root_count - kept s sorted) last trunks)
