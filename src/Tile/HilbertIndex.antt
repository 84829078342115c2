-- ===== src/Tile/HilbertIndex.antt =====
-- src/tile/compiler/HilbertIndexBuilder.h and .cpp, with the nodes of tile/model/TIndexLeaf.h,
-- TIndexTrunk.h and TIndexBranch.h: the spatial index of a list of features.
-- The workspace is two arrays here. In the source the branches overwrite the items, and the
-- parents the branches, always in slots that have been read.
pub mod Chunks
pub mod Tree
mod Tests
use geodesk_gol.Prelude.{
  ℕ, zero, suc, ◌+◌, ◌*◌, Bool, Option, none, some, List, [], ◌∷◌, ◌++◌, map, length, take, drop,
  leb, if◌then◌else◌,
}

module _ (Feature Box : Type 0) where
  mutual
    pub data Branch : Type 0 where
      leaf : Box → List Feature → Branch
      trunk : Box → ℕ → Branches → Branch

    pub data Branches : Type 0 where
      nil : Branches
      cons : Branch → Branches → Branches

  pub record HilbertItem : Type 0 where
    pub distance : ℕ
    pub feature : Feature

-- The geometry of the geodesk library: boxes, the bounding box of a feature as `createLeaf` takes
-- it, and the distance of a feature along the Hilbert curve, from its location or from the center
-- of its box clipped to the tile.
pub record Geometry (Feature : Type 0) : Type 1 where
  pub Box : Type 0
  pub empty_box : Box
  pub expand : Box → Box → Box
  pub bounds : Feature → Box
  pub distance : Feature → ℕ

module _ {Feature : Type 0} (g : Geometry Feature)
    (sort : List (HilbertItem Feature g.Box) → List (HilbertItem Feature g.Box))
    (bucket_size : ℕ) where
  abbrev pub Item : Type 0
  Item = HilbertItem Feature g.Box

  abbrev pub Node : Type 0
  Node = Branch Feature g.Box

  abbrev pub bounds_of : Node → g.Box
  bounds_of (leaf b _) = b
  bounds_of (trunk b _ _) = b

  -- The loops of `createLeaf` and `createTrunk` go from the last child to the first.
  abbrev pub expand_features : List Item → g.Box
  expand_features [] = g.empty_box
  expand_features (i ∷ is) = g.expand (expand_features is) (g.bounds i.feature)

  abbrev pub expand_branches : List Node → g.Box
  expand_branches [] = g.empty_box
  expand_branches (b ∷ bs) = g.expand (expand_branches bs) (bounds_of b)

  abbrev pub chain : List Node → Branches Feature g.Box
  chain [] = nil
  chain (b ∷ bs) = cons b (chain bs)

  pub create_leaf : List Item → Node
  create_leaf items = leaf (expand_features items) (map (λ i. i.feature) items)

  -- The size of a trunk is 20 bytes for each child.
  pub create_trunk : List Node → Node
  create_trunk children = trunk (expand_branches children) (length children * 20) (chain children)

  -- The loop over the items or the branches of one level: full buckets, and a last one with the rest.
  pub chunks {ℓ} : {A : Type ℓ} → ℕ → (List A → Node) → List A → Option (List Node)
  chunks zero create xs = none
  chunks (suc fuel) create xs =
      let rest = chunks fuel create (drop bucket_size xs) in
      if leb (length xs) bucket_size
      then some (create xs ∷ [])
      else elim rest [ none ↦ none | some nodes ↦ some (create (take bucket_size xs) ∷ nodes) ]

  -- The loop over the levels, until there is one parent.
  pub build_levels : ℕ → List Node → Option Node
  build_levels zero nodes = none
  build_levels (suc fuel) nodes = elim (chunks (length nodes + 1) create_trunk nodes) [
    | none ↦ none
    | some [] ↦ none
    | some (parent ∷ []) ↦ some parent
    | some (p ∷ q ∷ more) ↦ build_levels fuel (p ∷ q ∷ more)
  ]

  abbrev pub item_of : Feature → Item
  item_of f = record { distance = g.distance f; feature = f }

  -- `build(firstFeature, count)`; the circular list is read from its first feature. `none` means
  -- that a loop has run out of rounds.
  pub build : List Feature → Option Node
  build features = elim (chunks (length features + 1) create_leaf (sort (map item_of features))) [
    | none ↦ none
    | some leaves ↦ build_levels (length leaves + 1) leaves
  ]
