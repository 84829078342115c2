-- ===== src/Build/TileIndexBuilder/Tips/Entries.antt =====
-- src/build/analyze/TileIndexBuilder.cpp, assignTip: which entry each tile gets.
use geodesk_gol.Prelude.{
  ℕ, zero, suc, ◌+◌, ◌≤◌, ◌≡◌, ◌≢◌, ◌⊎◌, Option, none, some, List, [], ◌∷◌, ◌++◌, ◌==◌,
  if◌then◌else◌,
}
use geodesk_gol.Build.TileIndexBuilder.{STile}
use geodesk_gol.Build.TileIndexBuilder.Tips.{header_size}
use geodesk_gol.Build.TileIndexBuilder.Tips.Words.{IsGiven}

module _ (heap : ℕ → STile) where
  -- The tiles in the slots of a list of slots, with those below them.
  abbrev pub below_slots : (ℕ → List ℕ) → (ℕ → Option ℕ) → ℕ → ℕ → List ℕ
  below_slots below children zero i = []
  below_slots below children (suc n) i = elim (children i) [
    | none ↦ below_slots below children n (i + 1)
    | some c ↦ below c ++ below_slots below children n (i + 1)
  ]

  -- A tile and the tiles below it.
  abbrev pub tiles_of : ℕ → ℕ → List ℕ
  tiles_of zero tile = tile ∷ []
  tiles_of (suc fuel) tile =
      if (heap tile).child_count == 0
      then tile ∷ []
      else tile ∷ below_slots (tiles_of fuel) (heap tile).children (heap tile).max_child_count 0

  -- The children in `n` slots from slot `i` on.
  abbrev pub occupied : (ℕ → Option ℕ) → ℕ → ℕ → ℕ
  occupied children zero i = 0
  occupied children (suc n) i = elim (children i) [
    | none ↦ occupied children n (i + 1)
    | some c ↦ 1 + occupied children n (i + 1)
  ]

  -- The fuel reaches the leaves below an inner tile, each inner tile with its children counted.
  abbrev pub IsPyramid : ℕ → ℕ → Type 0
  IsPyramid zero tile = ⊥
  IsPyramid (suc fuel) tile =
      ((heap tile).child_count ≢ 0)
      × ((heap tile).child_count ≡ occupied (heap tile).children (heap tile).max_child_count 0)
      × ((i c : ℕ) → (heap tile).children i ≡ some c → (heap c).child_count ≢ 0 → IsPyramid fuel c)

  -- The words that an entry needs for itself: a leaf one, an inner tile its header.
  abbrev pub own_words : ℕ → ℕ
  own_words c = if (heap c).child_count == 0 then 1 else header_size (heap c)

  -- Words from `lo` on and before `hi`.
  abbrev pub Within : ℕ → ℕ → ℕ → ℕ → Type 0
  Within lo hi v w = (lo ≤ v) × (v + w ≤ hi)

  -- Assigning the entries of the tiles of a list, from a free entry on.
  abbrev pub Assigns : List ℕ → ℕ → (ℕ → ℕ) → ℕ × (ℕ → ℕ) → Type 0
  Assigns xs tip before (next, after) =
      (tip ≤ next) × IsGiven own_words (Within tip next) xs before after

  -- In the loop the leaves take slots of the block, the others entries behind it.
  abbrev LoopEntry : ℕ → ℕ → ℕ → ℕ → ℕ → ℕ → Type 0
  LoopEntry child_tip count next_tip next v w =
      Within child_tip (child_tip + count) v w ⊎ Within next_tip next v w
