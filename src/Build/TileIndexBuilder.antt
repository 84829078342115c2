-- ===== src/Build/TileIndexBuilder.antt =====
-- src/build/analyze/TileIndexBuilder.h and .cpp: the tile pyramid from a table of node counts.
-- `geodesk::Tile` is not in the repository: a tile is its 32-bit value and `Grid` its operations. A
-- pointer to an `STile` is the tile it holds, since no tile is made twice; its field `tip` is a map
-- of its own, and the links from tile to tile within a tier are a list. The assertions do not run
-- in a release build.
mod Tests
pub mod Pyramid
pub mod Tips
pub mod Piles
use geodesk_gol.Prelude.{
  ℕ, zero, suc, ◌+◌, ◌-◌, ◌*◌, ◌/◌, ◌%◌, ◌^◌, max, Bool, Option, none, some, List, [], ◌∷◌, ◌++◌,
  take, drop, ltb, ◌==◌, not, if◌then◌else◌,
}

-- What the code calls of `geodesk::Tile`.
pub record Grid : Type 0 where
  pub from_column_row_zoom : ℕ → ℕ → ℕ → ℕ
  pub column : ℕ → ℕ
  pub row : ℕ → ℕ
  pub zoom : ℕ → ℕ
  pub zoomed_out : ℕ → ℕ → ℕ

pub record STile : Type 0 where
  pub max_child_count : ℕ
  pub child_count : ℕ
  pub total_node_count : ℕ
  pub estimated_tile_size : ℕ
  pub parent : Option ℕ
  pub children : ℕ → Option ℕ

pub record Tier : Type 0 where
  pub tiles : List ℕ
  pub tile_count : ℕ
  pub level : ℕ
  pub skipped_levels : ℕ

pub record Settings : Type 0 where
  pub leaf_zoom_level : ℕ
  pub max_tiles : ℕ
  pub min_tile_density : ℕ
  pub feature_piles_page_size : ℕ

pub record Builder : Type 0 where
  pub heap : ℕ → STile
  pub tiers : ℕ → Tier
  pub tier_count : ℕ
  pub tile_count : ℕ

abbrev pub write_at {ℓ} : {A : Type ℓ} → ℕ → A → (ℕ → A) → ℕ → A
write_at p v f q = if p == q then v else f q

abbrev pub estimated_bytes_per_node : ℕ
estimated_bytes_per_node = 10

abbrev pub estimated_child_bytes_per_parent_byte : ℕ
estimated_child_bytes_per_parent_byte = 2 ^ 14

-- `Tier::maxChildCount`
abbrev pub max_child_count_of : Tier → ℕ
max_child_count_of tier = 2 ^ ((tier.skipped_levels + 1) * 2)

-- `Tier::addTile`
abbrev pub add_tile : ℕ → Tier → Tier
add_tile t tier = record tier {
  tiles = t ∷ tier.tiles;
  tile_count = (tier.tile_count + 1) % 2 ^ 32;
}

-- `Tier::clearTiles`
abbrev pub clear_tiles : Tier → Tier
clear_tiles tier = record tier { tiles = []; tile_count = 0 }

abbrev pub create_tile : ℕ → ℕ → STile
create_tile max_child_count node_count = record {
  max_child_count = max_child_count;
  child_count = 0;
  total_node_count = node_count;
  estimated_tile_size = (node_count * estimated_bytes_per_node + 32) % 2 ^ 64;
  parent = none;
  children = λ i. none;
}

-- The constructor: the tiers of the zoom levels, each with the levels skipped after it.
pub init_tiers : List (ℕ × ℕ) → ℕ → (ℕ → Tier) → ℕ × (ℕ → Tier)
init_tiers [] n tiers = (n, tiers)
init_tiers ((zoom, skipped) ∷ levels) n tiers = init_tiers levels (n + 1) (
    write_at n (record { tiles = []; tile_count = 0; level = zoom; skipped_levels = skipped })
      tiers)

-- `sumTileCounts`
pub sum_tile_counts : ℕ → (ℕ → Tier) → ℕ
sum_tile_counts zero tiers = 0
sum_tile_counts (suc n) tiers = (sum_tile_counts n tiers + (tiers n).tile_count) % 2 ^ 32

-- The heap, the parent tier and the child tier within a pass over the child tier.
pub record Pass : Type 0 where
  pub heap : ℕ → STile
  pub parent_tier : Tier
  pub child_tier : Tier
  pub known : ℕ → Bool

abbrev pub on_tile : ℕ → (STile → STile) → (ℕ → STile) → ℕ → STile
on_tile t f heap = write_at t (f (heap t)) heap

abbrev pub add_size : ℕ → STile → STile
add_size n pt = record pt { estimated_tile_size = (pt.estimated_tile_size + n) % 2 ^ 64 }

module _ (grid : Grid) where
  -- The inner loop of `createLeafTiles`: `n` columns of a row.
  pub create_leaf_row : (ℕ → ℕ) → ℕ → ℕ → ℕ → ℕ → (ℕ → STile) × Tier → (ℕ → STile) × Tier
  create_leaf_row counts zoom row zero col s = s
  create_leaf_row counts zoom row (suc n) col (heap, tier) =
      let node_count = counts (row * 2 ^ zoom + col) in
      let tile = grid.from_column_row_zoom col row zoom in
      create_leaf_row counts zoom row n (col + 1) (
        if node_count == 0
        then (heap, tier)
        else (write_at tile (create_tile 0 node_count) heap, add_tile tile tier))

  -- The outer loop: `n` rows.
  pub create_leaf_rows : (ℕ → ℕ) → ℕ → ℕ → ℕ → (ℕ → STile) × Tier → (ℕ → STile) × Tier
  create_leaf_rows counts zoom zero row s = s
  create_leaf_rows counts zoom (suc n) row s =
      create_leaf_rows counts zoom n (row + 1) (create_leaf_row counts zoom row (2 ^ zoom) 0 s)

  -- The tier of the level of the leaves, an extra one where the pyramid does not include it.
  abbrev pub leaf_tier : ℕ → Builder → ℕ
  leaf_tier max_zoom b =
      if ltb (b.tiers (b.tier_count - 1)).level max_zoom then b.tier_count else b.tier_count - 1

  pub create_leaf_tiles : Settings → (ℕ → ℕ) → Builder → Builder
  create_leaf_tiles s counts b =
      let max_zoom = s.leaf_zoom_level in
      let i = leaf_tier max_zoom b in
      let tier = b.tiers i in
      let blank =
        if ltb (b.tiers (b.tier_count - 1)).level max_zoom
        then record tier { level = max_zoom; skipped_levels = 0 }
        else tier in
      let (heap, filled) =
        create_leaf_rows counts max_zoom (2 ^ max_zoom) 0 (b.heap, clear_tiles blank) in
      record b { heap = heap; tiers = write_at i filled b.tiers }

  -- The parent of a tile: found, or made and put into the parent tier.
  abbrev pub find_parent : ℕ → Pass → Pass
  find_parent parent_tile p = if p.known parent_tile then p else record p {
    heap = write_at parent_tile (create_tile (max_child_count_of p.parent_tier) 0) p.heap;
    parent_tier = add_tile parent_tile p.parent_tier;
    known = write_at parent_tile Bool.true p.known;
  }

  -- What the parent takes over from its child.
  abbrev pub absorb : STile → STile → STile
  absorb ct pt = record pt {
    total_node_count = (pt.total_node_count + ct.total_node_count) % 2 ^ 64;
    estimated_tile_size =
        (pt.estimated_tile_size + ct.estimated_tile_size / estimated_child_bytes_per_parent_byte)
        % 2 ^ 64;
  }

  -- One round of the loop over the child tier in `addParentTiles`.
  pub add_parent : ℕ → ℕ → Pass → Pass
  add_parent min_tile_density ct p =
      let pt = grid.zoomed_out ct p.parent_tier.level in
      let found = find_parent pt p in
      let marked = on_tile ct (λ c. record c { parent = some pt }) found.heap in
      let absorbed = on_tile pt (absorb (marked ct)) marked in
      if ltb (absorbed ct).total_node_count min_tile_density
      then record found { heap = on_tile pt (add_size (absorbed ct).estimated_tile_size) absorbed }
      else record found { heap = absorbed; child_tier = add_tile ct found.child_tier }

  pub add_parents : ℕ → List ℕ → Pass → Pass
  add_parents min_tile_density [] p = p
  add_parents min_tile_density (ct ∷ cts) p =
      add_parents min_tile_density cts (add_parent min_tile_density ct p)

  -- The outer loop of `addParentTiles`, from tier `n` down to 1.
  pub add_parent_tiers : ℕ → ℕ → Builder → Builder
  add_parent_tiers min_tile_density zero b = b
  add_parent_tiers min_tile_density (suc i) b =
      let pass = add_parents min_tile_density (b.tiers (i + 1)).tiles (record {
        heap = b.heap;
        parent_tier = b.tiers i;
        child_tier = clear_tiles (b.tiers (i + 1));
        known = λ t. Bool.false;
      }) in
      add_parent_tiers min_tile_density i (record b {
        heap = pass.heap;
        tiers = write_at i pass.parent_tier (write_at (i + 1) pass.child_tier b.tiers);
      })

  pub add_parent_tiles : Settings → Builder → Builder
  add_parent_tiles s b =
      add_parent_tiers s.min_tile_density (max (leaf_tier s.leaf_zoom_level b) 1) b

  -- The tiles of the tiers from `i` on, in the order of the array `pTiles`.
  pub all_tiles : ℕ → ℕ → (ℕ → Tier) → List ℕ
  all_tiles zero i tiers = []
  all_tiles (suc n) i tiers = (tiers i).tiles ++ all_tiles n (i + 1) tiers

  pub clear_node_counts : List ℕ → (ℕ → STile) → ℕ → STile
  clear_node_counts [] heap = heap
  clear_node_counts (t ∷ ts) heap =
      clear_node_counts ts (on_tile t (λ pt. record pt { total_node_count = 0 }) heap)

  -- `trimTiles`, with the sort of the standard library, by descending node count.
  pub trim_tiles : ((ℕ → ℕ) → List ℕ → List ℕ) → Settings → Builder → Builder
  trim_tiles sort s b =
      let tile_count = sum_tile_counts b.tier_count b.tiers in
      let sorted = sort (λ t. (b.heap t).total_node_count) (all_tiles b.tier_count 0 b.tiers) in
      if ltb s.max_tiles tile_count
      then record b {
        heap = clear_node_counts (drop s.max_tiles sorted) b.heap;
        tile_count = s.max_tiles;
      }
      else record b { tile_count = tile_count }

  -- The slot of a child among its parent's, row by row.
  abbrev pub child_pos : ℕ → ℕ → ℕ
  child_pos parent child =
      let step = grid.zoom child - grid.zoom parent in
      (grid.row child - grid.row parent * 2 ^ step) * 2 ^ step
      + (grid.column child - grid.column parent * 2 ^ step)

  -- `addChildTile`
  abbrev pub add_child_tile : ℕ → ℕ → (ℕ → STile) → ℕ → STile
  add_child_tile parent child = on_tile parent (λ pt. record pt {
    children = write_at (child_pos parent child) (some child) pt.children;
    child_count = pt.child_count + 1;
  })

  -- One round of the loop over a tier in `linkChildTiles`.
  pub link_child : ℕ → (ℕ → STile) × Tier → (ℕ → STile) × Tier
  link_child tile (heap, tier) = elim (heap tile).parent [
    | none ↦ (heap, tier)
    | some parent ↦
        let size = (heap tile).estimated_tile_size in
        if not ((heap tile).total_node_count == 0)
        then (add_child_tile parent tile heap, add_tile tile tier)
        else (
          on_tile parent (add_size (size + size / estimated_child_bytes_per_parent_byte)) heap,
          tier,
        )
  ]

  pub link_children : List ℕ → (ℕ → STile) × Tier → (ℕ → STile) × Tier
  link_children [] s = s
  link_children (t ∷ ts) s = link_children ts (link_child t s)

  -- The outer loop of `linkChildTiles`: `n` tiers from `i` on.
  pub link_tiers : ℕ → ℕ → Builder → Builder
  link_tiers zero i b = b
  link_tiers (suc n) i b =
      let (heap, tier) = link_children (b.tiers i).tiles (b.heap, clear_tiles (b.tiers i)) in
      link_tiers n (i + 1) (record b { heap = heap; tiers = write_at i tier b.tiers })

  pub link_child_tiles : Builder → Builder
  link_child_tiles b = link_tiers (b.tier_count - 1) 1 b
