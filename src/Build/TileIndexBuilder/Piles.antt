-- ===== src/Build/TileIndexBuilder/Piles.antt =====
-- src/build/analyze/TileIndexBuilder.cpp, buildTile, fillGrid and build: the arrays the builder leaves,
-- from the linked tiles. An array is a map; the recursion is as deep as the pyramid, which the fuel
-- bounds.
pub mod Preorder
use geodesk_gol.Prelude.{
  ℕ, zero, suc, ◌+◌, ◌-◌, ◌*◌, ◌/◌, ◌%◌, ◌^◌, max, bit_or, ◌≡◌, inl, inr, Option, none, some, List,
  [], ◌∷◌, ◌++◌, length, ◌==◌, if◌then◌else◌, Bool-cases, Option-cases, arith,
}
use geodesk_gol.Build.TileIndexBuilder.{
  Grid, STile, Builder, Settings, write_at, create_leaf_tiles, add_parent_tiles, trim_tiles,
  link_child_tiles,
}
use geodesk_gol.Build.TileIndexBuilder.Tips.{assign_tip}

pub record Arrays : Type 0 where
  pub tile_index : ℕ → ℕ
  pub tip_to_pile : ℕ → ℕ
  pub pile_to_tile : ℕ → ℕ
  pub pile_to_tip : ℕ → ℕ
  pub tile_size_estimates : ℕ → ℕ
  pub cell_to_pile : ℕ → ℕ
  pub pile_count : ℕ

abbrev pub blank_arrays : Arrays
blank_arrays = record {
  tile_index = λ i. 0;
  tip_to_pile = λ i. 0;
  pile_to_tile = λ i. 0;
  pile_to_tip = λ i. 0;
  tile_size_estimates = λ i. 0;
  cell_to_pile = λ i. 0;
  pile_count = 0;
}

-- `Bits::countTrailingZerosInNonZero`, on at most `n` bits.
abbrev pub trailing_zeros : ℕ → ℕ → ℕ
trailing_zeros zero x = 0
trailing_zeros (suc n) x = if x % 2 == 0 then suc (trailing_zeros n (x / 2)) else 0

-- The columns of a row of cells, then the rows.
unfoldable pub fill_row : ℕ → ℕ → ℕ → ℕ → ℕ → (ℕ → ℕ) → ℕ → ℕ
fill_row max_zoom pile row zero col cells = cells
fill_row max_zoom pile row (suc n) col cells =
    fill_row max_zoom pile row n (col + 1) (write_at (row * 2 ^ max_zoom + col) pile cells)

unfoldable pub fill_rows : ℕ → ℕ → ℕ → ℕ → ℕ → ℕ → (ℕ → ℕ) → ℕ → ℕ
fill_rows max_zoom pile left extent zero row cells = cells
fill_rows max_zoom pile left extent (suc n) row cells =
    fill_rows max_zoom pile left extent n (row + 1) (fill_row max_zoom pile row extent left cells)

module _ (grid : Grid) (max_zoom page_size : ℕ) (heap : ℕ → STile) (tips : ℕ → ℕ) where
  unfoldable pub fill_grid : ℕ → ℕ → Arrays → Arrays
  fill_grid tile pile a =
      let extent = 2 ^ (max_zoom - grid.zoom tile) in
      record a {
        cell_to_pile =
            fill_rows max_zoom pile (grid.column tile * extent) extent extent
              (grid.row tile * extent) a.cell_to_pile;
      }

  -- The next pile, its tile, its tip and the pages it is estimated to take.
  unfoldable pub open_pile : ℕ → Arrays → Arrays
  open_pile tile a =
      let pile = a.pile_count + 1 in
      let pages = (((heap tile).estimated_tile_size + page_size - 1) / page_size) % 2 ^ 32 in
      let sized = write_at pile pages a.tile_size_estimates in
      record a {
        pile_count = pile;
        tip_to_pile = write_at (tips tile) pile a.tip_to_pile;
        pile_to_tile = write_at pile tile a.pile_to_tile;
        pile_to_tip = write_at pile (tips tile) a.pile_to_tip;
        tile_size_estimates = write_at 0 ((sized 0 + pages) % 2 ^ 32) sized;
      }

  abbrev pub put_entry : ℕ → ℕ → Arrays → Arrays
  put_entry i v a = record a { tile_index = write_at i v a.tile_index }

  -- The entry for a child in the slot `slot`: the distance to its block, and the branch flag.
  abbrev pub branch_entry : ℕ → ℕ → ℕ
  branch_entry slot child = bit_or (((tips child + 2 ^ 32 - slot) * 4) % 2 ^ 32) 1

  -- The cells of a missing child belong to the pile of the parent.
  abbrev pub missing_child : ℕ → ℕ → ℕ → ℕ
  missing_child tile step i =
      grid.from_column_row_zoom (grid.column tile * 2 ^ step + i % 2 ^ step)
        (grid.row tile * 2 ^ step + i / 2 ^ step) (grid.zoom tile + step)

  -- The loop over the `n` slots of a tile from slot `i` on, with the child mask so far.
  unfoldable pub build_children :
      (ℕ → Arrays → Arrays) → ℕ → ℕ → ℕ → (ℕ → Option ℕ) → ℕ → ℕ → ℕ → ℕ → Arrays → ℕ × Arrays
  build_children visit tile pile step children zero i child_tip mask a = (mask, a)
  build_children visit tile pile step children (suc n) i child_tip mask a = elim (children i) [
    | none ↦
        build_children visit tile pile step children n (i + 1) child_tip mask
          (fill_grid (missing_child tile step i) pile a)
    | some c ↦
        build_children visit tile pile step children n (i + 1) (child_tip + 1) (bit_or mask (2 ^ i))
          (visit c (put_entry child_tip (branch_entry child_tip c) a))
  ]

  -- The child mask behind a tile's own entry: one word, or two where there may be 64 children.
  abbrev pub put_mask : ℕ → ℕ → ℕ → Arrays → Arrays
  put_mask tip step mask a =
      let low = put_entry (tip + 1) (mask % 2 ^ 32) a in
      if step == 3 then put_entry (tip + 2) ((mask / 2 ^ 32) % 2 ^ 32) low else low

  -- `buildTile`
  unfoldable pub build_tile : ℕ → ℕ → Arrays → Arrays
  build_tile zero tile a = a
  build_tile (suc fuel) tile a =
      let t = heap tile in
      let started = put_entry (tips tile) 0 (open_pile tile a) in
      let step = trailing_zeros 32 t.max_child_count / 2 in
      let (mask, below) =
        build_children (build_tile fuel) tile started.pile_count step t.children t.max_child_count 0
          (tips tile + (if step == 3 then 3 else 2)) 0 started in
      if t.child_count == 0
      then fill_grid tile started.pile_count started
      else put_mask (tips tile) step mask below

-- What `build` does with the linked tiles of the first tier, `depth` tiers deep.
unfoldable pub build_arrays : Grid → Settings → ℕ → ℕ → Builder → Arrays
build_arrays grid s depth root b =
    let (end, tips) = assign_tip b.heap depth root 1 (λ t. 0) in
    let tip_count = max end 4 in
    let started = record blank_arrays { tile_index = write_at 0 (tip_count - 1) (λ i. 0) } in
    let a =
      build_tile grid s.leaf_zoom_level s.feature_piles_page_size b.heap tips depth root started in
    if b.tile_count == 1
    then record a { tile_index = write_at 3 0 (write_at 2 0 a.tile_index) }
    else a

-- `build`: the tiles, their parents, the largest of them, the links, and the arrays.
unfoldable pub build_pyramid :
    Grid → ((ℕ → ℕ) → List ℕ → List ℕ) → Settings → (ℕ → ℕ) → Builder → Option (Builder × Arrays)
build_pyramid grid sort s counts b =
    let linked =
      link_child_tiles grid
        (trim_tiles grid sort s (add_parent_tiles grid s (create_leaf_tiles grid s counts b))) in
    elim (linked.tiers 0).tiles [
      | [] ↦ none
      | root ∷ rest ↦ some (linked, build_arrays grid s (linked.tier_count + 1) root linked)
    ]
