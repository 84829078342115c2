-- ===== src/Build/TileIndexBuilder/Tests.antt =====
-- A root with two children, the first with a child of its own.
use geodesk_gol.Prelude.{
  ℕ, ◌+◌, ◌-◌, ◌*◌, ◌/◌, ◌%◌, ◌^◌, ◌≡◌, refl, false, ltb, Option, none, some, List, [], ◌∷◌, ◌==◌,
  if◌then◌else◌, arith,
}
use geodesk_gol.Build.TileIndexBuilder.{
  Grid, STile, Tier, Pass, write_at, create_tile, create_leaf_tiles, create_leaf_rows,
  create_leaf_row, add_parent_tiles, add_parent_tiers, add_parents, add_parent, trim_tiles,
  all_tiles, sum_tile_counts, clear_node_counts, link_child_tiles, link_tiers, link_children,
  link_child, Settings, Builder,
}
use geodesk_gol.Build.TileIndexBuilder.Pyramid.{parent_total, children_total, add_parents-total}
use geodesk_gol.Build.TileIndexBuilder.Tips.{assign_tip, assign_children}
use geodesk_gol.Build.TileIndexBuilder.Piles.{
  build_tile, build_children, open_pile, fill_grid, fill_row, fill_rows, build_arrays, blank_arrays,
  build_pyramid,
}
use geodesk_gol.Build.TileIndexBuilder.Piles.Preorder.{
  listed, preorder, Numbers, build_tile-preorder,
}

abbrev packed : ℕ → ℕ → ℕ → ℕ
packed col row zoom = zoom * 16777216 + row % 4096 * 4096 + col % 4096

abbrev grid : Grid
grid = record {
  from_column_row_zoom = packed;
  column = λ t. t % 4096;
  row = λ t. t / 4096 % 4096;
  zoom = λ t. t / 16777216;
  zoomed_out = λ t l.
      packed (t % 4096 / 2 ^ (t / 16777216 - l)) (t / 4096 % 4096 / 2 ^ (t / 16777216 - l)) l;
}

zoomed_out_zoom : (t l : ℕ) → grid.zoom (grid.zoomed_out t l) ≡ l
zoomed_out_zoom t l = omega arith

abbrev leaf : ℕ → STile
leaf n = create_tile 0 n

abbrev settings : Settings
settings = record {
  leaf_zoom_level = 2;
  max_tiles = 3;
  min_tile_density = 10;
  feature_piles_page_size = 4096;
}

abbrev tier : ℕ → Tier
tier zoom = record { tiles = []; tile_count = 0; level = zoom; skipped_levels = 0 }

abbrev blank : Builder
blank = record { heap = λ t. leaf 0; tiers = tier; tier_count = 3; tile_count = 0 }

-- 40 nodes in a corner of the grid, 20 in the opposite one and 3 beside them.
abbrev counts : ℕ → ℕ
counts cell = if cell == 0 then 40 else if cell == 15 then 20 else if cell == 14 then 3 else 0

-- A sort by selection, for three tiles and their parents.
abbrev insert : (ℕ → ℕ) → ℕ → List ℕ → List ℕ
insert key x [] = x ∷ []
insert key x (y ∷ ys) = if ltb (key x) (key y) then y ∷ insert key x ys else x ∷ y ∷ ys

abbrev sorted : (ℕ → ℕ) → List ℕ → List ℕ
sorted key [] = []
sorted key (x ∷ xs) = insert key x (sorted key xs)

-- The piles of the whole build: the root, the corner's tile and its parent.
built : Option (List ℕ)
unfolding build_pyramid build_arrays build_tile build_children open_pile fill_grid fill_row
    fill_rows assign_tip assign_children create_leaf_tiles create_leaf_rows create_leaf_row
    add_parent_tiles add_parent_tiers add_parents add_parent trim_tiles all_tiles sum_tile_counts
    clear_node_counts link_child_tiles link_tiers link_children link_child
built = elim (build_pyramid grid sorted settings counts blank) [
  | none ↦ none
  | some (b, a) ↦ some (listed a.pile_count 1 a.pile_to_tile)
]

built_piles : built ≡ some (packed 0 0 0 ∷ packed 0 0 1 ∷ packed 0 0 2 ∷ [])
unfolding built
built_piles = refl

abbrev pass : Pass
pass = record {
  heap = λ t. leaf (t % 16);
  parent_tier = tier 0;
  child_tier = tier 1;
  known = λ t. false;
}

add_parents-total_example :
    parent_total (add_parents grid 10 (packed 1 0 1 ∷ packed 1 1 1 ∷ []) pass) 0 % 2 ^ 64
    ≡ (parent_total pass 0
        + children_total grid 10 0 pass.heap (packed 1 0 1 ∷ packed 1 1 1 ∷ []) 0)
      % 2 ^ 64
add_parents-total_example =
    add_parents-total grid 10 (packed 1 0 1 ∷ packed 1 1 1 ∷ []) pass 0 zoomed_out_zoom
      ((λ e. absurd (omega arith)), ((λ e. absurd (omega arith)), tt)) refl

-- Tile 0 has the children 1 and 2, tile 1 the child 3.
abbrev linked : ℕ → STile
linked t =
    if t == 0
    then record (create_tile 4 63) {
      child_count = 2;
      children = write_at 3 (some 2) (write_at 0 (some 1) (λ i. none));
    }
    else if t == 1
    then record (create_tile 4 40) { child_count = 1; children = write_at 2 (some 3) (λ i. none) }
    else leaf 20

build_tile-preorder_example :
    Numbers blank_arrays
      (preorder grid 2 4096 linked (λ t. t) 3 0)
      (build_tile grid 2 4096 linked (λ t. t) 3 0 blank_arrays)
build_tile-preorder_example = build_tile-preorder grid 2 4096 linked (λ t. t) 3 0 blank_arrays
