-- ===== src/Build/NodeCountTable.antt =====
-- src/build/analyze/NodeCountTable.h and .cpp: the number of nodes in each cell of the grid.
-- The table is a map from the number of a cell to its count. The number of columns and rows is a
-- parameter, 4,096 in the source, and so are the tiles of the GeoDesk library.
pub mod RoundTrip
mod Tests
use geodesk_gol.Prelude.{
  ℕ, zero, suc, ◌+◌, ◌*◌, ◌%◌, ◌^◌, ◌<◌, ◌≡◌, List, [], ◌∷◌, ◌++◌, ltb, ◌==◌, if◌then◌else◌,
}
use geodesk_gol.Build.StringStatistics.{put_at}

-- What the table uses of tiles at the zoom level of the grid: the column and the row of a cell's tile.
pub record Tiles (extent : ℕ) : Type 0 where
  pub of_column_row : ℕ → ℕ → ℕ
  pub column : ℕ → ℕ
  pub row : ℕ → ℕ
  pub column_of : (c r : ℕ) → c < extent → r < extent → column (of_column_row c r) ≡ c
  pub row_of : (c r : ℕ) → c < extent → r < extent → row (of_column_row c r) ≡ r

pub record SavedCount : Type 0 where
  pub tile : ℕ
  pub count : ℕ

-- `clear`
abbrev pub cleared : ℕ → ℕ
cleared i = 0

-- `operator+=`, for a table that has counts of its own.
pub add_counts : ℕ → (ℕ → ℕ) → (ℕ → ℕ) → ℕ → ℕ
add_counts extent counts other i =
    if ltb i (extent * extent + 1) then (counts i + other i) % 2 ^ 32 else counts i

module _ (extent : ℕ) (t : Tiles extent) where
  abbrev pub cell : ℕ → ℕ → ℕ
  cell col row = row * extent + col

  -- The loops of `save`: the columns of a row from `col` on, and the rows from `row` on.
  unfoldable pub save_columns : ℕ → ℕ → ℕ → (ℕ → ℕ) → List SavedCount
  save_columns zero col row counts = []
  save_columns (suc n) col row counts =
      let count = counts (cell col row) in
      let rest = save_columns n (col + 1) row counts in
      if count == 0 then rest else record { tile = t.of_column_row col row; count = count } ∷ rest

  pub save_rows : ℕ → ℕ → (ℕ → ℕ) → List SavedCount
  save_rows zero row counts = []
  save_rows (suc n) row counts = save_columns extent 0 row counts ++ save_rows n (row + 1) counts

  -- `save`
  pub save : (ℕ → ℕ) → List SavedCount
  save counts = save_rows extent 0 counts

  -- `load`
  pub load : List SavedCount → (ℕ → ℕ) → ℕ → ℕ
  load [] counts = counts
  load (s ∷ saved) counts =
      load saved (put_at (cell (t.column s.tile) (t.row s.tile)) s.count counts)
