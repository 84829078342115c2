-- ===== src/Build/NodeCountTable/Tests.antt =====
-- A grid of two columns and rows.
use geodesk_gol.Prelude.{ℕ, zero, suc, ◌+◌, ◌*◌, ◌/◌, ◌%◌, ◌≤◌, ◌<◌, ◌≡◌, refl, [], ◌∷◌, arith}
use geodesk_gol.Build.NodeCountTable.{Tiles, cleared, save, save_rows, save_columns, load}
use geodesk_gol.Build.NodeCountTable.RoundTrip.{load-save}

abbrev tiles : Tiles 2
tiles = record {
  of_column_row = λ c r. r * 2 + c;
  column = λ t. t % 2;
  row = λ t. t / 2;
  column_of = λ c r h h'. omega (arith, h);
  row_of = λ c r h h'. omega (arith, h);
}

abbrev counts : ℕ → ℕ
counts zero = 5
counts (suc zero) = 0
counts (suc (suc n)) = 9

saved :
    save 2 tiles counts
    ≡ record { tile = 0; count = 5 }
      ∷ record { tile = 2; count = 9 }
      ∷ record { tile = 3; count = 9 }
      ∷ []
unfolding save save_rows save_columns
saved = refl

load-save_example :
    ((i : ℕ) → i < 4 → load 2 tiles (save 2 tiles counts) cleared i ≡ counts i)
    × ((i : ℕ) → 4 ≤ i → load 2 tiles (save 2 tiles counts) cleared i ≡ 0)
load-save_example = load-save 2 tiles counts
