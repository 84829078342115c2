-- ===== src/Tes/Wire.antt =====
-- The variable-length numbers of the clarisma library, which the writers and the reader use.
pub mod Leb
use geodesk_gol.Prelude.{ℕ, ◌^◌, ◌<◌, ◌≡◌, Option, some, List, [], ◌∷◌, ◌++◌}

-- A number below 2^64 is read back, whatever follows it, and 0 is the one byte that `writeByte(0)`
-- writes. `read` gives nothing where the source would read past the end.
pub record Varint : Type 0 where
  pub write : ℕ → List ℕ
  pub read : List ℕ → Option (ℕ × List ℕ)
  pub read-write : (v : ℕ) (rest : List ℕ) → v < 2 ^ 64 → read (write v ++ rest) ≡ some (v, rest)
  pub write_zero : write 0 ≡ 0 ∷ []
