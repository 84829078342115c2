-- ===== src/Build/TileIndexBuilder/Tips.antt =====
-- src/build/analyze/TileIndexBuilder.cpp, assignTip: the entries of the tile index given to the tiles.
-- The recursion is as deep as the pyramid, at most 13 tiers; the fuel bounds its depth.
pub mod Words
pub mod Entries
use geodesk_gol.Prelude.{
  ℕ, zero, suc, ◌+◌, ◌≡◌, inl, inr, Option, none, some, ◌==◌, if◌then◌else◌, Bool-cases,
  Option-cases, arith,
}
use geodesk_gol.Build.TileIndexBuilder.{STile, write_at}

-- The words of a tile's own entry, its child mask included.
abbrev pub header_size : STile → ℕ
header_size t = if t.max_child_count == 64 then 3 else 2

module _ (heap : ℕ → STile) where
  -- A tile with children gets a block of its own, a leaf the slot in its parent's block.
  abbrev pub assign_child : (ℕ → ℕ → (ℕ → ℕ) → ℕ × (ℕ → ℕ)) → ℕ → ℕ → ℕ → (ℕ → ℕ) → ℕ × (ℕ → ℕ)
  assign_child visit c child_tip next_tip tips =
      if (heap c).child_count == 0
      then (next_tip, write_at c child_tip tips)
      else visit c next_tip tips

  -- The loop over the `n` slots of a tile from slot `i` on.
  unfoldable pub assign_children :
      (ℕ → ℕ → (ℕ → ℕ) → ℕ × (ℕ → ℕ)) → (ℕ → Option ℕ) → ℕ → ℕ → ℕ → ℕ → (ℕ → ℕ) → ℕ × (ℕ → ℕ)
  assign_children visit children zero i child_tip next_tip tips = (next_tip, tips)
  assign_children visit children (suc n) i child_tip next_tip tips = elim (children i) [
    | none ↦ assign_children visit children n (i + 1) child_tip next_tip tips
    | some c ↦
        let (next, given) = assign_child visit c child_tip next_tip tips in
        assign_children visit children n (i + 1) (child_tip + 1) next given
  ]

  -- `assignTip`: the next free entry, and the entries given so far.
  unfoldable pub assign_tip : ℕ → ℕ → ℕ → (ℕ → ℕ) → ℕ × (ℕ → ℕ)
  assign_tip zero tile tip tips = (tip, tips)
  assign_tip (suc fuel) tile tip tips =
      let t = heap tile in
      let child_tip = tip + header_size t in
      assign_children (assign_tip fuel) t.children t.max_child_count 0 child_tip
        (child_tip + t.child_count) (write_at tile tip tips)
