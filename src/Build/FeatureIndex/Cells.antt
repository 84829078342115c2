-- ===== src/Build/FeatureIndex/Cells.antt =====
-- src/build/sort/FastFeatureIndex.cpp, access: the words of ascending ids.
use native.Mathlib.Nat.{mod-lt, mul-le-mul_right}
use native.Mathlib.Numerals.{unary_clauses}
use geodesk_gol.Prelude.{
  ℕ, zero, suc, ◌+◌, ◌-◌, ◌*◌, ◌/◌, ◌%◌, ◌≤◌, ◌<◌, ◌≡◌, ◌⊎◌, inl, inr, ltb, ltb→lt, Bool-cases,
  List, [], ◌∷◌, if◌then◌else◌, arith,
}
use geodesk_gol.Build.FeatureIndex.{access, slots_per_segment}
use geodesk_gol.Build.FeatureIndex.Mapping.{slots_bound, slots_pos, before_end}

-- The last word of a slot.
abbrev pub last_cell : ℕ → ℕ → ℕ
last_cell w id =
    let ref = access w id in if ltb 0 (ref.bit_offset + w - 64) then ref.cell + 1 else ref.cell

abbrev pub last_id : ℕ → List (ℕ × ℕ) → ℕ
last_id id [] = id
last_id id ((next, pile) ∷ entries) = last_id next entries

-- The ids of a batch ascend.
abbrev pub Ascending : ℕ → List (ℕ × ℕ) → Type 0
Ascending id [] = Unit
Ascending id ((next, pile) ∷ entries) = (id < next) × Ascending next entries

order_of : (s a b : ℕ) → 0 < s → a < b → (a / s < b / s) ⊎ ((a / s ≡ b / s) × (a % s < b % s))
order_of s a zero p h = absurd (omega arith)
order_of s a (suc m) p h = simp unary_clauses at (before_end s a m p (omega arith))

last_cell_bound :
    (w a : ℕ)
    → 0 < w
    → last_cell w a ≤ 134217728 * (a / slots_per_segment w) + (a % slots_per_segment w * w + w) / 64
unfolding access
last_cell_bound w a p =
    let slot = a % slots_per_segment w * w in
    elim (Bool-cases (ltb 0 (slot % 64 + w - 64))) [
      | inl over ↦ rw over (omega (arith, ltb→lt 0 (slot % 64 + w - 64) over))
      | inr e ↦ rw e (omega arith)
    ]

-- The first word of a slot is not before the last word of an earlier one.
pub cells_ascend : (w a b : ℕ) → 0 < w → w ≤ 64 → a < b → last_cell w a ≤ (access w b).cell
unfolding access
cells_ascend w a b p h lt =
    let s = slots_per_segment w in
    let within : a % s * w + w ≤ s * w =
      omega (arith, mul-le-mul_right w (mod-lt a (slots_pos w p h))) in
    elim (order_of s a b (slots_pos w p h) lt) [
      | inl earlier ↦ omega (arith, last_cell_bound w a p, within, slots_bound w, earlier)
      | inr (same, smaller) ↦ omega (arith, last_cell_bound w a p, same, mul-le-mul_right w smaller)
    ]

pub access-last_cell : (w a : ℕ) → (access w a).cell ≤ last_cell w a
access-last_cell w a = elim (Bool-cases (ltb 0 ((access w a).bit_offset + w - 64))) [
  | inl e ↦ rw e (omega arith)
  | inr e ↦ rw e (omega arith)
]

pub last_ascends :
    (w id : ℕ) (entries : List (ℕ × ℕ))
    → 0 < w
    → w ≤ 64
    → Ascending id entries
    → last_cell w id ≤ last_cell w (last_id id entries)
last_ascends w id [] p h asc = omega arith
last_ascends w id ((next, pile) ∷ entries) p h (lt, asc) = omega (
  arith,
  cells_ascend w id next p h lt,
  access-last_cell w next,
  last_ascends w next entries p h asc,
)
