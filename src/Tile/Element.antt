-- ===== src/Tile/Element.antt =====
-- src/tile/model/TElement.h: a piece of a tile that is placed at a location.
use geodesk_gol.Prelude.{ℕ, zero, suc, ◌+◌, ◌-◌, ◌*◌, ◌/◌, ◌%◌, ◌^◌, ◌≤◌, ◌<◌, bit_and, ◌≡◌, arith}
use geodesk_gol.Prelude.Int.{ℤ}
use geodesk_gol.Prelude.Bits.{bit_and_step, bit_and_mask}
use native.Mathlib.Nat.{div-one, mod-one}

-- The fields that layout reads and writes. A location of 0 means not placed, and -1 that the
-- element is marked for placement.
pub record Element : Type 0 where
  pub handle : ℕ
  pub size : ℕ
  pub alignment : ℕ
  pub location : ℤ

-- `alignedLocation`, on the 32-bit patterns of its operands.
unfoldable pub aligned_location : Element → ℕ → ℕ
aligned_location e loc =
    bit_and ((loc + (2 ^ e.alignment - 1)) % 2 ^ 32) ((0xffff_ffff * 2 ^ e.alignment) % 2 ^ 32)

unfoldable pub set_location : Element → ℤ → Element
set_location e l = record e { location = l }

aligned_byte : (x : ℕ) → x < 2 ^ 32 → bit_and x 0xffff_ffff ≡ x
aligned_byte x h = omega (arith, bit_and_mask 32 x)

aligned_word : (x : ℕ) → x < 2 ^ 32 → bit_and x 0xffff_fffe ≡ x / 2 * 2
aligned_word x h = omega (arith, bit_and_step x 0xffff_fffe, bit_and_mask 31 (x / 2))

aligned_dword : (x : ℕ) → x < 2 ^ 32 → bit_and x 0xffff_fffc ≡ x / 4 * 4
aligned_dword x h = omega (
  arith,
  bit_and_step x 0xffff_fffc,
  bit_and_step (x / 2) 0x7fff_fffe,
  bit_and_mask 30 (x / 2 / 2),
)

aligned_qword : (x : ℕ) → x < 2 ^ 32 → bit_and x 0xffff_fff8 ≡ x / 8 * 8
aligned_qword x h = omega (
  arith,
  bit_and_step x 0xffff_fff8,
  bit_and_step (x / 2) 0x7fff_fffc,
  bit_and_step (x / 2 / 2) 0x3fff_fffe,
  bit_and_mask 29 (x / 2 / 2 / 2),
)

-- What `alignedLocation` means: round up to a multiple of 2 ^ alignment.
unfoldable pub round_up : ℕ → ℕ → ℕ
round_up a loc = (loc + (2 ^ a - 1)) / 2 ^ a * 2 ^ a

-- For a location from 0 to 2^31 and each of the four alignments, the sum and the mask of
-- `alignedLocation` round up to a multiple of 2 ^ alignment.
pub aligned_location-round_up :
    (e : Element) (loc a : ℕ)
    → e.alignment ≡ a
    → a < 4
    → loc < 2 ^ 31
    → aligned_location e loc ≡ round_up a loc
unfolding aligned_location round_up
aligned_location-round_up e loc zero q h b =
    rw q (omega (arith, aligned_byte ((loc + (2 ^ 0 - 1)) % 2 ^ 32), div-one (loc + (2 ^ 0 - 1))))
aligned_location-round_up e loc (suc zero) q h b =
    rw q (omega (arith, aligned_word ((loc + (2 ^ 1 - 1)) % 2 ^ 32)))
aligned_location-round_up e loc (suc (suc zero)) q h b =
    rw q (omega (arith, aligned_dword ((loc + (2 ^ 2 - 1)) % 2 ^ 32)))
aligned_location-round_up e loc (suc (suc (suc zero))) q h b =
    rw q (omega (arith, aligned_qword ((loc + (2 ^ 3 - 1)) % 2 ^ 32)))
aligned_location-round_up e loc (suc (suc (suc (suc a)))) q h b = absurd (omega arith)

pub round_up_bounds :
    (a loc : ℕ)
    → a < 4
    → (loc ≤ round_up a loc) × (round_up a loc ≤ loc + 7) × (round_up a loc % 2 ^ a ≡ 0)
unfolding round_up
round_up_bounds zero loc h = omega (arith, div-one (loc + (2 ^ 0 - 1)), mod-one (round_up 0 loc))
round_up_bounds (suc zero) loc h = omega arith
round_up_bounds (suc (suc zero)) loc h = omega arith
round_up_bounds (suc (suc (suc zero))) loc h = omega arith
round_up_bounds (suc (suc (suc (suc a)))) loc h = absurd (omega arith)
