-- ===== src/Prelude/Bits.antt =====
-- The bit operations at variables: one equation for the lowest digit, then masks and packed fields.
use Prim.Native.Nat.{
  ℕ, zero, suc, ◌+◌, ◌-◌, ◌*◌, ◌/◌, ◌%◌, ◌^◌, ◌≤◌, ◌<◌, min, max, bit_and, bit_or, digits, bitwise,
  bit_and-bitwise, bit_or-bitwise,
}
use mathlib.Core.Path.{◌≡◌, refl, ap, ◌∙◌}
use geodesk_gol.Prelude.Tests.{leb, leb→le, leb→gt, Bool-cases}
use mathlib.Core.Logic.{inl, inr}
use native.Mathlib.Nat.{pow-suc, div-one, mod-one, div-div-eq-div-mul}
use native.Mathlib.Omega.{arith}

-- The native operations stand for a recursion on fuel, one unit for each digit. A unit more than
-- enough changes nothing, so the fuel may be cut down to the number itself.
module _ (rest : ℕ → ℕ) (op : ℕ → ℕ → ℕ) where
  one_more : (k x y : ℕ) → x ≤ k → digits rest op (suc k) x y ≡ digits rest op k x y
  one_more k zero y h = at_zero k
    where
      at_zero : (k : ℕ) → digits rest op (suc k) zero y ≡ digits rest op k zero y
      at_zero zero = refl
      at_zero (suc k) = refl
  one_more zero (suc x) y h = absurd (omega arith)
  one_more (suc k) (suc x) y h =
      let halved = one_more k (suc x / 2) (y / 2) (omega arith) in
      ap (λ (high : ℕ). high * 2 + op (suc x % 2) (y % 2)) halved

  settled : (k x y : ℕ) → x ≤ k → digits rest op k x y ≡ bitwise rest op x y
  settled zero zero y h = refl
  settled zero (suc x) y h = absurd (omega arith)
  settled (suc k) x y h = elim (Bool-cases (leb x k)) [
    | inl less ↦ one_more k x y (leb→le x k less) ∙ settled k x y (leb→le x k less)
    | inr top ↦ let e : x ≡ suc k = omega (arith, leb→gt x k top) in rw e refl
  ]

  lowest_digit :
      (x y : ℕ)
      → bitwise rest op (suc x) y ≡ bitwise rest op (suc x / 2) (y / 2) * 2 + op (suc x % 2) (y % 2)
  lowest_digit x y =
      ap (λ (high : ℕ). high * 2 + op (suc x % 2) (y % 2))
        (settled x (suc x / 2) (y / 2) (omega arith))

pub bit_and_step : (x y : ℕ) → bit_and x y ≡ bit_and (x / 2) (y / 2) * 2 + min (x % 2) (y % 2)
bit_and_step zero y = simp bit_and-bitwise (omega arith)
bit_and_step (suc x) y = simp bit_and-bitwise (lowest_digit (λ high. 0) min x y)

pub bit_or_step : (x y : ℕ) → bit_or x y ≡ bit_or (x / 2) (y / 2) * 2 + max (x % 2) (y % 2)
bit_or_step zero y = simp bit_or-bitwise (omega arith)
bit_or_step (suc x) y = simp bit_or-bitwise (lowest_digit (λ high. high) max x y)

-- Both operations with 0, halved until the number is 0 as well.
with_zero : (bound x : ℕ) → x ≤ bound → (bit_or x 0 ≡ x) × (bit_and x 0 ≡ 0)
with_zero bound zero h = (refl, refl)
with_zero zero (suc x) h = absurd (omega arith)
with_zero (suc bound) (suc x) h =
    let (kept, cleared) = with_zero bound (suc x / 2) (omega arith) in
    (omega (arith, kept, bit_or_step (suc x) 0), omega (arith, cleared, bit_and_step (suc x) 0))

pub bit_or-zero : (x : ℕ) → bit_or x 0 ≡ x
bit_or-zero x = (with_zero x x (omega arith)).0

pub bit_and-zero : (x : ℕ) → bit_and x 0 ≡ 0
bit_and-zero x = (with_zero x x (omega arith)).1

pub pow2_suc : (k : ℕ) → 2 ^ suc k ≡ 2 * 2 ^ k
pow2_suc k = omega (arith, pow-suc 2 k)

pub pow2_pos : (k : ℕ) → 0 < 2 ^ k
pow2_pos zero = omega arith
pow2_pos (suc k) = omega (arith, pow2_suc k, pow2_pos k)

mod_double : (x m : ℕ) → 0 < m → x % (2 * m) ≡ (x / 2 % m) * 2 + x % 2
mod_double x m h = grind arith

-- x & (2^k - 1) keeps the low k bits.
pub bit_and_mask : (k x : ℕ) → bit_and x (2 ^ k - 1) ≡ x % 2 ^ k
bit_and_mask zero x = omega (arith, bit_and-zero x)
bit_and_mask (suc k) x =
    let half : (2 ^ suc k - 1) / 2 ≡ 2 ^ k - 1 = omega (arith, pow2_suc k, pow2_pos k) in
    let low : (2 ^ suc k - 1) % 2 ≡ 1 = omega (arith, pow2_suc k, pow2_pos k) in
    let step : bit_and (x / 2) ((2 ^ suc k - 1) / 2) ≡ x / 2 % 2 ^ k =
      rw half (bit_and_mask k (x / 2)) in
    let double : x % 2 ^ suc k ≡ (x / 2 % 2 ^ k) * 2 + x % 2 =
      rw (pow2_suc k) (mod_double x (2 ^ k) (pow2_pos k)) in
    omega (arith, bit_and_step x (2 ^ suc k - 1))

-- Fields that do not overlap: `|` is `+`.
pub bit_or_fields : (k a b : ℕ) → b < 2 ^ k → bit_or (a * 2 ^ k) b ≡ a * 2 ^ k + b
bit_or_fields zero a zero h = omega (arith, bit_or-zero (a * 2 ^ 0))
bit_or_fields zero a (suc b) h = absurd (omega arith)
bit_or_fields (suc k) a b h =
    let half : (a * 2 ^ suc k) / 2 ≡ a * 2 ^ k =
      omega (arith, ap (λ (t : ℕ). a * t) (pow2_suc k)) in
    let low : (a * 2 ^ suc k) % 2 ≡ 0 = omega (arith, ap (λ (t : ℕ). a * t) (pow2_suc k)) in
    let step : bit_or ((a * 2 ^ suc k) / 2) (b / 2) ≡ a * 2 ^ k + b / 2 =
      rw half (bit_or_fields k a (b / 2) (omega (arith, pow2_suc k))) in
    omega (arith, bit_or_step (a * 2 ^ suc k) b, ap (λ (t : ℕ). a * t) (pow2_suc k))

-- A shift to the right passes through `|`.
pub bit_or_shift : (k a b : ℕ) → bit_or a b / 2 ^ k ≡ bit_or (a / 2 ^ k) (b / 2 ^ k)
bit_or_shift zero a b = rw (div-one (bit_or a b), div-one a, div-one b) refl
bit_or_shift (suc k) a b =
    let half : bit_or a b / 2 ≡ bit_or (a / 2) (b / 2) = omega (arith, bit_or_step a b) in
    let nest = λ (x : ℕ). div-div-eq-div-mul x 2 (2 ^ k) in
    rw (pow2_suc k, ← nest (bit_or a b), ← nest a, ← nest b, half) (bit_or_shift k (a / 2) (b / 2))

-- The low bits pass through `|`.
pub bit_or_low : (k a b : ℕ) → bit_or a b % 2 ^ k ≡ bit_or (a % 2 ^ k) (b % 2 ^ k)
bit_or_low zero a b = rw (mod-one (bit_or a b), mod-one a, mod-one b) refl
bit_or_low (suc k) a b =
    let half : bit_or a b / 2 ≡ bit_or (a / 2) (b / 2) = omega (arith, bit_or_step a b) in
    let split = λ (x : ℕ). mod_double x (2 ^ k) (pow2_pos k) in
    let low = bit_or_low k (a / 2) (b / 2) in
    let join = bit_or_step (a % (2 * 2 ^ k)) (b % (2 * 2 ^ k)) in
    let a_half : a % (2 * 2 ^ k) / 2 ≡ a / 2 % 2 ^ k = omega (arith, split a) in
    let b_half : b % (2 * 2 ^ k) / 2 ≡ b / 2 % 2 ^ k = omega (arith, split b) in
    let join' : bit_or (a % (2 * 2 ^ k)) (b % (2 * 2 ^ k))
        ≡ bit_or (a / 2 % 2 ^ k) (b / 2 % 2 ^ k) * 2
          + max (a % (2 * 2 ^ k) % 2) (b % (2 * 2 ^ k) % 2) =
      rw (a_half, b_half) at join in
    let here : bit_or a b % (2 * 2 ^ k)
        ≡ bit_or (a / 2 % 2 ^ k) (b / 2 % 2 ^ k) * 2 + bit_or a b % 2 =
      split (bit_or a b) ∙ rw (half, low) refl in
    rw (pow2_suc k) (omega (arith, split a, split b, bit_or_step a b))

pub bit_or_ones : (k a : ℕ) → a < 2 ^ k → bit_or a (2 ^ k - 1) ≡ 2 ^ k - 1
bit_or_ones zero a h = let e : a ≡ 0 = omega arith in rw e refl
bit_or_ones (suc k) a h =
    let half : (2 ^ suc k - 1) / 2 ≡ 2 ^ k - 1 = omega (arith, pow2_suc k, pow2_pos k) in
    let ih : bit_or (a / 2) ((2 ^ suc k - 1) / 2) ≡ 2 ^ k - 1 =
      rw half (bit_or_ones k (a / 2) (omega (arith, pow2_suc k))) in
    omega (arith, bit_or_step a (2 ^ suc k - 1), pow2_suc k, pow2_pos k)

pub zero-bit_or : (y : ℕ) → bit_or 0 y ≡ y
zero-bit_or y = simp bit_or-bitwise refl

-- Regrouping `|`, halved until the first number is 0.
or_regrouped : (bound x y z : ℕ) → x ≤ bound → bit_or (bit_or x y) z ≡ bit_or x (bit_or y z)
or_regrouped bound zero y z h = rw (zero-bit_or y, zero-bit_or (bit_or y z)) refl
or_regrouped zero (suc x) y z h = absurd (omega arith)
or_regrouped (suc bound) (suc x) y z h =
    let half : bit_or (suc x) y / 2 ≡ bit_or (suc x / 2) (y / 2) =
      omega (arith, bit_or_step (suc x) y) in
    let half' : bit_or y z / 2 ≡ bit_or (y / 2) (z / 2) = omega (arith, bit_or_step y z) in
    let outer : bit_or (bit_or (suc x) y) z
        ≡ bit_or (bit_or (suc x / 2) (y / 2)) (z / 2) * 2 + max (bit_or (suc x) y % 2) (z % 2) =
      bit_or_step (bit_or (suc x) y) z ∙ rw half refl in
    let inner : bit_or (suc x) (bit_or y z)
        ≡ bit_or (suc x / 2) (bit_or (y / 2) (z / 2)) * 2 + max (suc x % 2) (bit_or y z % 2) =
      bit_or_step (suc x) (bit_or y z) ∙ rw half' refl in
    omega (
      arith,
      outer,
      inner,
      or_regrouped bound (suc x / 2) (y / 2) (z / 2) (omega arith),
      bit_or_step (suc x) y,
      bit_or_step y z,
    )

pub bit_or_assoc : (x y z : ℕ) → bit_or (bit_or x y) z ≡ bit_or x (bit_or y z)
bit_or_assoc x y z = or_regrouped x x y z (omega arith)
