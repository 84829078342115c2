-- ===== src/Build/FeatureIndex/Mapping.antt =====
-- src/build/util/MappedIndex.cpp, calculateMappingSize: the size of the file and the words that an
-- id reaches.
use native.Mathlib.Nat.{
  mod-lt, mul-le-mul_left, mul-le-mul_right, div-add-mod, div-mul-le_self, le-div_iff_mul-le,
}
use geodesk_gol.Prelude.{
  ℕ, suc, ◌+◌, ◌-◌, ◌*◌, ◌/◌, ◌%◌, ◌≤◌, ◌<◌, ◌≡◌, ◌⊎◌, inl, inr, ap, ltb, ltb→lt, ltb→ge,
  Bool-cases, arith,
}
use geodesk_gol.Build.FeatureIndex.{slots_per_segment, calculate_mapping_size, access}

pub slots_bound : (w : ℕ) → slots_per_segment w * w ≤ 8589934592
slots_bound w = div-mul-le_self 8589934592 w

pub slots_pos : (w : ℕ) → 0 < w → w ≤ 64 → 0 < slots_per_segment w
slots_pos w p h = (le-div_iff_mul-le p).1 (omega arith)

-- Where a segment and a slot in it stand to the end of the last segment.
pub before_end :
    (s id m : ℕ)
    → 0 < s
    → id ≤ m
    → (id / s < (m + 1) / s) ⊎ ((id / s ≡ (m + 1) / s) × (id % s < (m + 1) % s))
before_end s id m p h = elim (Bool-cases (ltb (id / s) ((m + 1) / s))) [
  | inl before ↦ inl (ltb→lt (id / s) ((m + 1) / s) before)
  | inr after ↦ let ge = ltb→ge (id / s) ((m + 1) / s) after in inr (same ge, smaller ge)
]
  where
    no_later : (m + 1) / s ≤ id / s → id / s ≤ (m + 1) / s
    no_later after = elim (Bool-cases (ltb ((m + 1) / s) (id / s))) [
      | inl later ↦ absurd (contra (mul-le-mul_left s (ltb→lt ((m + 1) / s) (id / s) later)))
      | inr e ↦ ltb→ge ((m + 1) / s) (id / s) e
    ]
      where
        contra : s * suc ((m + 1) / s) ≤ s * (id / s) → ⊥
        contra k = omega (arith, k, div-add-mod id s, div-add-mod (m + 1) s, mod-lt (m + 1) p)

    same : (m + 1) / s ≤ id / s → id / s ≡ (m + 1) / s
    same after = omega (arith, after, no_later after)

    smaller : (m + 1) / s ≤ id / s → id % s < (m + 1) % s
    smaller after =
        omega (arith, ap (λ (t : ℕ). s * t) (same after), div-add-mod id s, div-add-mod (m + 1) s)

reached_full :
    (q last x w : ℕ)
    → q < last
    → x + w ≤ 8589934592
    → 0 < w
    → (134217728 * q + x / 64 + (x % 64 + w - 1) / 64 + 1) * 8 ≤ 1073741824 * last
reached_full q last x w = omega arith

reached_partial :
    (x w b : ℕ)
    → x + w ≤ b
    → 0 < w
    → (x / 64 + (x % 64 + w - 1) / 64 + 1) * 8 ≤ (b / 8 + 7 + 4096 - 1) / 4096 * 4096
reached_partial x w b = omega arith

-- For a value width of 1 to 64 bits and every id up to the largest one, the last word that holds a
-- bit of its slot ends within the bytes that the file is given. No word behind the mapping is read
-- or written, although the size is computed from whole bytes, rounded down.
pub access-IsMapped :
    (w max_id id : ℕ)
    → 0 < w
    → w ≤ 64
    → id ≤ max_id
    → ((access w id).cell + ((access w id).bit_offset + w - 1) / 64 + 1) * 8
      ≤ calculate_mapping_size max_id w
unfolding access calculate_mapping_size
access-IsMapped w max_id id p h le =
    let s = slots_per_segment w in
    let slot = id % s in
    let within : slot * w + w ≤ s * w =
      omega (arith, mul-le-mul_right w (mod-lt id (slots_pos w p h))) in
    elim (before_end s id max_id (slots_pos w p h) le) [
      | inl earlier ↦ omega (
        arith,
        reached_full (id / s) ((max_id + 1) / s) (slot * w) w earlier
            (omega (arith, within, slots_bound w)) p,
      )
      | inr (same, smaller) ↦ omega (
        arith,
        same,
        reached_partial (slot * w) w ((max_id + 1) % s * w)
            (omega (arith, mul-le-mul_right w smaller)) p,
      )
    ]
