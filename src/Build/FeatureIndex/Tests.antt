-- ===== src/Build/FeatureIndex/Tests.antt =====
-- A packed array of five-bit values.
use geodesk_gol.Prelude.{◌+◌, ◌-◌, ◌*◌, ◌/◌, ◌≤◌, ◌≡◌, refl, [], ◌∷◌, arith}
use geodesk_gol.Build.FeatureIndex.{
  calculate_mapping_size, access, init, get, put, flush, flush_atomic, put_all, end_batch,
  FeatureIndex,
}
use geodesk_gol.Build.FeatureIndex.Batch.{or_all, batch_implements_or_all}
use geodesk_gol.Build.FeatureIndex.Mapping.{access-IsMapped}

abbrev written : FeatureIndex
written = end_batch (put_all ((11, 7) ∷ (12, 21) ∷ (13, 3) ∷ (40, 9) ∷ []) (init (λ p. 0) 100 5))

-- The slot of id 12 straddles the first two words.
round_trip :
    (get 11 written ≡ 7)
    × (get 12 written ≡ 21)
    × (get 13 written ≡ 3)
    × (get 40 written ≡ 9)
    × (get 14 written ≡ 0)
unfolding get access put_all put flush flush_atomic end_batch
round_trip = (refl, refl, refl, refl, refl)

access-IsMapped_example :
    ((access 5 1000).cell + ((access 5 1000).bit_offset + 5 - 1) / 64 + 1) * 8
    ≤ calculate_mapping_size 1000 5
access-IsMapped_example = access-IsMapped 5 1000 1000 (omega arith) (omega arith) (omega arith)

batch_implements_or_all_example :
    end_batch (put_all ((11, 7) ∷ (12, 21) ∷ (13, 3) ∷ []) (init (λ p. 0) 100 5))
    ≡ init (or_all 5 ((11, 7) ∷ (12, 21) ∷ (13, 3) ∷ []) (λ p. 0)) 100 5
batch_implements_or_all_example =
    batch_implements_or_all 100 5 (λ p. 0) 11 7 ((12, 21) ∷ (13, 3) ∷ []) (omega arith)
      (omega arith) (omega arith, (omega arith, tt)) (λ q h h'. refl)
