-- ===== src/Tile/KeyIndex/Counts.antt =====
-- The numbers of features of the roots of TIndex, and what consolidating a root does to them.
use geodesk_gol.Prelude.{
  ℕ, zero, suc, ◌+◌, ◌^◌, ◌≤◌, ◌<◌, ◌≡◌, refl, ap, inl, inr, Option, ◌==◌, ==→eq, ==→ne, Bool-cases,
  arith,
}
use geodesk_gol.Tile.KeyIndex.{Root, Index, update, multi_category, add, emptied, consolidate}

module _ {Trunk : Type 0} where
  -- The features of the first `n` roots.
  unfoldable pub features_in : ℕ → (ℕ → Root Trunk) → ℕ
  features_in zero roots = 0
  features_in (suc n) roots = features_in n roots + (roots n).feature_count

  pub features_in-update_above :
      (n p : ℕ) (roots : ℕ → Root Trunk) (r : Root Trunk)
      → n ≤ p
      → features_in n (update roots p r) ≡ features_in n roots
  unfolding features_in
  features_in-update_above zero p roots r h = refl
  features_in-update_above (suc n) p roots r h =
      ground (arith, features_in-update_above n p roots r)

  features_in-update :
      (n p : ℕ) (roots : ℕ → Root Trunk) (r : Root Trunk)
      → p < n
      → features_in n (update roots p r) + (roots p).feature_count
        ≡ features_in n roots + r.feature_count
  unfolding features_in
  features_in-update zero p roots r h = absurd (omega arith)
  features_in-update (suc n) p roots r h = elim (Bool-cases (p == n)) [
    | inl here ↦
        let e = ==→eq p n here in
        rw here (
          omega (
            arith,
            features_in-update_above n p roots r (omega arith),
            ap (λ (k : ℕ). (roots k).feature_count) e,
          ))
    | inr below ↦
        let ne = ==→ne p n below in
        rw below (omega (arith, features_in-update n p roots r (omega arith)))
  ]

  pub features_in_last :
      (roots : ℕ → Root Trunk)
      → features_in (multi_category + 1) roots
        ≡ features_in multi_category roots + (roots multi_category).feature_count
  unfolding features_in
  features_in_last roots = refl

  -- The features of a tile's index, in all 32 roots.
  abbrev pub total : Index Trunk → ℕ
  total t = features_in (multi_category + 1) t.roots

  pub feature_count-add :
      (r other : Root Trunk)
      → r.feature_count + other.feature_count < 2 ^ 32
      → (add r other).feature_count ≡ r.feature_count + other.feature_count
  unfolding add
  feature_count-add r other h = ground arith

  pub feature_count-emptied : (other : Root Trunk) → (emptied other).feature_count ≡ 0
  feature_count-emptied other = ground arith

  pub features_in-le :
      (n p : ℕ) (roots : ℕ → Root Trunk) → p < n → (roots p).feature_count ≤ features_in n roots
  unfolding features_in
  features_in-le zero p roots h = absurd (omega arith)
  features_in-le (suc n) p roots h = elim (Bool-cases (p == n)) [
    | inl here ↦ omega (arith, ap (λ (k : ℕ). (roots k).feature_count) (==→eq p n here))
    | inr below ↦ let ne = ==→ne p n below in omega (arith, features_in-le n p roots (omega arith))
  ]

module _ {Trunk : Type 0} (rtree : (ℕ → ℕ) → Option ℕ → ℕ → Option Trunk) where
  pub total-consolidate :
      (i : ℕ) (t : Index Trunk)
      → i < multi_category
      → total t < 2 ^ 32
      → total (consolidate rtree i t) ≡ total t
  unfolding consolidate
  total-consolidate i t h small =
      let r = t.roots multi_category in
      let other = t.roots i in
      let mid = update t.roots multi_category (add r other) in
      let first_write =
        features_in-update (multi_category + 1) multi_category t.roots (add r other)
          (omega arith) in
      let second_write =
        features_in-update (multi_category + 1) i mid (emptied other) (omega arith) in
      let kept_other : (mid i).feature_count ≡ other.feature_count = ground arith in
      let sum : r.feature_count + other.feature_count ≤ total t =
        omega (arith, features_in_last t.roots, features_in-le multi_category i t.roots h) in
      omega (arith, feature_count-add r other (omega arith), feature_count-emptied other)
