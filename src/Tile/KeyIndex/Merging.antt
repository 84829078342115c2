-- ===== src/Tile/KeyIndex/Merging.antt =====
-- TIndex::build, the loop that merges the smallest roots into the one for several categories.
use geodesk_gol.Prelude.{
  ℕ, zero, suc, ◌+◌, ◌^◌, ◌<◌, ◌≡◌, ◌≢◌, refl, ◌∙◌, Option, List, [], ◌∷◌, length, arith,
}
use geodesk_gol.Tile.KeyIndex.{
  Index, Slot, after, update, multi_category, add, emptied, read, consolidate, merge_roots,
}
use geodesk_gol.Tile.KeyIndex.Counts.{feature_count-add}
use geodesk_gol.Tile.KeyIndex.Chain.{Chain, Lacks, IsDistinct, features_of}
use geodesk_gol.Tile.KeyIndex.Sorting.{below-Lacks, features_of-update}
use geodesk_gol.Tile.KeyIndex.Cutting.{Below}

module _ {Trunk : Type 0} where
  module _ (rtree : (ℕ → ℕ) → Option ℕ → ℕ → Option Trunk) where
    -- What merging does to a root and to the one for several.
    pub consolidate-counts :
        (r k : ℕ) (t : Index Trunk)
        → r ≢ k
        → k ≢ multi_category
        → ((consolidate rtree r t).roots k).feature_count ≡ (t.roots k).feature_count
    unfolding consolidate
    consolidate-counts r k t nr nm = ground (arith, nr, nm)

    pub consolidate-multi :
        (r : ℕ) (t : Index Trunk)
        → r < multi_category
        → (t.roots multi_category).feature_count + (t.roots r).feature_count < 2 ^ 32
        → ((consolidate rtree r t).roots multi_category).feature_count
          ≡ (t.roots multi_category).feature_count + (t.roots r).feature_count
    unfolding consolidate
    consolidate-multi r t h small =
        ground (arith, feature_count-add (t.roots multi_category) (t.roots r) small)

    pub consolidate-features :
        (r : ℕ) (os : List ℕ) (t : Index Trunk)
        → Lacks os r
        → Below os
        → features_of (consolidate rtree r t).roots os ≡ features_of t.roots os
    unfolding consolidate
    consolidate-features r os t l b =
        let sum = add (t.roots multi_category) (t.roots r) in
        features_of-update (update t.roots multi_category sum) r (emptied (t.roots r)) os l
        ∙ features_of-update t.roots multi_category sum os
            (below-Lacks multi_category multi_category os (omega arith) b)

    -- The features of the roots of a list are those of the root for several, in addition to its own.
    pub record IsMerged (os : List ℕ) (t t' : Index Trunk) : Type 0 where
      pub links : t'.next_root ≡ t.next_root
      pub start : t'.first_root ≡ t.first_root
      pub grown :
          (t'.roots multi_category).feature_count
          ≡ (t.roots multi_category).feature_count + features_of t.roots os
      pub others :
          (k : ℕ)
          → k < multi_category
          → Lacks os k
          → (t'.roots k).feature_count ≡ (t.roots k).feature_count

    pub merge_roots-IsMerged :
        (n : ℕ) (s : Slot) (os : List ℕ) (t : Index Trunk)
        → length os ≡ n
        → IsDistinct os
        → Below os
        → (t.roots multi_category).feature_count + features_of t.roots os < 2 ^ 32
        → Chain t.next_root (read rtree s t) os
        → IsMerged os t (merge_roots rtree n s t)
    unfolding merge_roots
    merge_roots-IsMerged zero s [] t e d b small c = record {
      links = refl;
      start = refl;
      grown = omega arith;
      others = λ k h l. refl;
    }
    merge_roots-IsMerged zero s (r ∷ rs) t e d b small c = absurd (omega (arith, e))
    merge_roots-IsMerged (suc n) s [] t e d b small c = absurd (omega (arith, e))
    merge_roots-IsMerged (suc n) s (r ∷ rs) t e d b small c =
        let multi = consolidate-multi r t b.0 (omega (arith, small)) in
        let same = consolidate-features r rs t d.0 b.1 in
        let m =
          merge_roots-IsMerged n (after r) rs (consolidate rtree r t) (omega (arith, e)) d.1 b.1
            (omega (arith, multi, same, small)) (unfold consolidate in c.1) in
        rw (merge_roots, c.0)
          (record {
            links = m.links ∙ (unfold consolidate in refl);
            start = m.start ∙ (unfold consolidate in refl);
            grown = let g = m.grown in omega (arith, g, multi, same);
            others =
                λ k h l. m.others k h l.1 ∙ consolidate-counts r k t l.0 (λ q. omega (arith, h, q));
          })
