-- ===== src/Tile/KeyIndex/Sorting.antt =====
-- TIndex::build, the loop that sorts the roots: the chain that it makes, and what the chain holds.
use geodesk_gol.Prelude.{
  ℕ, zero, suc, ◌+◌, ◌^◌, ◌≤◌, ◌<◌, ◌≡◌, refl, sym, ap, ◌∙◌, inl, inr, Option, none, List, [], ◌∷◌,
  length, All, ltb, Bool-cases, arith,
}
use geodesk_gol.Tile.KeyIndex.{
  Root, Index, IndexSettings, first_slot, update, multi_category, consolidate, add, emptied,
  insert_root, sort_root, sort_roots,
}
use geodesk_gol.Tile.KeyIndex.Counts.{features_in, features_in-update_above, total-consolidate}
use geodesk_gol.Tile.KeyIndex.Chain.{
  Chain, Lacks, IsDistinct, ranked, features_of, features_of-ranked, length-ranked, All-ranked,
  IsDistinct-ranked, insert_root-Chain, insert_root-rest, insert_root-link,
}

pub below-Lacks : (i p : ℕ) (os : List ℕ) → i ≤ p → All (λ r. r < i) os → Lacks os p
below-Lacks i p [] h b = tt
below-Lacks i p (r ∷ rs) h b =
    ((λ e. let less = b.0 in omega (arith, less, e)), below-Lacks i p rs h b.1)

below-suc : (i : ℕ) (os : List ℕ) → All (λ r. r < i) os → All (λ r. r < suc i) os
below-suc i [] b = tt
below-suc i (r ∷ rs) b = (let less = b.0 in omega (arith, less), below-suc i rs b.1)

module _ {Trunk : Type 0} where
  -- The roots below category `i` are in the chain, or have no features.
  pub record IsSorting (n i : ℕ) (os : List ℕ) (t : Index Trunk) : Type 0 where
    pub chain : Chain t.next_root t.first_root os
    pub distinct : IsDistinct os
    pub below : All (λ r. r < i) os
    pub few : length os ≤ i
    pub counted : length os ≡ t.root_count
    pub unlinked : t.next_root multi_category ≡ none
    pub held : features_of t.roots os ≡ features_in i t.roots
    pub whole : features_in (multi_category + 1) t.roots ≡ n

  pub features_of-update :
      (roots : ℕ → Root Trunk) (p : ℕ) (q : Root Trunk) (os : List ℕ)
      → Lacks os p
      → features_of (update roots p q) os ≡ features_of roots os
  features_of-update roots p q [] h = refl
  features_of-update roots p q (r ∷ rs) h =
      let other : update roots p q r ≡ roots r = ground (arith, h.0) in
      rw other (ap (λ k. (roots r).feature_count + k) (features_of-update roots p q rs h.1))

  module _ (rtree : (ℕ → ℕ) → Option ℕ → ℕ → Option Trunk) where
    consolidate-IsSorting :
        (n i : ℕ) (os : List ℕ) (t : Index Trunk)
        → i < multi_category
        → n < 2 ^ 32
        → IsSorting n i os t
        → IsSorting n (suc i) os (consolidate rtree i t)
    consolidate-IsSorting n i os t h small k = record {
      chain = unfold consolidate in k.chain;
      distinct = k.distinct;
      below = below-suc i os k.below;
      few = let w = k.few in omega (arith, w);
      counted = unfold consolidate in k.counted;
      unlinked = unfold consolidate in k.unlinked;
      held = unfold consolidate features_in in same ∙ k.held ∙ omega (arith, above, gone);
      whole = total-consolidate rtree i t h (rw k.whole small) ∙ k.whole;
    }
      where
        m : ℕ → Root Trunk
        m = update t.roots multi_category (add (t.roots multi_category) (t.roots i))

        same : features_of (update m i (emptied (t.roots i))) os ≡ features_of t.roots os
        same =
            features_of-update m i (emptied (t.roots i)) os
              (below-Lacks i i os (omega arith) k.below)
            ∙ features_of-update t.roots multi_category (add (t.roots multi_category) (t.roots i))
                os (below-Lacks i multi_category os (omega arith) k.below)

        above : features_in i (update m i (emptied (t.roots i))) ≡ features_in i t.roots
        above =
            features_in-update_above i i m (emptied (t.roots i)) (omega arith)
            ∙ features_in-update_above i multi_category t.roots
                (add (t.roots multi_category) (t.roots i)) (omega arith)

        gone : (update m i (emptied (t.roots i)) i).feature_count ≡ 0
        gone = ground arith

    insert-IsSorting :
        (n i : ℕ) (os : List ℕ) (t : Index Trunk)
        → i < multi_category
        → IsSorting n i os t
        → let placed = insert_root rtree (multi_category + 1) i first_slot t in
          IsSorting n
            (suc i)
            (ranked t.roots i os)
            (record placed { root_count = placed.root_count + 1 })
    insert-IsSorting n i os t h k =
        let lacks = below-Lacks i i os (omega arith) k.below in
        let rest = insert_root-rest rtree (multi_category + 1) i first_slot t in
        let few = k.few in
        record {
          chain =
              insert_root-Chain rtree (multi_category + 1) i first_slot os t (omega (arith, few))
                lacks k.distinct tt k.chain;
          distinct = IsDistinct-ranked t.roots i os lacks k.distinct;
          below = All-ranked (λ r. r < suc i) t.roots i os (omega arith) (below-suc i os k.below);
          few = omega (arith, few, length-ranked t.roots i os);
          counted = length-ranked t.roots i os ∙ ap (λ c. c + 1) (k.counted ∙ sym rest.1);
          unlinked =
              insert_root-link rtree (multi_category + 1) i multi_category os t
                (λ e. omega (arith, e)) (below-Lacks i multi_category os (omega arith) k.below)
                k.chain
              ∙ k.unlinked;
          held = rw rest.0 (
              unfold features_in in
              features_of-ranked t.roots i os ∙ ap (λ c. c + (t.roots i).feature_count) k.held);
          whole = rw rest.0 k.whole;
        }

    sort_root-IsSorting :
        (s : IndexSettings) (n i : ℕ) (os : List ℕ) (t : Index Trunk)
        → i < multi_category
        → n < 2 ^ 32
        → IsSorting n i os t
        → (os' : List ℕ) × IsSorting n (suc i) os' (sort_root rtree s i t)
    unfolding sort_root
    sort_root-IsSorting s n i os t h small k =
        elim (Bool-cases (ltb (t.roots i).feature_count s.key_index_min_features)) [
          | inl few ↦ rw few (os, consolidate-IsSorting n i os t h small k)
          | inr many ↦ rw many (ranked t.roots i os, insert-IsSorting n i os t h k)
        ]

    pub sort_roots-IsSorting :
        (s : IndexSettings) (n m i : ℕ) (os : List ℕ) (t : Index Trunk)
        → m + i ≤ multi_category
        → n < 2 ^ 32
        → IsSorting n i os t
        → (os' : List ℕ) × IsSorting n (m + i) os' (sort_roots rtree s m i t)
    unfolding sort_roots
    sort_roots-IsSorting s n zero i os t h small k = let e : 0 + i ≡ i = omega arith in rw e (os, k)
    sort_roots-IsSorting s n (suc m) i os t h small k =
        let (os', k') = sort_root-IsSorting s n i os t (omega arith) small k in
        let e : suc m + i ≡ m + (i + 1) = omega arith in
        let e' : suc i ≡ i + 1 = omega arith in
        rw e (
          sort_roots-IsSorting s n m (i + 1) os' (sort_root rtree s i t) (omega arith) small
            (rw (sym e') k'))
