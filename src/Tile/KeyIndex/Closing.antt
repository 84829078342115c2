-- ===== src/Tile/KeyIndex/Closing.antt =====
-- TIndex::build behind the sort: the trunks of the largest roots, the others merged, and the chain cut.
use geodesk_gol.Prelude.{
  ℕ, zero, suc, ◌+◌, ◌-◌, ◌^◌, ◌≤◌, ◌<◌, ◌≡◌, refl, sym, ◌∙◌, inl, inr, Option, none, some, List,
  [], ◌∷◌, ◌++◌, length, length-take, length-drop, length-append, take, drop, ==→eq, Bool-cases,
  arith,
}
use geodesk_gol.Tile.KeyIndex.{
  Index, IndexSettings, Slot, first_slot, after, update, multi_category, is_empty, read, write_slot,
  build_root, build_roots, merge_roots, close, kept, build, sort_roots,
}
use geodesk_gol.Tile.KeyIndex.Counts.{features_in, features_in_last}
use geodesk_gol.Tile.KeyIndex.Chain.{Chain, IsDistinct, features_of}
use geodesk_gol.Tile.KeyIndex.Sorting.{IsSorting, sort_roots-IsSorting}
use geodesk_gol.Tile.KeyIndex.Cutting.{
  last_slot, Below, IsDistinct-drop, Below-drop, features_of-cong, features_of-split,
  features_of-append, features_of-take, build_root-counts, read-alike, build_roots_lem, cut-Chain,
}
use geodesk_gol.Tile.KeyIndex.Merging.{IsMerged, merge_roots-IsMerged}

module _ {Trunk : Type 0} where
  module _ (rtree : (ℕ → ℕ) → Option ℕ → ℕ → Option Trunk) where
    roots-write_slot :
        (s : Slot) (o : Option ℕ) (t : Index Trunk) → (write_slot rtree s o t).roots ≡ t.roots
    roots-write_slot first_slot o t = refl
    roots-write_slot (after p) o t = refl

    write_slot-twice :
        (s : Slot) (v w : Option ℕ) (k : ℕ) (t : Index Trunk)
        → let t' = write_slot rtree s w (record (write_slot rtree s v t) { root_count = k }) in
          (t'.next_root ≡ (write_slot rtree s w t).next_root)
          × (t'.first_root ≡ (write_slot rtree s w t).first_root)
    write_slot-twice first_slot v w k t = (refl, refl)
    write_slot-twice (after p) v w k t = ((λ j q. same q j), refl)
      where
        same : (q : ℕ) → update (update t.next_root p v) p w q ≡ update t.next_root p w q
        same q = ground arith

    -- The index is a chain of roots, with so many features in all and no more roots than allowed.
    abbrev pub IsClosed : ℕ → ℕ → Index Trunk → Type 0
    IsClosed n roots t =
        (os : List ℕ) × Chain t.next_root t.first_root os
        × (features_of t.roots os ≡ n)
        × (length os ≡ t.root_count)
        × (t.root_count ≤ roots)

    close-IsClosed :
        (n m roots : ℕ) (os : List ℕ) (t : Index Trunk)
        → m ≤ length os
        → m < roots
        → Below os
        → IsDistinct os
        → Chain t.next_root t.first_root os
        → t.next_root multi_category ≡ none
        → features_of t.roots (take m os) + (t.roots multi_category).feature_count ≡ n
        → IsClosed n roots (close rtree m (last_slot m first_slot os) t)
    unfolding close
    close-IsClosed n m roots os t h few b d c unlinked sum =
        let last = last_slot m first_slot os in
        let cut = record (write_slot rtree last none t) { root_count = m } in
        let linked = write_slot rtree last (some multi_category) cut in
        let twice = write_slot-twice last none (some multi_category) m t in
        let same : linked.roots ≡ t.roots =
          roots-write_slot last (some multi_category) cut ∙ roots-write_slot last none t in
        let taken = length-take m os in
        elim (Bool-cases (is_empty (t.roots multi_category))) [
          | inl empty ↦ rw empty (
            take m os ++ [],
            cut-Chain rtree m first_slot os [] none t h b tt d tt (λ p q. tt) c refl,
            rw (roots-write_slot last none t) (
                omega (
                  arith,
                  features_of-append t.roots (take m os) [],
                  sum,
                  ==→eq (t.roots multi_category).feature_count 0 empty,
                )),
            omega (arith, length-append (take m os) [], taken),
            omega arith,
          )
          | inr full ↦ rw full (
            take m os ++ multi_category ∷ [],
            unfold build_root in
                rw (twice.0, twice.1)
                  (cut-Chain rtree m first_slot os (multi_category ∷ []) (some multi_category) t h b
                    tt d tt (λ p q. ((λ e. omega (arith, q, e)), tt)) c (refl, unlinked)),
            features_of-cong linked.roots (build_root rtree multi_category linked).roots
                  (take m os ++ multi_category ∷ [])
                  (λ k. build_root-counts rtree multi_category k linked)
                ∙ rw same (
                    omega
                      (arith, features_of-append t.roots (take m os) (multi_category ∷ []), sum)),
            omega (arith, length-append (take m os) (multi_category ∷ []), taken),
            omega arith,
          )
        ]

    drop-Chain :
        (m : ℕ) (s : Slot) (os : List ℕ) (t : Index Trunk)
        → Chain t.next_root (read rtree s t) os
        → Chain t.next_root (read rtree (last_slot m s os) t) (drop m os)
    drop-Chain zero s os t c = c
    drop-Chain (suc m) s [] t c = c
    drop-Chain (suc m) s (r ∷ rs) t c = drop-Chain m (after r) rs t c.1

    -- The largest roots built, the others merged.
    abbrev merged : ℕ → List ℕ → Index Trunk → Index Trunk
    merged m os t =
        merge_roots rtree (t.root_count - m) (last_slot m first_slot os)
          (build_roots rtree m first_slot t).1

    merged-IsMerged :
        (n m : ℕ) (os : List ℕ) (t : Index Trunk)
        → n < 2 ^ 32
        → m ≤ length os
        → IsSorting n multi_category os t
        → IsMerged rtree (drop m os) t (merged m os t)
    merged-IsMerged n m os t small h k =
        let last = last_slot m first_slot os in
        let trunks = (build_roots rtree m first_slot t).1 in
        let a = (build_roots_lem rtree m first_slot os t h k.chain).1 in
        let whole = k.whole in
        let held = k.held in
        let counted = k.counted in
        let same = a.counts multi_category in
        let cong = features_of-cong t.roots trunks.roots (drop m os) a.counts in
        let q =
          merge_roots-IsMerged rtree (t.root_count - m) last (drop m os) trunks
            (omega (arith, length-drop m os, counted)) (IsDistinct-drop m os k.distinct)
            (Below-drop m os k.below)
            (omega (
              arith,
              same,
              cong,
              features_of-split t.roots m os,
              held,
              whole,
              features_in_last t.roots,
              small,
            ))
            (rw (a.links, read-alike rtree last t trunks a)
              (drop-Chain m first_slot os t k.chain)) in
        record {
          links = q.links ∙ a.links;
          start = q.start ∙ a.start;
          grown = let g = q.grown in omega (arith, g, same, cong);
          others = λ p lt lacks. q.others p lt lacks ∙ a.counts p;
        }

    finish-IsClosed :
        (n m roots : ℕ) (os : List ℕ) (t : Index Trunk)
        → n < 2 ^ 32
        → m ≤ length os
        → m < roots
        → IsSorting n multi_category os t
        → IsClosed n roots (close rtree m (last_slot m first_slot os) (merged m os t))
    finish-IsClosed n m roots os t small h few k =
        let q = merged-IsMerged n m os t small h k in
        let kept_ones =
          features_of-take t.roots (merged m os t).roots m os k.distinct k.below q.others in
        let grown = q.grown in
        let whole = k.whole in
        let held = k.held in
        close-IsClosed n m roots os (merged m os t) h few k.below k.distinct
          (rw (q.links, q.start) k.chain) (rw q.links k.unlinked)
          (omega (
            arith,
            kept_ones,
            grown,
            whole,
            held,
            features_of-split t.roots m os,
            features_in_last t.roots,
          ))

    -- Building the index puts every feature into a root of the chain that starts at `firstRoot`, as
    -- long as there are fewer than 2^32 and the chain is empty at the start: the chain ends, the roots
    -- in it have as many features as all roots had, the count of the roots is its length, and there
    -- are at most `max_key_indexes`, of which there is to be one at least.
    pub build-IsClosed :
        (s : IndexSettings) (t : Index Trunk)
        → t.first_root ≡ none
        → t.root_count ≡ 0
        → ((r : ℕ) → t.next_root r ≡ none)
        → features_in (multi_category + 1) t.roots < 2 ^ 32
        → 0 < s.max_key_indexes
        → IsClosed (features_in (multi_category + 1) t.roots) s.max_key_indexes (build rtree s t)
    unfolding build
    build-IsClosed s t first_none no_count next_none small some_root =
        let n = features_in (multi_category + 1) t.roots in
        let sorted = sort_roots rtree s multi_category 0 t in
        let (os, k) =
          sort_roots-IsSorting rtree s n multi_category 0 [] t (omega arith) small (record {
            chain = first_none;
            distinct = tt;
            below = tt;
            few = omega arith;
            counted = sym no_count;
            unlinked = next_none multi_category;
            held = unfold features_in in refl;
            whole = refl;
          }) in
        let m = kept rtree s sorted in
        let counted = k.counted in
        let h : m ≤ length os = ground (arith, counted) in
        let at = (build_roots_lem rtree m first_slot os sorted h k.chain).0 in
        rw at
          (finish-IsClosed n m s.max_key_indexes os sorted small h (ground (arith, some_root)) k)
