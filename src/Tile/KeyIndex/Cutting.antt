-- ===== src/Tile/KeyIndex/Cutting.antt =====
-- TIndex::build, the roots that are kept: their trunks, and the end of the chain behind them.
use geodesk_gol.Prelude.{
  ℕ, zero, suc, ◌+◌, ◌≤◌, ◌<◌, ◌≡◌, refl, ap, ◌∙◌, Option, List, [], ◌∷◌, ◌++◌, length, take, drop,
  All, arith,
}
use geodesk_gol.Tile.KeyIndex.{
  Root, Index, Slot, first_slot, after, update, multi_category, read, write_slot, build_root,
  build_roots,
}
use geodesk_gol.Tile.KeyIndex.Chain.{Chain, Lacks, LacksSlot, IsDistinct, features_of, Chain-update}

-- The slot behind the first `m` roots of a chain.
abbrev pub last_slot : ℕ → Slot → List ℕ → Slot
last_slot zero s os = s
last_slot (suc m) s [] = s
last_slot (suc m) s (r ∷ rs) = last_slot m (after r) rs

-- The categories, below the one for several.
abbrev pub Below : List ℕ → Type 0
Below os = All (λ r. r < multi_category) os

abbrev pub BelowSlot : Slot → Type 0
BelowSlot first_slot = Unit
BelowSlot (after p) = p < multi_category

pub Lacks-drop : (m p : ℕ) (os : List ℕ) → Lacks os p → Lacks (drop m os) p
Lacks-drop zero p os h = h
Lacks-drop (suc m) p [] h = h
Lacks-drop (suc m) p (r ∷ rs) h = Lacks-drop m p rs h.1

pub IsDistinct-drop : (m : ℕ) (os : List ℕ) → IsDistinct os → IsDistinct (drop m os)
IsDistinct-drop zero os h = h
IsDistinct-drop (suc m) [] h = h
IsDistinct-drop (suc m) (r ∷ rs) h = IsDistinct-drop m rs h.1

pub Below-drop : (m : ℕ) (os : List ℕ) → Below os → Below (drop m os)
Below-drop zero os h = h
Below-drop (suc m) [] h = h
Below-drop (suc m) (r ∷ rs) h = Below-drop m rs h.1

module _ {Trunk : Type 0} where
  -- The links and the numbers of features are the same.
  pub record IsAlike (t t' : Index Trunk) : Type 0 where
    pub links : t'.next_root ≡ t.next_root
    pub start : t'.first_root ≡ t.first_root
    pub counts : (k : ℕ) → (t'.roots k).feature_count ≡ (t.roots k).feature_count

  pub features_of-cong :
      (roots roots' : ℕ → Root Trunk) (os : List ℕ)
      → ((k : ℕ) → (roots' k).feature_count ≡ (roots k).feature_count)
      → features_of roots' os ≡ features_of roots os
  features_of-cong roots roots' [] h = refl
  features_of-cong roots roots' (r ∷ rs) h = omega (arith, h r, features_of-cong roots roots' rs h)

  pub features_of-split :
      (roots : ℕ → Root Trunk) (m : ℕ) (os : List ℕ)
      → features_of roots (take m os) + features_of roots (drop m os) ≡ features_of roots os
  features_of-split roots zero os = omega arith
  features_of-split roots (suc m) [] = refl
  features_of-split roots (suc m) (r ∷ rs) = omega (arith, features_of-split roots m rs)

  pub features_of-append :
      (roots : ℕ → Root Trunk) (xs ys : List ℕ)
      → features_of roots (xs ++ ys) ≡ features_of roots xs + features_of roots ys
  features_of-append roots [] ys = omega arith
  features_of-append roots (x ∷ xs) ys = omega (arith, features_of-append roots xs ys)

  -- The first roots of the list are not among the others.
  pub features_of-take :
      (roots roots' : ℕ → Root Trunk) (m : ℕ) (os : List ℕ)
      → IsDistinct os
      → Below os
      → ((k : ℕ)
          → k < multi_category
          → Lacks (drop m os) k
          → (roots' k).feature_count ≡ (roots k).feature_count)
      → features_of roots' (take m os) ≡ features_of roots (take m os)
  features_of-take roots roots' zero os d b h = refl
  features_of-take roots roots' (suc m) [] d b h = refl
  features_of-take roots roots' (suc m) (r ∷ rs) d b h =
      omega (arith, h r b.0 (Lacks-drop m r rs d.0), features_of-take roots roots' m rs d.1 b.1 h)

  module _ (rtree : (ℕ → ℕ) → Option ℕ → ℕ → Option Trunk) where
    pub build_root-counts :
        (r k : ℕ) (t : Index Trunk)
        → ((build_root rtree r t).roots k).feature_count ≡ (t.roots k).feature_count
    unfolding build_root
    build_root-counts r k t = ground arith

    pub read-alike :
        (s : Slot) (t t' : Index Trunk) → IsAlike t t' → read rtree s t' ≡ read rtree s t
    read-alike first_slot t t' a = a.start
    read-alike (after p) t t' a = ap (λ f. f p) a.links

    pub build_roots_lem :
        (m : ℕ) (s : Slot) (os : List ℕ) (t : Index Trunk)
        → m ≤ length os
        → Chain t.next_root (read rtree s t) os
        → ((build_roots rtree m s t).0 ≡ last_slot m s os) × IsAlike t (build_roots rtree m s t).1
    unfolding build_roots
    build_roots_lem zero s os t h c =
        (refl, record { links = refl; start = refl; counts = λ k. refl })
    build_roots_lem (suc m) s [] t h c = absurd (omega arith)
    build_roots_lem (suc m) s (r ∷ rs) t h c =
        let (at, a) =
          build_roots_lem m (after r) rs (build_root rtree r t) (omega arith)
            (unfold build_root in c.1) in
        rw (build_roots, c.0)
          (
            at,
            record {
              links = a.links ∙ (unfold build_root in refl);
              start = a.start ∙ (unfold build_root in refl);
              counts = λ k. a.counts k ∙ build_root-counts r k t;
            },
          )

    pub read-last_slot :
        (m r : ℕ) (s : Slot) (os : List ℕ) (v : Option ℕ) (t : Index Trunk)
        → LacksSlot (r ∷ os) s
        → read rtree s (write_slot rtree (last_slot m (after r) os) v t) ≡ read rtree s t
    read-last_slot zero r first_slot os v t h = refl
    read-last_slot zero r (after p) os v t h = ground (arith, h.0)
    read-last_slot (suc m) r first_slot [] v t h = refl
    read-last_slot (suc m) r (after p) [] v t h = ground (arith, h.0)
    read-last_slot (suc m) r first_slot (q ∷ qs) v t h = read-last_slot m q first_slot qs v t tt
    read-last_slot (suc m) r (after p) (q ∷ qs) v t h = read-last_slot m q (after p) qs v t h.1

    -- The entry written behind the first roots starts what follows them.
    pub cut-Chain :
        (m : ℕ) (s : Slot) (os ts : List ℕ) (v : Option ℕ) (t : Index Trunk)
        → m ≤ length os
        → Below os
        → BelowSlot s
        → IsDistinct os
        → LacksSlot os s
        → ((p : ℕ) → p < multi_category → Lacks ts p)
        → Chain t.next_root (read rtree s t) os
        → Chain t.next_root v ts
        → let t' = write_slot rtree (last_slot m s os) v t in
          Chain t'.next_root (read rtree s t') (take m os ++ ts)
    cut-Chain zero first_slot os ts v t h b bs d l far c e = e
    cut-Chain zero (after p) os ts v t h b bs d l far c e =
        let here : update t.next_root p v p ≡ v = ground arith in
        rw here (Chain-update t.next_root v ts p v (far p bs) e)
    cut-Chain (suc m) s [] ts v t h b bs d l far c e = absurd (omega arith)
    cut-Chain (suc m) s (r ∷ rs) ts v t h b bs d l far c e = (
      read-last_slot m r s rs v t l ∙ c.0,
      cut-Chain m (after r) rs ts v t (omega arith) b.1 b.0 d.1 d.0 far c.1 e,
    )
