-- ===== src/Tile/KeyIndex/Chain.antt =====
-- The chain of roots of TIndex::build: firstRoot_ and next_, which links each root to the one after.
use geodesk_gol.Prelude.{
  ℕ, zero, suc, ◌+◌, ◌<◌, ◌≡◌, ◌≢◌, refl, sym, ◌∙◌, inl, inr, Option, none, some, List, [], ◌∷◌,
  length, All, ltb, if◌then◌else◌, Bool-cases, Option-cases, arith,
}
use geodesk_gol.Tile.KeyIndex.{
  Root, Index, Slot, first_slot, after, update, read, place_root, insert_root,
}

-- The roots from an entry on, by the links.
abbrev pub Chain : (ℕ → Option ℕ) → Option ℕ → List ℕ → Type 0
Chain next o [] = o ≡ none
Chain next o (r ∷ rs) = (o ≡ some r) × Chain next (next r) rs

abbrev pub Lacks : List ℕ → ℕ → Type 0
Lacks rs p = All (λ r. r ≢ p) rs

abbrev pub IsDistinct : List ℕ → Type 0
IsDistinct [] = Unit
IsDistinct (r ∷ rs) = Lacks rs r × IsDistinct rs

-- The slot is not that of a root of the list.
abbrev pub LacksSlot : List ℕ → Slot → Type 0
LacksSlot rs first_slot = Unit
LacksSlot rs (after p) = Lacks rs p

pub Chain-update :
    (next : ℕ → Option ℕ) (o : Option ℕ) (os : List ℕ) (p : ℕ) (v : Option ℕ)
    → Lacks os p
    → Chain next o os
    → Chain (update next p v) o os
Chain-update next o [] p v h c = c
Chain-update next o (r ∷ rs) p v (ne, h) (e, c) =
    let other : update next p v r ≡ next r = ground (arith, ne) in
    (e, rw other (Chain-update next (next r) rs p v h c))

module _ {Trunk : Type 0} where
  -- Where the loop puts root `i`: behind the roots with more features.
  abbrev pub ranked : (ℕ → Root Trunk) → ℕ → List ℕ → List ℕ
  ranked roots i [] = i ∷ []
  ranked roots i (r ∷ rs) =
      let rest = ranked roots i rs in
      if ltb (roots i).feature_count (roots r).feature_count then r ∷ rest else i ∷ r ∷ rs

  -- The features of the roots of a list.
  abbrev pub features_of : (ℕ → Root Trunk) → List ℕ → ℕ
  features_of roots [] = 0
  features_of roots (r ∷ rs) = (roots r).feature_count + features_of roots rs

  pub features_of-ranked :
      (roots : ℕ → Root Trunk) (i : ℕ) (os : List ℕ)
      → features_of roots (ranked roots i os) ≡ features_of roots os + (roots i).feature_count
  features_of-ranked roots i [] = omega arith
  features_of-ranked roots i (r ∷ rs) =
      elim (Bool-cases (ltb (roots i).feature_count (roots r).feature_count)) [
        | inl e ↦ rw e (omega (arith, features_of-ranked roots i rs))
        | inr e ↦ rw e (omega arith)
      ]

  pub length-ranked :
      (roots : ℕ → Root Trunk) (i : ℕ) (os : List ℕ) → length (ranked roots i os) ≡ length os + 1
  length-ranked roots i [] = refl
  length-ranked roots i (r ∷ rs) =
      elim (Bool-cases (ltb (roots i).feature_count (roots r).feature_count)) [
        | inl e ↦ rw e (omega (arith, length-ranked roots i rs))
        | inr e ↦ rw e (omega arith)
      ]

  pub All-ranked :
      (P : ℕ → Type 0) (roots : ℕ → Root Trunk) (i : ℕ) (os : List ℕ)
      → P i
      → All P os
      → All P (ranked roots i os)
  All-ranked P roots i [] h hs = (h, tt)
  All-ranked P roots i (r ∷ rs) h hs =
      elim (Bool-cases (ltb (roots i).feature_count (roots r).feature_count)) [
        | inl e ↦ rw e (hs.0, All-ranked P roots i rs h hs.1)
        | inr e ↦ rw e (h, hs)
      ]

  pub IsDistinct-ranked :
      (roots : ℕ → Root Trunk) (i : ℕ) (os : List ℕ)
      → Lacks os i
      → IsDistinct os
      → IsDistinct (ranked roots i os)
  IsDistinct-ranked roots i [] h d = (tt, tt)
  IsDistinct-ranked roots i (r ∷ rs) h d =
      elim (Bool-cases (ltb (roots i).feature_count (roots r).feature_count)) [
        | inl e ↦ rw e (
          All-ranked (λ q. q ≢ r) roots i rs (λ q. h.0 (sym q)) d.0,
          IsDistinct-ranked roots i rs h.1 d.1,
        )
        | inr e ↦ rw e (h, d)
      ]

  module _ (rtree : (ℕ → ℕ) → Option ℕ → ℕ → Option Trunk) where
    place_root-rest :
        (i : ℕ) (s : Slot) (o : Option ℕ) (t : Index Trunk)
        → ((place_root rtree i s o t).roots ≡ t.roots)
          × ((place_root rtree i s o t).root_count ≡ t.root_count)
    unfolding place_root
    place_root-rest i first_slot o t = (refl, refl)
    place_root-rest i (after p) o t = (refl, refl)

    place_root-frame :
        (i p : ℕ) (s : Slot) (o : Option ℕ) (t : Index Trunk)
        → LacksSlot (i ∷ p ∷ []) s
        → read rtree s (place_root rtree i (after p) o t) ≡ read rtree s t
    unfolding place_root
    place_root-frame i p first_slot o t h = refl
    place_root-frame i p (after q) o t (ni, (np, u)) = ground (arith, ni, np)

    -- The root stands in front of the chain from the entry that it is given.
    place_root-Chain :
        (i : ℕ) (s : Slot) (o : Option ℕ) (os : List ℕ) (t : Index Trunk)
        → Lacks os i
        → LacksSlot (i ∷ os) s
        → Chain t.next_root o os
        → Chain
            (place_root rtree i s o t).next_root
            (read rtree s (place_root rtree i s o t))
            (i ∷ os)
    unfolding place_root
    place_root-Chain i first_slot o os t h hs c =
        let here : update t.next_root i o i ≡ o = ground arith in
        (refl, rw here (Chain-update t.next_root o os i o h c))
    place_root-Chain i (after p) o os t h hs c =
        let linked = update t.next_root p (some i) in
        let here : update linked i o i ≡ o = ground arith in
        let there : update linked i o p ≡ some i = ground (arith, hs.0) in
        (
          there,
          rw here
              (Chain-update linked o os i o h (Chain-update t.next_root o os p (some i) hs.1 c)),
        )

    LacksSlot-skip :
        (i p : ℕ) (rs : List ℕ) (s : Slot) → LacksSlot (i ∷ p ∷ rs) s → LacksSlot (i ∷ rs) s
    LacksSlot-skip i p rs first_slot h = tt
    LacksSlot-skip i p rs (after q) h = (h.0, h.1.1)

    LacksSlot-pair :
        (i p : ℕ) (rs : List ℕ) (s : Slot) → LacksSlot (i ∷ p ∷ rs) s → LacksSlot (i ∷ p ∷ []) s
    LacksSlot-pair i p rs first_slot h = tt
    LacksSlot-pair i p rs (after q) h = (h.0, (h.1.0, tt))

    -- The loop writes the slots of the root and of those from where it starts on.
    insert_root-frame :
        (fuel i p : ℕ) (s : Slot) (os : List ℕ) (t : Index Trunk)
        → LacksSlot (i ∷ p ∷ os) s
        → Chain t.next_root (t.next_root p) os
        → read rtree s (insert_root rtree fuel i (after p) t) ≡ read rtree s t
    unfolding insert_root
    insert_root-frame zero i p s os t h c = refl
    insert_root-frame (suc fuel) i p s [] t h c =
        rw (insert_root, c) (place_root-frame i p s none t h)
    insert_root-frame (suc fuel) i p s (r ∷ rs) t h c =
        elim (Bool-cases (ltb (t.roots i).feature_count (t.roots r).feature_count)) [
          | inl e ↦
              rw (insert_root, c.0, e)
                (insert_root-frame fuel i r s rs t (LacksSlot-skip i p (r ∷ rs) s h) c.1)
          | inr e ↦
              rw (insert_root, c.0, e)
                (place_root-frame i p s (some r) t (LacksSlot-pair i p (r ∷ rs) s h))
        ]

    pub insert_root-Chain :
        (fuel i : ℕ) (s : Slot) (os : List ℕ) (t : Index Trunk)
        → length os < fuel
        → Lacks os i
        → IsDistinct os
        → LacksSlot (i ∷ os) s
        → Chain t.next_root (read rtree s t) os
        → Chain
            (insert_root rtree fuel i s t).next_root
            (read rtree s (insert_root rtree fuel i s t))
            (ranked t.roots i os)
    unfolding insert_root
    insert_root-Chain zero i s os t h hi d hs c = absurd (omega arith)
    insert_root-Chain (suc fuel) i s [] t h hi d hs c =
        rw (insert_root, c) (place_root-Chain i s none [] t tt hs refl)
    insert_root-Chain (suc fuel) i s (r ∷ rs) t h hi d hs c =
        elim (Bool-cases (ltb (t.roots i).feature_count (t.roots r).feature_count)) [
          | inl e ↦
              rw (insert_root, c.0, e)
                (
                  insert_root-frame fuel i r s rs t hs c.1 ∙ c.0,
                  insert_root-Chain fuel i (after r) rs t (omega arith) hi.1 d.1
                      ((λ q. hi.0 (sym q)), d.0) c.1,
                )
          | inr e ↦
              rw (insert_root, c.0, e) (place_root-Chain i s (some r) (r ∷ rs) t hi hs (refl, c.1))
        ]

    -- The loop changes links only.
    pub insert_root-rest :
        (fuel i : ℕ) (s : Slot) (t : Index Trunk)
        → ((insert_root rtree fuel i s t).roots ≡ t.roots)
          × ((insert_root rtree fuel i s t).root_count ≡ t.root_count)
    unfolding insert_root
    insert_root-rest zero i s t = (refl, refl)
    insert_root-rest (suc fuel) i s t = elim (Option-cases (read rtree s t)) [
      | inl e ↦ rw (insert_root, e) (place_root-rest i s none t)
      | inr (r, e) ↦ elim (Bool-cases (ltb (t.roots i).feature_count (t.roots r).feature_count)) [
        | inl q ↦ rw (insert_root, e, q) (insert_root-rest fuel i (after r) t)
        | inr q ↦ rw (insert_root, e, q) (place_root-rest i s (some r) t)
      ]
    ]

    -- A root that is in no list keeps its link.
    pub insert_root-link :
        (fuel i m : ℕ) (os : List ℕ) (t : Index Trunk)
        → i ≢ m
        → Lacks os m
        → Chain t.next_root t.first_root os
        → (insert_root rtree fuel i first_slot t).next_root m ≡ t.next_root m
    unfolding insert_root
    insert_root-link zero i m os t ni h c = refl
    insert_root-link (suc fuel) i m [] t ni h c =
        rw (insert_root, c) (unfold place_root in ground (arith, ni))
    insert_root-link (suc fuel) i m (r ∷ rs) t ni h c =
        elim (Bool-cases (ltb (t.roots i).feature_count (t.roots r).feature_count)) [
          | inl e ↦
              rw (insert_root, c.0, e)
                (insert_root-frame fuel i r (after m) rs t (ni, (h.0, h.1)) c.1)
          | inr e ↦ rw (insert_root, c.0, e) (unfold place_root in ground (arith, ni))
        ]
