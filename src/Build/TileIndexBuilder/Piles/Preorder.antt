-- ===== src/Build/TileIndexBuilder/Piles/Preorder.antt =====
-- The numbering of the piles.
use geodesk_gol.Prelude.{
  ℕ, zero, suc, ◌+◌, ◌≤◌, ◌<◌, ◌≡◌, refl, ap, ap₂, ◌∙◌, inl, inr, Option, none, some, List, [], ◌∷◌,
  ◌++◌, length, length-append, ◌^◌, ◌/◌, bit_or, ◌==◌, ne→==, ==_refl, if◌then◌else◌, Bool-cases,
  Option-cases, arith,
}
use geodesk_gol.Build.TileIndexBuilder.{Grid, STile}
use geodesk_gol.Build.TileIndexBuilder.Piles.{
  Arrays, open_pile, fill_grid, put_entry, put_mask, trailing_zeros, branch_entry, missing_child,
  build_children, build_tile,
}

-- The values of a map at `n` places from place `p` on.
abbrev pub listed : ℕ → ℕ → (ℕ → ℕ) → List ℕ
listed zero p f = []
listed (suc n) p f = f p ∷ listed n (p + 1) f

listed-agree :
    (n p : ℕ) (f g : ℕ → ℕ) → ((q : ℕ) → q < p + n → f q ≡ g q) → listed n p f ≡ listed n p g
listed-agree zero p f g h = refl
listed-agree (suc n) p f g h =
    ap₂ ◌∷◌ (h p (omega arith)) (listed-agree n (p + 1) f g (λ q l. h q (omega arith)))

listed-append : (m n p : ℕ) (f : ℕ → ℕ) → listed (m + n) p f ≡ listed m p f ++ listed n (p + m) f
listed-append zero n p f =
    let start : p + 0 ≡ p = omega arith in
    let size : 0 + n ≡ n = omega arith in rw (start, size) refl
listed-append (suc m) n p f =
    let start : p + suc m ≡ p + 1 + m = omega arith in
    let size : suc m + n ≡ suc (m + n) = omega arith in
    rw (start, size) (ap (λ (xs : List ℕ). f p ∷ xs) (listed-append m n (p + 1) f))

-- The piles from `a` on hold the tiles `xs`, and the earlier ones are as before.
abbrev pub Numbers : Arrays → List ℕ → Arrays → Type 0
Numbers a xs b =
    (b.pile_count ≡ a.pile_count + length xs)
    × (listed (length xs) (a.pile_count + 1) b.pile_to_tile ≡ xs)
    × ((p : ℕ) → p ≤ a.pile_count → b.pile_to_tile p ≡ a.pile_to_tile p)

Numbers-append :
    (a b c : Arrays) (xs ys : List ℕ) → Numbers a xs b → Numbers b ys c → Numbers a (xs ++ ys) c
Numbers-append a b c xs ys (count, tiles, kept) (count', tiles', kept') =
    (total, joined, λ p h. kept' p (omega (arith, count)) ∙ kept p h)
  where
    total : c.pile_count ≡ a.pile_count + length (xs ++ ys)
    total = omega (arith, count, count', length-append xs ys)

    starts : a.pile_count + 1 + length xs ≡ b.pile_count + 1
    starts = omega (arith, count)

    joined : listed (length (xs ++ ys)) (a.pile_count + 1) c.pile_to_tile ≡ xs ++ ys
    joined =
        ap (λ (n : ℕ). listed n (a.pile_count + 1) c.pile_to_tile) (length-append xs ys)
        ∙ listed-append (length xs) (length ys) (a.pile_count + 1) c.pile_to_tile
        ∙ ap₂ ◌++◌
            (listed-agree (length xs) (a.pile_count + 1) c.pile_to_tile b.pile_to_tile
                (λ q l. kept' q (omega (arith, count)))
              ∙ tiles)
            (ap (λ (q : ℕ). listed (length ys) q c.pile_to_tile) starts ∙ tiles')

module _ (grid : Grid) (max_zoom page_size : ℕ) (heap : ℕ → STile) (tips : ℕ → ℕ) where
  -- The tiles below `n` slots from slot `i` on, where `below` lists those from a child on.
  unfoldable pub children_preorder : (ℕ → List ℕ) → (ℕ → Option ℕ) → ℕ → ℕ → List ℕ
  children_preorder below children zero i = []
  children_preorder below children (suc n) i = elim (children i) [
    | none ↦ children_preorder below children n (i + 1)
    | some c ↦ below c ++ children_preorder below children n (i + 1)
  ]

  -- A tile before its children, the children in the order of their slots.
  unfoldable pub preorder : ℕ → ℕ → List ℕ
  preorder zero tile = []
  preorder (suc fuel) tile =
      tile
      ∷ (if (heap tile).child_count == 0
          then []
          else children_preorder (preorder fuel) (heap tile).children (heap tile).max_child_count 0)

  open_pile-Numbers :
      (tile : ℕ) (a : Arrays)
      → Numbers a (tile ∷ []) (open_pile grid max_zoom page_size heap tips tile a)
  unfolding open_pile
  open_pile-Numbers tile a = (
    omega arith,
    rw (==_refl (a.pile_count + 1)) refl,
    λ p h. rw (ne→== (a.pile_count + 1) p (omega arith)) refl,
  )

  build_children-Numbers :
      (visit : ℕ → Arrays → Arrays) (below : ℕ → List ℕ)
      → ((c : ℕ) (a : Arrays) → Numbers a (below c) (visit c a))
      → (tile pile step : ℕ) (children : ℕ → Option ℕ) (n i child_tip mask : ℕ) (a : Arrays)
      → Numbers a
          (children_preorder below children n i)
          (build_children grid max_zoom page_size heap tips visit tile pile step children n i
            child_tip mask a).1
  unfolding build_children fill_grid children_preorder
  build_children-Numbers visit below v tile pile step children zero i child_tip mask a =
      (omega arith, refl, λ p h. refl)
  build_children-Numbers visit below v tile pile step children (suc n) i child_tip mask a =
      let rest = build_children-Numbers visit below v tile pile step children n (i + 1) in
      elim (Option-cases (children i)) [
        | inl e ↦
            rw (e, build_children, children_preorder)
              (rest child_tip mask (
                fill_grid grid max_zoom page_size heap tips
                  (missing_child grid max_zoom page_size heap tips tile step i) pile a))
        | inr (c, e) ↦
            let entered =
              put_entry grid max_zoom page_size heap tips child_tip
                (branch_entry grid max_zoom page_size heap tips child_tip c) a in
            rw (e, build_children, children_preorder)
              (Numbers-append a (visit c entered)
                (build_children grid max_zoom page_size heap tips visit tile pile step children n
                  (i + 1) (child_tip + 1) (bit_or mask (2 ^ i)) (visit c entered)).1
                (below c) (children_preorder below children n (i + 1)) (v c entered)
                (rest (child_tip + 1) (bit_or mask (2 ^ i)) (visit c entered)))
      ]

  put_mask-Numbers :
      (a b : Arrays) (xs : List ℕ) (tip step mask : ℕ)
      → Numbers a xs b
      → Numbers a xs (put_mask grid max_zoom page_size heap tips tip step mask b)
  put_mask-Numbers a b xs tip step mask h = elim (Bool-cases (step == 3)) [
    | inl e ↦ rw (e) h
    | inr e ↦ rw (e) h
  ]

  -- Piles are numbered without a gap, in the order of the tree: building a tile and all below it
  -- adds as many piles as there are such tiles, each pile's tile is the one at its place in the
  -- preorder, and the tiles of the earlier piles stay as they are.
  pub build_tile-preorder :
      (fuel tile : ℕ) (a : Arrays)
      → Numbers a (preorder fuel tile) (build_tile grid max_zoom page_size heap tips fuel tile a)
  unfolding build_tile preorder fill_grid
  build_tile-preorder zero tile a = (omega arith, refl, λ p h. refl)
  build_tile-preorder (suc fuel) tile a = elim (Bool-cases ((heap tile).child_count == 0)) [
    | inl leaf ↦ rw (leaf) (open_pile-Numbers tile a)
    | inr inner ↦
        let started =
          put_entry grid max_zoom page_size heap tips (tips tile) 0
            (open_pile grid max_zoom page_size heap tips tile a) in
        let step = trailing_zeros 32 (heap tile).max_child_count / 2 in
        let first = tips tile + (if step == 3 then 3 else 2) in
        let children = (heap tile).children in
        let (mask, below) =
          build_children grid max_zoom page_size heap tips
            (build_tile grid max_zoom page_size heap tips fuel) tile started.pile_count step
            children (heap tile).max_child_count 0 first 0 started in
        rw (inner) (
          put_mask-Numbers a below
            (tile ∷ children_preorder (preorder fuel) children (heap tile).max_child_count 0)
            (tips tile) step mask
            (Numbers-append a started below (tile ∷ [])
              (children_preorder (preorder fuel) children (heap tile).max_child_count 0)
              (open_pile-Numbers tile a)
              (build_children-Numbers (build_tile grid max_zoom page_size heap tips fuel)
                (preorder fuel) (build_tile-preorder fuel) tile started.pile_count step children
                (heap tile).max_child_count 0 first 0 started)))
  ]
