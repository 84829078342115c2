-- ===== src/Tile/HilbertIndex/Tree.antt =====
-- The whole index: its tree, the features in it and the width of its nodes.
use mathlib.Core.List.{Perm, Mem, Memᴰ, map-append, mem-cons_self, mem-cons_of_mem}
use mathlib.Core.List.Perm
use mathlib.Core.List.Memᴰ
use mathlib.Core.Logic.{∥∥₁_elim}
use mathlib.Core.Option.{some-injective}
use native.Mathlib.Nat.{ℕ_set}
use geodesk_gol.Prelude.{
  ℕ, zero, suc, ◌+◌, ◌*◌, ◌≤◌, ◌<◌, ◌≡◌, refl, sym, ap, subst, ◌∙◌, inl, inr, none, some, List, [],
  ◌∷◌, ◌++◌, map, length, length-map, All, All-append_left, All-append_right, append-nil,
  append_assoc, arith,
}
use geodesk_gol.Prelude.Perms.{length-perm}
use geodesk_gol.Tile.HilbertIndex.Chunks.{concat, chunks-IsLevel}
use geodesk_gol.Tile.HilbertIndex.{
  Branch, Branches, leaf, trunk, nil, cons, Geometry, HilbertItem, Item, Node, chain, create_leaf,
  create_trunk, build_levels, item_of, build,
}

module _ {Feature Box : Type 0} where
  abbrev mutual
    pub features_of : Branch Feature Box → List Feature
    features_of (leaf b fs) = fs
    features_of (trunk b n bs) = features_below bs

    pub features_below : Branches Feature Box → List Feature
    features_below nil = []
    features_below (cons b bs) = features_of b ++ features_below bs

  abbrev pub count : Branches Feature Box → ℕ
  count nil = 0
  count (cons b bs) = suc (count bs)

  -- Every node has between one child and `k`, and a trunk states 20 bytes for each child.
  abbrev mutual
    pub IsBucketed : ℕ → Branch Feature Box → Type 0
    IsBucketed k (leaf b fs) = (0 < length fs) × (length fs ≤ k)
    IsBucketed k (trunk b n bs) =
        (0 < count bs) × (count bs ≤ k) × (n ≡ count bs * 20) × AreBucketed k bs

    pub AreBucketed : ℕ → Branches Feature Box → Type 0
    AreBucketed k nil = Unit
    AreBucketed k (cons b bs) = IsBucketed k b × AreBucketed k bs

abbrev pub feature_of : {Feature Box : Type 0} → HilbertItem Feature Box → Feature
feature_of i = i.feature

module _ {Feature : Type 0} (g : Geometry Feature)
    (sort : List (HilbertItem Feature g.Box) → List (HilbertItem Feature g.Box)) (bucket_size : ℕ)
    (b : 1 < bucket_size) where
  abbrev N : Type 0
  N = Node g sort bucket_size

  abbrev all_features : List N → List Feature
  all_features [] = []
  all_features (n ∷ ns) = features_of n ++ all_features ns

  features_below-chain :
      (ns : List N) → features_below (chain g sort bucket_size ns) ≡ all_features ns
  features_below-chain [] = refl
  features_below-chain (n ∷ ns) =
      ap (λ (t : List Feature). features_of n ++ t) (features_below-chain ns)

  count-chain : (ns : List N) → count (chain g sort bucket_size ns) ≡ length ns
  count-chain [] = refl
  count-chain (n ∷ ns) = ap suc (count-chain ns)

  AreBucketed-chain :
      (ns : List N)
      → All (IsBucketed bucket_size) ns
      → AreBucketed bucket_size (chain g sort bucket_size ns)
  AreBucketed-chain [] h = tt
  AreBucketed-chain (n ∷ ns) h = (h.0, AreBucketed-chain ns h.1)

  all_features-append :
      (xs ys : List N) → all_features (xs ++ ys) ≡ all_features xs ++ all_features ys
  all_features-append [] ys = refl
  all_features-append (x ∷ xs) ys =
      rw (all_features-append xs ys)
        (sym (append_assoc (features_of x) (all_features xs) (all_features ys)))

  abbrev IsGroup {ℓ} : {A : Type ℓ} → List A → Type 0
  IsGroup xs = (0 < length xs) × (length xs ≤ bucket_size)

  -- The leaves hold the items in order.
  leaves-features :
      (groups : List (List (Item g sort bucket_size)))
      → All IsGroup groups
      → (all_features (map (create_leaf g sort bucket_size) groups)
          ≡ map feature_of (concat groups))
        × All (IsBucketed bucket_size) (map (create_leaf g sort bucket_size) groups)
  unfolding create_leaf
  leaves-features [] h = (refl, tt)
  leaves-features (x ∷ xs) h =
      let (ih, rest) = leaves-features xs h.1 in
      (rw ih (sym (map-append _ _ _)), (omega (arith, length-map x feature_of), rest))

  trunks-features :
      (groups : List (List N))
      → All IsGroup groups
      → All (IsBucketed bucket_size) (concat groups)
      → (all_features (map (create_trunk g sort bucket_size) groups) ≡ all_features (concat groups))
        × All (IsBucketed bucket_size) (map (create_trunk g sort bucket_size) groups)
  unfolding create_trunk
  trunks-features [] h w = (refl, tt)
  trunks-features (x ∷ xs) h w =
      let (ih, rest) =
        trunks-features xs h.1 (All-append_right (IsBucketed bucket_size) x (concat xs) w) in
      let c = count-chain x in
      (
        rw (ih, features_below-chain x) (sym (all_features-append x (concat xs))),
        (
          (
            omega arith,
            omega arith,
            omega arith,
            AreBucketed-chain x (All-append_left (IsBucketed bucket_size) x (concat xs) w),
          ),
          rest,
        ),
      )

  build_levels-total :
      (fuel : ℕ) (nodes : List N)
      → 0 < length nodes
      → length nodes < fuel
      → All (IsBucketed bucket_size) nodes
      → (t : N) × (build_levels g sort bucket_size fuel nodes ≡ some t)
        × (features_of t ≡ all_features nodes)
        × IsBucketed bucket_size t
  unfolding build_levels
  build_levels-total zero nodes pos h w = absurd (omega arith)
  build_levels-total (suc fuel) nodes pos h w =
      let (parents, e, v) =
        chunks-IsLevel g sort bucket_size (omega arith) (length nodes + 1)
          (create_trunk g sort bucket_size) nodes pos (omega arith) in
      let (same, wide) =
        trunks-features v.groups v.full (subst (All (IsBucketed bucket_size)) (sym v.joined) w) in
      let flat : all_features parents ≡ all_features nodes =
        ap all_features v.made ∙ same ∙ ap all_features v.joined in
      rw (e, build_levels)
        (go parents v.some_node v.few flat (subst (All (IsBucketed bucket_size)) (sym v.made) wide)
          (build_levels-total fuel))
    where
      go :
          (parents : List N)
          → 0 < length parents
          → length parents * bucket_size < length nodes + bucket_size
          → all_features parents ≡ all_features nodes
          → All (IsBucketed bucket_size) parents
          → ((ns : List N)
              → 0 < length ns
              → length ns < fuel
              → All (IsBucketed bucket_size) ns
              → (t : N) × (build_levels g sort bucket_size fuel ns ≡ some t)
                × (features_of t ≡ all_features ns)
                × IsBucketed bucket_size t)
          → (t : N) × ((elim parents [
            | [] ↦ none
            | p ∷ [] ↦ some p
            | p ∷ q ∷ more ↦ build_levels g sort bucket_size fuel (p ∷ q ∷ more)
          ])
              ≡ some t)
            × (features_of t ≡ all_features nodes)
            × IsBucketed bucket_size t
      go [] some_ few flat w next = absurd (omega arith)
      go (p ∷ []) some_ few flat w next = (p, refl, sym (append-nil _) ∙ flat, w.0)
      go (p ∷ q ∷ more) some_ few flat w next =
          let (t, e, f, k) = next (p ∷ q ∷ more) (omega arith) (grind arith) w in
          (t, e, f ∙ flat, k)

  -- `build` ends with a tree for every list of features but the empty one: read from left to right
  -- its leaves hold the features in the order of the sort, every node has between one child and
  -- `bucket_size`, which is at least 2, and every trunk is 20 bytes a child.
  pub build-total :
      (features : List Feature)
      → 0 < length features
      → ((items : List (Item g sort bucket_size)) → Perm (sort items) items)
      → (t : N) × (build g sort bucket_size features ≡ some t)
        × (features_of t ≡ map feature_of (sort (map (item_of g sort bucket_size) features)))
        × IsBucketed bucket_size t
  unfolding build
  build-total features pos sorts =
      let items = map (item_of g sort bucket_size) features in
      let many : length (sort items) ≡ length features =
        length-perm (sorts items) ∙ length-map features _ in
      let (leaves, e, v) =
        chunks-IsLevel g sort bucket_size (omega arith) (length features + 1)
          (create_leaf g sort bucket_size) (sort items) (omega arith) (omega arith) in
      let (same, wide) = leaves-features v.groups v.full in
      let (t, q, f, w) =
        build_levels-total (length leaves + 1) leaves v.some_node (omega arith)
          (subst (All (IsBucketed bucket_size)) (sym v.made) wide) in
      (t, rw (e, build) q, f ∙ ap all_features v.made ∙ same ∙ ap (map feature_of) v.joined, w)

  -- Features that follow one another by their distance along the curve.
  abbrev pub InOrder : List Feature → Type 0
  InOrder [] = Unit
  InOrder (x ∷ []) = Unit
  InOrder (x ∷ y ∷ fs) = (g.distance x ≤ g.distance y) × InOrder (y ∷ fs)

  abbrev pub IsSorted : List (Item g sort bucket_size) → Type 0
  IsSorted [] = Unit
  IsSorted (x ∷ []) = Unit
  IsSorted (x ∷ y ∷ items) = (x.distance ≤ y.distance) × IsSorted (y ∷ items)

  -- An item carries the distance of its feature.
  item_distance :
      (features : List Feature) (i : Item g sort bucket_size)
      → Memᴰ i (map (item_of g sort bucket_size) features)
      → i.distance ≡ g.distance i.feature
  item_distance [] i m = absurd (Memᴰ.not-nil m)
  item_distance (f ∷ features) i m = elim (Memᴰ.cases_cons m) [
    | inl e ↦
        subst (λ (x : Item g sort bucket_size). x.distance ≡ g.distance x.feature) (sym e) refl
    | inr later ↦ item_distance features i later
  ]

  sorted-InOrder :
      (items : List (Item g sort bucket_size))
      → ((i : Item g sort bucket_size) → Mem i items → i.distance ≡ g.distance i.feature)
      → IsSorted items
      → InOrder (map feature_of items)
  sorted-InOrder [] d h = tt
  sorted-InOrder (x ∷ []) d h = tt
  sorted-InOrder (x ∷ y ∷ items) d (le, h) =
      let dx = d x mem-cons_self in
      let dy = d y (mem-cons_of_mem x mem-cons_self) in
      (omega (arith, le, dx, dy), sorted-InOrder (y ∷ items) (λ i m. d i (mem-cons_of_mem x m)) h)

  pub build-perm :
      (features : List Feature)
      → 0 < length features
      → ((items : List (Item g sort bucket_size)) → Perm (sort items) items)
      → (t : N) × (build g sort bucket_size features ≡ some t) × Perm (features_of t) features
  build-perm features pos sorts =
      let (t, e, f, _) = build-total features pos sorts in
      let items = map (item_of g sort bucket_size) features in
      (
        t,
        e,
        rw f (
            subst (Perm (map feature_of (sort items))) (map_items features)
              (Perm.map feature_of (sorts items))),
      )
    where
      map_items : (fs : List Feature) → map feature_of (map (item_of g sort bucket_size) fs) ≡ fs
      map_items [] = refl
      map_items (x ∷ xs) = ap (λ (t : List Feature). x ∷ t) (map_items xs)

  -- With a sort that rearranges the items and puts them in the order of their distances, and a bucket
  -- size of at least 2: for every list of features but the empty one, `build` ends with a tree. It
  -- holds the features, each once, from left to right in the order of their distances along the Hilbert
  -- curve; every node has between one child and `bucket_size`, and every trunk is 20 bytes a child.
  pub build-InOrder :
      (features : List Feature)
      → 0 < length features
      → ((items : List (Item g sort bucket_size)) → Perm (sort items) items)
      → ((items : List (Item g sort bucket_size)) → IsSorted (sort items))
      → (t : N) × (build g sort bucket_size features ≡ some t)
        × Perm (features_of t) features
        × InOrder (features_of t)
        × IsBucketed bucket_size t
  build-InOrder features pos perms orders =
      let items = map (item_of g sort bucket_size) features in
      let (t, e, f, w) = build-total features pos perms in
      let (t', e', p) = build-perm features pos perms in
      let same : t' ≡ t = some-injective _ _ (sym e' ∙ e) in
      (
        t,
        e,
        subst (λ x. Perm (features_of x) features) same p,
        subst InOrder (sym f) (
            sorted-InOrder (sort items)
              (λ i m.
                ∥∥₁_elim ((Perm.mem_iff (perms items)).0 m)
                  (ℕ_set i.distance (g.distance i.feature)) (item_distance features i))
              (orders items)),
        w,
      )
