-- ===== src/Tile/HilbertIndex/Tests.antt =====
-- The spatial index of a few features; a feature is its distance here, and a box a least and a
-- greatest distance.
use mathlib.Core.List.{Perm}
use mathlib.Core.List.Perm
use geodesk_gol.Prelude.{
  ℕ, ◌≤◌, ◌≡◌, refl, min, max, inl, inr, Bool-cases, leb, leb→le, leb→gt, if◌then◌else◌, some, List,
  [], ◌∷◌, arith,
}
use geodesk_gol.Tile.HilbertIndex.Tree.{
  features_of, IsBucketed, InOrder, IsSorted, build-total, build-InOrder,
}
use geodesk_gol.Tile.HilbertIndex.{
  leaf, trunk, nil, cons, Geometry, HilbertItem, Node, create_leaf, create_trunk, chunks,
  build_levels, build,
}

abbrev line : Geometry ℕ
line = record {
  Box = ℕ × ℕ;
  empty_box = (1000, 0);
  expand = λ a b. (min a.0 b.0, max a.1 b.1);
  bounds = λ f. (f, f);
  distance = λ f. f;
}

-- The features are given in the order of their distance.
abbrev in_order : List (HilbertItem ℕ (ℕ × ℕ)) → List (HilbertItem ℕ (ℕ × ℕ))
in_order items = items

abbrev features : List ℕ
features = 3 ∷ 5 ∷ 8 ∷ 9 ∷ 12 ∷ []

three_levels :
    build line in_order 2 features
    ≡ some (
        trunk
          (3, 12)
          40
          (cons
            (trunk
              (3, 9)
              40
              (cons (leaf (3, 5) (3 ∷ 5 ∷ [])) (cons (leaf (8, 9) (8 ∷ 9 ∷ [])) nil)))
            (cons (trunk (12, 12) 20 (cons (leaf (12, 12) (12 ∷ [])) nil)) nil)))
unfolding build build_levels chunks create_leaf create_trunk
three_levels = refl

build-total_case :
    (t : Node line in_order 2) × (build line in_order 2 features ≡ some t)
    × (features_of t ≡ features)
    × IsBucketed 2 t
build-total_case =
    build-total line in_order 2 (omega arith) features (omega arith) (λ items. Perm.refl items)

-- The items put in their order one by one.
abbrev insert : HilbertItem ℕ (ℕ × ℕ) → List (HilbertItem ℕ (ℕ × ℕ)) → List (HilbertItem ℕ (ℕ × ℕ))
insert x [] = x ∷ []
insert x (y ∷ items) = if leb x.distance y.distance then x ∷ y ∷ items else y ∷ insert x items

abbrev by_distance : List (HilbertItem ℕ (ℕ × ℕ)) → List (HilbertItem ℕ (ℕ × ℕ))
by_distance [] = []
by_distance (x ∷ items) = insert x (by_distance items)

insert-perm :
    (x : HilbertItem ℕ (ℕ × ℕ)) (items : List (HilbertItem ℕ (ℕ × ℕ)))
    → Perm (insert x items) (x ∷ items)
insert-perm x [] = Perm.refl _
insert-perm x (y ∷ items) = elim (Bool-cases (leb x.distance y.distance)) [
  | inl e ↦ rw e (Perm.refl _)
  | inr e ↦ rw e (Perm.trans (Perm.cons y (insert-perm x items)) (Perm.swap x y items))
]

by_distance-perm : (items : List (HilbertItem ℕ (ℕ × ℕ))) → Perm (by_distance items) items
by_distance-perm [] = Perm.nil
by_distance-perm (x ∷ items) =
    Perm.trans (insert-perm x (by_distance items)) (Perm.cons x (by_distance-perm items))

insert_below :
    (y x : HilbertItem ℕ (ℕ × ℕ)) (items : List (HilbertItem ℕ (ℕ × ℕ)))
    → y.distance ≤ x.distance
    → IsSorted line by_distance 2 (omega arith) (y ∷ items)
    → IsSorted line by_distance 2 (omega arith) (insert x items)
    → IsSorted line by_distance 2 (omega arith) (y ∷ insert x items)
insert_below y x [] le h h' = (le, tt)
insert_below y x (z ∷ items) le (le', h) h' = elim (Bool-cases (leb x.distance z.distance)) [
  | inl e ↦ rw e (le, rw e at h')
  | inr e ↦ rw e (le', rw e at h')
]

insert-IsSorted :
    (x : HilbertItem ℕ (ℕ × ℕ)) (items : List (HilbertItem ℕ (ℕ × ℕ)))
    → IsSorted line by_distance 2 (omega arith) items
    → IsSorted line by_distance 2 (omega arith) (insert x items)
insert-IsSorted x [] h = tt
insert-IsSorted x (y ∷ items) h = elim (Bool-cases (leb x.distance y.distance)) [
  | inl e ↦ rw e (leb→le x.distance y.distance e, h)
  | inr e ↦ rw e (
      insert_below y x items (omega (arith, leb→gt x.distance y.distance e)) h
        (insert-IsSorted x items (rest y items h)))
]
  where
    rest :
        (y : HilbertItem ℕ (ℕ × ℕ)) (items : List (HilbertItem ℕ (ℕ × ℕ)))
        → IsSorted line by_distance 2 (omega arith) (y ∷ items)
        → IsSorted line by_distance 2 (omega arith) items
    rest y [] h = tt
    rest y (z ∷ items) h = h.1

by_distance-IsSorted :
    (items : List (HilbertItem ℕ (ℕ × ℕ)))
    → IsSorted line by_distance 2 (omega arith) (by_distance items)
by_distance-IsSorted [] = tt
by_distance-IsSorted (x ∷ items) =
    insert-IsSorted x (by_distance items) (by_distance-IsSorted items)

build-InOrder_example :
    (t : Node line by_distance 2) × (build line by_distance 2 (8 ∷ 3 ∷ 12 ∷ 5 ∷ 9 ∷ []) ≡ some t)
    × Perm (features_of t) (8 ∷ 3 ∷ 12 ∷ 5 ∷ 9 ∷ [])
    × InOrder line by_distance 2 (omega arith) (features_of t)
    × IsBucketed 2 t
build-InOrder_example =
    build-InOrder line by_distance 2 (omega arith) (8 ∷ 3 ∷ 12 ∷ 5 ∷ 9 ∷ []) (omega arith)
      by_distance-perm by_distance-IsSorted
