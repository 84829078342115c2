-- ===== src/Tile/KeyIndex/Tests.antt =====
-- The index of a tile with three categories.
use mathlib.Core.List.{Perm}
use geodesk_gol.Prelude.{ℕ, ◌+◌, ◌≡◌, refl, Option, none, some, List, [], ◌∷◌, arith}
use geodesk_gol.Tile.KeyIndex.Ring.{Holds, holds_some, add_feature-Holds, add-Holds}
use geodesk_gol.Tile.KeyIndex.Counts.{features_in}
use geodesk_gol.Tile.KeyIndex.Closing.{IsClosed, build-IsClosed}
use geodesk_gol.Tile.KeyIndex.{
  Root, Index, IndexSettings, multi_category, link_feature, link_rings, add_feature, add, emptied,
  splice, add_to_category, consolidate, place_root, insert_root, sort_root, sort_roots, build_root,
  build_roots, merge_roots, close, build,
}

abbrev no_root : Root ℕ
no_root = record { index_bits = 0; feature_count = 0; first = none; trunk = none }

abbrev blank : Index ℕ
blank = record {
  next = λ f. f;
  roots = λ r. no_root;
  next_root = λ r. none;
  first_root = none;
  root_count = 0;
}

-- A spatial index is the number of its features here.
abbrev counted : (ℕ → ℕ) → Option ℕ → ℕ → Option ℕ
counted next first count = some count

abbrev settings : IndexSettings
settings = record { max_key_indexes = 2; key_index_min_features = 2 }

-- Two features of category 3, three of category 5, one of category 7.
filled : Index ℕ
filled = add_to_category counted 106 7 64 (
    add_to_category counted 105 5 16 (
      add_to_category counted 104 5 16 (
        add_to_category counted 103 5 16
          (add_to_category counted 102 3 4 (add_to_category counted 101 3 4 blank)))))

-- Category 5 has a root of its own; the others are merged.
built_index :
    ((build counted settings filled).first_root ≡ some 5)
    × ((build counted settings filled).next_root 5 ≡ some multi_category)
    × (((build counted settings filled).roots 5).trunk ≡ some 3)
    × (((build counted settings filled).roots multi_category).trunk ≡ some 3)
    × ((build counted settings filled).root_count ≡ 2)
unfolding filled add_to_category add_feature link_feature build sort_roots sort_root insert_root
    place_root consolidate add link_rings splice build_roots build_root merge_roots close
built_index = (refl, refl, refl, refl, refl)

abbrev self : ℕ → ℕ
self f = f

abbrev one : ℕ → Root ℕ
one f = record { index_bits = 4; feature_count = 1; first = some f; trunk = none }

one-Holds : (f : ℕ) → Holds self (one f) (f ∷ [])
one-Holds f = holds_some f [] refl refl refl

add_feature-Holds_example :
    (ys : List ℕ) × Holds (link_feature 102 (some 101) self) (add_feature 102 8 (one 101)) ys
    × Perm ys (102 ∷ 101 ∷ [])
add_feature-Holds_example =
    add_feature-Holds self (one 101) (101 ∷ []) 102 8 (one-Holds 101)
      (((λ e. absurd (omega arith)), tt), (tt, tt)) (omega arith)

add-Holds_example :
    (zs : List ℕ) × Holds (link_rings (one 101) (one 102) self) (add (one 101) (one 102)) zs
    × Perm zs (101 ∷ 102 ∷ [])
    × Holds (link_rings (one 101) (one 102) self) (emptied (one 102)) []
add-Holds_example =
    add-Holds self (one 101) (one 102) (101 ∷ []) (102 ∷ []) (one-Holds 101) (one-Holds 102)
      (((λ e. absurd (omega arith)), tt), (tt, tt)) (omega arith)

build-IsClosed_example :
    IsClosed counted
      (features_in (multi_category + 1) filled.roots)
      2
      (build counted settings filled)
unfolding filled add_to_category add_feature features_in
build-IsClosed_example =
    build-IsClosed counted settings filled refl refl (λ r. refl) (omega arith) (omega arith)
