-- ===== src/Tile/HilbertIndex/Chunks.antt =====
-- One level of the index: the loop cuts a list into full groups and a rest.
use geodesk_gol.Prelude.{
  ℕ, zero, suc, ◌+◌, ◌*◌, ◌≤◌, ◌<◌, ◌≡◌, refl, ap, inl, inr, some, List, [], ◌∷◌, ◌++◌, map, length,
  take, drop, leb, leb→le, leb→gt, Bool-cases, All, append-nil, arith, take-append-drop,
  length-take, length-drop,
}
use geodesk_gol.Tile.HilbertIndex.{Geometry, HilbertItem, Node, chunks}

abbrev pub concat {ℓ} : {A : Type ℓ} → List (List A) → List A
concat [] = []
concat (g ∷ gs) = g ++ concat gs

-- A level: the groups that its nodes were made of.
pub record IsLevel {ℓ} {A : Type ℓ} {N : Type 0} (bucket_size : ℕ) (create : List A → N)
    (xs : List A) (nodes : List N) : Type ℓ where
  pub groups : List (List A)
  pub made : nodes ≡ map create groups
  pub joined : concat groups ≡ xs
  pub full : All (λ g. (0 < length g) × (length g ≤ bucket_size)) groups
  pub some_node : 0 < length nodes
  pub few : length nodes * bucket_size < length xs + bucket_size

module _ {Feature : Type 0} (g : Geometry Feature)
    (sort : List (HilbertItem Feature g.Box) → List (HilbertItem Feature g.Box)) (bucket_size : ℕ)
    (b : 0 < bucket_size) where
  pub chunks-IsLevel {ℓ} :
      {A : Type ℓ} (fuel : ℕ) (create : List A → Node g sort bucket_size) (xs : List A)
      → 0 < length xs
      → length xs < fuel
      → (nodes : List (Node g sort bucket_size)) × (chunks g sort bucket_size fuel create xs
          ≡ some nodes)
        × IsLevel bucket_size create xs nodes
  unfolding chunks
  chunks-IsLevel zero create xs pos h = absurd (omega arith)
  chunks-IsLevel (suc fuel) create xs pos h = elim (Bool-cases (leb (length xs) bucket_size)) [
    | inl last ↦ (
      create xs ∷ [],
      rw (last, chunks) refl,
      record {
        groups = xs ∷ [];
        made = refl;
        joined = append-nil xs;
        full = ((pos, leb→le _ _ last), tt);
        some_node = omega arith;
        few = omega arith;
      },
    )
    | inr more ↦
        let left = length-drop bucket_size xs in
        let cut = length-take bucket_size xs in
        let big = leb→gt _ _ more in
        let (nodes, e, v) =
          chunks-IsLevel fuel create (drop bucket_size xs) (omega arith) (omega arith) in
        (
          create (take bucket_size xs) ∷ nodes,
          rw (more, e, chunks) refl,
          record {
            groups = take bucket_size xs ∷ v.groups;
            made =
                ap (λ (t : List (Node g sort bucket_size)). create (take bucket_size xs) ∷ t)
                  v.made;
            joined = rw v.joined (take-append-drop bucket_size xs);
            full = ((omega arith, omega arith), v.full);
            some_node = omega arith;
            few = omega (arith, v.few);
          },
        )
  ]
