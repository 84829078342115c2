-- ===== src/Tes/Index/Sorted.antt =====
-- The index that the tile writer makes from its sorted features: src/tile/tes/TesWriter.cpp.
use geodesk_gol.Prelude.{
  ℕ, suc, ◌+◌, ◌-◌, ◌*◌, ◌%◌, ◌^◌, ◌≤◌, bit_or, Bool, true, false, not, ◌||◌, ◌≡◌, refl, sym, ap,
  ap₂, ◌∙◌, List, [], ◌∷◌, ◌++◌, length, length-append, append_assoc, append-nil, arith, ==_refl,
  ◌==◌, if◌then◌else◌,
}
use geodesk_gol.Tes.Wire.{Varint}
use geodesk_gol.Tes.Index.{
  SortedFeature, Progress, is_empty_list, write_list, write_index, write_sorted_feature,
  write_sorted_features, write_sorted_index,
}

abbrev pub typed : ℕ → List ℕ → List SortedFeature
typed t [] = []
typed t (id ∷ ids) = record { type_code = t; id = id } ∷ typed t ids

abbrev pub all_changed : List ℕ → List (ℕ × Bool)
all_changed [] = []
all_changed (id ∷ ids) = (id, true) ∷ all_changed ids

abbrev last_of : ℕ → List ℕ → ℕ
last_of prev [] = prev
last_of prev (id ∷ ids) = last_of id ids

abbrev after : List ℕ → List ℕ × Progress → List ℕ × Progress
after bytes r = (bytes ++ r.0, r.1)

abbrev at_type : ℕ → ℕ → ℕ → ℕ → Progress
at_type t prev n w = record { prev_type = t; prev_id = prev; node_count = n; way_count = w }

append_regroup :
    (zs bs ws rs : List ℕ) → zs ++ (0 ∷ bs) ++ (ws ++ rs) ≡ zs ++ (0 ∷ (bs ++ ws)) ++ rs
append_regroup zs bs ws rs =
    append_assoc zs (0 ∷ bs) (ws ++ rs)
    ∙ ap (λ l. zs ++ (0 ∷ l)) (sym (append_assoc bs ws rs))
    ∙ sym (append_assoc zs (0 ∷ (bs ++ ws)) rs)

module _ (v : Varint) where
  -- The features of the type that it is at.
  write_sorted_features-typed :
      (ids : List ℕ) (i t prev n w : ℕ) (fs : List SortedFeature)
      → write_sorted_features v i (typed t ids ++ fs) (at_type t prev n w)
        ≡ after
            (write_list v prev (all_changed ids))
            (write_sorted_features v (i + length ids) fs (at_type t (last_of prev ids) n w))
  unfolding write_list write_sorted_features write_sorted_feature
  write_sorted_features-typed [] i t prev n w fs = let z : i + 0 ≡ i = omega arith in rw z refl
  write_sorted_features-typed (id ∷ ids) i t prev n w fs =
      let z : i + suc (length ids) ≡ i + 1 + length ids = omega arith in
      let bytes = v.write (bit_or ((id + 2 ^ 64 - prev) % 2 ^ 64 * 2 % 2 ^ 64) 1) in
      rw (z, write_sorted_features, write_sorted_feature, ==_refl t)
        (ap (after bytes) (write_sorted_features-typed ids (i + 1) t id n w fs)
          ∙ ap₂ (λ a b. (a, b)) (sym (append_assoc bytes (write_list v id (all_changed ids)) _))
              refl)

  -- The first feature of a later type, after the zero bytes that lead to it.
  write_sorted_features-next :
      (ids : List ℕ) (i t s prev n w : ℕ) (zeros : List ℕ) (fs : List SortedFeature)
      → (id : ℕ) → (t == s) ≡ false
      → (if t == 1 then [] else if s == 0 then 0 ∷ [] else []) ≡ zeros
      → write_sorted_features v i (typed t (id ∷ ids) ++ fs) (at_type s prev n w)
        ≡ after (zeros ++ 0 ∷ write_list v 0 (all_changed (id ∷ ids))) (
            write_sorted_features v
              (i + suc (length ids))
              fs
              (at_type t (last_of id ids) (if t == 1 then i else n) (if t == 1 then w else i - n)))
  unfolding write_list write_sorted_features write_sorted_feature
  write_sorted_features-next ids i t s prev n w zeros fs id new z =
      let j : i + suc (length ids) ≡ i + 1 + length ids = omega arith in
      let m : (id + 2 ^ 64 - 0) % 2 ^ 64 ≡ id % 2 ^ 64 = omega arith in
      let bytes = v.write (bit_or (id % 2 ^ 64 * 2 % 2 ^ 64) 1) in
      rw (j, m, write_sorted_features, write_sorted_feature, new, z)
        (ap (after (zeros ++ 0 ∷ bytes)) (write_sorted_features-typed ids (i + 1) t id _ _ fs)
          ∙ ap₂ (λ a b. (a, b)) (append_regroup zeros bytes (write_list v id (all_changed ids)) _)
              refl)

  -- The relations, from type `s`: 0 where there are no ways.
  write_sorted_features-relations :
      (rs : List ℕ) (i s prev n w : ℕ) (zeros : List ℕ)
      → (2 == s) ≡ false
      → (if s == 0 then 0 ∷ [] else []) ≡ zeros
      → n ≤ i
      → (write_sorted_features v i (typed 2 rs) (at_type s prev n w)).0 ≡ (
          if is_empty_list (all_changed rs)
          then []
          else zeros ++ 0 ∷ write_list v 0 (all_changed rs))
        × (1 ≤ length rs
            → (write_sorted_features v i (typed 2 rs) (at_type s prev n w)).1.node_count
                + (write_sorted_features v i (typed 2 rs) (at_type s prev n w)).1.way_count
              ≡ i)
  unfolding write_list write_sorted_features write_sorted_feature
  write_sorted_features-relations [] i s prev n w zeros new z le =
      (refl, λ h. absurd (omega (arith, h)))
  write_sorted_features-relations (id ∷ ids) i s prev n w zeros new z le =
      let nil : typed 2 (id ∷ ids) ++ [] ≡ typed 2 (id ∷ ids) = append-nil _ in
      let e : write_sorted_features v i (typed 2 (id ∷ ids)) (at_type s prev n w)
          ≡ after (zeros ++ 0 ∷ write_list v 0 (all_changed (id ∷ ids)))
              ([], at_type 2 (last_of id ids) n (i - n)) =
        ap (λ l. write_sorted_features v i l (at_type s prev n w)) (sym nil)
        ∙ write_sorted_features-next ids i 2 s prev n w zeros [] id new z in
      (
        ap (λ p. p.0) e ∙ append-nil _,
        λ h. ap (λ p. p.1.node_count + p.1.way_count) e ∙ omega (arith, le),
      )

  length-typed : (t : ℕ) (ids : List ℕ) → length (typed t ids) ≡ length (all_changed ids)
  length-typed t [] = refl
  length-typed t (id ∷ ids) = ap suc (length-typed t ids)

  -- The bytes for the ways and relations, and the place of the first relation.
  write_sorted_features-later :
      (ws rs : List ℕ) (i prev : ℕ)
      → (write_sorted_features v i (typed 1 ws ++ typed 2 rs) (at_type 0 prev 0 0)).0 ≡ (
          if not (is_empty_list (all_changed ws)) || not (is_empty_list (all_changed rs))
          then 0 ∷ write_list v 0 (all_changed ws)
            ++ (if not (is_empty_list (all_changed rs))
                then 0 ∷ write_list v 0 (all_changed rs)
                else [])
          else [])
        × (1 ≤ length rs
            → (write_sorted_features v i
                  (typed 1 ws ++ typed 2 rs)
                  (at_type 0 prev 0 0)).1.node_count
                + (write_sorted_features v i
                    (typed 1 ws ++ typed 2 rs)
                    (at_type 0 prev 0 0)).1.way_count
              ≡ i + length ws)
  unfolding write_list
  write_sorted_features-later [] [] i prev =
      let r = write_sorted_features-relations [] i 0 prev 0 0 (0 ∷ []) refl refl (omega arith) in
      (r.0, λ h. absurd (omega (arith, h)))
  write_sorted_features-later [] (id ∷ ids) i prev =
      let r =
        write_sorted_features-relations (id ∷ ids) i 0 prev 0 0 (0 ∷ []) refl refl (omega arith) in
      (r.0, λ h. omega (arith, r.1 h))
  write_sorted_features-later (w ∷ ws) [] i prev =
      let e = write_sorted_features-next ws i 1 0 prev 0 0 [] (typed 2 []) w refl refl in
      let r =
        write_sorted_features-relations [] (i + suc (length ws)) 1 (last_of w ws) i 0 [] refl refl
          (omega arith) in
      (
        ap (λ p. p.0) e ∙ ap (λ l. 0 ∷ write_list v 0 (all_changed (w ∷ ws)) ++ l) r.0,
        λ h. absurd (omega (arith, h)),
      )
  write_sorted_features-later (w ∷ ws) (id ∷ ids) i prev =
      let rs = id ∷ ids in
      let e = write_sorted_features-next ws i 1 0 prev 0 0 [] (typed 2 rs) w refl refl in
      let r =
        write_sorted_features-relations rs (i + suc (length ws)) 1 (last_of w ws) i 0 [] refl refl
          (omega arith) in
      (
        ap (λ p. p.0) e ∙ ap (λ l. 0 ∷ write_list v 0 (all_changed (w ∷ ws)) ++ l) r.0,
        λ h. ap (λ p. p.1.node_count + p.1.way_count) e ∙ r.1 h,
      )

  length-typed_all :
      (ns ws rs : List ℕ)
      → length (typed 0 ns ++ (typed 1 ws ++ typed 2 rs))
        ≡ length (all_changed ns) + (length (all_changed ws) + length (all_changed rs))
  length-typed_all ns ws rs =
      length-append (typed 0 ns) (typed 1 ws ++ typed 2 rs)
      ∙ ap₂ (λ a b. a + b) (length-typed 0 ns)
          (length-append (typed 1 ws) (typed 2 rs)
            ∙ ap₂ (λ a b. a + b) (length-typed 1 ws) (length-typed 2 rs))

  -- The tile writer's index of sorted features is, byte for byte, the index that the updater writes
  -- for the same nodes, ways and relations, each marked as changed.
  pub write_sorted_index-write_index :
      (ns ws rs : List ℕ)
      → (write_sorted_index v (typed 0 ns ++ (typed 1 ws ++ typed 2 rs))).0
        ≡ write_index v (all_changed ns) (all_changed ws) (all_changed rs)
  unfolding write_sorted_index write_index
  write_sorted_index-write_index ns ws rs =
      let n =
        v.write (length (all_changed ns) + (length (all_changed ws) + length (all_changed rs))) in
      let e = write_sorted_features-typed ns 0 0 0 0 0 (typed 1 ws ++ typed 2 rs) in
      let later = write_sorted_features-later ws rs (0 + length ns) (last_of 0 ns) in
      rw (length-typed_all ns ws rs) (
        ap (λ p. n ++ p.0) e
        ∙ ap (λ l. n ++ (write_list v 0 (all_changed ns) ++ l)) later.0
        ∙ sym (append_assoc n (write_list v 0 (all_changed ns)) _))

  -- Where there are relations, the number that the tile writer subtracts from a relation's place is
  -- the place of the first relation in the index, which is where the reader's relations start.
  pub write_sorted_index-relations :
      (ns ws rs : List ℕ)
      → 1 ≤ length rs
      → (write_sorted_index v (typed 0 ns ++ (typed 1 ws ++ typed 2 rs))).1.node_count
          + (write_sorted_index v (typed 0 ns ++ (typed 1 ws ++ typed 2 rs))).1.way_count
        ≡ length ns + length ws
  unfolding write_sorted_index
  write_sorted_index-relations ns ws rs some_relation =
      let e = write_sorted_features-typed ns 0 0 0 0 0 (typed 1 ws ++ typed 2 rs) in
      let later = write_sorted_features-later ws rs (0 + length ns) (last_of 0 ns) in
      ap (λ p. p.1.node_count + p.1.way_count) e ∙ later.1 some_relation ∙ omega arith
