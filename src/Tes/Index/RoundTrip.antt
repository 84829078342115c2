-- ===== src/Tes/Index/RoundTrip.antt =====
-- Reading the index that was written.
use geodesk_gol.Prelude.{
  ℕ, zero, suc, ◌+◌, ◌-◌, ◌%◌, ◌^◌, ◌≤◌, ◌<◌, Bool, not, ◌||◌, ◌≡◌, refl, sym, ap, subst, ◌∙◌,
  Option, some, List, [], ◌∷◌, ◌++◌, length, append_assoc, append-nil, if◌then◌else◌, arith,
}
use geodesk_gol.Tes.Wire.{Varint}
use geodesk_gol.Tes.Index.{
  Entry, Read, is_empty_list, write_start, write_list, write_index, read_entries, read_index,
}
use geodesk_gol.Tes.Index.Entries.{
  Ascending, tagged, last_id, prepend, read_entries-nil, read_entries-fuel, read_entries-zero,
}

-- The entries, the places where ways and relations start, and what is left.
abbrev pub Reads : Option Read → List Entry → ℕ → ℕ → List ℕ → Type 0
Reads o es ways relations rest =
    (r : Read) × (o ≡ some r)
    × (r.entries ≡ es)
    × (r.starts 1 ≡ ways)
    × (r.starts 2 ≡ relations)
    × (r.rest ≡ rest)

Reads-prepend :
    (xs : List Entry) (o : Option Read) (es : List Entry) (ways relations : ℕ) (rest : List ℕ)
    → Reads o es ways relations rest
    → Reads (prepend xs o) (xs ++ es) ways relations rest
Reads-prepend xs o es ways relations rest (r, e, a, b, c, d) =
    (record r { entries = xs ++ r.entries }, ap (prepend xs) e, ap (λ l. xs ++ l) a, b, c, d)

Reads-along :
    (o p : Option Read) (es : List Entry) (ways relations : ℕ) (rest : List ℕ)
    → o ≡ p
    → Reads p es ways relations rest
    → Reads o es ways relations rest
Reads-along o p es ways relations rest e h = subst (λ o. Reads o es ways relations rest) (sym e) h

module _ (v : Varint) where
  -- What `write_index` writes for the relations, and for the ways and the relations.
  abbrev relation_bytes : List (ℕ × Bool) → List ℕ
  relation_bytes rs = if not (is_empty_list rs) then 0 ∷ write_list v 0 rs else []

  abbrev way_bytes : List (ℕ × Bool) → List (ℕ × Bool) → List ℕ
  way_bytes ws rs =
      if not (is_empty_list ws) || not (is_empty_list rs)
      then 0 ∷ write_list v 0 ws ++ relation_bytes rs
      else []

  read_entries-relations :
      (rs : List (ℕ × Bool)) (fuel done prev : ℕ) (rest : List ℕ) (starts : ℕ → ℕ)
      → suc (length rs) ≤ fuel
      → Ascending 0 rs
      → starts 2 ≡ done + length rs
      → Reads
          (read_entries v fuel (length rs) done 1 prev (relation_bytes rs ++ rest) starts)
          (tagged 2 rs)
          (starts 1)
          done
          rest
  read_entries-relations [] fuel done prev rest starts le h s = (
    record { entries = []; starts = starts; rest = rest },
    read_entries-nil v fuel done 1 prev rest starts,
    refl,
    refl,
    omega (arith, s),
    refl,
  )
  read_entries-relations (r ∷ rs) zero done prev rest starts le h s = absurd (omega (arith, le))
  read_entries-relations (r ∷ rs) (suc fuel) done prev rest starts le h s =
      let xs = r ∷ rs in
      let bytes = write_list v 0 xs ++ rest in
      let later = write_start 2 done starts in
      let n : length xs ≡ length xs + 0 = omega arith in
      let e : read_entries v (suc fuel) (length xs) done 1 prev (relation_bytes xs ++ rest) starts
          ≡ read_entries v fuel (length xs) done 2 0 bytes later =
        read_entries-zero v fuel (length rs) done 1 prev bytes starts in
      let f : read_entries v fuel (length xs + 0) done 2 0 bytes later
          ≡ prepend (tagged 2 xs) (some (record { entries = []; starts = later; rest = rest })) =
        read_entries-fuel v xs fuel 0 done (done + length xs) 2 0 rest later (omega (arith, le))
          refl h
        ∙ ap (prepend (tagged 2 xs)) (read_entries-nil v _ _ 2 _ rest later) in
      (
        record { entries = tagged 2 xs ++ []; starts = later; rest = rest },
        e ∙ ap (λ c. read_entries v fuel c done 2 0 bytes later) n ∙ f,
        append-nil (tagged 2 xs),
        refl,
        refl,
        refl,
      )

  -- After the 0 of the ways.
  read_entries-ways :
      (ws rs : List (ℕ × Bool)) (fuel done prev : ℕ) (rest : List ℕ) (starts : ℕ → ℕ)
      → 1 ≤ length ws + length rs
      → suc (suc (length ws + length rs)) ≤ fuel
      → Ascending 0 ws
      → Ascending 0 rs
      → starts 2 ≡ done + (length ws + length rs)
      → Reads
          (read_entries v fuel
            (length ws + length rs)
            done
            0
            prev
            ((0 ∷ write_list v 0 ws ++ relation_bytes rs) ++ rest)
            starts)
          (tagged 1 ws ++ tagged 2 rs)
          done
          (done + length ws)
          rest
  read_entries-ways ws rs zero done prev rest starts some_left le hw hr s =
      absurd (omega (arith, le))
  read_entries-ways ws rs (suc fuel) done prev rest starts some_left le hw hr s =
      let later = write_start 1 done starts in
      let bytes = write_list v 0 ws ++ (relation_bytes rs ++ rest) in
      let left = length ws + length rs in
      let n : left ≡ suc (left - 1) = omega (arith, some_left) in
      let join : (0 ∷ write_list v 0 ws ++ relation_bytes rs) ++ rest ≡ 0 ∷ bytes =
        ap (λ l. 0 ∷ l) (append_assoc (write_list v 0 ws) (relation_bytes rs) rest) in
      let e : read_entries v (suc fuel) left done 0 prev (0 ∷ bytes) starts
          ≡ read_entries v fuel left done 1 0 bytes later =
        subst
          (λ c.
            read_entries v (suc fuel) c done 0 prev (0 ∷ bytes) starts
            ≡ read_entries v fuel c done 1 0 bytes later)
          (sym n) (read_entries-zero v fuel (left - 1) done 0 prev bytes starts) in
      let f =
        read_entries-fuel v ws fuel (length rs) done (done + length ws) 1 0
          (relation_bytes rs ++ rest) later (omega (arith, le)) refl hw in
      let g =
        read_entries-relations rs (fuel - length ws) (done + length ws) (last_id 0 ws) rest later
          (omega (arith, le)) hr (omega (arith, s)) in
      Reads-along _ _ _ _ _ _
        (ap (λ l. read_entries v (suc fuel) left done 0 prev l starts) join ∙ e ∙ f)
        (Reads-prepend (tagged 1 ws) _ _ _ _ _ g)

  read_entries-ways_or_end :
      (ws rs : List (ℕ × Bool)) (fuel done prev : ℕ) (rest : List ℕ) (starts : ℕ → ℕ)
      → suc (suc (length ws + length rs)) ≤ fuel
      → Ascending 0 ws
      → Ascending 0 rs
      → starts 1 ≡ done + (length ws + length rs)
      → starts 2 ≡ done + (length ws + length rs)
      → Reads
          (read_entries v fuel (length ws + length rs) done 0 prev (way_bytes ws rs ++ rest) starts)
          (tagged 1 ws ++ tagged 2 rs)
          done
          (done + length ws)
          rest
  read_entries-ways_or_end [] [] fuel done prev rest starts le hw hr s1 s2 = (
    record { entries = []; starts = starts; rest = rest },
    read_entries-nil v fuel done 0 prev rest starts,
    refl,
    omega (arith, s1),
    omega (arith, s2),
    refl,
  )
  read_entries-ways_or_end (w ∷ ws) rs fuel done prev rest starts le hw hr s1 s2 =
      read_entries-ways (w ∷ ws) rs fuel done prev rest starts (omega arith) le hw hr s2
  read_entries-ways_or_end [] (r ∷ rs) fuel done prev rest starts le hw hr s1 s2 =
      read_entries-ways [] (r ∷ rs) fuel done prev rest starts (omega arith) le hw hr s2

  -- What the updater's index holds is what the reader takes in: the nodes, ways and relations in
  -- their order with their flags, the places where ways and relations start, and every byte after it
  -- left, for ids that ascend within a type and stay below 2^63, and fewer than 2^32 features, for any fuel of
  -- at least the number of features and two.
  pub read_index-write_index :
      (ns ws rs : List (ℕ × Bool)) (fuel : ℕ) (rest : List ℕ)
      → Ascending 0 ns
      → Ascending 0 ws
      → Ascending 0 rs
      → length ns + (length ws + length rs) < 2 ^ 32
      → 2 + (length ns + (length ws + length rs)) ≤ fuel
      → Reads
          (read_index v fuel (write_index v ns ws rs ++ rest))
          (tagged 0 ns ++ (tagged 1 ws ++ tagged 2 rs))
          (length ns)
          (length ns + length ws)
          rest
  unfolding write_index read_index
  read_index-write_index ns ws rs fuel rest hn hw hr small le =
      let total = length ns + (length ws + length rs) in
      let starts = write_start 2 total (write_start 1 total (λ t. 0)) in
      let whole : total % 2 ^ 32 ≡ total = omega (arith, small) in
      let f =
        read_entries-fuel v ns fuel (length ws + length rs) 0 (length ns) 0 0
          (way_bytes ws rs ++ rest) starts (omega (arith, le)) (omega arith) hn in
      let g =
        read_entries-ways_or_end ws rs (fuel - length ns) (length ns) (last_id 0 ns) rest starts
          (omega (arith, le)) hw hr refl refl in
      let split : (v.write total ++ write_list v 0 ns ++ way_bytes ws rs) ++ rest
          ≡ v.write total ++ (write_list v 0 ns ++ (way_bytes ws rs ++ rest)) =
        append_assoc (v.write total ++ write_list v 0 ns) (way_bytes ws rs) rest
        ∙ append_assoc (v.write total) (write_list v 0 ns) (way_bytes ws rs ++ rest) in
      Reads-along _ _ _ _ _ _
        (rw
          (
            split,
            read_index,
            v.read-write total (write_list v 0 ns ++ (way_bytes ws rs ++ rest))
                (omega (arith, small)),
            whole,
          )
          f)
        (Reads-prepend (tagged 0 ns) _ _ _ _ _ g)
