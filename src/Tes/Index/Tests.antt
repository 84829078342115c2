-- ===== src/Tes/Index/Tests.antt =====
-- Runs of the index on small inputs.
use geodesk_gol.Prelude.{ℕ, ◌+◌, ◌≡◌, refl, Bool, true, false, some, List, [], ◌∷◌, ◌++◌, arith}
use geodesk_gol.Tes.Wire.Leb.{leb128}
use geodesk_gol.Tes.Index.{write_index, write_list, write_sorted_index, read_index, read_removed}
use geodesk_gol.Tes.Index.Entries.{tagged}
use geodesk_gol.Tes.Index.Removed.{read_removed-write_index}
use geodesk_gol.Tes.Index.RoundTrip.{Reads, read_index-write_index}
use geodesk_gol.Tes.Index.Sorted.{
  typed, all_changed, write_sorted_index-write_index, write_sorted_index-relations,
}

abbrev test_nodes : List (ℕ × Bool)
test_nodes = (5, true) ∷ (300, false) ∷ []

abbrev test_relations : List (ℕ × Bool)
test_relations = (7, true) ∷ []

test_bytes : write_index leb128 test_nodes [] test_relations ≡ 3 ∷ 11 ∷ 206 ∷ 4 ∷ 0 ∷ 0 ∷ 15 ∷ []
unfolding write_index write_list
test_bytes = refl

read_index-write_index_example :
    Reads
      (read_index leb128 9 (write_index leb128 test_nodes [] test_relations ++ 77 ∷ []))
      (tagged 0 test_nodes ++ tagged 2 test_relations)
      2
      2
      (77 ∷ [])
read_index-write_index_example =
    read_index-write_index leb128 test_nodes [] test_relations 9 (77 ∷ [])
      (omega arith, omega arith, (omega arith, omega arith, _)) _ (omega arith, omega arith, _)
      (omega arith) (omega arith)

read_removed-write_index_case :
    read_removed leb128 9 (write_index leb128 test_nodes [] test_relations ++ 77 ∷ [])
    ≡ some (tagged 0 test_nodes ++ tagged 2 test_relations, 77 ∷ [])
read_removed-write_index_case =
    read_removed-write_index leb128 test_nodes [] test_relations 9 (77 ∷ [])
      (omega arith, omega arith, (omega arith, omega arith, _)) _ (omega arith, omega arith, _)
      (omega arith) (omega arith)

write_sorted_index-write_index_example :
    (write_sorted_index leb128 (typed 0 (5 ∷ 300 ∷ []) ++ typed 2 (7 ∷ []))).0
    ≡ write_index leb128 (all_changed (5 ∷ 300 ∷ [])) [] (all_changed (7 ∷ []))
write_sorted_index-write_index_example =
    write_sorted_index-write_index leb128 (5 ∷ 300 ∷ []) [] (7 ∷ [])

write_sorted_index-relations_case :
    (write_sorted_index leb128 (typed 0 (5 ∷ 300 ∷ []) ++ typed 2 (7 ∷ []))).1.node_count
      + (write_sorted_index leb128 (typed 0 (5 ∷ 300 ∷ []) ++ typed 2 (7 ∷ []))).1.way_count
    ≡ 2
write_sorted_index-relations_case =
    write_sorted_index-relations leb128 (5 ∷ 300 ∷ []) [] (7 ∷ []) (omega arith)
