-- ===== src/Tes/Access/Tests.antt =====
-- Accesses by number, of two strings and of the features of a small index.
use geodesk_gol.Prelude.{
  ℕ, ◌+◌, ◌≤◌, ◌≡◌, ◌↔◌, Bool, true, false, some, List, [], ◌∷◌, ◌++◌, length, get_elem?, arith,
}
use geodesk_gol.Tes.Index.{Entry}
use geodesk_gol.Tes.Index.Entries.{tagged}
use geodesk_gol.Tes.Access.{
  found, outside, get_string, get_tag_table, get_relation_table, get_feature, get_node,
  get_relation,
}
use geodesk_gol.Tes.Access.Bounds.{
  Keeps, shared_tables-outside, features_are_kept, numbers_of_index,
}

abbrev test_strings : List ℕ
test_strings = 65 ∷ 66 ∷ []

abbrev test_nodes : List (ℕ × Bool)
test_nodes = (5, true) ∷ (300, false) ∷ []

abbrev test_relations : List (ℕ × Bool)
test_relations = (7, true) ∷ []

abbrev test_features : List Entry
test_features = tagged 0 test_nodes ++ tagged 2 test_relations

shared_tables-outside_example :
    ((get_string test_strings 2 ≡ outside) ↔ (2 ≡ length test_strings))
    × ((get_tag_table test_strings 2 ≡ outside) ↔ (2 ≡ length test_strings))
    × ((get_relation_table test_strings 2 ≡ outside) ↔ (length test_strings ≤ 2))
shared_tables-outside_example = shared_tables-outside test_strings 2

features_are_kept_example :
    Keeps (λ e. Unit) (get_feature test_features 0)
    × Keeps (λ e. e.type_code ≡ 0) (get_node test_features 2 0)
    × Keeps (λ e. e.type_code ≡ 2) (get_relation test_features 2 0)
features_are_kept_example = features_are_kept test_features 2 2 0 (omega arith)

numbers_of_index_example :
    ((e : Entry) × (get_elem? (tagged 0 test_nodes) 1 ≡ some e)
      × (get_node test_features 2 1 ≡ found e))
    × ((e : Entry) × (get_elem? (tagged 2 test_relations) 0 ≡ some e)
        × (get_relation test_features (2 + 0) 0 ≡ found e))
numbers_of_index_example =
    numbers_of_index test_nodes [] test_relations 1 0 (omega arith) (omega arith)
