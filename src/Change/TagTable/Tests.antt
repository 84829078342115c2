-- ===== src/Change/TagTable/Tests.antt =====
-- A tag's fields, and a table compared with another that has a different global key.
use geodesk_gol.Prelude.{◌+◌, ◌*◌, ◌^◌, ◌≡◌, true, [], ◌∷◌, map, arith}
use geodesk_gol.Change.TagTable.{TagTable, tag_of, key, value, type_code, equals}
use geodesk_gol.Change.TagTable.Fields.{tag_of_fields}
use geodesk_gol.Change.TagTable.Equals.{stored_global, with_key, equals_ignores_global_keys}

tag_of_fields_case :
    (key (tag_of 300 2 70000) ≡ 300)
    × (type_code (tag_of 300 2 70000) ≡ 2)
    × (value (tag_of 300 2 70000) ≡ 70000)
tag_of_fields_case = tag_of_fields 300 2 70000 (omega arith) (omega arith) (omega arith)

-- The global key 20 with the value 5.
abbrev test_table : TagTable
test_table = record { locals = []; globals = (5 * 2 ^ 32 + 20 * 4 + 1) ∷ [] }

equals_ignores_global_keys_example :
    equals
      (λ n. n)
      test_table
      []
      (map (with_key (λ n. n) (λ n. n + 1)) (map (stored_global (λ n. n)) test_table.globals))
    ≡ true
equals_ignores_global_keys_example = equals_ignores_global_keys (λ n. n) test_table (λ n. n + 1)
