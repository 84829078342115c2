-- ===== src/Tes/Tags/Tests.antt =====
-- Runs of the tag tables on small inputs: a local tag with a string value, and two global tags.
use geodesk_gol.Prelude.{ℕ, ◌+◌, ◌*◌, ◌^◌, ◌≡◌, refl, some, inl, inr, [], ◌∷◌, ◌++◌, arith}
use geodesk_gol.Tes.Wire.Leb.{leb128}
use geodesk_gol.Change.TagTable.{TagTable, key, value, type_code}
use geodesk_gol.Tes.Tags.{write_tag_table, write_global_tags, read_tag_table}
use geodesk_gol.Tes.Tags.Checker.{check_global_tags, check_global_tags-write}
use geodesk_gol.Tes.Tags.RoundTrip.{read_tag_table-write_tag_table}

-- Key string 7 with string value 8, and global keys 20 and 300.
abbrev test_local : ℕ
test_local = 8 * 2 ^ 32 + 7 * 4 + 3

abbrev test_first : ℕ
test_first = 5 * 2 ^ 32 + 20 * 4 + 1

abbrev test_second : ℕ
test_second = 70000 * 2 ^ 32 + 300 * 4 + 2

abbrev test_string_number : ℕ → ℕ
test_string_number n = n + 1

abbrev test_table : TagTable
test_table = record { locals = test_local ∷ []; globals = test_first ∷ test_second ∷ [] }

read_tag_table-write_tag_table_example :
    read_tag_table leb128 10 3 (write_tag_table leb128 test_string_number test_table ++ 77 ∷ [])
    ≡ some (record {
      locals = record { read_key = 8; read_type = 3; read_value = 9 } ∷ [];
      globals =
          record { read_key = 20; read_type = 1; read_value = 5 }
          ∷ record { read_key = 300; read_type = 2; read_value = 70000 }
          ∷ [];
      rest = 77 ∷ [];
    })
unfolding key value type_code
read_tag_table-write_tag_table_example =
    read_tag_table-write_tag_table test_string_number 10 leb128 (test_local ∷ []) (test_second ∷ [])
      test_first 3 (77 ∷ []) (omega arith) ((omega arith, inl (refl, omega arith)), _)
      (omega arith, omega arith, (omega arith, omega arith, _))
      (inr (λ e. absurd (omega (arith, e))), (inr (λ e. absurd (omega (arith, e))), _))
      (omega arith) (omega arith) (omega arith)

-- The checker takes 300 for the key 280.
check_global_tags-write_example :
    check_global_tags leb128 10 500 3 10 0
      (write_global_tags leb128 test_string_number 0 (test_first ∷ test_second ∷ []) ++ 77 ∷ [])
    ≡ some (
      record { read_key = 20; read_type = 1; read_value = 5 }
          ∷ record { read_key = 280; read_type = 2; read_value = 70000 }
          ∷ [],
      77 ∷ [],
    )
unfolding key value type_code
check_global_tags-write_example =
    check_global_tags-write leb128 test_string_number 10 500 (test_first ∷ test_second ∷ []) 3 10 0
      0 (77 ∷ []) (omega arith) (omega arith)
      (omega arith, omega arith, (omega arith, omega arith, _)) (omega arith, (omega arith, _))
      (inr (λ e. absurd (omega (arith, e))), (inr (λ e. absurd (omega (arith, e))), _))
      (omega arith) (omega arith)
