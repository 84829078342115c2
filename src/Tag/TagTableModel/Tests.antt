-- ===== src/Tag/TagTableModel/Tests.antt =====
-- A small table: two local keys between two global ones.
use mathlib.Core.List.Perm
use geodesk_gol.Prelude.{
  ℕ, ◌*◌, ◌==◌, if◌then◌else◌, ◌++◌, ◌≡◌, refl, Bool, Option, none, some, List, [], ◌∷◌, length,
}
use geodesk_gol.Tag.TagTableModel.{
  Tag, ReadString, code, text, empty, add_tags, normalize, add_global_code, add_global_string,
  add_local_code, add_local_string, insert_local_tag,
}
use geodesk_gol.Tag.TagTableModel.Writer.{get_tag_table, write_table}
use geodesk_gol.Tag.TagTableModel.Parts.{Added, locals_of, globals_of, add_tags-Added}
use geodesk_gol.Tag.TagTableModel.Written.{get_tag_table-fills}

-- String 90 is a narrow number, 91 a wide one.
abbrev number_of : ℕ → Option (Bool × ℕ)
number_of v =
    if v == 90 then some (Bool.true, 7) else (if v == 91 then some (Bool.false, 100000) else none)

abbrev pile : List (ReadString × ReadString)
pile = (code 4, code 9) ∷ (text 50, text 91) ∷ (code 2, text 60) ∷ (text 51, text 90) ∷ []

abbrev same : List Tag → List Tag
same tags = tags

sizes :
    ((get_tag_table number_of same same (λ s. s * 4) 40 pile).anchor ≡ 14)
    × ((get_tag_table number_of same same (λ s. s * 4) 40 pile).size ≡ 24)
unfolding get_tag_table write_table normalize add_tags add_global_code add_global_string
    add_local_code add_local_string insert_local_tag
sizes = (refl, refl)

add_tags-Added_example :
    Added number_of
      (locals_of number_of pile)
      (globals_of number_of pile)
      (add_tags number_of pile empty)
add_tags-Added_example = add_tags-Added number_of pile

get_tag_table-fills_example :
    (length (get_tag_table number_of same same (λ s. s) 40 pile).local_bytes
      ≡ (get_tag_table number_of same same (λ s. s) 40 pile).anchor)
    × (length (
          (get_tag_table number_of same same (λ s. s) 40 pile).local_bytes
          ++ (get_tag_table number_of same same (λ s. s) 40 pile).global_bytes)
        ≡ (get_tag_table number_of same same (λ s. s) 40 pile).size)
get_tag_table-fills_example =
    get_tag_table-fills same same (λ xs. Perm.refl xs) (λ xs. Perm.refl xs) number_of (λ s. s) 40
      pile
