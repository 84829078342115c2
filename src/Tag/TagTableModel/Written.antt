-- ===== src/Tag/TagTableModel/Written.antt =====
-- src/build/compile/TagTableBuilder.cpp, getTagTable: the bytes that are written and those allocated.
use mathlib.Core.List.{Perm}
use geodesk_gol.Prelude.{
  ℕ, bit_or, ◌+◌, ◌-◌, ◌*◌, ◌/◌, ◌≡◌, ◌∙◌, refl, sym, ap, ap₂, append_assoc, inl, inr, Bool,
  Bool-cases, false, Option, List, [], ◌∷◌, ◌++◌, length, length-append, take-append, drop-append,
  ltb, ◌==◌, ==→eq, ==→ne, arith,
}
use geodesk_gol.Prelude.Perms.{length-perm}
use geodesk_gol.Tag.TagTableModel.{
  Tag, TagTableModel, empty, wide_flag, local_string, global_string, add_tags, add_global_code,
  local_tags, global_tags, normalize, ReadString,
}
use geodesk_gol.Tag.TagTableModel.Writer.{
  u32, value_bytes, local_key, write_local_tags, write_global_tags, below, write_table,
  get_tag_table,
}
use geodesk_gol.Tag.TagTableModel.Parts.{Parts, locals_of, add_tags-Added}
use geodesk_gol.Tag.TagTableModel.Sizes.{
  global_size, local_size, global_size-perm, local_size-perm, global_size-append,
}

module _ (handle_of : ℕ → ℕ) where
  value_bytes-length :
      (ofs : ℕ) (tag : Tag) → length (value_bytes handle_of ofs tag) ≡ 2 + wide_flag tag.value_type
  value_bytes-length ofs tag = elim (Bool-cases (tag.value_type == local_string)) [
    | inl e ↦ let three = ==→eq tag.value_type local_string e in rw (e, three) refl
    | inr e ↦ elim (Bool-cases (wide_flag tag.value_type == 0)) [
      | inl narrow ↦ rw (e, narrow) (omega (arith, ==→eq (wide_flag tag.value_type) 0 narrow))
      | inr wide ↦ rw (e, wide) (omega (arith, ==→ne (wide_flag tag.value_type) 0 wide))
    ]
  ]

  global_bytes-length :
      (ofs : ℕ) (tags : List Tag) → length (write_global_tags handle_of ofs tags) ≡ global_size tags
  unfolding write_global_tags
  global_bytes-length ofs [] = refl
  global_bytes-length ofs (tag ∷ []) = omega (arith, value_bytes-length (ofs + 2) tag)
  global_bytes-length ofs (tag ∷ next ∷ tags) =
      let here = value_bytes handle_of (ofs + 2) tag in
      omega (
        arith,
        value_bytes-length (ofs + 2) tag,
        length-append here (write_global_tags handle_of (ofs + 2 + length here) (next ∷ tags)),
        global_bytes-length (ofs + 2 + length here) (next ∷ tags),
      )

  local_bytes-length :
      (origin ofs : ℕ) (tags : List Tag)
      → length (write_local_tags handle_of origin ofs tags) ≡ local_size tags
  unfolding write_local_tags
  local_bytes-length origin ofs [] = refl
  local_bytes-length origin ofs (tag ∷ []) =
      let here = value_bytes handle_of (below handle_of ofs tag) tag in
      omega (
        arith,
        length-append here (u32 (bit_or (local_key handle_of origin tag) 4)),
        value_bytes-length (below handle_of ofs tag) tag,
      )
  local_bytes-length origin ofs (tag ∷ next ∷ tags) =
      let lower = below handle_of ofs tag in
      let here = value_bytes handle_of lower tag in
      let rest = write_local_tags handle_of origin lower (next ∷ tags) in
      omega (
        arith,
        length-append (rest ++ here) (u32 (local_key handle_of origin tag)),
        length-append rest here,
        value_bytes-length lower tag,
        local_bytes-length origin lower (next ∷ tags),
      )

-- A model whose sizes are those of its parts.
abbrev Sized : TagTableModel → Type 0
Sized m =
    (m.local_tags_size ≡ local_size (local_tags m))
    × (m.global_tags_size ≡ global_size (global_tags m))

local_tags-parts :
    (locals globals : List Tag) (m : TagTableModel)
    → m.tags ≡ locals ++ globals
    → m.local_tags_count ≡ length locals
    → (local_tags m ≡ locals) × (global_tags m ≡ globals)
local_tags-parts locals globals m tags count =
    (rw (tags, count) (take-append locals globals), rw (tags, count) (drop-append locals globals))

sized :
    (locals globals : List Tag) (m : TagTableModel)
    → m.tags ≡ locals ++ globals
    → m.local_tags_count ≡ length locals
    → m.local_tags_size ≡ local_size locals
    → m.global_tags_size ≡ global_size globals
    → Sized m
sized locals globals m tags count local_total global_total =
    let (firsts, lasts) = local_tags-parts locals globals m tags count in
    (local_total ∙ sym (ap local_size firsts), global_total ∙ sym (ap global_size lasts))

module _ (sort_local sort_global : List Tag → List Tag)
    (perm_local : (xs : List Tag) → Perm (sort_local xs) xs)
    (perm_global : (xs : List Tag) → Perm (sort_global xs) xs) where
  normalize-Sized :
      (locals globals : List Tag) (m : TagTableModel)
      → Parts locals globals m
      → Sized (normalize sort_local sort_global m)
  unfolding normalize add_global_code
  normalize-Sized locals globals m parts =
      let firsts = sort_local locals in
      let lasts = sort_global globals in
      let (here, there) = local_tags-parts locals globals m parts.tags parts.count in
      let tags : sort_local (local_tags m) ++ sort_global (global_tags m) ≡ firsts ++ lasts =
        ap₂ (λ xs ys. sort_local xs ++ sort_global ys) here there in
      let count : m.local_tags_count ≡ length firsts =
        parts.count ∙ sym (length-perm (perm_local locals)) in
      let local_total : m.local_tags_size ≡ local_size firsts =
        parts.local_total ∙ sym (local_size-perm firsts locals (perm_local locals)) in
      let global_total : m.global_tags_size ≡ global_size lasts =
        parts.global_total ∙ sym (global_size-perm lasts globals (perm_global globals)) in
      let none : Tag = record {
        has_local_key = false;
        key = 0;
        value_type = global_string;
        value = 0;
      } in
      let sorted : TagTableModel = record m {
        tags = sort_local (local_tags m) ++ sort_global (global_tags m);
      } in
      elim (Bool-cases (ltb 0 (length sorted.tags - m.local_tags_count))) [
        | inl e ↦ rw e (sized firsts lasts sorted tags count local_total global_total)
        | inr e ↦ rw e (
            sized firsts (lasts ++ (none ∷ [])) (add_global_code 0 0 sorted)
              (ap (λ ts. ts ++ (none ∷ [])) tags ∙ append_assoc firsts lasts (none ∷ [])) count
              local_total (omega (arith, global_total, global_size-append lasts (none ∷ []))))
      ]

  -- For the tags of a pile, whatever they are, `getTagTable` writes exactly the bytes that it has
  -- allocated for the table: those of the local tags before its anchor, the others behind it.
  pub get_tag_table-fills :
      (number_of : ℕ → Option (Bool × ℕ)) (handle_of : ℕ → ℕ) (ofs : ℕ)
      (proto_tags : List (ReadString × ReadString))
      → let table = get_tag_table number_of sort_local sort_global handle_of ofs proto_tags in
        (length table.local_bytes ≡ table.anchor)
        × (length (table.local_bytes ++ table.global_bytes) ≡ table.size)
  unfolding get_tag_table write_table
  get_tag_table-fills number_of handle_of ofs proto_tags =
      let added = add_tags-Added number_of proto_tags in
      let m = add_tags number_of proto_tags empty in
      let t = normalize sort_local sort_global m in
      let (local_total, global_total) =
        normalize-Sized (locals_of number_of proto_tags) added.last m added.parts in
      let before = local_bytes-length handle_of (ofs / 4 * 4) ofs (local_tags t) in
      let behind = global_bytes-length handle_of ofs (global_tags t) in
      (
        before ∙ sym local_total,
        omega (
          arith,
          length-append (write_local_tags handle_of (ofs / 4 * 4) ofs (local_tags t))
              (write_global_tags handle_of ofs (global_tags t)),
          before,
          behind,
          local_total,
          global_total,
        ),
      )
