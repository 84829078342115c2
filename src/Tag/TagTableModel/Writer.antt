-- ===== src/Tag/TagTableModel/Writer.antt =====
-- src/build/compile/TagTableBuilder.cpp, getTagTable, which writes a model's tags into the tile by
-- src/tile/compiler/TagTableWriter.h.
use geodesk_gol.Prelude.{
  ℕ, ◌+◌, ◌-◌, ◌*◌, ◌/◌, ◌%◌, ◌^◌, bit_or, Bool, true, false, Option, List, [], ◌∷◌, ◌++◌, length,
  ltb, ◌==◌, if◌then◌else◌,
}
use geodesk_gol.Tag.TagTableModel.{
  Tag, TagTableModel, empty, wide_flag, local_string, ReadString, add_tags, local_tags, global_tags,
  normalize,
}

-- Little-endian values of two and four bytes.
abbrev pub u16 : ℕ → List ℕ
u16 n = n % 256 ∷ n / 256 % 256 ∷ []

abbrev pub u32 : ℕ → List ℕ
u32 n = n % 256 ∷ n / 256 % 256 ∷ n / 65536 % 256 ∷ n / 16777216 % 256 ∷ []

module _ (handle_of : ℕ → ℕ) where
  -- A value at offset `ofs`: a string is pointed to by the distance to it, and a wide number takes four
  -- bytes.
  abbrev pub value_bytes : ℕ → Tag → List ℕ
  value_bytes ofs tag =
      if tag.value_type == local_string
      then u32 ((handle_of tag.value + 2 ^ 32 - ofs % 2 ^ 32) % 2 ^ 32)
      else (if wide_flag tag.value_type == 0
          then u16 (tag.value % 2 ^ 16)
          else u32 (tag.value % 2 ^ 32))

  -- `writeGlobalTag` for each tag, and `endGlobalTags`, which marks the last key.
  unfoldable pub write_global_tags : ℕ → List Tag → List ℕ
  write_global_tags ofs [] = []
  write_global_tags ofs (tag ∷ []) =
      u16 (bit_or ((tag.key * 4 + tag.value_type) % 2 ^ 16) 32768) ++ value_bytes (ofs + 2) tag
  write_global_tags ofs (tag ∷ next ∷ tags) =
      let here = value_bytes (ofs + 2) tag in
      u16 ((tag.key * 4 + tag.value_type) % 2 ^ 16)
      ++ here
      ++ write_global_tags (ofs + 2 + length here) (next ∷ tags)

  -- `writeLocalTag` for each tag, from `ofs` downwards, and `endLocalTags`, which marks the last key.
  -- An offset is a 32-bit number that may wrap below 0, and `origin` the place of the table, aligned
  -- to four bytes.
  abbrev pub local_key : ℕ → Tag → ℕ
  local_key origin tag =
      let key_handle = handle_of tag.key / 4 * 4 in
      bit_or (((key_handle + 2 ^ 32 - origin) % 2 ^ 32 * 2) % 2 ^ 32) tag.value_type

  abbrev pub below : ℕ → Tag → ℕ
  below ofs tag = (ofs + 2 ^ 32 - 4 - (2 + wide_flag tag.value_type)) % 2 ^ 32

  unfoldable pub write_local_tags : ℕ → ℕ → List Tag → List ℕ
  write_local_tags origin ofs [] = []
  write_local_tags origin ofs (tag ∷ []) =
      value_bytes (below ofs tag) tag ++ u32 (bit_or (local_key origin tag) 4)
  write_local_tags origin ofs (tag ∷ next ∷ tags) =
      write_local_tags origin (below ofs tag) (next ∷ tags)
      ++ value_bytes (below ofs tag) tag
      ++ u32 (local_key origin tag)

-- What `getTagTable` has allocated for a table, before and behind its anchor, and what it writes there.
pub record WrittenTable : Type 0 where
  pub size : ℕ
  pub anchor : ℕ
  pub needs_fixup : Bool
  pub local_bytes : List ℕ
  pub global_bytes : List ℕ

abbrev pub any_string : List Tag → Bool
any_string [] = false
any_string (tag ∷ tags) = if tag.value_type == local_string then true else any_string tags

-- `getTagTable` of a filled model, for a table at offset `ofs`.
unfoldable pub write_table :
    (List Tag → List Tag) → (List Tag → List Tag) → (ℕ → ℕ) → ℕ → TagTableModel → WrittenTable
write_table sort_local sort_global handle_of ofs m =
    let t = normalize sort_local sort_global m in
    record {
      size = t.global_tags_size + t.local_tags_size;
      anchor = t.local_tags_size;
      needs_fixup = if ltb 0 t.local_tags_count then true else any_string (global_tags t);
      local_bytes = write_local_tags handle_of (ofs / 4 * 4) ofs (local_tags t);
      global_bytes = write_global_tags handle_of ofs (global_tags t);
    }

-- `getTagTable` for the tags of a pile.
unfoldable pub get_tag_table :
    (ℕ → Option (Bool × ℕ))
    → (List Tag → List Tag)
    → (List Tag → List Tag)
    → (ℕ → ℕ)
    → ℕ
    → List (ReadString × ReadString)
    → WrittenTable
get_tag_table number_of sort_local sort_global handle_of ofs proto_tags =
    write_table sort_local sort_global handle_of ofs (add_tags number_of proto_tags empty)
