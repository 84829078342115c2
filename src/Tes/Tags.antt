-- ===== src/Tes/Tags.antt =====
-- The tag tables of a TES: `writeTagTable` and `writeTag` of src/change/ChangeWriter.cpp, `readTagTable` of
-- src/tile/tes/TesReader.cpp, which fills a table of the tile by src/tile/compiler/TagTableWriter.h,
-- and `readTagTable` of src/tile/tes/TesChecker.cpp. `strings` is the writer's table of the strings' numbers.
pub mod Checker
pub mod Locals
pub mod RoundTrip
mod Tests
use geodesk_gol.Prelude.{
  ℕ, zero, suc, ◌+◌, ◌-◌, ◌*◌, ◌/◌, ◌%◌, ◌^◌, bit_and, bit_or, Bool, true, false, not, ◌&&◌, Option,
  none, some, List, [], ◌∷◌, ◌++◌, ltb, ◌==◌, if◌then◌else◌,
}
use geodesk_gol.Tes.Wire.{Varint}
use geodesk_gol.Change.TagTable.{
  TagTable, key, value, type_code, local_string_type, calculate_storage_size,
}

-- A tag as the reader passes it on: a local key is the number of its string, and so is the value of
-- a tag of type 3.
pub record ReadTag : Type 0 where
  pub read_key : ℕ
  pub read_type : ℕ
  pub read_value : ℕ

pub record ReadTable : Type 0 where
  pub locals : List ReadTag
  pub globals : List ReadTag
  pub rest : List ℕ

abbrev pub put_tag : ReadTag → Option (List ReadTag × List ℕ) → Option (List ReadTag × List ℕ)
put_tag tag none = none
put_tag tag (some (tags, rest)) = some (tag ∷ tags, rest)

-- The size of a value in the tile: the wide flag is 2.
abbrev pub width : ℕ → ℕ
width flags = if flags / 2 % 2 == 0 then 2 else 4

module _ (v : Varint) where
  module _ (strings : ℕ → ℕ) where
    pub write_tag : ℕ → ℕ → List ℕ
    write_tag key_and_flags tag =
        v.write key_and_flags
        ++ v.write
            (if key_and_flags % 4 == local_string_type then strings (value tag) else value tag)

    pub write_local_tags : List ℕ → List ℕ
    write_local_tags [] = []
    write_local_tags (tag ∷ tags) =
        write_tag (bit_or (strings (key tag) * 4 % 2 ^ 32) (type_code tag)) tag
        ++ write_local_tags tags

    pub write_global_tags : ℕ → List ℕ → List ℕ
    write_global_tags prev_key [] = []
    write_global_tags prev_key (tag ∷ tags) =
        write_tag (bit_or ((key tag + 2 ^ 32 - prev_key) % 2 ^ 32 * 4 % 2 ^ 32) (type_code tag)) tag
        ++ write_global_tags (key tag) tags

    pub write_tag_table : TagTable → List ℕ
    write_tag_table t =
        let (total, local) = calculate_storage_size t in
        v.write (bit_or total (if local == 0 then 0 else 1))
        ++ (if local == 0 then [] else v.write (local / 2) ++ write_local_tags t.locals)
        ++ write_global_tags 0 t.globals

  module _ (string_count : ℕ) where
    -- `readVarint32`
    pub read_number : List ℕ → Option (ℕ × List ℕ)
    read_number bytes = elim (v.read bytes) [
      | none ↦ none
      | some (w, rest) ↦ some (w % 2 ^ 32, rest)
    ]

    -- A value; nothing for a string's number that `getString` refuses, or that lies past the strings.
    pub read_value_of : ℕ → List ℕ → Option (ℕ × List ℕ)
    read_value_of flags bytes = elim (read_number bytes) [
      | none ↦ none
      | some (value, rest) ↦
          if (flags == local_string_type) && not (ltb value string_count)
          then none
          else some (value, rest)
    ]

    -- The loop of the local tags, which are written backwards, `filled` bytes of `size` so far.
    pub read_local_tags : ℕ → ℕ → ℕ → List ℕ → Option (List ReadTag × List ℕ)
    read_local_tags zero size filled bytes = if filled == size then some ([], bytes) else none
    read_local_tags (suc fuel) size filled bytes =
        if filled == size then some ([], bytes) else elim (read_number bytes) [
          | none ↦ none
          | some (key_bits, after_key) ↦
              if ltb (key_bits / 4) string_count
              then elim (read_value_of (key_bits % 4) after_key) [
                | none ↦ none
                | some (value, rest) ↦
                    put_tag
                      (record {
                        read_key = key_bits / 4;
                        read_type = key_bits % 4;
                        read_value = value;
                      })
                      (read_local_tags fuel size (filled + (4 + width (key_bits % 4))) rest)
              ]
              else none
        ]

    -- The loop of the global tags: the key of a tag is coded by its difference to the one before.
    pub read_global_tags : ℕ → ℕ → ℕ → ℕ → List ℕ → Option (List ReadTag × List ℕ)
    read_global_tags zero size filled prev_shifted bytes = none
    read_global_tags (suc fuel) size filled prev_shifted bytes = elim (read_number bytes) [
      | none ↦ none
      | some (delta_bits, after_key) ↦
          let key_bits = (delta_bits + prev_shifted) % 2 ^ 32 in
          elim (read_value_of (key_bits % 4) after_key) [
            | none ↦ none
            | some (value, rest) ↦
                let now_filled = filled + (2 + width (key_bits % 4)) in
                put_tag
                  (record { read_key = key_bits / 4; read_type = key_bits % 4; read_value = value })
                  (if now_filled == size
                    then some ([], rest)
                    else read_global_tags fuel size now_filled (bit_and key_bits 0xfffc) rest)
          ]
    ]

    abbrev pub read_globals : ℕ → ℕ → Option (List ReadTag × List ℕ) → Option ReadTable
    read_globals fuel size none = none
    read_globals fuel size (some (locals, bytes)) = elim (read_global_tags fuel size 0 0 bytes) [
      | none ↦ none
      | some (globals, rest) ↦ some (record { locals = locals; globals = globals; rest = rest })
    ]

    pub read_tag_table : ℕ → List ℕ → Option ReadTable
    read_tag_table fuel bytes = elim (read_number bytes) [
      | none ↦ none
      | some (tagged_size, after_size) ↦
          let size = bit_and tagged_size 0xffff_fffe in
          if tagged_size % 2 == 0
          then read_globals fuel size (some ([], after_size))
          else elim (read_number after_size) [
            | none ↦ none
            | some (half, after_local) ↦
                let local_size = half * 2 % 2 ^ 32 in
                if ltb ((size + 2 ^ 32 - 4) % 2 ^ 32) local_size
                then none
                else read_globals fuel (size - local_size)
                    (read_local_tags fuel local_size 0 after_local)
          ]
    ]
