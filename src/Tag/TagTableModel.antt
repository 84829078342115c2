-- ===== src/Tag/TagTableModel.antt =====
-- src/tag/TagTableModel.h: the tags of a feature on their way into a tile, local keys first; and the
-- loop of getTagTable of src/build/compile/TagTableBuilder.cpp that fills the model.
-- A string is a number that stands for it. The types of values are those of the GeoDesk library;
-- whether a string is a number, and its code as one, the sorts of the standard library, and the place
-- of a string in the tile are parameters.
pub mod Sizes
pub mod Writer
pub mod Parts
pub mod Written
mod Tests
use geodesk_gol.Prelude.{
  ℕ, zero, suc, ◌+◌, ◌-◌, ◌*◌, ◌/◌, ◌%◌, ◌^◌, bit_or, Bool, true, false, Option, none, some, List,
  [], ◌∷◌, ◌++◌, length, take, drop, get_or, set, ltb, ◌==◌, if◌then◌else◌,
}

abbrev pub narrow_number : ℕ
narrow_number = 0

abbrev pub global_string : ℕ
global_string = 1

abbrev pub wide_number : ℕ
wide_number = 2

abbrev pub local_string : ℕ
local_string = 3

pub record Tag : Type 0 where
  pub has_local_key : Bool
  pub key : ℕ
  pub value_type : ℕ
  pub value : ℕ

pub record TagTableModel : Type 0 where
  pub tags : List Tag
  pub global_tags_size : ℕ
  pub local_tags_size : ℕ
  pub local_tags_count : ℕ

abbrev pub empty : TagTableModel
empty = record { tags = []; global_tags_size = 0; local_tags_size = 0; local_tags_count = 0 }

-- `valueType() & 2`
abbrev pub wide_flag : ℕ → ℕ
wide_flag type = type / 2 % 2 * 2

abbrev pub no_tag : Tag
no_tag = record { has_local_key = false; key = 0; value_type = 0; value = 0 }

abbrev pub swap : ℕ → ℕ → List Tag → List Tag
swap i j tags = set (set tags i (get_or tags j no_tag)) j (get_or tags i no_tag)

-- The protected `addLocalTag`: the new tag trades places with the first one with a global key.
pub insert_local_tag : Tag → TagTableModel → TagTableModel
insert_local_tag tag m =
    let prev_count = length m.tags in
    let prev_local_tags_count = m.local_tags_count in
    let added = m.tags ++ (tag ∷ []) in
    record m {
      tags =
          if ltb 0 (prev_count - prev_local_tags_count)
          then swap prev_local_tags_count prev_count added
          else added;
      local_tags_count = m.local_tags_count + 1;
    }

-- `addGlobalTag` with a code as the value, and with a value of any type.
pub add_global_code : ℕ → ℕ → TagTableModel → TagTableModel
add_global_code k v m = record m {
  tags =
      m.tags
      ++ (record { has_local_key = false; key = k; value_type = global_string; value = v } ∷ []);
  global_tags_size = m.global_tags_size + 4;
}

pub add_global_typed : ℕ → ℕ → ℕ → TagTableModel → TagTableModel
add_global_typed k type v m = record m {
  tags = m.tags ++ (record { has_local_key = false; key = k; value_type = type; value = v } ∷ []);
  global_tags_size = m.global_tags_size + 4;
}

pub add_local_code : ℕ → ℕ → TagTableModel → TagTableModel
add_local_code k v m =
    let added =
      insert_local_tag
        (record { has_local_key = true; key = k; value_type = global_string; value = v }) m in
    record added { local_tags_size = added.local_tags_size + 6 }

pub add_local_typed : ℕ → ℕ → ℕ → TagTableModel → TagTableModel
add_local_typed k type v m =
    let added =
      insert_local_tag (record { has_local_key = true; key = k; value_type = type; value = v }) m in
    record added { local_tags_size = added.local_tags_size + 6 }

-- A key or a value as ProtoGol reads it: a global code, or a string.
pub data ReadString : Type 0 where
  code : ℕ → ReadString
  text : ℕ → ReadString

module _ (number_of : ℕ → Option (Bool × ℕ)) where
  -- `setValue`: a string that is a number is kept as one, narrow or wide.
  abbrev pub set_value : ℕ → Tag → Tag
  set_value v tag = elim (number_of v) [
    | none ↦ record tag { value_type = local_string; value = v }
    | some (is_narrow, n) ↦
        if is_narrow
        then record tag { value_type = narrow_number; value = n }
        else record tag { value_type = wide_number; value = n }
  ]

  -- `addGlobalTag` and `addLocalTag` with a string as the value.
  pub add_global_string : ℕ → ℕ → TagTableModel → TagTableModel
  add_global_string k v m =
      let tag : Tag =
        set_value v (record { has_local_key = false; key = k; value_type = 0; value = 0 }) in
      record m {
        tags = m.tags ++ (tag ∷ []);
        global_tags_size = m.global_tags_size + 4 + wide_flag tag.value_type;
      }

  pub add_local_string : ℕ → ℕ → TagTableModel → TagTableModel
  add_local_string k v m =
      let tag : Tag =
        set_value v (record { has_local_key = true; key = k; value_type = 0; value = 0 }) in
      let added = insert_local_tag tag m in
      record added { local_tags_size = added.local_tags_size + 6 + wide_flag tag.value_type }

  -- The loop of `getTagTable` over the tags of the pile.
  pub add_tags : List (ReadString × ReadString) → TagTableModel → TagTableModel
  add_tags [] m = m
  add_tags ((code k, code v) ∷ tags) m = add_tags tags (add_global_code k v m)
  add_tags ((code k, text v) ∷ tags) m = add_tags tags (add_global_string k v m)
  add_tags ((text k, code v) ∷ tags) m = add_tags tags (add_local_code k v m)
  add_tags ((text k, text v) ∷ tags) m = add_tags tags (add_local_string k v m)

abbrev pub local_tags : TagTableModel → List Tag
local_tags m = take m.local_tags_count m.tags

abbrev pub global_tags : TagTableModel → List Tag
global_tags m = drop m.local_tags_count m.tags

-- `normalize`; a table without global tags gets an empty one.
pub normalize : (List Tag → List Tag) → (List Tag → List Tag) → TagTableModel → TagTableModel
normalize sort_local sort_global m =
    let sorted : TagTableModel = record m {
      tags = sort_local (local_tags m) ++ sort_global (global_tags m);
    } in
    if ltb 0 (length sorted.tags - sorted.local_tags_count)
    then sorted
    else add_global_code 0 0 sorted
