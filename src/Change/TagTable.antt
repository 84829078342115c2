-- ===== src/Change/TagTable.antt =====
-- The updater's tag tables: src/change/model/CTagTable.h and src/change/model/CTagTable.cpp.
-- A tag is the 64-bit word that `Tag` keeps: its value above 30 bits of key and two of type. A stored
-- table is what the library's iterators give of it, with a string as a number for its text.
pub mod Fields
pub mod Equals
mod Tests
use geodesk_gol.Prelude.{
  ℕ, ◌+◌, ◌*◌, ◌/◌, ◌%◌, ◌^◌, bit_or, Bool, true, false, ◌&&◌, List, [], ◌∷◌, length, ◌==◌,
  if◌then◌else◌,
}

-- `Tag(key, type, value)`, and its accessors.
pub tag_of : ℕ → ℕ → ℕ → ℕ
tag_of key type_code value = bit_or (bit_or (value * 2 ^ 32 % 2 ^ 64) (key * 4 % 2 ^ 32)) type_code

unfoldable pub key : ℕ → ℕ
key tag = tag % 2 ^ 32 / 4

unfoldable pub value : ℕ → ℕ
value tag = tag / 2 ^ 32 % 2 ^ 32

unfoldable pub type_code : ℕ → ℕ
type_code tag = tag % 4

-- `TagValueType::LOCAL_STRING`
abbrev pub local_string_type : ℕ
local_string_type = 3

pub record TagTable : Type 0 where
  pub locals : List ℕ
  pub globals : List ℕ

abbrev pub value_size : ℕ → ℕ
value_size tag = 2 + type_code tag / 2 % 2 * 2

-- The loop of `calculateStorageSize`: the total size and the size of the local tags, over the local
-- tags and then over the global ones.
pub add_local_sizes : List ℕ → ℕ × ℕ → ℕ × ℕ
add_local_sizes [] sizes = sizes
add_local_sizes (tag ∷ tags) (total, local) = add_local_sizes tags (
  ((total + (2 + value_size tag)) % 2 ^ 32 + 2) % 2 ^ 32,
  (local + (4 + value_size tag)) % 2 ^ 32,
)

pub add_global_sizes : List ℕ → ℕ → ℕ
add_global_sizes [] total = total
add_global_sizes (tag ∷ tags) total =
    add_global_sizes tags ((total + (2 + value_size tag)) % 2 ^ 32)

pub calculate_storage_size : TagTable → ℕ × ℕ
calculate_storage_size t =
    let sizes = add_local_sizes t.locals (0, 0) in (add_global_sizes t.globals sizes.0, sizes.1)

-- A tag as an iterator gives it.
pub record StoredTag : Type 0 where
  pub stored_key : ℕ
  pub stored_type : ℕ
  pub stored_value : ℕ

module _ (text_of : ℕ → ℕ) where
  -- A value is a string's text, or a number.
  abbrev pub same_value : ℕ → StoredTag → Bool
  same_value tag stored =
      if type_code tag == local_string_type
      then text_of (value tag) == stored.stored_value
      else value tag == stored.stored_value

  -- The two loops of `equals`; each ends with the iterator at its end.
  pub equal_locals : List ℕ → List StoredTag → Bool
  equal_locals [] [] = true
  equal_locals [] (stored ∷ more) = false
  equal_locals (tag ∷ tags) [] = false
  equal_locals (tag ∷ tags) (stored ∷ more) =
      (text_of (key tag) == stored.stored_key)
      && ((type_code tag == stored.stored_type)
          && (same_value tag stored && equal_locals tags more))

  pub equal_globals : List ℕ → List StoredTag → Bool
  equal_globals [] [] = true
  equal_globals [] (stored ∷ more) = false
  equal_globals (tag ∷ tags) [] = false
  equal_globals (tag ∷ tags) (stored ∷ more) =
      (type_code tag == stored.stored_type) && (same_value tag stored && equal_globals tags more)

  pub equals : TagTable → List StoredTag → List StoredTag → Bool
  equals t locals globals = equal_locals t.locals locals && equal_globals t.globals globals
