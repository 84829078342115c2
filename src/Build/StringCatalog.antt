-- ===== src/Build/StringCatalog.antt =====
-- src/build/util/StringCatalog.h and .cpp, and how ProtoString.h writes a string and ProtoGol.h reads
-- it: the global string table, and the codes that stand for frequent keys and values in the piles.
-- An entry is the number of its place in the arena, and a string a number that stands for its
-- contents. The chain of a slot is a list. `StringRef` and `ProtoString` are data types; their
-- packing into 32 bits is left out. The hash of a string, the size of a stored string, std::sort,
-- the rounding to a power of two, the test for narrow numbers and the reading of varints belong to
-- libraries, and are parameters.
pub mod Coding
pub mod Strings
pub mod Bounds
mod Reading
mod Tests
use geodesk_gol.Prelude.{
  ℕ, zero, suc, ◌+◌, ◌-◌, ◌*◌, ◌/◌, ◌%◌, ◌^◌, min, max, bit_and, bit_or, Bool, true, false, not,
  Option, none, some, List, [], ◌∷◌, ◌++◌, map, reverse, length, get_elem?, take, drop, ltb, leb,
  ◌==◌, if◌then◌else◌,
}
use geodesk_gol.Build.StringStatistics.{
  Counter, put_at, true_total_count, adjusted_key_count, value_count,
}

abbrev pub min_proto_string_usage : ℕ
min_proto_string_usage = 100

abbrev pub max_common_key_limit : ℕ
max_common_key_limit = 2 ^ 13

pub data StringType : Type 0 where
  key : StringType
  value : StringType

-- `StringRef`: a global code, or an entry whose string is meant.
pub data StringRef : Type 0 where
  global : ℕ → StringRef
  local : ℕ → StringRef

pub data ProtoString : Type 0 where
  null : ProtoString
  shared : ℕ → ProtoString
  literal : ℕ → ProtoString

-- The codes of one type: those of the entries, and what they refer to.
pub record Codes : Type 0 where
  pub code_of : ℕ → ProtoString
  pub refs : List StringRef

pub record StringCatalog : Type 0 where
  pub strings : List ℕ
  pub table : ℕ → List ℕ
  pub table_slot_count : ℕ
  pub global_strings : List ℕ
  pub global_code_plus_one : ℕ → ℕ
  pub global_string_data_size : ℕ
  pub keys : Codes
  pub values : Codes

pub record BuildSettings : Type 0 where
  pub indexed_keys : List ℕ
  pub max_strings : ℕ
  pub min_string_usage : ℕ

abbrev pub string_at : ℕ → StringCatalog → ℕ
string_at entry c = elim (get_elem? c.strings entry) [ none ↦ 0 | some str ↦ str ]

-- The counters that get an entry.
abbrev pub frequent : List Counter → List Counter
frequent [] = []
frequent (c ∷ cs) =
    if ltb c.total_count min_proto_string_usage then frequent cs else c ∷ frequent cs

-- The entries from number `i` on, each with a count.
abbrev pub sort_entries : (Counter → ℕ) → ℕ → List Counter → List (ℕ × ℕ)
sort_entries count i [] = []
sort_entries count i (c ∷ cs) = (count c, i) ∷ sort_entries count (i + 1) cs

-- `stringRef` of an entry; a code of 0 wraps around when 1 is taken off.
pub string_ref : ℕ → ℕ → StringCatalog → StringRef
string_ref max_global_code entry c =
    let code = (c.global_code_plus_one entry + 2 ^ 32 - 1) % 2 ^ 32 in
    if leb code max_global_code then global code else local entry

-- `createProtoStringCodes`, from position `pos` on.
abbrev pub add_codes : (ℕ → StringRef) → ℕ → List (ℕ × ℕ) → Codes → Codes
add_codes ref pos [] codes = codes
add_codes ref pos ((count, entry) ∷ sorted) codes = add_codes ref (pos + 1) sorted (record {
  code_of = put_at entry (shared pos) codes.code_of;
  refs = codes.refs ++ (ref entry ∷ []);
})

abbrev pub no_codes : Codes
no_codes = record { code_of = λ entry. null; refs = [] }

pub create_proto_string_codes : List (ℕ × ℕ) → ℕ → StringCatalog → Codes
create_proto_string_codes sorted max_global_code c =
    add_codes (λ entry. string_ref max_global_code entry c) 0 sorted no_codes

abbrev pub codes_of : StringType → StringCatalog → Codes
codes_of key c = c.keys
codes_of value c = c.values

module _ (hash_of total_size : ℕ → ℕ) (is_narrow_number : ℕ → Bool) where
  -- An entry at the head of its slot's chain.
  abbrev pub index_entries : ℕ → List ℕ → List (ℕ × ℕ) → (ℕ → List ℕ) → ℕ → List ℕ
  index_entries slots strings [] table = table
  index_entries slots strings ((count, entry) ∷ sorted) table =
      let str : ℕ = elim (get_elem? strings entry) [ none ↦ 0 | some s ↦ s ] in
      let slot = hash_of str % slots in
      index_entries slots strings sorted (put_at slot (entry ∷ table slot) table)

  abbrev pub find_entry : ℕ → List ℕ → StringCatalog → Option ℕ
  find_entry str [] c = none
  find_entry str (entry ∷ chain) c =
      if string_at entry c == str then some entry else find_entry str chain c

  -- `lookup`
  pub lookup : ℕ → StringCatalog → Option ℕ
  lookup str c = find_entry str (c.table (hash_of str % c.table_slot_count)) c

  -- `addGlobalString` of an entry.
  pub add_global_string : ℕ → StringCatalog → StringCatalog
  add_global_string entry c =
      if c.global_code_plus_one entry == 0
      then (if is_narrow_number (string_at entry c) then c else record c {
        global_strings = c.global_strings ++ (entry ∷ []);
        global_string_data_size = c.global_string_data_size + total_size (string_at entry c);
        global_code_plus_one = put_at entry (length c.global_strings + 1) c.global_code_plus_one;
      })
      else c

  -- `addGlobalString` of a string that must exist.
  abbrev pub add_global_strings : List ℕ → StringCatalog → StringCatalog
  add_global_strings [] c = c
  add_global_strings (str ∷ strs) c =
      add_global_strings strs
        (elim (lookup str c) [ none ↦ c | some entry ↦ add_global_string entry c ])

  -- The loops that fill the table up to a number of strings, and the entries that are left.
  abbrev pub fill : ℕ → ℕ → List (ℕ × ℕ) → StringCatalog → List (ℕ × ℕ) × StringCatalog
  fill limit usage [] c = ([], c)
  fill limit usage ((count, entry) ∷ sorted) c =
      let added = if leb usage count then add_global_string entry c else c in
      let rest = fill limit usage sorted added in
      if leb limit (length c.global_strings) then ((count, entry) ∷ sorted, c) else rest

  module _ (sort_descending : List (ℕ × ℕ) → List (ℕ × ℕ)) (round_up_to_power_of_2 : ℕ → ℕ)
      (core_strings : List ℕ) (max_common_key : ℕ) where
    -- `build`, up to the global string table.
    pub index_strings : List Counter → StringCatalog
    index_strings counters =
        let entries = frequent counters in
        let strings = map (λ c. c.string) entries in
        let slots = round_up_to_power_of_2 (length entries * 2) in
        let sorted = sort_descending (sort_entries true_total_count 0 entries) in
        record {
          strings = strings;
          table = index_entries slots strings (reverse sorted) (λ slot. []);
          table_slot_count = slots;
          global_strings = [];
          global_code_plus_one = λ entry. 0;
          global_string_data_size = 0;
          keys = no_codes;
          values = no_codes;
        }

    abbrev pub max_global_string_count : BuildSettings → ℕ
    max_global_string_count settings =
        max settings.max_strings (length core_strings + length settings.indexed_keys)

    -- `build`, the global string table.
    pub build_global_strings : BuildSettings → List Counter → StringCatalog → StringCatalog
    build_global_strings settings counters c =
        let entries = frequent counters in
        let sorted = sort_descending (sort_entries true_total_count 0 entries) in
        let sorted_keys = sort_descending (sort_entries adjusted_key_count 0 entries) in
        let max_count = max_global_string_count settings in
        let usage = settings.min_string_usage in
        let required =
          add_global_strings settings.indexed_keys (add_global_strings core_strings c) in
        let (rest, mixed) = fill (min 512 max_count) usage sorted required in
        let (_, with_keys) = fill (min max_common_key_limit max_count) usage sorted_keys mixed in
        (fill max_count usage rest with_keys).1

    -- `build`
    pub build : BuildSettings → List Counter → StringCatalog
    build settings counters =
        let c = build_global_strings settings counters (index_strings counters) in
        let entries = frequent counters in
        record c {
          keys =
              create_proto_string_codes
                (sort_descending (sort_entries adjusted_key_count 0 entries)) max_common_key c;
          values =
              create_proto_string_codes (sort_descending (sort_entries value_count 0 entries)) 65535
                c;
        }

  -- `protoStringPair`, the string of one type.
  pub proto_string : StringType → ℕ → StringCatalog → ProtoString
  proto_string type str c = elim (lookup str c) [
    | none ↦ literal str
    | some entry ↦ elim ((codes_of type c).code_of entry) [ null ↦ literal str | code ↦ code ]
  ]
