-- ===== src/Tes/Index.antt =====
-- The feature index of a TES and its list of removed features: src/change/ChangeWriter.cpp and
-- src/tile/tes/TesWriter.cpp write them, src/tile/tes/TesReader.cpp reads them.
-- A feature is its id, with the flag that its entry carries; its type is 0 for a node, 1 for a way
-- and 2 for a relation. Ids are 64-bit numbers.
pub mod Entries
pub mod Removed
pub mod RoundTrip
pub mod Sorted
mod Tests
use geodesk_gol.Prelude.{
  ℕ, zero, suc, ◌+◌, ◌-◌, ◌*◌, ◌/◌, ◌%◌, ◌^◌, bit_or, Bool, true, false, not, ◌||◌, Option, none,
  some, List, [], ◌∷◌, ◌++◌, length, ◌==◌, if◌then◌else◌,
}
use geodesk_gol.Tes.Wire.{Varint}

abbrev pub is_empty_list {ℓ} : {A : Type ℓ} → List A → Bool
is_empty_list [] = true
is_empty_list (x ∷ xs) = false

abbrev pub bit : Bool → ℕ
bit true = 1
bit false = 0

-- An entry of the index as the reader keeps it: its type, its id and its flag.
pub record Entry : Type 0 where
  pub type_code : ℕ
  pub id : ℕ
  pub flag : Bool

-- A feature of `TesWriter`, sorted by type and id.
pub record SortedFeature : Type 0 where
  pub type_code : ℕ
  pub id : ℕ

-- What the reader has: the entries, the place where each type starts, and the bytes to come.
pub record Read : Type 0 where
  pub entries : List Entry
  pub starts : ℕ → ℕ
  pub rest : List ℕ

abbrev pub put_entry : Entry → Option Read → Option Read
put_entry e none = none
put_entry e (some r) = some (record r { entries = e ∷ r.entries })

abbrev pub put_removed : Entry → Option (List Entry × List ℕ) → Option (List Entry × List ℕ)
put_removed e none = none
put_removed e (some (es, rest)) = some (e ∷ es, rest)

abbrev pub write_start : ℕ → ℕ → (ℕ → ℕ) → ℕ → ℕ
write_start t n starts q = if t == q then n else starts q

-- What `TesWriter::writeFeatureIndex` knows between two features.
pub record Progress : Type 0 where
  pub prev_type : ℕ
  pub prev_id : ℕ
  pub node_count : ℕ
  pub way_count : ℕ

module _ (v : Varint) where
  -- `ChangeWriter::writeFeatureIndex(featureList)`, and the loop of `writeRemovedFeatures(start, count)`.
  pub write_list : ℕ → List (ℕ × Bool) → List ℕ
  write_list prev_id [] = []
  write_list prev_id ((id, flag) ∷ features) =
      v.write (bit_or ((id + 2 ^ 64 - prev_id) % 2 ^ 64 * 2 % 2 ^ 64) (bit flag))
      ++ write_list id features

  -- `ChangeWriter::writeFeatureIndex`, and `writeRemovedFeatures`: the number of entries, and a list
  -- for each type, a 0 before the list of a later type as long as one is to come.
  pub write_index : List (ℕ × Bool) → List (ℕ × Bool) → List (ℕ × Bool) → List ℕ
  write_index nodes ways relations =
      v.write (length nodes + (length ways + length relations))
      ++ write_list 0 nodes
      ++ (if not (is_empty_list ways) || not (is_empty_list relations)
          then 0 ∷ write_list 0 ways
            ++ (if not (is_empty_list relations) then 0 ∷ write_list 0 relations else [])
          else [])

  -- One round of the loop of `TesWriter::writeFeatureIndex`, for the feature at place `i`.
  pub write_sorted_feature : ℕ → SortedFeature → Progress → List ℕ × Progress
  write_sorted_feature i f p =
      if f.type_code == p.prev_type
      then (
        v.write (bit_or ((f.id + 2 ^ 64 - p.prev_id) % 2 ^ 64 * 2 % 2 ^ 64) 1),
        record p { prev_id = f.id },
      )
      else (
        (if f.type_code == 1 then [] else if p.prev_type == 0 then 0 ∷ [] else [])
            ++ 0 ∷ v.write (bit_or (f.id % 2 ^ 64 * 2 % 2 ^ 64) 1),
        record {
          prev_type = f.type_code;
          prev_id = f.id;
          node_count = if f.type_code == 1 then i else p.node_count;
          way_count = if f.type_code == 1 then p.way_count else i - p.node_count;
        },
      )

  pub write_sorted_features : ℕ → List SortedFeature → Progress → List ℕ × Progress
  write_sorted_features i [] p = ([], p)
  write_sorted_features i (f ∷ fs) p =
      let (bytes, next) = write_sorted_feature i f p in
      let (rest, last) = write_sorted_features (i + 1) fs next in (bytes ++ rest, last)

  -- `TesWriter::writeFeatureIndex`, of the sorted features.
  pub write_sorted_index : List SortedFeature → List ℕ × Progress
  write_sorted_index fs =
      let (bytes, last) =
        write_sorted_features 0 fs
          (record { prev_type = 0; prev_id = 0; node_count = 0; way_count = 0 }) in
      (v.write (length fs) ++ bytes, last)

  -- The loop of `TesReader::readFeatureIndex`, with `count` entries to come, `done` read, and the
  -- places where the types start.
  pub read_entries : ℕ → ℕ → ℕ → ℕ → ℕ → List ℕ → (ℕ → ℕ) → Option Read
  read_entries zero zero done type_code prev_id bytes starts =
      some (record { entries = []; starts = starts; rest = bytes })
  read_entries (suc fuel) zero done type_code prev_id bytes starts =
      some (record { entries = []; starts = starts; rest = bytes })
  read_entries zero (suc count) done type_code prev_id bytes starts = none
  read_entries (suc fuel) (suc count) done type_code prev_id bytes starts = elim (v.read bytes) [
    | none ↦ none
    | some (ref, rest) ↦ elim (ref == 0) [
      | true ↦
          read_entries fuel (suc count) done (type_code + 1) 0 rest
            (write_start (type_code + 1) done starts)
      | false ↦
          let id = (ref / 2 + prev_id) % 2 ^ 64 in
          put_entry (record { type_code = type_code; id = id; flag = not (ref % 2 == 0) })
            (read_entries fuel count (done + 1) type_code id rest starts)
    ]
  ]

  -- `TesReader::readFeatureIndex`: the features, and where each type starts.
  pub read_index : ℕ → List ℕ → Option Read
  read_index fuel bytes = elim (v.read bytes) [
    | none ↦ none
    | some (count, rest) ↦
        let feature_count = count % 2 ^ 32 in
        read_entries fuel feature_count 0 0 0 rest
          (write_start 2 feature_count (write_start 1 feature_count (λ t. 0)))
  ]

  -- The loop of `TesReader::readRemovedFeatures`.
  pub read_removed_entries : ℕ → ℕ → ℕ → ℕ → List ℕ → Option (List Entry × List ℕ)
  read_removed_entries zero zero type_code prev_id bytes = some ([], bytes)
  read_removed_entries (suc fuel) zero type_code prev_id bytes = some ([], bytes)
  read_removed_entries zero (suc count) type_code prev_id bytes = none
  read_removed_entries (suc fuel) (suc count) type_code prev_id bytes = elim (v.read bytes) [
    | none ↦ none
    | some (ref, rest) ↦ elim (ref == 0) [
      | true ↦ read_removed_entries fuel (suc count) (type_code + 1) 0 rest
      | false ↦
          let id = (ref / 2 + prev_id) % 2 ^ 64 in
          put_removed (record { type_code = type_code; id = id; flag = not (ref % 2 == 0) })
            (read_removed_entries fuel count type_code id rest)
    ]
  ]

  pub read_removed : ℕ → List ℕ → Option (List Entry × List ℕ)
  read_removed fuel bytes = elim (v.read bytes) [
    | none ↦ none
    | some (count, rest) ↦ read_removed_entries fuel (count % 2 ^ 32) 0 0 rest
  ]
