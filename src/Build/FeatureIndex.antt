-- ===== src/Build/FeatureIndex.antt =====
-- src/build/util/MappedIndex.h and .cpp, src/build/sort/FastFeatureIndex.h and .cpp: the packed array that
-- holds the pile of each feature, in segments of 1 GB of 64-bit words.
-- The mapped file is a map from the number of a word to its value and a pointer the number of a
-- word, `none` for null. An id below 0 is rejected by the reader of the file, which the code relies
-- on. The atomic write of one word is one step.
pub mod Mapping
pub mod Cells
pub mod Batch
mod Tests
use geodesk_gol.Prelude.{
  ℕ, ◌+◌, ◌-◌, ◌*◌, ◌/◌, ◌%◌, ◌^◌, bit_and, bit_or, Bool, Option, none, some, List, [], ◌∷◌, ltb,
  ◌==◌, if◌then◌else◌,
}

abbrev pub segment_length_bytes : ℕ
segment_length_bytes = 1024 * 1024 * 1024

pub data WriteState : Type 0 where
  not_started : WriteState
  at_start : WriteState
  beyond_start : WriteState

pub record FeatureIndex : Type 0 where
  pub cells : ℕ → ℕ
  pub max_id : ℕ
  pub current_cell : Option ℕ
  pub cell_data : ℕ
  pub write_state : WriteState
  pub value_width : ℕ

pub record CellRef : Type 0 where
  pub cell : ℕ
  pub bit_offset : ℕ

abbrev pub slots_per_segment : ℕ → ℕ
slots_per_segment value_width = segment_length_bytes * 8 / value_width

-- `MappedIndex::calculateMappingSize`; the mask clears the lower 12 bits.
pub calculate_mapping_size : ℕ → ℕ → ℕ
calculate_mapping_size max_id value_width =
    let total_slots = max_id + 1 in
    let full_segments = total_slots / slots_per_segment value_width in
    let partial_segment_slots = total_slots % slots_per_segment value_width in
    segment_length_bytes * full_segments
    + (partial_segment_slots * value_width / 8 + 7 + 4096 - 1) / 4096 * 4096

-- `access`
pub access : ℕ → ℕ → CellRef
access value_width id =
    let segment_no = id / slots_per_segment value_width in
    let slot = id % slots_per_segment value_width in
    record {
      cell = segment_length_bytes / 8 * segment_no + slot * value_width / 64;
      bit_offset = slot * value_width % 64;
    }

-- The constructor.
abbrev pub init : (ℕ → ℕ) → ℕ → ℕ → FeatureIndex
init cells max_id value_width = record {
  cells = cells;
  max_id = max_id;
  current_cell = none;
  cell_data = 0;
  write_state = not_started;
  value_width = value_width;
}

abbrev pub write_cell : ℕ → ℕ → (ℕ → ℕ) → ℕ → ℕ
write_cell p v cells q = if p == q then v else cells q

-- `get`, with what a 64-bit shift to the left drops.
pub get : ℕ → FeatureIndex → ℕ
get id t =
    if ltb t.max_id id
    then 0
    else (let ref = access t.value_width id in
        let v = t.cells ref.cell / 2 ^ ref.bit_offset in
        let overflow = ref.bit_offset + t.value_width - 64 in
        let whole =
          if ltb 0 overflow
          then bit_or v ((t.cells (ref.cell + 1) * 2 ^ (t.value_width - overflow)) % 2 ^ 64)
          else v in
        bit_and whole (2 ^ t.value_width - 1))

-- `flushAtomic`
pub flush_atomic : FeatureIndex → FeatureIndex
flush_atomic t = elim t.current_cell [
  | none ↦ t
  | some p ↦ record t { cells = write_cell p (bit_or (t.cells p) t.cell_data) t.cells }
]

abbrev pub write_direct : FeatureIndex → FeatureIndex
write_direct t = elim t.current_cell [
  | none ↦ t
  | some p ↦ record t { cells = write_cell p t.cell_data t.cells }
]

-- `flush`: the first cell of a batch is written atomically, those beyond it directly.
pub flush : FeatureIndex → FeatureIndex
flush t = elim t.write_state [
  | not_started ↦ record t { write_state = at_start; cell_data = 0 }
  | at_start ↦ record (flush_atomic t) { write_state = beyond_start; cell_data = 0 }
  | beyond_start ↦ record (write_direct t) { cell_data = 0 }
]

abbrev pub is_current : ℕ → FeatureIndex → Bool
is_current p t = elim t.current_cell [ none ↦ Bool.false | some q ↦ p == q ]

-- `put`
pub put : ℕ → ℕ → FeatureIndex → FeatureIndex
put id pile t =
    let ref = access t.value_width id in
    let moved = if is_current ref.cell t then t else flush t in
    let added = record moved {
      current_cell = some ref.cell;
      cell_data = bit_or moved.cell_data ((pile * 2 ^ ref.bit_offset) % 2 ^ 64);
    } in
    let overflow = ref.bit_offset + t.value_width - 64 in
    if ltb 0 overflow
    then record (flush added) {
      current_cell = some (ref.cell + 1);
      cell_data = pile / 2 ^ (t.value_width - overflow);
    }
    else added

-- `endBatch`
pub end_batch : FeatureIndex → FeatureIndex
end_batch t = record (flush_atomic t) {
  current_cell = none;
  cell_data = 0;
  write_state = not_started;
}

-- A batch: the entries put, and its end.
pub put_all : List (ℕ × ℕ) → FeatureIndex → FeatureIndex
put_all [] t = t
put_all ((id, pile) ∷ entries) t = put_all entries (put id pile t)
