-- ===== src/Build/Analyzer.antt =====
-- src/build/analyze/Analyzer.cpp, processTask: the counters of a worker are merged into the global
-- ones, and counters of little use are dropped when the arena is full.
-- The threshold is a C++ int, here its 32-bit pattern. A comparison with a 64-bit count widens it
-- with its sign, and `removeStrings` takes the pattern itself.
mod Merging
mod Tests
use geodesk_gol.Prelude.{
  ℕ, zero, suc, ◌+◌, ◌-◌, ◌*◌, ◌%◌, ◌^◌, Option, none, some, ltb, ◌==◌, if◌then◌else◌,
}
use geodesk_gol.Build.StringStatistics.{
  StringStatistics, Counter, size_of, get_counter, add_at, remove_strings,
}

pub record Analyzer : Type 0 where
  pub strings : StringStatistics
  pub min_string_count : ℕ

-- An int, converted to 64 bits without a sign.
abbrev pub widened : ℕ → ℕ
widened m = if ltb m (2 ^ 31) then m else m + (2 ^ 64 - 2 ^ 32)

abbrev pub shifted : ℕ → ℕ
shifted m = (m * 2) % 2 ^ 32

module _ (total_size : ℕ → ℕ) where
  -- The loop of `processTask` for one counter, with a turn of it for each unit of fuel.
  pub merge_counter : ℕ → Counter → Analyzer → Option Analyzer
  merge_counter zero counter a = none
  merge_counter (suc fuel) counter a =
      let (ofs, strings) = get_counter total_size counter.string counter.hash a.strings in
      let culled : Analyzer = record {
        strings = remove_strings total_size a.min_string_count strings;
        min_string_count = shifted a.min_string_count;
      } in
      let rest = merge_counter fuel counter culled in
      if ltb counter.total_count (widened a.min_string_count)
      then some a
      else (if ofs == 0
          then rest
          else some (record a { strings = add_at total_size ofs counter strings }))

  -- The loop over the worker's arena.
  pub process_from : ℕ → ℕ → (ℕ → Counter) → ℕ → ℕ → Analyzer → Option Analyzer
  process_from turns zero arena p arena_end a = none
  process_from turns (suc fuel) arena p arena_end a =
      let counter = arena p in
      let rest = λ (b : Analyzer).
        process_from turns fuel arena (p + size_of total_size counter) arena_end b in
      if ltb p arena_end
      then elim (merge_counter turns counter a) [ none ↦ none | some b ↦ rest b ]
      else some a

  -- `processTask`
  pub process_task : ℕ → ℕ → (ℕ → Counter) → ℕ → Analyzer → Option Analyzer
  process_task turns fuel arena size a = process_from turns fuel arena 4 size a
