-- ===== src/Build/Analyzer/Tests.antt =====
-- The counters of a worker, merged into an arena with room for one string.
use geodesk_gol.Prelude.{ℕ, ◌+◌, ◌*◌, none, ◌^◌, ◌≤◌, ◌≡◌, refl, some, List, [], ◌∷◌, arith}
use geodesk_gol.Build.StringStatistics.{
  StringStatistics, Counter, init, fresh, place, find_counter, get_counter, remove_strings,
  remove_from,
}
use geodesk_gol.Build.StringStatistics.Entries.{Tally, tally_of, Holds}
use geodesk_gol.Build.StringStatistics.Lookup.{place-Holds}
use geodesk_gol.Build.StringStatistics.Removal.{onto}
use geodesk_gol.Build.Analyzer.{Analyzer, merge_counter, process_from, process_task}
use geodesk_gol.Build.Analyzer.Merging.{AllMerged, process_task_merges}

abbrev size : ℕ → ℕ
size s = s + 1

abbrev counter : ℕ → ℕ → Counter
counter s n = record { next = 0; hash = s * 31; total_count = n; key_count = 1; string = s }

abbrev empty : ℕ → StringStatistics
empty room = init 7 room (λ ofs. fresh 0 0 0)

empty-Holds : (room : ℕ) → Holds size (empty room) []
empty-Holds room = record { offsets = []; laid = refl; linked = λ s. refl; counted = refl }

abbrev worker : StringStatistics
worker = place size (counter 5 9) (empty 100)

abbrev global : Analyzer
global = record { strings = place size (counter 8 3) (empty 40); min_string_count = 2 }

abbrev merged : Analyzer
merged = elim (process_task size 32 worker.p worker.arena worker.p global) [
  | none ↦ global
  | some a ↦ a
]

-- There is no room at first, and none after the strings below 2 are gone; those below 4 make room.
culls :
    (merged.min_string_count ≡ 8)
    × (merged.strings.p ≡ 36)
    × ((merged.strings.arena 4).total_count ≡ 9)
unfolding process_task process_from merge_counter get_counter find_counter remove_strings
    remove_from
culls = (refl, refl, refl)

process_task_merges_example :
    (k : ℕ) × (after : Analyzer) × (after_tallies : List Tally) × (process_task size 32 worker.p
        worker.arena worker.p global
      ≡ some after)
    × (after.min_string_count ≡ 2 ^ k)
    × (k ≤ 31)
    × Holds size after.strings after_tallies
    × AllMerged size 40
        (onto (tally_of (counter 5 9) ∷ []) [])
        2
        (tally_of (counter 8 3) ∷ [])
        after.min_string_count
        after_tallies
process_task_merges_example =
    process_task_merges size 1 worker (tally_of (counter 5 9) ∷ []) global
      (tally_of (counter 8 3) ∷ []) refl (omega arith)
      (place-Holds size (counter 5 9) (empty 100) [] refl (empty-Holds 100)) (omega arith, tt)
      (place-Holds size (counter 8 3) (empty 40) [] refl (empty-Holds 40))
