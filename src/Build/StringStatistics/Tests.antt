-- ===== src/Build/StringStatistics/Tests.antt =====
-- Counters in a small arena.
use geodesk_gol.Prelude.{ℕ, ◌+◌, ◌*◌, ◌<◌, ◌≡◌, ◌⊎◌, false, refl, [], ◌∷◌}
use geodesk_gol.Build.StringStatistics.{
  StringStatistics, Counter, init, fresh, gross_size, place, find_counter, get_counter, add_string,
  remove_from, remove_strings,
}
use geodesk_gol.Build.StringStatistics.Entries.{tally_of, Holds}
use geodesk_gol.Build.StringStatistics.Lookup.{HasPlace, place-Holds, add_string_implements_tally}
use geodesk_gol.Build.StringStatistics.Search.{tally, has}
use geodesk_gol.Build.StringStatistics.Removal.{with_usage, remove_strings_implements_with_usage}

abbrev size : ℕ → ℕ
size s = s + 1

abbrev counter : ℕ → ℕ → Counter
counter s n = record { next = 0; hash = s * 31; total_count = n; key_count = 1; string = s }

abbrev empty : StringStatistics
empty = init 7 100 (λ ofs. fresh 0 0 0)

empty-Holds : Holds size empty []
empty-Holds = record { offsets = []; laid = refl; linked = λ s. refl; counted = refl }

abbrev one : StringStatistics
one = place size (counter 5 3) empty

-- Two strings, one of them counted twice, and what is left of them at a usage of 5.
counted :
    let two = (add_string size (counter 12 2) (add_string size (counter 5 4) one).1).1 in
    ((two.arena 4).total_count ≡ 7)
    × ((two.arena 36).total_count ≡ 2)
    × ((remove_strings size 5 two).p ≡ 36)
    × ((remove_strings size 5 two).table 1 ≡ 4)
    × ((add_string size (counter 60 1) two).0 ≡ 0)
unfolding add_string get_counter find_counter remove_strings remove_from
counted = (refl, refl, refl, refl, refl)

add_string_implements_tally_example :
    (Holds size
        (add_string size (counter 5 4) one).1
        (tally (counter 5 4) (tally_of (counter 5 3) ∷ []))
      × (0 < (add_string size (counter 5 4) one).0)
      × HasPlace size 5 155 (tally_of (counter 5 3) ∷ []) one)
    ⊎ ((add_string size (counter 5 4) one ≡ (0, one))
        × (has 5 155 (tally_of (counter 5 3) ∷ []) ≡ false)
        × (one.arena_end < one.p + gross_size (size 5)))
add_string_implements_tally_example =
    add_string_implements_tally size (counter 5 4) one (tally_of (counter 5 3) ∷ [])
      (place-Holds size (counter 5 3) empty [] refl empty-Holds)

remove_strings_implements_with_usage_example :
    Holds size (remove_strings size 4 one) (with_usage 4 (tally_of (counter 5 3) ∷ []))
remove_strings_implements_with_usage_example =
    remove_strings_implements_with_usage size 4 one (tally_of (counter 5 3) ∷ [])
      (place-Holds size (counter 5 3) empty [] refl empty-Holds)
