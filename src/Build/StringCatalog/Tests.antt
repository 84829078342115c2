-- ===== src/Build/StringCatalog/Tests.antt =====
-- A catalog of three strings: 1 is a core string, 7 and 8 are frequent, and 9 is rare.
use mathlib.Core.List.Perm
use geodesk_gol.Prelude.{
  ℕ, ◌+◌, ◌*◌, ◌≡◌, refl, Bool, some, List, [], ◌∷◌, ◌++◌, lt→ltb, ge→ltb, ◌/◌, arith,
}
use geodesk_gol.Build.StringStatistics.{Counter, true_total_count, adjusted_key_count, value_count}
use geodesk_gol.Build.StringCatalog.{
  StringCatalog, key, value, shared, literal, BuildSettings, build, build_global_strings,
  index_strings, add_global_string, lookup, create_proto_string_codes, string_ref, proto_string,
}
use geodesk_gol.Build.StringCatalog.Strings.{write_to, read_string_view}
use geodesk_gol.Tes.Wire.Leb.{leb128}
use geodesk_gol.Build.StringCatalog.Bounds.{Kept, build-Kept}
use geodesk_gol.Build.StringCatalog.Reading.{Short, read_string-proto_string}

abbrev counter : ℕ → ℕ → ℕ → Counter
counter s total keys = record {
  next = 0;
  hash = s;
  total_count = total;
  key_count = keys;
  string = s;
}

abbrev counters : List Counter
counters =
    counter 7 200 200
    ∷ counter 1 (2 * 4611686018427387904 + 5) 0
    ∷ counter 9 4 4
    ∷ counter 8 150 30
    ∷ []

abbrev settings : BuildSettings
settings = record { indexed_keys = 7 ∷ []; max_strings = 100; min_string_usage = 10 }

abbrev same : ℕ → ℕ
same s = s

abbrev never : ℕ → Bool
never s = Bool.false

abbrev unsorted : List (ℕ × ℕ) → List (ℕ × ℕ)
unsorted xs = xs

abbrev catalog : StringCatalog
catalog = build same same never unsorted same (1 ∷ []) 8190 settings counters

abbrev bytes_of : ℕ → List ℕ
bytes_of s = s ∷ 100 ∷ []

-- The core string comes first, then the indexed key; an entry's code is its place in the sorted list.
codes :
    (catalog.global_strings ≡ 1 ∷ 0 ∷ 2 ∷ [])
    × (proto_string same same never key 7 catalog ≡ shared 0)
    × (proto_string same same never value 8 catalog ≡ shared 2)
    × (proto_string same same never value 9 catalog ≡ literal 9)
unfolding build build_global_strings index_strings add_global_string lookup
    create_proto_string_codes string_ref proto_string true_total_count adjusted_key_count
    value_count
codes = (refl, refl, refl, refl)

short : Short leb128
short = record {
  one_byte = λ n lt. rw (lt→ltb n 128 lt) refl;
  two_bytes = λ n ge lt. rw (ge→ltb n 128 ge, lt→ltb (n / 128) 128 (omega (arith, lt))) refl;
}

build-Kept_example : Kept (7 ∷ 1 ∷ 8 ∷ []) 100 catalog
build-Kept_example = build-Kept same same never unsorted same (1 ∷ []) 8190 settings counters

read_string-proto_string_example :
    read_string_view leb128.read bytes_of key catalog
      (write_to leb128.write bytes_of (proto_string same same never key 8 catalog) ++ (5 ∷ []))
    ≡ some (8 ∷ 100 ∷ [], 5 ∷ [])
read_string-proto_string_example =
    read_string-proto_string leb128 short bytes_of same same never unsorted same (1 ∷ []) 8190
      settings counters key 8 (5 ∷ []) (λ xs. Perm.refl xs) (omega arith) (omega arith)
      (omega arith) (omega arith)
