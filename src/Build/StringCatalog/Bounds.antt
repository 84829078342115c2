-- ===== src/Build/StringCatalog/Bounds.antt =====
-- src/build/util/StringCatalog.cpp, the global string table: codes and entries correspond, and the
-- table keeps to its limit.
use geodesk_gol.Prelude.{
  ℕ, zero, suc, ◌+◌, ◌≤◌, min, ◌≡◌, refl, inl, inr, Bool, Bool-cases, Option-cases, some, List, [],
  ◌∷◌, ◌++◌, map, length, length-append, get_elem?, leb, leb→gt, ◌==◌, ==→eq, arith,
}
use geodesk_gol.Build.StringStatistics.{Counter, put_at, true_total_count, adjusted_key_count}
use geodesk_gol.Build.StringCatalog.{
  StringCatalog, BuildSettings, string_at, add_global_string, add_global_strings, fill,
  index_strings, build, frequent, sort_entries, max_common_key_limit, build_global_strings,
  max_global_string_count, lookup,
}

pub get_elem?-append {ℓ} :
    {A : Type ℓ} (xs : List A) (i : ℕ) (a y : A)
    → get_elem? xs i ≡ some a
    → get_elem? (xs ++ (y ∷ [])) i ≡ some a
get_elem?-append [] i a y e = cc e
get_elem?-append (x ∷ xs) zero a y e = e
get_elem?-append (x ∷ xs) (suc i) a y e = get_elem?-append xs i a y e

pub get_elem?-last {ℓ} :
    {A : Type ℓ} (xs : List A) (y : A) → get_elem? (xs ++ (y ∷ [])) (length xs) ≡ some y
get_elem?-last [] y = refl
get_elem?-last (x ∷ xs) y = get_elem?-last xs y

-- An entry with a code is the one that the table has under that code, and the strings of the entries
-- are these.
pub record Sound (strings : List ℕ) (c : StringCatalog) : Type 0 where
  pub same_strings : c.strings ≡ strings
  pub coded :
      (entry code : ℕ)
      → c.global_code_plus_one entry ≡ suc code
      → get_elem? c.global_strings code ≡ some entry

-- Such a catalog, with at most `limit` strings in its table.
pub record Kept (strings : List ℕ) (limit : ℕ) (c : StringCatalog) : Type 0 where
  pub sound : Sound strings c
  pub bound : length c.global_strings ≤ limit

module _ (hash_of total_size : ℕ → ℕ) (is_narrow_number : ℕ → Bool) where
  abbrev add : ℕ → StringCatalog → StringCatalog
  add entry c = add_global_string hash_of total_size is_narrow_number entry c

  add-Sound :
      (entry : ℕ) (strings : List ℕ) (c : StringCatalog)
      → Sound strings c
      → Kept strings (length c.global_strings + 1) (add entry c)
  unfolding add_global_string
  add-Sound entry strings c s = elim (Bool-cases (c.global_code_plus_one entry == 0)) [
    | inr e ↦ rw e (record { sound = s; bound = omega arith })
    | inl e ↦ elim (Bool-cases (is_narrow_number (string_at entry c))) [
      | inl narrow ↦ rw (e, narrow) (record { sound = s; bound = omega arith })
      | inr wide ↦
          rw (e, wide)
            (record {
              sound = record { same_strings = s.same_strings; coded = coded };
              bound = omega (arith, length-append c.global_strings (entry ∷ []));
            })
    ]
  ]
    where
      coded :
          (other code : ℕ)
          → put_at entry (length c.global_strings + 1) c.global_code_plus_one other ≡ suc code
          → get_elem? (c.global_strings ++ (entry ∷ [])) code ≡ some other
      coded other code h = elim (Bool-cases (entry == other)) [
        | inl e ↦
            let here : code ≡ length c.global_strings = omega (arith, rw e at h) in
            rw (here, ← ==→eq entry other e) (get_elem?-last c.global_strings entry)
        | inr e ↦
            get_elem?-append c.global_strings code other entry (s.coded other code (rw e at h))
      ]

  add_strings-Sound :
      (strs strings : List ℕ) (limit : ℕ) (c : StringCatalog)
      → Sound strings c
      → length c.global_strings + length strs ≤ limit
      → Kept strings limit (add_global_strings hash_of total_size is_narrow_number strs c)
  add_strings-Sound [] strings limit c s le = record { sound = s; bound = omega (arith, le) }
  add_strings-Sound (str ∷ strs) strings limit c s le =
      elim (Option-cases (lookup hash_of total_size is_narrow_number str c)) [
        | inl e ↦ rw e (add_strings-Sound strs strings limit c s (omega (arith, le)))
        | inr (entry, e) ↦
            let added = add-Sound entry strings c s in
            rw e (
              add_strings-Sound strs strings limit (add entry c) added.sound
                (omega (arith, le, added.bound)))
      ]

  fill-Kept :
      (limit usage top : ℕ) (sorted : List (ℕ × ℕ)) (strings : List ℕ) (c : StringCatalog)
      → limit ≤ top
      → Kept strings top c
      → Kept strings top (fill hash_of total_size is_narrow_number limit usage sorted c).1
  fill-Kept limit usage top [] strings c le k = k
  fill-Kept limit usage top ((count, entry) ∷ sorted) strings c le k =
      elim (Bool-cases (leb limit (length c.global_strings))) [
        | inl full ↦ rw full k
        | inr room ↦ elim (Bool-cases (leb usage count)) [
          | inl used ↦
              let added = add-Sound entry strings c k.sound in
              let lt = leb→gt limit (length c.global_strings) room in
              rw (room, used)
                (fill-Kept limit usage top sorted strings (add entry c) le
                  (record { sound = added.sound; bound = omega (arith, added.bound, lt, le) }))
          | inr rare ↦ rw (room, rare) (fill-Kept limit usage top sorted strings c le k)
        ]
      ]

  module _ (sort_descending : List (ℕ × ℕ) → List (ℕ × ℕ)) (round_up_to_power_of_2 : ℕ → ℕ)
      (core_strings : List ℕ) (max_common_key : ℕ) where
    -- However the entries are sorted, `build` gives out codes that the global string table maps back to
    -- their entries, and the table has no more strings than the settings allow, or than the core
    -- strings and the indexed keys, which are always taken, if these are more.
    pub build-Kept :
        (settings : BuildSettings) (counters : List Counter)
        → Kept
            (map (λ (k : Counter). k.string) (frequent counters))
            (max_global_string_count hash_of total_size is_narrow_number sort_descending
              round_up_to_power_of_2 core_strings max_common_key settings)
            (build hash_of total_size is_narrow_number sort_descending round_up_to_power_of_2
              core_strings max_common_key settings counters)
    unfolding build build_global_strings index_strings
    build-Kept settings counters =
        let strings = map (λ (k : Counter). k.string) (frequent counters) in
        let top =
          max_global_string_count hash_of total_size is_narrow_number sort_descending
            round_up_to_power_of_2 core_strings max_common_key settings in
        let c =
          index_strings hash_of total_size is_narrow_number sort_descending round_up_to_power_of_2
            core_strings max_common_key counters in
        let empty : Sound strings c = record {
          same_strings = refl;
          coded = λ entry code h. absurd (omega (arith, h));
        } in
        let core =
          add_strings-Sound core_strings strings (length core_strings) c empty (omega arith) in
        let required =
          add_strings-Sound settings.indexed_keys strings top
            (add_global_strings hash_of total_size is_narrow_number core_strings c) core.sound
            (omega (arith, core.bound)) in
        let entries = frequent counters in
        let sorted = sort_descending (sort_entries true_total_count 0 entries) in
        let sorted_keys = sort_descending (sort_entries adjusted_key_count 0 entries) in
        let usage = settings.min_string_usage in
        let strs =
          add_global_strings hash_of total_size is_narrow_number settings.indexed_keys
            (add_global_strings hash_of total_size is_narrow_number core_strings c) in
        let mixed = fill-Kept (min 512 top) usage top sorted strings strs (omega arith) required in
        let (rest, c') = fill hash_of total_size is_narrow_number (min 512 top) usage sorted strs in
        let keyed =
          fill-Kept (min max_common_key_limit top) usage top sorted_keys strings c' (omega arith)
            mixed in
        let c'' =
          (fill hash_of total_size is_narrow_number (min max_common_key_limit top) usage sorted_keys
            c').1 in
        let full = fill-Kept top usage top rest strings c'' (omega arith) keyed in
        record {
          sound = record { same_strings = full.sound.same_strings; coded = full.sound.coded };
          bound = full.bound;
        }
