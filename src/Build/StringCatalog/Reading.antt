-- ===== src/Build/StringCatalog/Reading.antt =====
-- src/build/util/ProtoString.h and ProtoGol.h: a string that the sorter writes with the catalog's code
-- for it, or as a literal, is read back.
use mathlib.Core.List.{Perm}
use geodesk_gol.Prelude.{
  ℕ, ◌+◌, ◌-◌, ◌*◌, ◌/◌, ◌%◌, ◌^◌, ◌≤◌, ◌<◌, ◌≡◌, refl, sym, subst, inl, inr, Bool, Bool-cases,
  true, false, Option-cases, some, List, [], ◌∷◌, ◌++◌, append_assoc, map, length, get_elem?,
  take-append, drop-append, ltb, ltb→lt, ltb→ge, ◌==◌, ne→==, arith,
}
use geodesk_gol.Prelude.Perms.{length-perm}
use geodesk_gol.Tes.Wire.{Varint}
use geodesk_gol.Build.StringStatistics.{Counter, adjusted_key_count, value_count}
use geodesk_gol.Build.StringCatalog.{
  StringCatalog, StringType, key, value, StringRef, ProtoString, shared, literal, BuildSettings,
  Codes, string_at, frequent, sort_entries, string_ref, no_codes, codes_of,
  create_proto_string_codes, lookup, build, max_global_string_count, proto_string,
}
use geodesk_gol.Build.StringCatalog.Strings.{write_to, entry_of, read_string_view}
use geodesk_gol.Build.StringCatalog.Bounds.{build-Kept}
use geodesk_gol.Build.StringCatalog.Coding.{
  get_elem?-bound, Coded, add_codes-Coded, sort_entries-length, string_ref-entry, frequent-length,
  lookup-string, proto_absent, proto_uncoded, proto_coded,
}

-- The wire format: a varint is one byte below 2^7 and two bytes below 2^14.
pub record Short (v : Varint) : Type 0 where
  pub one_byte : (n : ℕ) → n < 128 → v.write n ≡ n ∷ []
  pub two_bytes : (n : ℕ) → 128 ≤ n → n < 16384 → v.write n ≡ (n % 128 + 128) ∷ (n / 128) ∷ []

module _ (v : Varint) (short : Short v) (bytes_of : ℕ → List ℕ) where
  abbrev Returns : StringType → StringCatalog → ProtoString → List ℕ → ℕ → Type 0
  Returns type c code rest str =
      read_string_view v.read bytes_of type c (write_to v.write bytes_of code ++ rest)
      ≡ some (bytes_of str, rest)

  -- The length that is written by hand is the varint of twice the length.
  literal_written :
      (str : ℕ)
      → length (bytes_of str) < 8192
      → write_to v.write bytes_of (literal str)
        ≡ v.write (length (bytes_of str) * 2) ++ bytes_of str
  unfolding write_to
  literal_written str lt =
      let n = length (bytes_of str) * 2 in
      elim (Bool-cases (ltb 127 n)) [
        | inl big ↦
            let high : n / 128 % 256 ≡ n / 128 = omega (arith, lt) in
            rw (big, high, short.two_bytes n (omega (arith, ltb→lt 127 n big)) (omega (arith, lt)))
              refl
        | inr e ↦ rw (e, short.one_byte n (omega (arith, ltb→ge 127 n e))) refl
      ]

  literal-Returns :
      (type : StringType) (c : StringCatalog) (rest : List ℕ) (str : ℕ)
      → length (bytes_of str) < 8192
      → Returns type c (literal str) rest str
  unfolding read_string_view
  literal-Returns type c rest str lt =
      let n = length (bytes_of str) in
      let even : (n * 2 % 2 == 1) ≡ false = ne→== (n * 2 % 2) 1 (omega arith) in
      let half : n * 2 / 2 ≡ n = omega arith in
      rw
        (
          literal_written str lt,
          append_assoc (v.write (n * 2)) (bytes_of str) rest,
          v.read-write (n * 2) (bytes_of str ++ rest) (omega (arith, lt)),
          even,
          half,
          take-append (bytes_of str) rest,
          drop-append (bytes_of str) rest,
        )
        refl

  shared-Returns :
      (type : StringType) (c : StringCatalog) (rest : List ℕ) (pos entry : ℕ) (ref : StringRef)
      → pos < 2 ^ 31
      → get_elem? (codes_of type c).refs pos ≡ some ref
      → entry_of ref c ≡ some entry
      → Returns type c (shared pos) rest (string_at entry c)
  unfolding read_string_view write_to
  shared-Returns type c rest pos entry ref small at leads =
      let odd : ((pos * 2 + 1) % 2 == 1) ≡ true = rw (odd_lem pos) refl in
      let half : (pos * 2 + 1) / 2 ≡ pos = omega arith in
      rw (v.read-write (pos * 2 + 1) rest (omega (arith, small)), odd, half, at, leads) refl
    where
      odd_lem : (pos : ℕ) → (pos * 2 + 1) % 2 ≡ 1
      odd_lem pos = omega arith

  module _ (hash_of total_size : ℕ → ℕ) (is_narrow_number : ℕ → Bool)
      (sort_descending : List (ℕ × ℕ) → List (ℕ × ℕ)) (round_up_to_power_of_2 : ℕ → ℕ)
      (core_strings : List ℕ) (max_common_key : ℕ) (settings : BuildSettings)
      (counters : List Counter) where
    abbrev catalog : StringCatalog
    catalog =
        build hash_of total_size is_narrow_number sort_descending round_up_to_power_of_2
          core_strings max_common_key settings counters

    record Refs (codes : Codes) : Type 0 where
      max_code : ℕ
      below : max_code < 2 ^ 32 - 1
      coded : (entry : ℕ) → Coded (λ e. string_ref max_code e catalog) codes entry
      count : length codes.refs ≤ length counters

    create_lem :
        (count : Counter → ℕ) (max_code : ℕ)
        → ((xs : List (ℕ × ℕ)) → Perm (sort_descending xs) xs)
        → max_code < 2 ^ 32 - 1
        → Refs (
            create_proto_string_codes
              (sort_descending (sort_entries count 0 (frequent counters)))
              max_code
              catalog)
    unfolding create_proto_string_codes
    create_lem count max_code sorts below =
        let entries = sort_entries count 0 (frequent counters) in
        let (coded, total) =
          add_codes-Coded (λ e. string_ref max_code e catalog) 0 (sort_descending entries) no_codes
            refl (λ entry. inl refl) in
        record {
          max_code = max_code;
          below = below;
          coded = coded;
          count = omega (
            arith,
            total,
            length-perm (sorts entries),
            sort_entries-length count 0 (frequent counters),
            frequent-length counters,
          );
        }

    codes_lem :
        (type : StringType)
        → ((xs : List (ℕ × ℕ)) → Perm (sort_descending xs) xs)
        → max_common_key < 2 ^ 32 - 1
        → Refs (codes_of type catalog)
    unfolding build create_proto_string_codes string_ref
    codes_lem key sorts below = create_lem adjusted_key_count max_common_key sorts below
    codes_lem value sorts below = create_lem value_count 65535 sorts (omega arith)

    -- A string that is written into a pile as a key or a value, by its code in the catalog or as a
    -- literal, is read back with the catalog, whatever follows it, if it is shorter than 8,192 bytes:
    -- for any counters, fewer than 2^31, any settings that keep the global string table below 2^32
    -- strings, and any order in which the entries are sorted.
    pub read_string-proto_string :
        (type : StringType) (str : ℕ) (rest : List ℕ)
        → ((xs : List (ℕ × ℕ)) → Perm (sort_descending xs) xs)
        → length counters < 2 ^ 31
        → max_global_string_count hash_of total_size is_narrow_number sort_descending
            round_up_to_power_of_2 core_strings max_common_key settings
          < 2 ^ 32
        → max_common_key < 2 ^ 32 - 1
        → length (bytes_of str) < 8192
        → read_string_view v.read bytes_of type catalog (
            write_to v.write bytes_of
              (proto_string hash_of total_size is_narrow_number type str catalog)
            ++ rest)
          ≡ some (bytes_of str, rest)
    read_string-proto_string type str rest sorts few small below short_enough =
        let kept =
          build-Kept hash_of total_size is_narrow_number sort_descending round_up_to_power_of_2
            core_strings max_common_key settings counters in
        let strings = map (λ (k : Counter). k.string) (frequent counters) in
        let limit =
          max_global_string_count hash_of total_size is_narrow_number sort_descending
            round_up_to_power_of_2 core_strings max_common_key settings in
        let refs = codes_lem type sorts below in
        let as_literal = literal-Returns type catalog rest str short_enough in
        let ends : ProtoString → Type 0 = λ code. Returns type catalog code rest str in
        elim (Option-cases (lookup hash_of total_size is_narrow_number str catalog)) [
          | inl absent ↦
              subst ends
                (sym (proto_absent hash_of total_size is_narrow_number type str catalog absent))
                as_literal
          | inr (entry, found) ↦ elim (refs.coded entry) [
            | inl uncoded ↦
                subst ends
                  (sym (
                    proto_uncoded hash_of total_size is_narrow_number type str catalog entry found
                      uncoded))
                  as_literal
            | inr (pos, code, at) ↦
                let ref = string_ref refs.max_code entry catalog in
                let bound = get_elem?-bound (codes_of type catalog).refs pos ref at in
                let own =
                  lookup-string hash_of total_size is_narrow_number str entry catalog found in
                subst ends
                  (sym (
                    proto_coded hash_of total_size is_narrow_number type str catalog entry pos found
                      code))
                  (subst (λ s. Returns type catalog (shared pos) rest s) own
                    (shared-Returns type catalog rest pos entry ref
                      (omega (arith, bound, refs.count, few)) at
                      (string_ref-entry strings limit refs.max_code entry catalog kept small
                        refs.below)))
          ]
        ]
