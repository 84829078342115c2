-- ===== src/Tes/Tags/Checker.antt =====
-- The global tags as src/tile/tes/TesChecker.cpp takes them: `readGlobalTag`, `readTagValue` and the loop of
-- `readTagTable`. `max_key` is the library's highest common key; what the checker refuses is nothing.
use geodesk_gol.Prelude.{
  ℕ, zero, suc, ◌+◌, ◌-◌, ◌*◌, ◌/◌, ◌%◌, ◌^◌, ◌≤◌, ◌<◌, bit_or, true, false, ◌≡◌, refl, ap, ◌∙◌,
  Option, none, some, List, [], ◌∷◌, ◌++◌, length, append_assoc, All, ltb, lt→ltb, ge→ltb, leb,
  le→leb, if◌then◌else◌, arith,
}
use geodesk_gol.Tes.Wire.{Varint}
use geodesk_gol.Change.TagTable.{key, type_code}
use geodesk_gol.Change.TagTable.Fields.{globals_size}
use geodesk_gol.Tes.Tags.{
  ReadTag, put_tag, write_tag, write_global_tags, read_number, read_value_of,
}
use geodesk_gol.Tes.Tags.Locals.{
  sent, IsSendable, tag_word, type_code-bound, read_number-write, read_value_of-sent,
  write_tag-words,
}
use geodesk_gol.Tes.Tags.RoundTrip.{IsAscending}

module _ (v : Varint) (string_count max_key : ℕ) where
  -- `readGlobalTag`, with the key before: the tag, and its size in the tile.
  pub check_global_tag : ℕ → List ℕ → Option (ReadTag × ℕ × List ℕ)
  check_global_tag prev_global_tag bytes = elim (read_number v string_count bytes) [
    | none ↦ none
    | some (key_and_flags, after_key) ↦
        let global_tag = (prev_global_tag + key_and_flags / 4) % 2 ^ 32 in
        if leb global_tag max_key
        then elim (read_value_of v string_count (key_and_flags % 4) after_key) [
          | none ↦ none
          | some (value, rest) ↦ some (
            record { read_key = global_tag; read_type = key_and_flags % 4; read_value = value },
            4 + key_and_flags % 4 / 2 % 2 * 2,
            rest,
          )
        ]
        else none
  ]

  -- The loop of the global tags. The source passes `prevGlobalTag` by value and never writes it.
  pub check_global_tags : ℕ → ℕ → ℕ → List ℕ → Option (List ReadTag × List ℕ)
  check_global_tags zero size computed bytes = if ltb computed size then none else some ([], bytes)
  check_global_tags (suc fuel) size computed bytes =
      if ltb computed size
      then elim (check_global_tag 0 bytes) [
        | none ↦ none
        | some (tag, tag_size, rest) ↦
            put_tag tag (check_global_tags fuel size (computed + tag_size) rest)
      ]
      else some ([], bytes)

-- A global tag with its key's difference to the key before in place of the key.
abbrev pub differences : (ℕ → ℕ) → ℕ → ℕ → List ℕ → List ReadTag
differences strings string_count prev [] = []
differences strings string_count prev (tag ∷ tags) =
    record {
      read_key = key tag - prev;
      read_type = type_code tag;
      read_value = sent strings string_count tag;
    }
    ∷ differences strings string_count (key tag) tags

module _ (v : Varint) (strings : ℕ → ℕ) (string_count max_key : ℕ) where
  -- The checker does not add up the keys of the global tags: of a table that the updater wrote it takes,
  -- for each tag, the difference to the key before as the key, where the reader takes the key. The keys ascend
  -- and are no higher than the highest common key, which has 14 bits, and the strings have numbers.
  pub check_global_tags-write :
      (tags : List ℕ) (fuel size computed prev : ℕ) (rest : List ℕ)
      → string_count < 2 ^ 30
      → max_key < 2 ^ 14
      → IsAscending strings string_count v prev tags
      → All (λ tag. key tag ≤ max_key) tags
      → All (IsSendable strings string_count) tags
      → length tags ≤ fuel
      → size ≡ computed + globals_size tags
      → check_global_tags v string_count max_key fuel size computed
          (write_global_tags v strings prev tags ++ rest)
        ≡ some (differences strings string_count prev tags, rest)
  unfolding check_global_tags write_global_tags check_global_tag
  check_global_tags-write [] zero size computed prev rest few top up low ok le goal =
      let stop : ltb computed size ≡ false = ge→ltb computed size (omega (arith, goal)) in
      rw stop refl
  check_global_tags-write [] (suc fuel) size computed prev rest few top up low ok le goal =
      let stop : ltb computed size ≡ false = ge→ltb computed size (omega (arith, goal)) in
      rw stop refl
  check_global_tags-write (tag ∷ tags) zero size computed prev rest few top up low ok le goal =
      absurd (omega (arith, le))
  check_global_tags-write (tag ∷ tags) (suc fuel) size computed prev rest few top up low ok le
        goal =
      let k = key tag in
      let t = type_code tag in
      let bound = type_code-bound tag in
      let d = k - prev in
      let later = write_global_tags v strings k tags ++ rest in
      let go_on : ltb computed size ≡ true = lt→ltb computed size (omega (arith, goal)) in
      let delta : (k + 2 ^ 32 - prev) % 2 ^ 32 ≡ d = omega (arith, up.0, up.1) in
      let word : bit_or (d * 4 % 2 ^ 32) t ≡ d * 4 + t = tag_word d t (omega (arith, up.1)) bound in
      let low_bits : (d * 4 + t) % 4 ≡ t = omega (arith, bound) in
      let high_bits : (d * 4 + t) / 4 ≡ d = omega (arith, bound) in
      let alone : (0 + d) % 2 ^ 32 ≡ d = omega (arith, up.1) in
      let allowed : leb d max_key ≡ true = le→leb d max_key (omega (arith, low.0)) in
      let bytes =
        append_assoc (write_tag v strings (d * 4 + t) tag) (write_global_tags v strings k tags) rest
        ∙ write_tag-words strings string_count v d tag later in
      rw
        (
          delta,
          word,
          bytes,
          go_on,
          read_number-write strings string_count v (d * 4 + t)
              (v.write (sent strings string_count tag) ++ later) (omega (arith, up.1, bound)),
          high_bits,
          alone,
          allowed,
          low_bits,
          read_value_of-sent strings string_count v tag later few ok.0,
          high_bits,
          alone,
          low_bits,
        )
        (ap (put_tag _) (
          check_global_tags-write tags fuel size (computed + (4 + t / 2 % 2 * 2)) k rest few top
            up.2 low.1 ok.1 (omega (arith, le)) (omega (arith, goal, bound))))
