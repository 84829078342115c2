-- ===== src/Tes/Tags/RoundTrip.antt =====
-- Reading the tag table that was written.
use geodesk_gol.Prelude.{
  ℕ, zero, suc, ◌+◌, ◌-◌, ◌*◌, ◌/◌, ◌%◌, ◌^◌, ◌≤◌, ◌<◌, bit_and, bit_or, false, ◌≡◌, refl, sym, ap,
  ◌∙◌, some, List, [], ◌∷◌, ◌++◌, map, length, append_assoc, append-nil, All, ltb, ge→ltb, ◌==◌,
  ==_refl, ne→==, if◌then◌else◌, arith,
}
use geodesk_gol.Prelude.Bits.{bit_or_fields, bit_or-zero}
use geodesk_gol.Tes.Wire.{Varint}
use geodesk_gol.Change.TagTable.{key, type_code}
use geodesk_gol.Change.TagTable.Fields.{
  locals_size, globals_size, calculate_storage_size_lem, locals_size-even, globals_size-even,
}
use geodesk_gol.Tes.Tags.{
  ReadTag, put_tag, width, write_tag, write_local_tags, write_global_tags, write_tag_table,
  read_global_tags, read_globals, read_tag_table,
}
use geodesk_gol.Tes.Tags.Locals.{
  tag_word, key_mask, size_mask, type_code-bound, width-value_size, append_four, sent, IsSendable,
  local_tag, global_tag, read_number-write, read_value_of-sent, write_tag-words,
  read_local_tags-write,
}

module _ (strings : ℕ → ℕ) (string_count : ℕ) (v : Varint) where
  -- One round of the loop of the global tags: the tag, and what follows it.
  read_global_tags-step :
      (tag : ℕ) (fuel size filled prev : ℕ) (later : List ℕ)
      → string_count < 2 ^ 30
      → prev ≤ key tag
      → key tag < 2 ^ 14
      → IsSendable strings string_count tag
      → read_global_tags v string_count (suc fuel) size filled (prev * 4) (
          write_tag v strings
            (bit_or ((key tag + 2 ^ 32 - prev) % 2 ^ 32 * 4 % 2 ^ 32) (type_code tag))
            tag
          ++ later)
        ≡ put_tag (global_tag strings string_count tag) (
            if filled + (2 + width (type_code tag)) == size
            then some ([], later)
            else read_global_tags v string_count fuel size
                (filled + (2 + width (type_code tag)))
                (key tag * 4)
                later)
  unfolding read_global_tags
  read_global_tags-step tag fuel size filled prev later few le small ok =
      let k = key tag in
      let t = type_code tag in
      let bound = type_code-bound tag in
      let d = k - prev in
      let delta : (k + 2 ^ 32 - prev) % 2 ^ 32 ≡ d = omega (arith, le, small) in
      let word : bit_or (d * 4 % 2 ^ 32) t ≡ d * 4 + t =
        tag_word d t (omega (arith, small)) bound in
      let sum : (d * 4 + t + prev * 4) % 2 ^ 32 ≡ k * 4 + t = omega (arith, le, small, bound) in
      let low : (k * 4 + t) % 4 ≡ t = omega (arith, bound) in
      let high : (k * 4 + t) / 4 ≡ k = omega (arith, bound) in
      rw
        (
          delta,
          word,
          write_tag-words strings string_count v d tag later,
          read_global_tags,
          read_number-write strings string_count v (d * 4 + t)
              (v.write (sent strings string_count tag) ++ later) (omega (arith, small, bound)),
          sum,
          low,
          read_value_of-sent strings string_count v tag later few ok,
          sum,
          high,
          low,
          key_mask k t small bound,
        )
        refl

  abbrev pub IsAscending : ℕ → List ℕ → Type 0
  IsAscending prev [] = Unit
  IsAscending prev (tag ∷ tags) = (prev ≤ key tag) × (key tag < 2 ^ 14) × IsAscending (key tag) tags

  read_global_tags-write :
      (tags : List ℕ) (tag fuel size filled prev : ℕ) (rest : List ℕ)
      → string_count < 2 ^ 30
      → IsAscending prev (tag ∷ tags)
      → All (IsSendable strings string_count) (tag ∷ tags)
      → length (tag ∷ tags) ≤ fuel
      → size ≡ filled + globals_size (tag ∷ tags)
      → read_global_tags v string_count fuel size filled
          (prev * 4)
          (write_global_tags v strings prev (tag ∷ tags) ++ rest)
        ≡ some (map (global_tag strings string_count) (tag ∷ tags), rest)
  unfolding write_global_tags
  read_global_tags-write tags tag zero size filled prev rest few up ok le goal =
      absurd (omega (arith, le))
  read_global_tags-write [] tag (suc fuel) size filled prev rest few up ok le goal =
      let word = bit_or ((key tag + 2 ^ 32 - prev) % 2 ^ 32 * 4 % 2 ^ 32) (type_code tag) in
      let full : filled + (2 + width (type_code tag)) ≡ size =
        omega (arith, goal, width-value_size tag) in
      ap (λ l. read_global_tags v string_count (suc fuel) size filled (prev * 4) (l ++ rest))
        (append-nil (write_tag v strings word tag))
      ∙ read_global_tags-step tag fuel size filled prev rest few up.0 up.1 ok.0
      ∙ rw (full, ==_refl size) refl
  read_global_tags-write (next ∷ more) tag (suc fuel) size filled prev rest few up ok le goal =
      let word = bit_or ((key tag + 2 ^ 32 - prev) % 2 ^ 32 * 4 % 2 ^ 32) (type_code tag) in
      let now = filled + (2 + width (type_code tag)) in
      let later = write_global_tags v strings (key tag) (next ∷ more) in
      let open_yet : (now == size) ≡ false =
        ne→== now size (λ e. absurd (omega (arith, e, goal, width-value_size tag))) in
      ap (read_global_tags v string_count (suc fuel) size filled (prev * 4))
        (append_assoc (write_tag v strings word tag) later rest)
      ∙ read_global_tags-step tag fuel size filled prev (later ++ rest) few up.0 up.1 ok.0
      ∙ rw open_yet (
          ap (put_tag (global_tag strings string_count tag)) (
            read_global_tags-write more next fuel size now (key tag) rest few up.2 ok.1
              (omega (arith, le)) (omega (arith, goal, width-value_size tag))))

  -- The global tags after the local ones.
  read_globals-write :
      (locals : List ReadTag) (tags : List ℕ) (first fuel : ℕ) (rest : List ℕ)
      → string_count < 2 ^ 30
      → IsAscending 0 (first ∷ tags)
      → All (IsSendable strings string_count) (first ∷ tags)
      → length (first ∷ tags) ≤ fuel
      → read_globals v string_count fuel
          (globals_size (first ∷ tags))
          (some (locals, write_global_tags v strings 0 (first ∷ tags) ++ rest))
        ≡ some (record {
          locals = locals;
          globals = map (global_tag strings string_count) (first ∷ tags);
          rest = rest;
        })
  read_globals-write locals tags first fuel rest few up ok le =
      rw
        (
          read_globals,
          read_global_tags-write tags first fuel (globals_size (first ∷ tags)) 0 0 rest few up ok le
              (omega arith),
        )
        refl

  read_tag_table-globals :
      (tags : List ℕ) (first fuel : ℕ) (rest : List ℕ)
      → string_count < 2 ^ 30
      → IsAscending 0 (first ∷ tags)
      → All (IsSendable strings string_count) (first ∷ tags)
      → globals_size (first ∷ tags) < 2 ^ 32
      → length (first ∷ tags) ≤ fuel
      → read_tag_table v string_count fuel (
          v.write (globals_size (first ∷ tags))
          ++ (write_global_tags v strings 0 (first ∷ tags) ++ rest))
        ≡ some (record {
          locals = [];
          globals = map (global_tag strings string_count) (first ∷ tags);
          rest = rest;
        })
  unfolding read_tag_table
  read_tag_table-globals tags first fuel rest few up ok small le =
      let g = globals_size (first ∷ tags) in
      let even : g % 2 ≡ 0 = globals_size-even (first ∷ tags) in
      let mask : bit_and g 0xffff_fffe ≡ g = omega (arith, size_mask g small, even) in
      rw
        (
          read_tag_table,
          read_number-write strings string_count v g
              (write_global_tags v strings 0 (first ∷ tags) ++ rest) small,
          even,
          mask,
        )
        (read_globals-write [] tags first fuel rest few up ok le)

  read_tag_table-both :
      (locals globals : List ℕ) (first fuel : ℕ) (rest : List ℕ)
      → string_count < 2 ^ 30
      → All (λ tag. (strings (key tag) < string_count) × IsSendable strings string_count tag) locals
      → IsAscending 0 (first ∷ globals)
      → All (IsSendable strings string_count) (first ∷ globals)
      → locals_size locals + globals_size (first ∷ globals) < 2 ^ 32
      → length locals ≤ fuel
      → length (first ∷ globals) ≤ fuel
      → read_tag_table v string_count fuel (
          v.write (locals_size locals + globals_size (first ∷ globals) + 1)
          ++ (v.write (locals_size locals / 2)
              ++ (write_local_tags v strings locals
                  ++ (write_global_tags v strings 0 (first ∷ globals) ++ rest))))
        ≡ some (record {
          locals = map (local_tag strings string_count) locals;
          globals = map (global_tag strings string_count) (first ∷ globals);
          rest = rest;
        })
  unfolding read_tag_table
  read_tag_table-both locals globals first fuel rest few ok up send small le_l le_g =
      let l = locals_size locals in
      let g = globals_size (first ∷ globals) in
      let even_l : l % 2 ≡ 0 = locals_size-even locals in
      let even_g : g % 2 ≡ 0 = globals_size-even (first ∷ globals) in
      let n = l + g + 1 in
      let n_small : n < 2 ^ 32 = omega (arith, small, even_l, even_g) in
      let odd : n % 2 ≡ 1 = omega (arith, even_l, even_g) in
      let mask : bit_and n 0xffff_fffe ≡ l + g =
        omega (arith, size_mask n n_small, even_l, even_g) in
      let half : l / 2 * 2 % 2 ^ 32 ≡ l = omega (arith, even_l, small) in
      let room : ltb ((l + g + 2 ^ 32 - 4) % 2 ^ 32) l ≡ false =
        ge→ltb _ l (omega (arith, small)) in
      let left : l + g - l ≡ g = omega arith in
      let later = write_global_tags v strings 0 (first ∷ globals) ++ rest in
      rw
        (
          read_tag_table,
          read_number-write strings string_count v n
              (v.write (l / 2) ++ (write_local_tags v strings locals ++ later)) n_small,
          odd,
          mask,
          read_number-write strings string_count v (l / 2)
              (write_local_tags v strings locals ++ later) (omega (arith, small)),
          half,
          mask,
          room,
          left,
          read_local_tags-write strings string_count v locals fuel l 0 later few ok le_l
              (omega arith),
        )
        (read_globals-write (map (local_tag strings string_count) locals) globals first fuel rest
          few up send le_g)

  -- What the reader makes of a tag table that the updater wrote: the local tags with the numbers of
  -- their strings, the global tags with their keys, and the bytes after the table left. The writer
  -- of the tile ends exactly where each part ends. There is a global tag, and the keys of the global tags
  -- ascend and have 14 bits; every string has a number below the number of strings, which has 30 bits; the
  -- table is smaller than 4 GB, and has no more tags of a kind than the fuel.
  pub read_tag_table-write_tag_table :
      (locals globals : List ℕ) (first fuel : ℕ) (rest : List ℕ)
      → string_count < 2 ^ 30
      → All (λ tag. (strings (key tag) < string_count) × IsSendable strings string_count tag) locals
      → IsAscending 0 (first ∷ globals)
      → All (IsSendable strings string_count) (first ∷ globals)
      → locals_size locals + globals_size (first ∷ globals) < 2 ^ 32
      → length locals ≤ fuel
      → length (first ∷ globals) ≤ fuel
      → read_tag_table v string_count fuel (
          write_tag_table v strings (record { locals = locals; globals = first ∷ globals }) ++ rest)
        ≡ some (record {
          locals = map (local_tag strings string_count) locals;
          globals = map (global_tag strings string_count) (first ∷ globals);
          rest = rest;
        })
  unfolding read_tag_table write_tag_table
  read_tag_table-write_tag_table [] globals first fuel rest few ok up send small le_l le_g =
      let g = globals_size (first ∷ globals) in
      let only : 0 + g ≡ g = omega arith in
      let bytes : write_tag_table v strings (record { locals = []; globals = first ∷ globals })
            ++ rest
          ≡ v.write g ++ (write_global_tags v strings 0 (first ∷ globals) ++ rest) =
        rw
          (
            write_tag_table,
            calculate_storage_size_lem (record { locals = []; globals = first ∷ globals }) small,
            only,
            bit_or-zero g,
            append-nil (v.write g),
          )
          (append_assoc (v.write g) (write_global_tags v strings 0 (first ∷ globals)) rest) in
      ap (read_tag_table v string_count fuel) bytes
      ∙ read_tag_table-globals globals first fuel rest few up send (omega (arith, small)) le_g
  read_tag_table-write_tag_table (tag ∷ more) globals first fuel rest few ok up send small le_l
        le_g =
      let locals = tag ∷ more in
      let l = locals_size locals in
      let g = globals_size (first ∷ globals) in
      let some_local : (l == 0) ≡ false = ne→== l 0 (λ e. absurd (omega (arith, e))) in
      let even : (l + g) / 2 * 2 ≡ l + g =
        omega (arith, locals_size-even locals, globals_size-even (first ∷ globals)) in
      let flag : bit_or (l + g) 1 ≡ l + g + 1 =
        ap (λ n. bit_or n 1) (sym even)
        ∙ bit_or_fields 1 ((l + g) / 2) 1 (omega arith)
        ∙ ap (λ n. n + 1) even in
      let local_bytes = write_local_tags v strings locals in
      let global_bytes = write_global_tags v strings 0 (first ∷ globals) in
      let bytes : write_tag_table v strings (record { locals = locals; globals = first ∷ globals })
            ++ rest
          ≡ v.write (l + g + 1) ++ (v.write (l / 2) ++ (local_bytes ++ (global_bytes ++ rest))) =
        rw
          (
            write_tag_table,
            calculate_storage_size_lem (record { locals = locals; globals = first ∷ globals })
                small,
            some_local,
            flag,
          )
          (append_four (v.write (l + g + 1)) (v.write (l / 2)) local_bytes global_bytes rest) in
      ap (read_tag_table v string_count fuel) bytes
      ∙ read_tag_table-both locals globals first fuel rest few ok up send small le_l le_g
