-- ===== src/Tes/Tags/Locals.antt =====
-- The words of a tag, and reading the local tags that were written.
use geodesk_gol.Prelude.{
  ℕ, zero, suc, ◌+◌, ◌*◌, ◌/◌, ◌%◌, ◌^◌, ◌≤◌, ◌<◌, min, bit_and, bit_or, true, false, ◌⊎◌, ◌≢◌, inl,
  inr, Bool-cases, ◌≡◌, refl, ap, ◌∙◌, some, List, [], ◌∷◌, ◌++◌, map, length, append_assoc, All,
  ltb, lt→ltb, ◌==◌, ==→eq, ==→ne, ==_refl, ne→==, if◌then◌else◌, arith,
}
use geodesk_gol.Prelude.Bits.{bit_or_fields, bit_and_step, bit_and_mask}
use geodesk_gol.Tes.Wire.{Varint}
use geodesk_gol.Change.TagTable.{key, value, type_code, value_size, local_string_type}
use geodesk_gol.Change.TagTable.Fields.{locals_size}
use geodesk_gol.Tes.Tags.{
  ReadTag, put_tag, width, write_tag, write_local_tags, read_number, read_value_of, read_local_tags,
}

-- The words of a tag.
pub tag_word : (n t : ℕ) → n < 2 ^ 30 → t < 4 → bit_or (n * 4 % 2 ^ 32) t ≡ n * 4 + t
tag_word n t hn ht =
    let e : n * 4 % 2 ^ 32 ≡ n * 2 ^ 2 = omega (arith, hn) in rw e (bit_or_fields 2 n t ht)

pub key_mask : (k t : ℕ) → k < 2 ^ 14 → t < 4 → bit_and (k * 4 + t) 0xfffc ≡ k * 4
key_mask k t hk ht =
    let a : bit_and (k * 4 + t) 0xfffc
        ≡ bit_and ((k * 4 + t) / 2) 32766 * 2 + min ((k * 4 + t) % 2) 0 =
      bit_and_step (k * 4 + t) 0xfffc in
    let b : bit_and ((k * 4 + t) / 2) 32766
        ≡ bit_and ((k * 4 + t) / 2 / 2) 16383 * 2 + min ((k * 4 + t) / 2 % 2) 0 =
      bit_and_step ((k * 4 + t) / 2) 32766 in
    let c : (k * 4 + t) / 2 / 2 ≡ k = omega (arith, ht) in
    let d : bit_and ((k * 4 + t) / 2 / 2) 16383 ≡ k % 2 ^ 14 =
      ap (λ x. bit_and x 16383) c ∙ bit_and_mask 14 k in
    omega (arith, a, b, d, hk)

pub size_mask : (n : ℕ) → n < 2 ^ 32 → bit_and n 0xffff_fffe ≡ n / 2 * 2
size_mask n h =
    let a : bit_and n 0xffff_fffe ≡ bit_and (n / 2) 2147483647 * 2 + min (n % 2) 0 =
      bit_and_step n 0xffff_fffe in
    let b : bit_and (n / 2) 2147483647 ≡ n / 2 % 2 ^ 31 = bit_and_mask 31 (n / 2) in
    omega (arith, a, b, h)

pub type_code-bound : (tag : ℕ) → type_code tag < 4
unfolding type_code
type_code-bound tag = omega arith

pub value-bound : (tag : ℕ) → value tag < 2 ^ 32
unfolding value
value-bound tag = omega arith

pub width-value_size : (tag : ℕ) → width (type_code tag) ≡ value_size tag
width-value_size tag = elim (Bool-cases (type_code tag / 2 % 2 == 0)) [
  | inl e ↦ rw e (omega (arith, ==→eq (type_code tag / 2 % 2) 0 e))
  | inr e ↦ rw e (omega (arith, ==→ne (type_code tag / 2 % 2) 0 e))
]

pub append_four : (a b c d e : List ℕ) → a ++ (b ++ c) ++ d ++ e ≡ a ++ (b ++ (c ++ (d ++ e)))
append_four a b c d e =
    append_assoc (a ++ (b ++ c)) d e
    ∙ append_assoc a (b ++ c) (d ++ e)
    ∙ ap (λ l. a ++ l) (append_assoc b c (d ++ e))

module _ (strings : ℕ → ℕ) (string_count : ℕ) where
  -- What is written for a tag's value: a string's number, or the value.
  abbrev pub sent : ℕ → ℕ
  sent tag = if type_code tag == local_string_type then strings (value tag) else value tag

  -- A tag whose string values have a number.
  abbrev pub IsSendable : ℕ → Type 0
  IsSendable tag =
      ((type_code tag ≡ 3) × (strings (value tag) < string_count)) ⊎ (type_code tag ≢ 3)

  abbrev pub local_tag : ℕ → ReadTag
  local_tag tag = record {
    read_key = strings (key tag);
    read_type = type_code tag;
    read_value = sent tag;
  }

  abbrev pub global_tag : ℕ → ReadTag
  global_tag tag = record { read_key = key tag; read_type = type_code tag; read_value = sent tag }

  sent-bound : (tag : ℕ) → string_count < 2 ^ 30 → IsSendable tag → sent tag < 2 ^ 32
  sent-bound tag few (inl (e, h)) = rw e (omega (arith, h, few))
  sent-bound tag few (inr n) = rw (ne→== (type_code tag) 3 n) (value-bound tag)

  module _ (v : Varint) where
    pub read_number-write :
        (n : ℕ) (rest : List ℕ)
        → n < 2 ^ 32
        → read_number v string_count (v.write n ++ rest) ≡ some (n, rest)
    unfolding read_number
    read_number-write n rest h =
        let whole : n % 2 ^ 32 ≡ n = omega (arith, h) in
        rw (read_number, v.read-write n rest (omega (arith, h)), whole) refl

    pub read_value_of-sent :
        (tag : ℕ) (rest : List ℕ)
        → string_count < 2 ^ 30
        → IsSendable tag
        → read_value_of v string_count (type_code tag) (v.write (sent tag) ++ rest)
          ≡ some (sent tag, rest)
    unfolding read_value_of
    read_value_of-sent tag rest few ok =
        let number = read_number-write (sent tag) rest (sent-bound tag few ok) in
        elim ok [
          | inl p ↦
              let small : ltb (strings (value tag)) string_count ≡ true = lt→ltb _ _ p.1 in
              rw (read_value_of, number, p.0, small) refl
          | inr n ↦ rw (read_value_of, number, ne→== (type_code tag) 3 n) refl
        ]

    -- The two words of a tag.
    pub write_tag-words :
        (n tag : ℕ) (rest : List ℕ)
        → write_tag v strings (n * 4 + type_code tag) tag ++ rest
          ≡ v.write (n * 4 + type_code tag) ++ (v.write (sent tag) ++ rest)
    unfolding write_tag
    write_tag-words n tag rest =
        let low : (n * 4 + type_code tag) % 4 ≡ type_code tag =
          omega (arith, type_code-bound tag) in
        rw low (append_assoc (v.write (n * 4 + type_code tag)) (v.write (sent tag)) rest)

    pub read_local_tags-write :
        (tags : List ℕ) (fuel size filled : ℕ) (rest : List ℕ)
        → string_count < 2 ^ 30
        → All (λ tag. (strings (key tag) < string_count) × IsSendable tag) tags
        → length tags ≤ fuel
        → size ≡ filled + locals_size tags
        → read_local_tags v string_count fuel size filled (write_local_tags v strings tags ++ rest)
          ≡ some (map local_tag tags, rest)
    unfolding read_local_tags write_local_tags
    read_local_tags-write [] zero size filled rest few ok le goal =
        let e : filled ≡ size = omega (arith, goal) in rw (e, ==_refl size) refl
    read_local_tags-write [] (suc fuel) size filled rest few ok le goal =
        let e : filled ≡ size = omega (arith, goal) in rw (e, ==_refl size) refl
    read_local_tags-write (tag ∷ tags) zero size filled rest few ok le goal =
        absurd (omega (arith, le))
    read_local_tags-write (tag ∷ tags) (suc fuel) size filled rest few ok le goal =
        let n = strings (key tag) in
        let t = type_code tag in
        let bound = type_code-bound tag in
        let later = write_local_tags v strings tags ++ rest in
        let word : bit_or (n * 4 % 2 ^ 32) t ≡ n * 4 + t =
          tag_word n t (omega (arith, ok.0.0, few)) bound in
        let open_yet : (filled == size) ≡ false =
          ne→== filled size (λ e. absurd (omega (arith, e, goal))) in
        let low : (n * 4 + t) % 4 ≡ t = omega (arith, bound) in
        let high : (n * 4 + t) / 4 ≡ n = omega (arith, bound) in
        let bytes =
          append_assoc (write_tag v strings (n * 4 + t) tag) (write_local_tags v strings tags) rest
          ∙ write_tag-words n tag later in
        rw
          (
            word,
            bytes,
            read_local_tags,
            open_yet,
            read_number-write (n * 4 + t) (v.write (sent tag) ++ later)
                (omega (arith, ok.0.0, few, bound)),
            low,
            high,
            lt→ltb n string_count ok.0.0,
            read_value_of-sent tag later few ok.0.1,
            low,
            high,
          )
          (ap (put_tag (local_tag tag)) (
            read_local_tags-write tags fuel size (filled + (4 + width t)) rest few ok.1
              (omega (arith, le)) (omega (arith, goal, width-value_size tag))))
