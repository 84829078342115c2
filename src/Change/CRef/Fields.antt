-- ===== src/Change/CRef/Fields.antt =====
-- What a reference is meant to be, and its fields.
use geodesk_gol.Prelude.{
  ℕ, ◌+◌, ◌-◌, ◌*◌, ◌/◌, ◌%◌, ◌^◌, ◌<◌, ◌≤◌, ◌≡◌, refl, ap₂, ◌∙◌, bit_or, false, arith, ltb, lt→ltb,
}
use geodesk_gol.Prelude.Bits.{bit_and_mask, bit_or_fields, bit_or-zero, bit_or_shift, bit_or_ones}
use geodesk_gol.Change.CRef.{
  StatusCategory, special, maybe_exported, not_exported, exported, unknown, missing, single_tile,
  anonymous_node, category_code, special_code, tip_bits, int_shl_2, of_exported, of_new,
  of_unresolved, of_not_exported, of_maybe_exported, status_category, tip, offset, tex,
}

-- The references that the comment of the class lists.
pub data Ref : Type 0 where
  unknown_ref missing_ref single_tile_ref anonymous_node_ref : Ref
  new_ref unresolved_ref : ℕ → Ref
  maybe_exported_ref not_exported_ref exported_ref : ℕ → ℕ → Ref

-- The four constants and the `of` functions.
abbrev pub encode : Ref → ℕ
encode unknown_ref = special_code unknown
encode missing_ref = special_code missing
encode single_tile_ref = special_code single_tile
encode anonymous_node_ref = special_code anonymous_node
encode (new_ref t) = of_new t
encode (unresolved_ref t) = of_unresolved t
encode (maybe_exported_ref t h) = of_maybe_exported t h
encode (not_exported_ref t h) = of_not_exported t h
encode (exported_ref t x) = of_exported t x

-- The TIP of a reference has 32 bits, and its handle or TEX 29 bits.
abbrev pub IsRef : Ref → Type 0
IsRef (new_ref t) = t < 2 ^ 32
IsRef (unresolved_ref t) = t < 2 ^ 32
IsRef (maybe_exported_ref t h) = (t < 2 ^ 32) × (h < 2 ^ 29)
IsRef (not_exported_ref t h) = (t < 2 ^ 32) × (h < 2 ^ 29)
IsRef (exported_ref t x) = (t < 2 ^ 32) × (x < 2 ^ 29)
IsRef _ = Unit

abbrev pub category : Ref → StatusCategory
category (maybe_exported_ref t h) = maybe_exported
category (not_exported_ref t h) = not_exported
category (exported_ref t x) = exported
category _ = special

-- The number in bits 2 to 31.
abbrev pub number_of : Ref → ℕ
number_of unknown_ref = 0
number_of missing_ref = 2
number_of single_tile_ref = 4
number_of anonymous_node_ref = 8
number_of (new_ref t) = 16
number_of (unresolved_ref t) = 1
number_of (maybe_exported_ref t h) = h
number_of (not_exported_ref t h) = h
number_of (exported_ref t x) = x

abbrev pub tip_of : Ref → ℕ
tip_of (new_ref t) = t
tip_of (unresolved_ref t) = t
tip_of (maybe_exported_ref t h) = t
tip_of (not_exported_ref t h) = t
tip_of (exported_ref t x) = t
tip_of _ = 0

-- TIP, category and the number beside it, side by side.
abbrev pub packed : ℕ → ℕ → ℕ → ℕ
packed t n c = t * 2 ^ 32 + (n * 4 + c)

pack_lem :
    (t n c : ℕ)
    → t < 2 ^ 32
    → n < 2 ^ 29
    → c < 4
    → bit_or (bit_or (tip_bits t) (int_shl_2 n)) c ≡ packed t n c
pack_lem t n c ht hn hc =
    let wide : tip_bits t ≡ t * 2 ^ 32 = omega arith in
    let low : n * 4 % 2 ^ 32 ≡ n * 4 = omega arith in
    let plain : int_shl_2 n ≡ n * 4 = rw (low, lt→ltb (n * 4) (2 ^ 31) (omega arith)) refl in
    let upper = bit_or_fields 32 t (n * 4) (omega arith) in
    let lower = bit_or_fields 2 (t * 2 ^ 30 + n) c hc in
    let shape : t * 2 ^ 32 + n * 4 ≡ (t * 2 ^ 30 + n) * 2 ^ 2 = omega arith in
    rw (wide, plain, upper, shape, lower) (omega arith)

special_lem : (t c : ℕ) → t < 2 ^ 32 → c < 2 ^ 32 → bit_or (tip_bits t) c ≡ t * 2 ^ 32 + c
special_lem t c ht hc =
    let wide : tip_bits t ≡ t * 2 ^ 32 = omega arith in rw wide (bit_or_fields 32 t c hc)

-- The bits of a reference are its TIP, its number and its category, side by side.
pub encode-packed :
    (r : Ref) → IsRef r → encode r ≡ packed (tip_of r) (number_of r) (category_code (category r))
unfolding of_exported of_new of_unresolved of_not_exported of_maybe_exported
encode-packed unknown_ref h = refl
encode-packed missing_ref h = refl
encode-packed single_tile_ref h = refl
encode-packed anonymous_node_ref h = refl
encode-packed (new_ref t) h = special_lem t 64 h (omega arith)
encode-packed (unresolved_ref t) h = special_lem t 4 h (omega arith)
encode-packed (maybe_exported_ref t n) h = pack_lem t n 1 h.0 h.1 (omega arith)
encode-packed (not_exported_ref t n) h = pack_lem t n 2 h.0 h.1 (omega arith)
encode-packed (exported_ref t n) h = pack_lem t n 3 h.0 h.1 (omega arith)

pub IsRef-bounds :
    (r : Ref)
    → IsRef r
    → (tip_of r < 2 ^ 32) × (number_of r < 2 ^ 29) × (category_code (category r) < 4)
IsRef-bounds unknown_ref h = omega arith
IsRef-bounds _ h = omega arith

packed_fields :
    (t n c : ℕ)
    → t < 2 ^ 32
    → n < 2 ^ 29
    → c < 4
    → (tip (packed t n c) ≡ t)
      × (offset (packed t n c) ≡ n)
      × (tex (packed t n c) ≡ n)
      × (status_category (packed t n c) ≡ c)
unfolding tip offset tex status_category
packed_fields t n c ht hn hc =
    (omega arith, omega arith, omega arith, omega (arith, bit_and_mask 2 (packed t n c)))

pub encode_fields :
    (r : Ref)
    → IsRef r
    → (tip (encode r) ≡ tip_of r)
      × (offset (encode r) ≡ number_of r)
      × (tex (encode r) ≡ number_of r)
      × (status_category (encode r) ≡ category_code (category r))
encode_fields r h =
    let b = IsRef-bounds r h in
    rw (encode-packed r h)
      (packed_fields (tip_of r) (number_of r) (category_code (category r)) b.0 b.1 b.2)

-- A handle of 30 bits, which the comment allows, is read as a negative `int`: its sign bits
-- overwrite the TIP.
pub of_not_exported_overflow :
    (t handle : ℕ)
    → t < 2 ^ 32
    → 2 ^ 29 ≤ handle
    → handle < 2 ^ 30
    → tip (of_not_exported t handle) ≡ 2 ^ 32 - 1
unfolding tip of_not_exported
of_not_exported_overflow t handle ht lo hi =
    let low : handle * 4 % 2 ^ 32 ≡ handle * 4 = omega arith in
    let negative : ltb (handle * 4) (2 ^ 31) ≡ false = ground arith in
    let wide : tip_bits t ≡ t * 2 ^ 32 = omega arith in
    let extended : int_shl_2 handle ≡ handle * 4 + (2 ^ 64 - 2 ^ 32) = rw (low, negative) refl in
    let inner : bit_or (t * 2 ^ 32) (handle * 4 + (2 ^ 64 - 2 ^ 32)) / 2 ^ 32 ≡ 2 ^ 32 - 1 =
      bit_or_shift 32 (t * 2 ^ 32) (handle * 4 + (2 ^ 64 - 2 ^ 32))
      ∙ ap₂ bit_or (omega arith) (omega arith)
      ∙ bit_or_ones 32 t ht in
    rw (wide, extended, bit_or_shift 32, inner) (omega (arith, bit_or-zero (2 ^ 32 - 1)))
