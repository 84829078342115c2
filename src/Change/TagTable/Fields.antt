-- ===== src/Change/TagTable/Fields.antt =====
-- The fields of a tag, and the size of a table.
use geodesk_gol.Prelude.{ℕ, ◌+◌, ◌*◌, ◌%◌, ◌^◌, ◌<◌, ◌≡◌, refl, ap₂, ◌∙◌, List, [], ◌∷◌, arith}
use geodesk_gol.Prelude.Bits.{bit_or_fields}
use geodesk_gol.Change.TagTable.{
  TagTable, tag_of, key, value, type_code, value_size, add_local_sizes, add_global_sizes,
  calculate_storage_size,
}

tag_of_sum :
    (k t v : ℕ) → k < 2 ^ 30 → t < 4 → v < 2 ^ 32 → tag_of k t v ≡ (v * 2 ^ 30 + k) * 2 ^ 2 + t
unfolding tag_of
tag_of_sum k t v hk ht hv =
    let e : v * 2 ^ 32 % 2 ^ 64 ≡ v * 2 ^ 32 = omega (arith, hv) in
    let f : k * 4 % 2 ^ 32 ≡ k * 4 = omega (arith, hk) in
    let g : v * 2 ^ 32 + k * 4 ≡ (v * 2 ^ 30 + k) * 2 ^ 2 = omega arith in
    rw (e, f, bit_or_fields 32 v (k * 4) (omega (arith, hk)), g)
      (bit_or_fields 2 (v * 2 ^ 30 + k) t ht)

-- A tag keeps its key, type and value: a key of 30 bits, a type of two and a value of 32.
pub tag_of_fields :
    (k t v : ℕ)
    → k < 2 ^ 30
    → t < 4
    → v < 2 ^ 32
    → (key (tag_of k t v) ≡ k) × (type_code (tag_of k t v) ≡ t) × (value (tag_of k t v) ≡ v)
unfolding key type_code value
tag_of_fields k t v hk ht hv =
    rw (tag_of_sum k t v hk ht hv)
      (omega (arith, hk, ht), omega (arith, ht), omega (arith, hk, ht, hv))

abbrev pub locals_size : List ℕ → ℕ
locals_size [] = 0
locals_size (tag ∷ tags) = 4 + value_size tag + locals_size tags

abbrev pub globals_size : List ℕ → ℕ
globals_size [] = 0
globals_size (tag ∷ tags) = 2 + value_size tag + globals_size tags

pub add_local_sizes_lem :
    (tags : List ℕ) (total local : ℕ)
    → total + locals_size tags < 2 ^ 32
    → local + locals_size tags < 2 ^ 32
    → add_local_sizes tags (total, local) ≡ (total + locals_size tags, local + locals_size tags)
unfolding add_local_sizes
add_local_sizes_lem [] total local h k = ap₂ (λ a b. (a, b)) (omega arith) (omega arith)
add_local_sizes_lem (tag ∷ tags) total local h k =
    let e : ((total + (2 + value_size tag)) % 2 ^ 32 + 2) % 2 ^ 32 ≡ total + (4 + value_size tag) =
      omega (arith, h) in
    let f : (local + (4 + value_size tag)) % 2 ^ 32 ≡ local + (4 + value_size tag) =
      omega (arith, k) in
    rw (e, f)
      (add_local_sizes_lem tags (total + (4 + value_size tag)) (local + (4 + value_size tag))
          (omega (arith, h)) (omega (arith, k))
        ∙ ap₂ (λ a b. (a, b)) (omega arith) (omega arith))

pub add_global_sizes_lem :
    (tags : List ℕ) (total : ℕ)
    → total + globals_size tags < 2 ^ 32
    → add_global_sizes tags total ≡ total + globals_size tags
unfolding add_global_sizes
add_global_sizes_lem [] total h = omega arith
add_global_sizes_lem (tag ∷ tags) total h =
    let e : (total + (2 + value_size tag)) % 2 ^ 32 ≡ total + (2 + value_size tag) =
      omega (arith, h) in
    rw e (add_global_sizes_lem tags (total + (2 + value_size tag)) (omega (arith, h)) ∙ omega arith)

pub calculate_storage_size_lem :
    (t : TagTable)
    → locals_size t.locals + globals_size t.globals < 2 ^ 32
    → calculate_storage_size t
      ≡ (locals_size t.locals + globals_size t.globals, locals_size t.locals)
unfolding calculate_storage_size
calculate_storage_size_lem t h =
    let z : 0 + locals_size t.locals ≡ locals_size t.locals = omega arith in
    let e = add_local_sizes_lem t.locals 0 0 (omega (arith, h)) (omega (arith, h)) in
    rw (e, z) (ap₂ (λ a b. (a, b)) (add_global_sizes_lem t.globals (locals_size t.locals) h) refl)

-- Every size is even, and a table with a tag has room for four bytes.
pub locals_size-even : (tags : List ℕ) → locals_size tags % 2 ≡ 0
locals_size-even [] = refl
locals_size-even (tag ∷ tags) = omega (arith, locals_size-even tags)

pub globals_size-even : (tags : List ℕ) → globals_size tags % 2 ≡ 0
globals_size-even [] = refl
globals_size-even (tag ∷ tags) = omega (arith, globals_size-even tags)
