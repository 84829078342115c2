-- ===== src/Change/CRef/Status.antt =====
-- What the predicates and the printer of a reference say of it.
use geodesk_gol.Prelude.{
  ℕ, ◌+◌, ◌*◌, ◌/◌, ◌%◌, ◌^◌, ◌<◌, ◌≡◌, ◌⊎◌, inl, inr, refl, sym, ap, bit_and, Bool, true, false,
  ◌&&◌, ◌∙◌, List, [], ◌∷◌, arith, ◌==◌, if◌then◌else◌,
}
use geodesk_gol.Prelude.Bits.{bit_and_mask, bit_and_step}
use geodesk_gol.Change.CRef.Fields.{
  Ref, unknown_ref, missing_ref, single_tile_ref, anonymous_node_ref, new_ref, unresolved_ref,
  maybe_exported_ref, not_exported_ref, exported_ref, encode, IsRef, encode_fields, encode-packed,
  packed, IsRef-bounds, tip_of, number_of, category,
}
use geodesk_gol.Change.CRef.{
  low_word, status_category, tip, offset, is_vague, Token, text, number, write_to, category_code,
}

bit_and_1 : (q : ℕ) → bit_and q 1 ≡ q % 2
bit_and_1 q = omega (arith, bit_and_mask 1 q)

bit_and_2 : (q : ℕ) → bit_and q 2 ≡ q / 2 % 2 * 2
bit_and_2 q = omega (arith, bit_and_step q 2, bit_and_1 (q / 2))

bit_and_4 : (q : ℕ) → bit_and q 4 ≡ q / 4 % 2 * 4
bit_and_4 q = omega (arith, bit_and_step q 4, bit_and_2 (q / 2))

bit_and_9 : (q : ℕ) → bit_and q 9 ≡ q % 2 + q / 8 % 2 * 8
bit_and_9 q = omega (arith, bit_and_step q 9, bit_and_4 (q / 2))

bit_and_18 : (q : ℕ) → bit_and q 18 ≡ q / 2 % 2 * 2 + q / 16 % 2 * 16
bit_and_18 q = omega (arith, bit_and_step q 18, bit_and_9 (q / 2))

bit_and_37 : (q : ℕ) → bit_and q 37 ≡ q % 2 + q / 4 % 2 * 4 + q / 32 % 2 * 32
bit_and_37 q = omega (arith, bit_and_step q 37, bit_and_18 (q / 2))

bit_and_74 : (s : ℕ) → bit_and s 74 ≡ s / 2 % 2 * 2 + s / 8 % 2 * 8 + s / 64 % 2 * 64
bit_and_74 s = omega (arith, bit_and_step s 74, bit_and_37 (s / 2))

-- Is the reference one that `offerRef` may replace, by the comment of `isVague`.
abbrev pub vague : Ref → Bool
vague unknown_ref = true
vague (unresolved_ref t) = true
vague (maybe_exported_ref t h) = true
vague single_tile_ref = true
vague anonymous_node_ref = true
vague _ = false

is_vague_packed :
    (t n c : ℕ)
    → n < 2 ^ 29
    → c < 4
    → is_vague (packed t n c) ≡ (c / 2 % 2 == 0 && n / 2 % 2 == 0 && n / 16 % 2 == 0)
unfolding is_vague
is_vague_packed t n c hn hc =
    let low : low_word (packed t n c) ≡ n * 4 + c = omega arith in
    rw low (ground (arith, bit_and_74 (n * 4 + c)))

-- The bits of a possibly exported handle that `isVague` takes for a status: bits 1 and 4.
abbrev pub handle_is_clear : Ref → Bool
handle_is_clear (maybe_exported_ref t h) = h / 2 % 2 == 0 && h / 16 % 2 == 0
handle_is_clear _ = true

-- `isVague` holds for the references that its comment names, but for possibly exported ones only
-- if bits 1 and 4 of the handle are clear.
pub is_vague-encode : (r : Ref) → IsRef r → is_vague (encode r) ≡ (vague r && handle_is_clear r)
is_vague-encode r h =
    let b = IsRef-bounds r h in
    rw
      (
        encode-packed r h,
        is_vague_packed (tip_of r) (number_of r) (category_code (category r)) b.1 b.2,
      )
      (by_case r)
  where
    by_case :
        (r : Ref)
        → (category_code (category r) / 2 % 2 == 0
            && number_of r / 2 % 2 == 0
            && number_of r / 16 % 2 == 0)
          ≡ (vague r && handle_is_clear r)
    by_case unknown_ref = refl
    by_case missing_ref = refl
    by_case single_tile_ref = refl
    by_case anonymous_node_ref = refl
    by_case (new_ref t) = refl
    by_case (unresolved_ref t) = refl
    by_case (maybe_exported_ref t n) = refl
    by_case (not_exported_ref t n) = refl
    by_case (exported_ref t n) = refl

-- A possibly exported feature whose handle, below 2^29, has bit 1 or bit 4 set is not taken for vague,
-- so no better reference replaces it.
pub is_vague_misses :
    (t handle : ℕ)
    → t < 2 ^ 32
    → handle < 2 ^ 29
    → (handle / 2 % 2 ≡ 1) ⊎ (handle / 16 % 2 ≡ 1)
    → is_vague (encode (maybe_exported_ref t handle)) ≡ false
is_vague_misses t handle ht hh (inl odd) =
    is_vague-encode (maybe_exported_ref t handle) (ht, hh) ∙ ground arith
is_vague_misses t handle ht hh (inr odd) =
    is_vague-encode (maybe_exported_ref t handle) (ht, hh) ∙ ground arith

-- What the other predicates are to say.
abbrev pub is_exported_ref : Ref → Bool
is_exported_ref (exported_ref t x) = true
is_exported_ref _ = false

abbrev pub is_new_ref : Ref → Bool
is_new_ref (new_ref t) = true
is_new_ref _ = false

abbrev pub has_feature : Ref → Bool
has_feature (maybe_exported_ref t h) = true
has_feature (not_exported_ref t h) = true
has_feature (exported_ref t x) = true
has_feature _ = false

abbrev pub may_export : Ref → Bool
may_export (maybe_exported_ref t h) = true
may_export (exported_ref t x) = true
may_export _ = false

abbrev pub unknown_or_missing : Ref → Bool
unknown_or_missing unknown_ref = true
unknown_or_missing missing_ref = true
unknown_or_missing _ = false

-- What `writeTo` is to print.
abbrev pub printed : Ref → List Token
printed unknown_ref = text "unknown" ∷ []
printed missing_ref = text "missing" ∷ []
printed single_tile_ref = text "single_tile" ∷ []
printed anonymous_node_ref = text "anon_node" ∷ []
printed (new_ref t) = text "new " ∷ number t ∷ []
printed (unresolved_ref t) = text "unresolved " ∷ number t ∷ []
printed (maybe_exported_ref t h) = text "maybe_exported " ∷ number t ∷ text " @" ∷ number h ∷ []
printed (not_exported_ref t h) = text "not_exported " ∷ number t ∷ text " @" ∷ number h ∷ []
printed (exported_ref t x) = text "exported " ∷ number t ∷ text " #" ∷ number x ∷ []

low_word-encode :
    (r : Ref) → IsRef r → low_word (encode r) ≡ number_of r * 4 + category_code (category r)
low_word-encode r h = let b = IsRef-bounds r h in rw (encode-packed r h) (omega arith)

-- The printer names every reference, with its TIP and its offset or TEX, and never prints
-- "!!!invalid_ref!!!".
pub write_to-encode : (r : Ref) → IsRef r → write_to (encode r) ≡ printed r
unfolding write_to
write_to-encode unknown_ref h = ground (arith, encode_fields unknown_ref h)
write_to-encode r h = ground (arith, encode_fields r h, low_word-encode r h)

-- The reference that has given fields.
rebuild : ℕ → ℕ → ℕ → Ref
rebuild c t n =
    if c == 0
    then if n == 0
      then unknown_ref
      else if n == 1
      then unresolved_ref t
      else if n == 2
      then missing_ref
      else if n == 4
      then single_tile_ref
      else if n == 8
      then anonymous_node_ref
      else new_ref t
    else if c == 1
    then maybe_exported_ref t n
    else if c == 2
    then not_exported_ref t n
    else exported_ref t n

rebuild_lem : (r : Ref) → rebuild (category_code (category r)) (tip_of r) (number_of r) ≡ r
unfolding rebuild
rebuild_lem unknown_ref = refl
rebuild_lem _ = refl

-- Two references that `operator==` takes for one are one.
pub encode-injective : (r s : Ref) → IsRef r → IsRef s → encode r ≡ encode s → r ≡ s
encode-injective r s h k e =
    let f = encode_fields r h in
    let g = encode_fields s k in
    sym (rebuild_lem r)
    ∙ (λ i.
        rebuild ((sym f.3 ∙ ap status_category e ∙ g.3) i) ((sym f.0 ∙ ap tip e ∙ g.0) i)
          ((sym f.1 ∙ ap offset e ∙ g.1) i))
    ∙ rebuild_lem s
