-- ===== src/Build/StringCatalog/Coding.antt =====
-- src/build/util/StringCatalog.cpp: what the codes of the entries refer to.
use mathlib.Core.Option.{some-injective}
use geodesk_gol.Prelude.{
  ℕ, zero, suc, ◌+◌, ◌-◌, ◌%◌, ◌^◌, ◌≤◌, ◌<◌, ◌≡◌, ◌⊎◌, refl, ap, inl, inr, Bool, Bool-cases, none,
  some, List, [], ◌∷◌, ◌++◌, length, length-append, get_elem?, ltb, leb, gt→leb, ◌==◌, ==→eq, arith,
}
use geodesk_gol.Build.StringStatistics.{Counter, put_at}
use geodesk_gol.Build.StringCatalog.{
  StringCatalog, StringType, StringRef, null, shared, literal, Codes, string_at, frequent,
  sort_entries, string_ref, add_codes, codes_of, lookup, find_entry, proto_string,
}
use geodesk_gol.Build.StringCatalog.Strings.{entry_of}
use geodesk_gol.Build.StringCatalog.Bounds.{Kept, get_elem?-append, get_elem?-last}

pub get_elem?-bound {ℓ} :
    {A : Type ℓ} (xs : List A) (i : ℕ) (a : A) → get_elem? xs i ≡ some a → i < length xs
get_elem?-bound [] i a e = cc e
get_elem?-bound (x ∷ xs) zero a e = omega arith
get_elem?-bound (x ∷ xs) (suc i) a e = omega (arith, get_elem?-bound xs i a e)

-- Every entry has no code, or one under which its reference stands.
abbrev pub Coded : (ℕ → StringRef) → Codes → ℕ → Type 0
Coded ref codes entry =
    (codes.code_of entry ≡ null)
    ⊎ ((pos : ℕ) × (codes.code_of entry ≡ shared pos)
        × (get_elem? codes.refs pos ≡ some (ref entry)))

pub add_codes-Coded :
    (ref : ℕ → StringRef) (pos : ℕ) (sorted : List (ℕ × ℕ)) (codes : Codes)
    → pos ≡ length codes.refs
    → ((entry : ℕ) → Coded ref codes entry)
    → ((entry : ℕ) → Coded ref (add_codes ref pos sorted codes) entry)
      × (length (add_codes ref pos sorted codes).refs ≡ pos + length sorted)
add_codes-Coded ref pos [] codes at coded = (coded, omega (arith, at))
add_codes-Coded ref pos ((count, entry) ∷ sorted) codes at coded =
    let added : Codes = record {
      code_of = put_at entry (shared pos) codes.code_of;
      refs = codes.refs ++ (ref entry ∷ []);
    } in
    let (all, total) =
      add_codes-Coded ref (pos + 1) sorted added
        (omega (arith, at, length-append codes.refs (ref entry ∷ []))) step in
    (all, omega (arith, total))
  where
    step :
        (other : ℕ)
        → Coded ref
            (record {
              code_of = put_at entry (shared pos) codes.code_of;
              refs = codes.refs ++ (ref entry ∷ []);
            })
            other
    step other = elim (Bool-cases (entry == other)) [
      | inl e ↦
          let same = ==→eq entry other e in
          inr (pos, rw e refl, rw (at, ← same) (get_elem?-last codes.refs (ref entry)))
      | inr e ↦ elim (coded other) [
        | inl uncoded ↦ inl (rw e uncoded)
        | inr (p, code, at') ↦
            inr (p, rw e code, get_elem?-append codes.refs p (ref other) (ref entry) at')
      ]
    ]

pub sort_entries-length :
    (count : Counter → ℕ) (i : ℕ) (cs : List Counter) → length (sort_entries count i cs) ≡ length cs
sort_entries-length count i [] = refl
sort_entries-length count i (c ∷ cs) = ap suc (sort_entries-length count (i + 1) cs)

-- A reference leads to an entry's own string.
pub string_ref-entry :
    (strings : List ℕ) (limit max_global_code entry : ℕ) (c : StringCatalog)
    → Kept strings limit c
    → limit < 2 ^ 32
    → max_global_code < 2 ^ 32 - 1
    → entry_of (string_ref max_global_code entry c) c ≡ some entry
unfolding string_ref
string_ref-entry strings limit max_global_code entry c kept small below =
    go (c.global_code_plus_one entry) refl
  where
    go :
        (plus_one : ℕ)
        → c.global_code_plus_one entry ≡ plus_one
        → entry_of (string_ref max_global_code entry c) c ≡ some entry
    go zero e = rw (e, gt→leb 4294967295 max_global_code (omega (arith, below))) refl
    go (suc code) e =
        let at = kept.sound.coded entry code e in
        let bound = get_elem?-bound c.global_strings code entry at in
        let wrapped : (suc code + 2 ^ 32 - 1) % 2 ^ 32 ≡ code =
          omega (arith, bound, kept.bound, small) in
        elim (Bool-cases (leb code max_global_code)) [
          | inl le ↦ rw (e, wrapped, le) at
          | inr gt ↦ rw (e, wrapped, gt) refl
        ]

pub frequent-length : (cs : List Counter) → length (frequent cs) ≤ length cs
frequent-length [] = omega arith
frequent-length (c ∷ cs) = elim (Bool-cases (ltb c.total_count 100)) [
  | inl rare ↦ rw rare (omega (arith, frequent-length cs))
  | inr used ↦ rw used (omega (arith, frequent-length cs))
]

module _ (hash_of total_size : ℕ → ℕ) (is_narrow_number : ℕ → Bool) where
  pub find_entry-string :
      (str entry : ℕ) (chain : List ℕ) (c : StringCatalog)
      → find_entry hash_of total_size is_narrow_number str chain c ≡ some entry
      → string_at entry c ≡ str
  find_entry-string str entry [] c e = cc e
  find_entry-string str entry (first ∷ chain) c e = elim (Bool-cases (string_at first c == str)) [
    | inl hit ↦
        let same : first ≡ entry = some-injective _ _ (rw hit at e) in
        rw (← same) (==→eq (string_at first c) str hit)
    | inr miss ↦ find_entry-string str entry chain c (rw miss at e)
  ]

  pub lookup-string :
      (str entry : ℕ) (c : StringCatalog)
      → lookup hash_of total_size is_narrow_number str c ≡ some entry
      → string_at entry c ≡ str
  unfolding lookup
  lookup-string str entry c e =
      find_entry-string str entry (c.table (hash_of str % c.table_slot_count)) c e

module _ (hash_of total_size : ℕ → ℕ) (is_narrow_number : ℕ → Bool) (type : StringType) (str : ℕ)
    (c : StringCatalog) where
  pub proto_absent :
      lookup hash_of total_size is_narrow_number str c ≡ none
      → proto_string hash_of total_size is_narrow_number type str c ≡ literal str
  unfolding proto_string
  proto_absent e = rw (proto_string, e) refl

  pub proto_uncoded :
      (entry : ℕ)
      → lookup hash_of total_size is_narrow_number str c ≡ some entry
      → (codes_of type c).code_of entry ≡ null
      → proto_string hash_of total_size is_narrow_number type str c ≡ literal str
  unfolding proto_string
  proto_uncoded entry e e' = rw (proto_string, e, e') refl

  pub proto_coded :
      (entry pos : ℕ)
      → lookup hash_of total_size is_narrow_number str c ≡ some entry
      → (codes_of type c).code_of entry ≡ shared pos
      → proto_string hash_of total_size is_narrow_number type str c ≡ shared pos
  unfolding proto_string
  proto_coded entry pos e e' = rw (proto_string, e, e') refl
