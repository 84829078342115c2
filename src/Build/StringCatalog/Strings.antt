-- ===== src/Build/StringCatalog/Strings.antt =====
-- src/build/util/ProtoString.h and ProtoGol.h: how a string is written into a pile and read from it.
use geodesk_gol.Prelude.{
  ℕ, ◌+◌, ◌*◌, ◌/◌, ◌%◌, Option, none, some, List, [], ◌∷◌, length, get_elem?, take, drop, ltb,
  ◌==◌, if◌then◌else◌,
}
use geodesk_gol.Build.StringCatalog.{
  StringCatalog, StringType, StringRef, global, local, ProtoString, null, shared, literal, codes_of,
  string_at,
}

-- `ProtoString::writeTo`: the varint of a code, or the length of a literal string, written by hand in
-- one byte or two, and its bytes. A null
-- string is not written.
unfoldable pub write_to : (ℕ → List ℕ) → (ℕ → List ℕ) → ProtoString → List ℕ
write_to write_varint bytes_of null = []
write_to write_varint bytes_of (shared code) = write_varint (code * 2 + 1)
write_to write_varint bytes_of (literal str) =
    let bytes = bytes_of str in
    let encoded_len = length bytes * 2 in
    if ltb 127 encoded_len
    then (encoded_len % 128 + 128) ∷ (encoded_len / 128 % 256) ∷ bytes
    else encoded_len ∷ bytes

-- The entry whose string a reference means: of the global table, or its own.
abbrev pub entry_of : StringRef → StringCatalog → Option ℕ
entry_of (local entry) c = some entry
entry_of (global code) c = get_elem? c.global_strings code

abbrev pub bind {ℓ κ} : {A : Type ℓ} {B : Type κ} → Option A → (A → Option B) → Option B
bind none f = none
bind (some a) f = f a

-- `ProtoGol::readStringView`, for a reader of varints: the bytes of the string, and what is left.
unfoldable pub read_string_view :
    (List ℕ → Option (ℕ × List ℕ))
    → (ℕ → List ℕ)
    → StringType
    → StringCatalog
    → List ℕ
    → Option (List ℕ × List ℕ)
read_string_view read_varint bytes_of type c input = bind (read_varint input) (λ read.
    let ref_or_len = read.0 in
    let rest = read.1 in
    if ref_or_len % 2 == 1
    then bind (get_elem? (codes_of type c).refs (ref_or_len / 2))
        (λ ref. bind (entry_of ref c) (λ entry. some (bytes_of (string_at entry c), rest)))
    else some (take (ref_or_len / 2) rest, drop (ref_or_len / 2) rest))
