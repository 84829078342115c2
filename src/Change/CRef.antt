-- ===== src/Change/CRef.antt =====
-- src/change/model/CRef.h: a reference to an existing feature, packed into 64 bits.
-- A TIP and a TEX are the numbers that they wrap. A shift of an `int` keeps 32 bits, and the result
-- is sign-extended when it is combined with the 64-bit TIP.
pub mod Fields
pub mod Status
mod Tests
use Prim.Native.String.{String}
use geodesk_gol.Prelude.{
  ℕ, ◌+◌, ◌-◌, ◌*◌, ◌/◌, ◌%◌, ◌^◌, bit_and, bit_or, Bool, not, List, [], ◌∷◌, Option, none, some,
  ltb, ◌==◌, if◌then◌else◌,
}

pub data StatusCategory : Type 0 where
  special maybe_exported not_exported exported : StatusCategory

pub data SpecialStatus : Type 0 where
  unknown unresolved missing single_tile anonymous_node new : SpecialStatus

-- The values of the two enums.
abbrev pub category_code : StatusCategory → ℕ
category_code special = 0
category_code maybe_exported = 1
category_code not_exported = 2
category_code exported = 3

abbrev pub special_code : SpecialStatus → ℕ
special_code unknown = 0
special_code unresolved = 4
special_code missing = 8
special_code single_tile = 16
special_code anonymous_node = 32
special_code new = 64

-- `static_cast<uint64_t>(tip) << 32`
abbrev pub tip_bits : ℕ → ℕ
tip_bits tip = tip * 2 ^ 32 % 2 ^ 64

-- An `int` shifted left by 2, as it takes part in a 64-bit expression.
abbrev pub int_shl_2 : ℕ → ℕ
int_shl_2 n = let low = n * 4 % 2 ^ 32 in if ltb low (2 ^ 31) then low else low + (2 ^ 64 - 2 ^ 32)

unfoldable pub of_exported : ℕ → ℕ → ℕ
of_exported tip tex = bit_or (bit_or (tip_bits tip) (int_shl_2 tex)) (category_code exported)

pub of_new : ℕ → ℕ
of_new tip = bit_or (tip_bits tip) (special_code new)

pub of_unresolved : ℕ → ℕ
of_unresolved tip = bit_or (tip_bits tip) (special_code unresolved)

pub of_not_exported : ℕ → ℕ → ℕ
of_not_exported tip handle =
    bit_or (bit_or (tip_bits tip) (int_shl_2 handle)) (category_code not_exported)

pub of_maybe_exported : ℕ → ℕ → ℕ
of_maybe_exported tip handle =
    bit_or (bit_or (tip_bits tip) (int_shl_2 handle)) (category_code maybe_exported)

-- `static_cast<uint32_t>(data_)`
abbrev pub low_word : ℕ → ℕ
low_word d = d % 2 ^ 32

unfoldable pub status_category : ℕ → ℕ
status_category d = bit_and d 3 % 2 ^ 32

unfoldable pub tip : ℕ → ℕ
tip d = d / 2 ^ 32 % 2 ^ 32

-- `offset` and `tex` read the same bits; the assertions on the category do not run in a release.
pub offset : ℕ → ℕ
offset d = low_word d / 4

unfoldable pub tex : ℕ → ℕ
tex d = low_word d / 4

pub may_have_tex : ℕ → Bool
may_have_tex d = not (bit_and d 1 == 0)

unfoldable pub is_exported : ℕ → Bool
is_exported d = status_category d == category_code exported

pub is_new : ℕ → Bool
is_new d = low_word d == special_code new

pub can_get_feature : ℕ → Bool
can_get_feature d = not (status_category d == category_code special)

-- The mask is `2 | SPECIAL_MISSING | SPECIAL_NEW`.
pub is_vague : ℕ → Bool
is_vague d = bit_and (low_word d) (bit_or (bit_or 2 (special_code missing)) (special_code new)) == 0

-- The mask is `0xffff'ffff & ~SPECIAL_MISSING`, 32 bits wide.
pub is_unknown_or_missing : ℕ → Bool
is_unknown_or_missing d = bit_and d (bit_and 0xffff_ffff (0xffff_ffff - special_code missing)) == 0

-- `getFeature(pTile)`: a pointer is its address, and `follow` reads a relative pointer.
pub get_feature : (ℕ → ℕ) → ℕ → ℕ → ℕ → ℕ
get_feature follow exports_ofs d tile =
    if status_category d == category_code exported
    then follow (follow (tile + exports_ofs) + tex d * 4)
    else tile + offset d

-- `getFeature(store)`: nothing for a special reference.
pub get_feature_in_store : (ℕ → ℕ) → ℕ → (ℕ → ℕ) → ℕ → Option ℕ
get_feature_in_store follow exports_ofs fetch_tile d =
    if not (can_get_feature d)
    then none
    else some (get_feature follow exports_ofs d (fetch_tile (tip d)))

-- What `writeTo` sends to its stream.
pub data Token : Type 0 where
  text : String → Token
  number : ℕ → Token

write_special : ℕ → List Token
write_special d =
    if low_word d == special_code unknown
    then text "unknown" ∷ []
    else if low_word d == special_code unresolved
    then text "unresolved " ∷ number (tip d) ∷ []
    else if low_word d == special_code missing
    then text "missing" ∷ []
    else if low_word d == special_code single_tile
    then text "single_tile" ∷ []
    else if low_word d == special_code anonymous_node
    then text "anon_node" ∷ []
    else if low_word d == special_code new
    then text "new " ∷ number (tip d) ∷ []
    else text "!!!invalid_ref!!!" ∷ []

pub write_to : ℕ → List Token
unfolding write_special
write_to d =
    if status_category d == category_code special
    then write_special d
    else if status_category d == category_code maybe_exported
    then text "maybe_exported " ∷ number (tip d) ∷ text " @" ∷ number (offset d) ∷ []
    else if status_category d == category_code not_exported
    then text "not_exported " ∷ number (tip d) ∷ text " @" ∷ number (offset d) ∷ []
    else if status_category d == category_code exported
    then text "exported " ∷ number (tip d) ∷ text " #" ∷ number (tex d) ∷ []
    else text "!!!invalid_ref!!!" ∷ []
