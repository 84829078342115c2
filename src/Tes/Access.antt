-- ===== src/Tes/Access.antt =====
-- The reader's tables by number: `getString`, `getTagTable`, `getRelationTable`, `getFeature`, `getNode`
-- and `getRelation` of src/tile/tes/TesReader.cpp. The features are those that the index named, with
-- the numbers at which the ways and the relations start. A number has 32 bits and is not negative.
pub mod Bounds
mod Tests
use geodesk_gol.Prelude.{
  ℕ, zero, suc, ◌+◌, ◌≤◌, ◌<◌, ◌≢◌, ◌⊎◌, inl, inr, Bool, true, false, not, Bool-cases, ◌≡◌, refl,
  sym, ap, ◌∙◌, Option, none, some, List, [], ◌∷◌, length, get_elem?, ltb, ltb→lt, ltb→ge, lt→ltb,
  ge→ltb, leb, leb→le, leb→gt, ◌==◌, ==→eq, ==_refl, if◌then◌else◌, arith,
}
use geodesk_gol.Tes.Index.{Entry}

-- What an access comes to: an element, an exception, or a read outside the array.
pub data Access {ℓ} (A : Type ℓ) : Type ℓ where
  found : A → Access A
  invalid : Access A
  outside : Access A

abbrev pub element {ℓ} : {A : Type ℓ} → Option A → Access A
element none = outside
element (some a) = found a

-- An array of the reader with its count; `getString`, `getTagTable` and `getRelationTable`.
pub get_string {ℓ} : {A : Type ℓ} → List A → ℕ → Access A
get_string strings number =
    if ltb (length strings) number then invalid else element (get_elem? strings number)

pub get_tag_table {ℓ} : {A : Type ℓ} → List A → ℕ → Access A
get_tag_table tag_tables number =
    if ltb (length tag_tables) number then invalid else element (get_elem? tag_tables number)

pub get_relation_table {ℓ} : {A : Type ℓ} → List A → ℕ → Access A
get_relation_table relation_tables number = element (get_elem? relation_tables number)

pub get_feature : List Entry → ℕ → Access Entry
get_feature features number =
    if leb (length features) number then invalid else element (get_elem? features number)

abbrev pub of_type : ℕ → Access Entry → Access Entry
of_type t (found e) = if e.type_code == t then found e else invalid
of_type t invalid = invalid
of_type t outside = outside

-- Of the features, and the number at which the ways start.
pub get_node : List Entry → ℕ → ℕ → Access Entry
get_node features first_way number =
    if leb first_way number then invalid else of_type 0 (element (get_elem? features number))

-- Of the features, and the number at which the relations start.
pub get_relation : List Entry → ℕ → ℕ → Access Entry
get_relation features first_relation number =
    if leb (length features) (first_relation + number)
    then invalid
    else of_type 2 (element (get_elem? features (first_relation + number)))
