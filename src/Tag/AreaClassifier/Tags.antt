-- ===== src/Tag/AreaClassifier/Tags.antt =====
-- src/tag/AreaClassifier.h and .cpp, isArea: the rules applied to the tags of a feature.
-- A pointer into the table steps through at most as many words as the table has bytes.
pub mod Verdict
use geodesk_gol.Prelude.{
  ℕ, zero, suc, ◌+◌, ◌-◌, ◌*◌, ◌%◌, ◌^◌, bit_and, bit_or, ◌≡◌, inl, inr, refl, Bool, true, false,
  not, ◌&&◌, ◌||◌, Option, none, some, List, [], ◌∷◌, ◌++◌, length, get_or, take, drop, leb, ◌==◌,
  if◌then◌else◌, Bool-cases, Option-cases, arith,
}
use geodesk_gol.Tag.AreaClassifier.{
  reject_some, accept_all, definite_for_way, definite_for_relation, has_flag, same_bytes,
  rule_flags, rule_pos, Rules,
}

-- A tag value: `TagValueType::GLOBAL_STRING`, `LOCAL_STRING`, or a number.
pub data Value : Type 0 where
  global_string : ℕ → Value
  local_string : List ℕ → Value
  number : Value

pub record Tags : Type 0 where
  pub global_tags : List (ℕ × Value)
  pub local_tags : List (List ℕ × Value)

-- The five flags of `isArea`.
pub record Seen : Type 0 where
  pub is_general_area : Bool
  pub is_definite_way_area : Bool
  pub is_definite_relation_area : Bool
  pub seen_definite_way_tag : Bool
  pub seen_definite_relation_tag : Bool

abbrev pub word_at : List ℕ → ℕ → ℕ
word_at table p = get_or table p 0 + get_or table (p + 1) 0 * 2 ^ 8

abbrev pub differs : Bool → Bool → Bool
differs found reject = if reject then not found else found

-- The loop over the global values of a rule.
unfoldable pub scan_codes : ℕ → List ℕ → ℕ → ℕ → Bool → Bool
scan_codes zero table p value reject = false
scan_codes (suc fuel) table p value reject =
    let rest = scan_codes fuel table (p + 2) value reject in
    if leb value (word_at table p) then differs (value == word_at table p) reject else rest

-- The loop over the local values of a rule, backwards from the length of one.
unfoldable pub scan_strings : ℕ → List ℕ → ℕ → List ℕ → Bool → Bool
scan_strings zero table p value reject = false
scan_strings (suc fuel) table p value reject =
    let candidate_len = word_at table p in
    let start = p - candidate_len in
    let rest = scan_strings fuel table (start - (2 + candidate_len % 2)) value reject in
    if candidate_len == 0
    then reject
    else if (candidate_len == length value)
        && same_bytes (take candidate_len (drop start table)) value
    then not reject
    else rest

-- `GlobalStrings::NO` is the code of "no".
module _ (no_code : ℕ) where
  unfoldable pub is_area_code : List ℕ → ℕ → ℕ → Bool
  is_area_code table rule value =
      if value == no_code
      then false
      else if has_flag (rule_flags rule) accept_all
      then true
      else scan_codes (length table) table (rule_pos rule) value
          (has_flag (rule_flags rule) reject_some)

  unfoldable pub is_area_string : List ℕ → ℕ → List ℕ → Bool
  is_area_string table rule value =
      if has_flag (rule_flags rule) accept_all
      then true
      else scan_strings (length table) table (rule_pos rule - 2) value
          (has_flag (rule_flags rule) reject_some)

  unfoldable pub is_area_value : List ℕ → ℕ → Value → Bool
  is_area_value table rule (global_string value) = is_area_code table rule value
  is_area_value table rule (local_string value) = is_area_string table rule value
  is_area_value table rule number = false

  -- The body of the two loops over the tags, where the key of the tag has a rule.
  abbrev pub see : List ℕ → ℕ → Value → Seen → Seen
  see table rule value s =
      let is_area_tag = is_area_value table rule value in
      let way = has_flag (rule_flags rule) definite_for_way in
      let relation = has_flag (rule_flags rule) definite_for_relation in
      record {
        is_general_area = s.is_general_area || is_area_tag;
        is_definite_way_area = s.is_definite_way_area || (way && is_area_tag);
        is_definite_relation_area = s.is_definite_relation_area || (relation && is_area_tag);
        seen_definite_way_tag = s.seen_definite_way_tag || way;
        seen_definite_relation_tag = s.seen_definite_relation_tag || relation;
      }

  unfoldable pub see_tags :
      {Key : Type 0} → List ℕ → (Key → Option ℕ) → List (Key × Value) → Seen → Seen
  see_tags table rules [] s = s
  see_tags table rules ((key, value) ∷ tags) s =
      see_tags table rules tags (elim (rules key) [ none ↦ s | some rule ↦ see table rule value s ])

  -- `isArea(tags)`: 1 for an area as a way, 2 for one as a relation.
  unfoldable pub is_area : Rules → Tags → ℕ
  is_area r tags =
      let s = see_tags r.table r.local_rules tags.local_tags (
        see_tags r.table r.global_rules tags.global_tags (record {
          is_general_area = false;
          is_definite_way_area = false;
          is_definite_relation_area = false;
          seen_definite_way_tag = false;
          seen_definite_relation_tag = false;
        })) in
      bit_or
        (if (if s.seen_definite_way_tag then s.is_definite_way_area else s.is_general_area)
          then 1
          else 0)
        (if (if s.seen_definite_relation_tag
            then s.is_definite_relation_area
            else s.is_general_area)
          then 2
          else 0)
