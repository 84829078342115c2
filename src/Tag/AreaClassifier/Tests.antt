-- ===== src/Tag/AreaClassifier/Tests.antt =====
-- Rules for the keys with the codes 1, 2 and 3.
use geodesk_gol.Prelude.{
  ℕ, bit_or, ◌≡◌, refl, Option, none, some, List, [], ◌∷◌, true, false, ◌==◌, if◌then◌else◌,
}
use geodesk_gol.Tag.AreaClassifier.{
  Entry, Rules, definite_for_way, definite_for_relation, classifier_of, resolve, resolve_all,
  put_values, put_rule, build_rules,
}
use geodesk_gol.Tag.AreaClassifier.Tags.{
  Tags, Value, global_string, local_string, number, scan_codes, scan_strings, is_area_code,
  is_area_string, is_area_value, see_tags, is_area,
}
use geodesk_gol.Tag.AreaClassifier.Tags.Verdict.{
  some_tag_of, is_definite, both, is_area_tag, is_area_lem,
}

-- Strings of one byte below 10 are global, with their byte as code.
abbrev lookup : List ℕ → Option ℕ
lookup [] = none
lookup (c ∷ []) = if c == 50 then none else some c
lookup (c ∷ d ∷ s) = none

abbrev key : ℕ → ℕ → Entry
key c flags = record { code = 0; flags = flags; is_key = true; string = c ∷ [] }

abbrev value : List ℕ → Entry
value s = record { code = 0; flags = 0; is_key = false; string = s }

-- 1 definite for ways; 2 except 7 and "2"; 3 with 8 and "ab"; the values are in the order of the
-- table.
abbrev rules : Rules
rules =
    classifier_of lookup (λ es. es) 100
      (key 1 6
        ∷ key 2 1
        ∷ value (50 ∷ [])
        ∷ value (7 ∷ [])
        ∷ key 3 0
        ∷ value (97 ∷ 98 ∷ [])
        ∷ value (8 ∷ [])
        ∷ [])

abbrev tagged : List (ℕ × Value) → Tags
tagged tags = record { global_tags = tags; local_tags = [] }

verdicts :
    (is_area 5 rules (tagged ((2, global_string 9) ∷ [])) ≡ 3)
    × (is_area 5 rules (tagged ((2, global_string 7) ∷ [])) ≡ 0)
    × (is_area 5 rules (tagged ((2, local_string (50 ∷ [])) ∷ [])) ≡ 0)
    × (is_area 5 rules (tagged ((3, local_string (97 ∷ 98 ∷ [])) ∷ [])) ≡ 3)
    × (is_area 5 rules (tagged ((1, global_string 5) ∷ (3, global_string 8) ∷ [])) ≡ 2)
    × (is_area 5 rules (tagged ((2, number) ∷ [])) ≡ 0)
unfolding is_area see_tags is_area_value is_area_code is_area_string scan_codes scan_strings
    classifier_of build_rules resolve_all resolve put_rule put_values
verdicts = (refl, refl, refl, refl, refl, refl)

is_area_lem_example :
    is_area 5 rules (tagged ((1, global_string 5) ∷ (3, global_string 8) ∷ []))
    ≡ bit_or
        (if (if some_tag_of
              (is_definite definite_for_way)
              rules
              (tagged ((1, global_string 5) ∷ (3, global_string 8) ∷ []))
            then some_tag_of
                (both 5 rules.table definite_for_way)
                rules
                (tagged ((1, global_string 5) ∷ (3, global_string 8) ∷ []))
            else some_tag_of
                (is_area_tag 5 rules.table)
                rules
                (tagged ((1, global_string 5) ∷ (3, global_string 8) ∷ [])))
          then 1
          else 0)
        (if (if some_tag_of
              (is_definite definite_for_relation)
              rules
              (tagged ((1, global_string 5) ∷ (3, global_string 8) ∷ []))
            then some_tag_of
                (both 5 rules.table definite_for_relation)
                rules
                (tagged ((1, global_string 5) ∷ (3, global_string 8) ∷ []))
            else some_tag_of
                (is_area_tag 5 rules.table)
                rules
                (tagged ((1, global_string 5) ∷ (3, global_string 8) ∷ [])))
          then 2
          else 0)
is_area_lem_example =
    is_area_lem 5 rules (tagged ((1, global_string 5) ∷ (3, global_string 8) ∷ []))
