-- ===== src/Tag/AreaClassifier/Tags/Verdict.antt =====
-- What the loops of isArea compute: which tags decide.
use mathlib.Core.Bool.{or-false, or_assoc}
use geodesk_gol.Prelude.{
  ℕ, bit_or, ◌≡◌, refl, inl, inr, Bool, false, ◌&&◌, ◌||◌, Option, none, some, List, [], ◌∷◌,
  if◌then◌else◌, Option-cases,
}
use geodesk_gol.Tag.AreaClassifier.{
  definite_for_way, definite_for_relation, has_flag, rule_flags, Rules,
}
use geodesk_gol.Tag.AreaClassifier.Tags.{Value, Tags, Seen, is_area_value, see, see_tags, is_area}

-- Some tag has a rule, and rule and value pass the test.
abbrev pub some_tag :
    {Key : Type 0} → (ℕ → Value → Bool) → (Key → Option ℕ) → List (Key × Value) → Bool
some_tag test rules [] = false
some_tag test rules ((key, value) ∷ tags) =
    elim (rules key) [ none ↦ false | some rule ↦ test rule value ] || some_tag test rules tags

abbrev pub some_tag_of : (ℕ → Value → Bool) → Rules → Tags → Bool
some_tag_of test r tags =
    some_tag test r.global_rules tags.global_tags || some_tag test r.local_rules tags.local_tags

abbrev pub is_definite : ℕ → ℕ → Value → Bool
is_definite flag rule value = has_flag (rule_flags rule) flag

module _ (no_code : ℕ) (table : List ℕ) where
  abbrev pub is_area_tag : ℕ → Value → Bool
  is_area_tag rule value = is_area_value no_code table rule value

  abbrev pub both : ℕ → ℕ → Value → Bool
  both flag rule value = is_definite flag rule value && is_area_tag rule value

  abbrev joined : {Key : Type 0} → (Key → Option ℕ) → List (Key × Value) → Seen → Seen
  joined rules tags s = record {
    is_general_area = s.is_general_area || some_tag is_area_tag rules tags;
    is_definite_way_area = s.is_definite_way_area || some_tag (both definite_for_way) rules tags;
    is_definite_relation_area =
        s.is_definite_relation_area || some_tag (both definite_for_relation) rules tags;
    seen_definite_way_tag =
        s.seen_definite_way_tag || some_tag (is_definite definite_for_way) rules tags;
    seen_definite_relation_tag =
        s.seen_definite_relation_tag || some_tag (is_definite definite_for_relation) rules tags;
  }

  see_tags-joined :
      {Key : Type 0} (rules : Key → Option ℕ) (tags : List (Key × Value)) (s : Seen)
      → see_tags no_code table rules tags s ≡ joined rules tags s
  unfolding see_tags
  see_tags-joined rules [] s = simp (or-false)
  see_tags-joined rules ((key, value) ∷ tags) s = elim (Option-cases (rules key)) [
    | inl e ↦ rw (e) (see_tags-joined rules tags s)
    | inr (rule, e) ↦
        rw (e) (rw (see_tags-joined rules tags (see no_code table rule value s)) (simp (or_assoc)))
  ]

-- The verdict on a feature: where a tag of it has a definite rule, such as the key "area" for ways,
-- only the tags with such a rule decide, and any of them makes it an area; else any tag does. The
-- verdict for ways and the one for relations do not depend on each other, nor on the order of the
-- tags.
pub is_area_lem :
    (no_code : ℕ) (r : Rules) (tags : Tags)
    → is_area no_code r tags
      ≡ bit_or
          (if (if some_tag_of (is_definite definite_for_way) r tags
              then some_tag_of (both no_code r.table definite_for_way) r tags
              else some_tag_of (is_area_tag no_code r.table) r tags)
            then 1
            else 0)
          (if (if some_tag_of (is_definite definite_for_relation) r tags
              then some_tag_of (both no_code r.table definite_for_relation) r tags
              else some_tag_of (is_area_tag no_code r.table) r tags)
            then 2
            else 0)
unfolding is_area
is_area_lem no_code r tags =
    rw
      (
        see_tags-joined no_code r.table r.local_rules tags.local_tags,
        see_tags-joined no_code r.table r.global_rules tags.global_tags,
      )
      refl
