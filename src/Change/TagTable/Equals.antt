-- ===== src/Change/TagTable/Equals.antt =====
-- What `equals` compares.
use geodesk_gol.Prelude.{
  ℕ, true, Bool-cases, ◌&&◌, ◌≡◌, refl, ap, inl, inr, List, [], ◌∷◌, map, ◌==◌, ==_refl,
  if◌then◌else◌,
}
use geodesk_gol.Change.TagTable.{
  TagTable, StoredTag, key, value, type_code, local_string_type, same_value, equal_locals,
  equal_globals, equals,
}

module _ (text_of : ℕ → ℕ) where
  -- A table's tags as they would be stored.
  abbrev pub stored_value_of : ℕ → ℕ
  stored_value_of tag =
      if type_code tag == local_string_type then text_of (value tag) else value tag

  abbrev pub stored_local : ℕ → StoredTag
  stored_local tag = record {
    stored_key = text_of (key tag);
    stored_type = type_code tag;
    stored_value = stored_value_of tag;
  }

  abbrev pub stored_global : ℕ → StoredTag
  stored_global tag = record {
    stored_key = key tag;
    stored_type = type_code tag;
    stored_value = stored_value_of tag;
  }

  same_value-stored :
      (tag k t : ℕ)
      → same_value text_of tag
          (record { stored_key = k; stored_type = t; stored_value = stored_value_of tag })
        ≡ true
  same_value-stored tag k t = elim (Bool-cases (type_code tag == local_string_type)) [
    | inl e ↦ rw e (==_refl (text_of (value tag)))
    | inr e ↦ rw e (==_refl (value tag))
  ]

  equal_locals-stored : (tags : List ℕ) → equal_locals text_of tags (map stored_local tags) ≡ true
  unfolding equal_locals
  equal_locals-stored [] = refl
  equal_locals-stored (tag ∷ tags) =
      rw
        (
          ==_refl (text_of (key tag)),
          ==_refl (type_code tag),
          same_value-stored tag (text_of (key tag)) (type_code tag),
        )
        (equal_locals-stored tags)

  equal_globals-stored :
      (tags : List ℕ) → equal_globals text_of tags (map stored_global tags) ≡ true
  unfolding equal_globals
  equal_globals-stored [] = refl
  equal_globals-stored (tag ∷ tags) =
      rw (==_refl (type_code tag), same_value-stored tag (key tag) (type_code tag))
        (equal_globals-stored tags)

  abbrev pub with_key : (ℕ → ℕ) → StoredTag → StoredTag
  with_key f s = record s { stored_key = f s.stored_key }

  equal_globals-with_key :
      (f : ℕ → ℕ) (tags : List ℕ) (stored : List StoredTag)
      → equal_globals text_of tags (map (with_key f) stored) ≡ equal_globals text_of tags stored
  unfolding equal_globals
  equal_globals-with_key f [] [] = refl
  equal_globals-with_key f [] (s ∷ ss) = refl
  equal_globals-with_key f (tag ∷ tags) [] = refl
  equal_globals-with_key f (tag ∷ tags) (s ∷ ss) =
      ap (λ b. (type_code tag == s.stored_type) && (same_value text_of tag s && b))
        (equal_globals-with_key f tags ss)

  -- `equals` does not look at the keys of the global tags: a table is equal to its own stored form,
  -- and still equal when every global key of the stored form is changed in any way.
  pub equals_ignores_global_keys :
      (t : TagTable) (f : ℕ → ℕ)
      → equals text_of t
          (map stored_local t.locals)
          (map (with_key f) (map stored_global t.globals))
        ≡ true
  unfolding equals
  equals_ignores_global_keys t f =
      rw
        (
          equal_locals-stored t.locals,
          equal_globals-with_key f t.globals (map stored_global t.globals),
        )
        (equal_globals-stored t.globals)
