-- ===== src/Tag/TagTableModel/Parts.antt =====
-- src/tag/TagTableModel.h: the two parts of a model and their sizes.
use mathlib.Core.List
use mathlib.Core.List.Perm
use mathlib.Core.List.{Perm}
use geodesk_gol.Prelude.{
  ℕ, ◌+◌, ◌-◌, ◌≡◌, ◌∙◌, refl, sym, ap, inl, inr, Bool, Bool-cases, true, false, Option,
  Option-cases, List, [], ◌∷◌, ◌++◌, append-nil, append_assoc, length, length-append, get_or, set,
  All, All-append, ltb, lt→ltb, ge→ltb, arith,
}
use geodesk_gol.Tag.TagTableModel.{
  Tag, TagTableModel, empty, wide_flag, no_tag, swap, insert_local_tag, add_global_code,
  add_global_string, add_local_code, add_local_string, set_value, ReadString, code, text, add_tags,
  global_string,
}
use geodesk_gol.Tag.TagTableModel.Sizes.{
  global_size, local_size, global_size-append, local_size-append,
}

-- The local tags come first, and the sizes are theirs and the others'.
pub record Parts (locals globals : List Tag) (m : TagTableModel) : Type 0 where
  pub tags : m.tags ≡ locals ++ globals
  pub count : m.local_tags_count ≡ length locals
  pub local_total : m.local_tags_size ≡ local_size locals
  pub global_total : m.global_tags_size ≡ global_size globals
  pub locals_first : All (λ (t : Tag). t.has_local_key ≡ true) locals
  pub globals_last : All (λ (t : Tag). t.has_local_key ≡ false) globals

set-middle : (xs ys : List Tag) (x v : Tag) → set (xs ++ (x ∷ ys)) (length xs) v ≡ xs ++ (v ∷ ys)
set-middle [] ys x v = refl
set-middle (y ∷ xs) ys x v = ap (◌∷◌ y) (set-middle xs ys x v)

get_or-middle : (xs ys : List Tag) (x d : Tag) → get_or (xs ++ (x ∷ ys)) (length xs) d ≡ x
get_or-middle [] ys x d = refl
get_or-middle (y ∷ xs) ys x d = get_or-middle xs ys x d

-- The new tag behind the last one with a global key trades places with the first of these.
swap-ends :
    (locals globals : List Tag) (first tag : Tag)
    → swap
        (length locals)
        (length (locals ++ (first ∷ globals)))
        ((locals ++ (first ∷ globals)) ++ (tag ∷ []))
      ≡ (locals ++ (tag ∷ [])) ++ (globals ++ (first ∷ []))
swap-ends [] globals first tag =
    rw (get_or-middle globals [] tag no_tag) (ap (◌∷◌ tag) (set-middle globals [] tag first))
swap-ends (x ∷ locals) globals first tag = ap (◌∷◌ x) (swap-ends locals globals first tag)

-- The tags with a global key after a local one is added.
abbrev rotated : List Tag → List Tag
rotated [] = []
rotated (first ∷ globals) = globals ++ (first ∷ [])

rotated-size : (globals : List Tag) → global_size (rotated globals) ≡ global_size globals
rotated-size [] = refl
rotated-size (first ∷ globals) = omega (arith, global_size-append globals (first ∷ []))

rotated-All : (P : Tag → Type 0) (globals : List Tag) → All P globals → All P (rotated globals)
rotated-All P [] all = tt
rotated-All P (first ∷ globals) (p, all) = All-append P globals (first ∷ []) all (p, tt)

insert_tags :
    (locals globals : List Tag) (tag : Tag) (m : TagTableModel)
    → m.tags ≡ locals ++ globals
    → m.local_tags_count ≡ length locals
    → (insert_local_tag tag m).tags ≡ (locals ++ (tag ∷ [])) ++ rotated globals
unfolding insert_local_tag
insert_tags locals [] tag m tags count =
    let none_yet : ltb 0 (length (locals ++ []) - length locals) ≡ false =
      ge→ltb 0 (length (locals ++ []) - length locals) (omega (arith, length-append locals [])) in
    rw (tags, count, none_yet, append-nil locals, append-nil (locals ++ (tag ∷ []))) refl
insert_tags locals (first ∷ globals) tag m tags count =
    let some_now : ltb 0 (length (locals ++ (first ∷ globals)) - length locals) ≡ true =
      lt→ltb 0 (length (locals ++ (first ∷ globals)) - length locals)
        (omega (arith, length-append locals (first ∷ globals))) in
    rw (tags, count, some_now) (swap-ends locals globals first tag)

insert-Parts :
    (locals globals : List Tag) (tag : Tag) (size : ℕ) (m : TagTableModel)
    → Parts locals globals m
    → tag.has_local_key ≡ true
    → size ≡ m.local_tags_size + (6 + wide_flag tag.value_type)
    → Parts
        (locals ++ (tag ∷ []))
        (rotated globals)
        (record (insert_local_tag tag m) { local_tags_size = size })
unfolding insert_local_tag
insert-Parts locals globals tag size m parts is_local e = record {
  tags = insert_tags locals globals tag m parts.tags parts.count;
  count = omega (arith, parts.count, length-append locals (tag ∷ []));
  local_total = omega (arith, e, parts.local_total, local_size-append locals (tag ∷ []));
  global_total = parts.global_total ∙ sym (rotated-size globals);
  locals_first =
      All-append (λ (t : Tag). t.has_local_key ≡ true) locals (tag ∷ []) parts.locals_first
        (is_local, tt);
  globals_last = rotated-All (λ (t : Tag). t.has_local_key ≡ false) globals parts.globals_last;
}

append-Parts :
    (locals globals : List Tag) (tag : Tag) (size : ℕ) (m : TagTableModel)
    → Parts locals globals m
    → tag.has_local_key ≡ false
    → size ≡ m.global_tags_size + (4 + wide_flag tag.value_type)
    → Parts locals
        (globals ++ (tag ∷ []))
        (record m { tags = m.tags ++ (tag ∷ []); global_tags_size = size })
append-Parts locals globals tag size m parts is_global e = record {
  tags = rw parts.tags (append_assoc locals globals (tag ∷ []));
  count = parts.count;
  local_total = parts.local_total;
  global_total = omega (arith, e, parts.global_total, global_size-append globals (tag ∷ []));
  locals_first = parts.locals_first;
  globals_last =
      All-append (λ (t : Tag). t.has_local_key ≡ false) globals (tag ∷ []) parts.globals_last
        (is_global, tt);
}

rotated-Perm : (globals : List Tag) → Perm (rotated globals) globals
rotated-Perm [] = Perm.refl []
rotated-Perm (first ∷ globals) = List.perm_append_singleton first globals

module _ (number_of : ℕ → Option (Bool × ℕ)) where
  -- The tag that is made of a key and a value.
  abbrev pub tag_for : ReadString → ReadString → Tag
  tag_for (code k) (code v) = record {
    has_local_key = false;
    key = k;
    value_type = global_string;
    value = v;
  }
  tag_for (code k) (text v) =
      set_value number_of v (record { has_local_key = false; key = k; value_type = 0; value = 0 })
  tag_for (text k) (code v) = record {
    has_local_key = true;
    key = k;
    value_type = global_string;
    value = v;
  }
  tag_for (text k) (text v) =
      set_value number_of v (record { has_local_key = true; key = k; value_type = 0; value = 0 })

  abbrev pub locals_of : List (ReadString × ReadString) → List Tag
  locals_of [] = []
  locals_of ((code k, v) ∷ tags) = locals_of tags
  locals_of ((text k, v) ∷ tags) = tag_for (text k) v ∷ locals_of tags

  abbrev pub globals_of : List (ReadString × ReadString) → List Tag
  globals_of [] = []
  globals_of ((code k, v) ∷ tags) = tag_for (code k) v ∷ globals_of tags
  globals_of ((text k, v) ∷ tags) = globals_of tags

  set_value-has_local_key :
      (v : ℕ) (tag : Tag) → (set_value number_of v tag).has_local_key ≡ tag.has_local_key
  set_value-has_local_key v tag = elim (Option-cases (number_of v)) [
    | inl e ↦ rw (set_value, e) refl
    | inr ((is_narrow, n), e) ↦ elim (Bool-cases is_narrow) [
      | inl b ↦ rw (set_value, e, b) refl
      | inr b ↦ rw (set_value, e, b) refl
    ]
  ]

  pub record Added (locals globals : List Tag) (m : TagTableModel) : Type 0 where
    pub last : List Tag
    pub parts : Parts locals last m
    pub order : Perm last globals

  local_step :
      (locals globals : List Tag) (tag : Tag) (more_locals more_globals : List Tag)
      (m : TagTableModel)
      → Added ((locals ++ (tag ∷ [])) ++ more_locals) (rotated globals ++ more_globals) m
      → Added (locals ++ (tag ∷ more_locals)) (globals ++ more_globals) m
  local_step locals globals tag more_locals more_globals m r = record {
    last = r.last;
    parts = rw (append_assoc locals (tag ∷ []) more_locals) at r.parts;
    order = Perm.trans r.order (Perm.append_right more_globals (rotated-Perm globals));
  }

  global_step :
      (locals globals : List Tag) (tag : Tag) (more_locals more_globals : List Tag)
      (m : TagTableModel)
      → Added (locals ++ more_locals) ((globals ++ (tag ∷ [])) ++ more_globals) m
      → Added (locals ++ more_locals) (globals ++ (tag ∷ more_globals)) m
  global_step locals globals tag more_locals more_globals m r =
      rw (append_assoc globals (tag ∷ []) more_globals) at r

  add_tags-Parts :
      (proto_tags : List (ReadString × ReadString)) (locals globals : List Tag) (m : TagTableModel)
      → Parts locals globals m
      → Added
          (locals ++ locals_of proto_tags)
          (globals ++ globals_of proto_tags)
          (add_tags number_of proto_tags m)
  unfolding add_tags add_global_code add_global_string add_local_code add_local_string
      insert_local_tag
  add_tags-Parts [] locals globals m parts =
      rw (append-nil locals, append-nil globals)
        (record { last = globals; parts = parts; order = Perm.refl globals })
  add_tags-Parts ((code k, code v) ∷ tags) locals globals m parts =
      let tag = tag_for (code k) (code v) in
      global_step locals globals tag (locals_of tags) (globals_of tags)
        (add_tags number_of ((code k, code v) ∷ tags) m)
        (add_tags-Parts tags locals (globals ++ (tag ∷ [])) (add_global_code k v m)
          (append-Parts locals globals tag (m.global_tags_size + 4) m parts refl (omega arith)))
  add_tags-Parts ((code k, text v) ∷ tags) locals globals m parts =
      let tag = tag_for (code k) (text v) in
      global_step locals globals tag (locals_of tags) (globals_of tags)
        (add_tags number_of ((code k, text v) ∷ tags) m)
        (add_tags-Parts tags locals (globals ++ (tag ∷ [])) (add_global_string number_of k v m) (
          append-Parts locals globals tag (m.global_tags_size + 4 + wide_flag tag.value_type) m
            parts
            (set_value-has_local_key v
              (record { has_local_key = false; key = k; value_type = 0; value = 0 }))
            (omega arith)))
  add_tags-Parts ((text k, code v) ∷ tags) locals globals m parts =
      let tag = tag_for (text k) (code v) in
      local_step locals globals tag (locals_of tags) (globals_of tags)
        (add_tags number_of ((text k, code v) ∷ tags) m)
        (add_tags-Parts tags (locals ++ (tag ∷ [])) (rotated globals) (add_local_code k v m)
          (insert-Parts locals globals tag (m.local_tags_size + 6) m parts refl (omega arith)))
  add_tags-Parts ((text k, text v) ∷ tags) locals globals m parts =
      let tag = tag_for (text k) (text v) in
      local_step locals globals tag (locals_of tags) (globals_of tags)
        (add_tags number_of ((text k, text v) ∷ tags) m)
        (add_tags-Parts tags (locals ++ (tag ∷ [])) (rotated globals)
          (add_local_string number_of k v m)
          (insert-Parts locals globals tag (m.local_tags_size + 6 + wide_flag tag.value_type) m
            parts
            (set_value-has_local_key v
              (record { has_local_key = true; key = k; value_type = 0; value = 0 }))
            (omega arith)))

  -- Adding the tags of a pile to an empty model: the tags with local keys come first, in their order,
  -- then those with global keys, in some order; each tag is there once, with a value that is a number
  -- where its string is one; and the sizes are those of the two parts.
  pub add_tags-Added :
      (proto_tags : List (ReadString × ReadString))
      → Added (locals_of proto_tags) (globals_of proto_tags) (add_tags number_of proto_tags empty)
  add_tags-Added proto_tags = add_tags-Parts proto_tags [] [] empty (record {
    tags = refl;
    count = refl;
    local_total = refl;
    global_total = refl;
    locals_first = tt;
    globals_last = tt;
  })
