-- ===== src/Build/SuperRelation/Validity.antt =====
-- src/build/sort/SuperRelation.cpp, validate: what is left of a relation.
use geodesk_gol.Prelude.{
  ℕ, ◌+◌, ◌-◌, ◌/◌, ◌%◌, ◌^◌, ◌<◌, ◌≤◌, ◌≡◌, ◌⊎◌, ◌∙◌, subst, max, All, ltb, ltb→lt, ltb→ge, refl,
  sym, ap, inl, inr, Bool-cases, some, List, [], ◌∷◌, ◌++◌, append_assoc, length, take-append,
  drop-append, ◌==◌, ==→eq, if◌then◌else◌, arith,
}
use geodesk_gol.Tes.Wire.{Varint}
use geodesk_gol.Build.SuperRelation.{
  Member, SuperRelation, Recoded, recode_members, recode, count_removed, highest_zoom, validate,
}

-- An entry of the body: the member's id, and its role as a code or as a length with a string.
pub record Entry : Type 0 where
  pub id : ℕ
  pub role : ℕ
  pub literal : List ℕ
  pub id_small : id < 2 ^ 64
  pub role_small : role < 2 ^ 32
  pub literal_length : (if role % 2 == 0 then role / 2 else 0) ≡ length literal

abbrev pub present : List (Member × Entry) → List (Member × Entry)
present [] = []
present ((m, e) ∷ entries) = if m.typed_id == 0 then present entries else (m, e) ∷ present entries

abbrev pub members_of : List (Member × Entry) → List Member
members_of [] = []
members_of ((m, e) ∷ entries) = m ∷ members_of entries

module _ (v : Varint) where
  abbrev pub encode : List (Member × Entry) → List ℕ
  encode [] = []
  encode ((m, e) ∷ entries) = (v.write e.id ++ v.write e.role ++ e.literal) ++ encode entries

  abbrev outcome : List (Member × Entry) → List ℕ → Recoded
  outcome entries tags = record {
    kept = members_of (present entries);
    written = encode (present entries);
    tags = tags;
  }

  recode_members-encode :
      (entries : List (Member × Entry)) (tags : List ℕ)
      → recode_members v (members_of entries) (encode entries ++ tags) ≡ some (outcome entries tags)
  unfolding recode_members
  recode_members-encode [] tags = refl
  recode_members-encode ((m, e) ∷ entries) tags =
      let more = encode entries ++ tags in
      let shape : encode ((m, e) ∷ entries) ++ tags
          ≡ v.write e.id ++ (v.write e.role ++ (e.literal ++ more)) =
        append_assoc ((v.write e.id ++ v.write e.role) ++ e.literal) (encode entries) tags
        ∙ append_assoc (v.write e.id ++ v.write e.role) e.literal more
        ∙ append_assoc (v.write e.id) (v.write e.role) (e.literal ++ more) in
      rw
        (
          shape,
          v.read-write e.id (v.write e.role ++ (e.literal ++ more)) e.id_small,
          v.read-write e.role (e.literal ++ more) (omega (arith, e.role_small)),
          e.literal_length,
          drop-append e.literal more,
          recode_members-encode entries tags,
          e.literal_length,
          take-append e.literal more,
        )
        (elim (Bool-cases (m.typed_id == 0)) [ inl gone ↦ rw gone refl | inr kept ↦ rw kept refl ])

  -- A relation whose body has an entry for each member, and then the tags.
  abbrev pub relation_of : List (Member × Entry) → List ℕ → ℕ → ℕ → ℕ → SuperRelation
  relation_of entries tags zoom missing refcycles = record {
    members = members_of entries;
    body = encode entries ++ tags;
    highest_member_zoom = zoom;
    missing_member_count = missing;
    removed_refcycle_count = refcycles;
  }

  recode_lem :
      (entries : List (Member × Entry)) (tags : List ℕ) (zoom missing refcycles : ℕ)
      → recode v (relation_of entries tags zoom missing refcycles)
        ≡ some (relation_of (present entries) tags zoom missing refcycles)
  unfolding recode
  recode_lem entries tags zoom missing refcycles =
      rw (recode, recode_members-encode entries tags) refl

  module _ (zoom_of : ℕ → ℕ) where
    none_removed :
        (entries : List (Member × Entry))
        → count_removed v zoom_of (members_of entries) ≡ 0
        → present entries ≡ entries
    none_removed [] none_gone = refl
    none_removed ((m, e) ∷ entries) none_gone = elim (Bool-cases (m.typed_id == 0)) [
      | inl gone ↦ absurd (omega (arith, rw gone at none_gone))
      | inr kept ↦ rw kept (ap (◌∷◌ (m, e)) (none_removed entries (rw kept at none_gone)))
    ]

    validate_counted :
        (entries : List (Member × Entry)) (tags : List ℕ) (zoom missing refcycles : ℕ)
        → validate v zoom_of (relation_of entries tags zoom missing refcycles)
          ≡ some (
              relation_of
                (present entries)
                tags
                (highest_zoom v zoom_of (members_of entries))
                ((missing + count_removed v zoom_of (members_of entries) + 2 ^ 32 - refcycles)
                  % 2 ^ 32)
                refcycles)
    unfolding validate
    validate_counted entries tags zoom missing refcycles =
        let removed = count_removed v zoom_of (members_of entries) in
        let highest = highest_zoom v zoom_of (members_of entries) in
        let total = (missing + removed + 2 ^ 32 - refcycles) % 2 ^ 32 in
        elim (Bool-cases (removed == 0)) [
          | inl e ↦ rw e (
              ap
                (λ (es : List (Member × Entry)). some (relation_of es tags highest total refcycles))
                (sym (none_removed entries (==→eq removed 0 e))))
          | inr e ↦ rw e (recode_lem entries tags highest total refcycles)
        ]

    -- A zoom level is that of a member.
    abbrev pub Attained : ℕ → List (Member × Entry) → Type 0
    Attained zoom [] = ⊥
    Attained zoom ((m, e) ∷ entries) = (zoom_of m.tile_pair ≡ zoom) ⊎ Attained zoom entries

    -- The highest zoom level of the members, or 0 if there are none.
    abbrev pub IsHighest : ℕ → List (Member × Entry) → Type 0
    IsHighest zoom entries =
        All (λ x. zoom_of x.0.tile_pair ≤ zoom) entries
        × (((entries ≡ []) × (zoom ≡ 0)) ⊎ Attained zoom entries)

    count_removed-present :
        (entries : List (Member × Entry))
        → count_removed v zoom_of (members_of entries) + length (present entries) ≡ length entries
    count_removed-present [] = refl
    count_removed-present ((m, e) ∷ entries) = elim (Bool-cases (m.typed_id == 0)) [
      | inl gone ↦ rw gone (omega (arith, count_removed-present entries))
      | inr kept ↦ rw kept (omega (arith, count_removed-present entries))
    ]

    lower :
        (low high : ℕ) (entries : List (Member × Entry))
        → low ≤ high
        → All (λ x. zoom_of x.0.tile_pair ≤ low) entries
        → All (λ x. zoom_of x.0.tile_pair ≤ high) entries
    lower low high [] le all = tt
    lower low high (x ∷ entries) le (at, all) =
        (omega (arith, at, le), lower low high entries le all)

    highest_zoom-IsHighest :
        (entries : List (Member × Entry))
        → IsHighest (highest_zoom v zoom_of (members_of entries)) (present entries)
    highest_zoom-IsHighest [] = (tt, inl (refl, refl))
    highest_zoom-IsHighest ((m, e) ∷ entries) = elim (Bool-cases (m.typed_id == 0)) [
      | inl gone ↦ rw gone (highest_zoom-IsHighest entries)
      | inr kept ↦ rw kept (add_zoom (zoom_of m.tile_pair) refl (highest_zoom-IsHighest entries))
    ]
      where
        add_zoom :
            (z : ℕ)
            → zoom_of m.tile_pair ≡ z
            → IsHighest (highest_zoom v zoom_of (members_of entries)) (present entries)
            → IsHighest
                (max z (highest_zoom v zoom_of (members_of entries)))
                ((m, e) ∷ present entries)
        add_zoom z at (all, attained) =
            let rest = highest_zoom v zoom_of (members_of entries) in
            (
              (omega (arith, at), lower rest (max z rest) (present entries) (omega arith) all),
              inr (elim (Bool-cases (ltb z rest)) [
                | inr above ↦ inl (omega (arith, at, ltb→ge z rest above))
                | inl below ↦ elim attained [
                  | inl (none_left, zero) ↦ absurd (omega (arith, zero, ltb→lt z rest below))
                  | inr there ↦ inr (
                      subst (λ k. Attained k (present entries)) (omega (arith, ltb→lt z rest below))
                        there)
                ]
              ]),
            )

    -- `validate` on a relation whose body has an entry for each member and then the tags: afterwards it
    -- has the members that are not cleared, in their order, a body with their entries and the same
    -- tags, the highest zoom level among those members, or 0 if there are none, and the number of
    -- members that are gone, less those of reference cycles, added to the missing ones. It never reads
    -- past the body.
    pub validate-relation_of :
        (entries : List (Member × Entry)) (tags : List ℕ) (zoom missing refcycles : ℕ)
        → (highest : ℕ) × (removed : ℕ) × (validate v zoom_of
              (relation_of entries tags zoom missing refcycles)
            ≡ some (
                relation_of
                  (present entries)
                  tags
                  highest
                  ((missing + removed + 2 ^ 32 - refcycles) % 2 ^ 32)
                  refcycles))
          × (removed + length (present entries) ≡ length entries)
          × IsHighest highest (present entries)
    validate-relation_of entries tags zoom missing refcycles = (
      highest_zoom v zoom_of (members_of entries),
      count_removed v zoom_of (members_of entries),
      validate_counted entries tags zoom missing refcycles,
      count_removed-present entries,
      highest_zoom-IsHighest entries,
    )
