-- ===== src/Build/SuperRelation/Members.antt =====
-- src/build/sort/SuperRelation.h and .cpp, clearMember and validate: the members that are left.
use geodesk_gol.Prelude.{
  ℕ, zero, suc, ◌+◌, ◌-◌, ◌/◌, ◌%◌, ◌^◌, ◌≤◌, ◌<◌, ◌≡◌, ◌≢◌, ◌⊎◌, refl, sym, ap, inl, inr,
  Bool-cases, Option-cases, true, none, some, List, [], ◌∷◌, ◌++◌, length, get_or, set, take, drop,
  All, ◌==◌, ==→eq, ==_refl, ne→==, if◌then◌else◌, arith,
}
use geodesk_gol.Tes.Wire.{Varint}
use geodesk_gol.Build.SuperRelation.{
  Member, SuperRelation, Recoded, clear_member, recode_members, recode, keep_entry, count_removed,
  highest_zoom, validate,
}

-- What stands beyond the last member.
abbrev pub no_member : Member
no_member = record { typed_id = 0; pile_pair = 0; tile_pair = 0 }

-- The number of members that are not cleared.
abbrev pub live : List Member → ℕ
live [] = 0
live (m ∷ ms) = if m.typed_id == 0 then live ms else suc (live ms)

abbrev pub present : List Member → List Member
present [] = []
present (m ∷ ms) = if m.typed_id == 0 then present ms else m ∷ present ms

abbrev pub typed_at : List Member → ℕ → ℕ
typed_at ms i = (get_or ms i no_member).typed_id

-- The typed id of every member satisfies `P`.
abbrev pub AllTyped : (ℕ → Type 0) → List Member → Type 0
AllTyped P = All (λ m. P m.typed_id)

pub length-clear_member : (x : ℕ) (ms : List Member) → length (clear_member x ms) ≡ length ms
unfolding clear_member
length-clear_member x [] = refl
length-clear_member x (m ∷ ms) = elim (Bool-cases (m.typed_id == x)) [
  | inl e ↦ rw e refl
  | inr e ↦ rw e (ap suc (length-clear_member x ms))
]

pub live-clear_member-le : (x : ℕ) (ms : List Member) → live (clear_member x ms) ≤ live ms
unfolding clear_member
live-clear_member-le x [] = omega arith
live-clear_member-le x (m ∷ ms) = elim (Bool-cases (m.typed_id == x)) [
  | inl e ↦ rw e (elim (Bool-cases (m.typed_id == 0)) [
    | inl z ↦ rw z (omega arith)
    | inr z ↦ rw z (omega arith)
  ])
  | inr e ↦ rw e (elim (Bool-cases (m.typed_id == 0)) [
    | inl z ↦ rw z (live-clear_member-le x ms)
    | inr z ↦ rw z (omega (arith, live-clear_member-le x ms))
  ])
]

-- Clearing a member that is there leaves fewer.
pub live-clear_member-lt :
    (x : ℕ) (ms : List Member) (i : ℕ)
    → 0 < x
    → typed_at ms i ≡ x
    → live (clear_member x ms) < live ms
unfolding clear_member
live-clear_member-lt x [] i p h = absurd (omega (arith, h))
live-clear_member-lt x (m ∷ ms) zero p h =
    let here : (m.typed_id == x) ≡ true = rw h (==_refl x) in
    rw (here, ne→== m.typed_id 0 (λ z. omega (arith, h, z))) (omega arith)
live-clear_member-lt x (m ∷ ms) (suc i) p h = elim (Bool-cases (m.typed_id == x)) [
  | inl e ↦
      let same = ==→eq m.typed_id x e in
      rw (e, ne→== m.typed_id 0 (λ z. omega (arith, same, z))) (omega arith)
  | inr e ↦ rw e (elim (Bool-cases (m.typed_id == 0)) [
    | inl z ↦ rw z (live-clear_member-lt x ms i p h)
    | inr z ↦ rw z (omega (arith, live-clear_member-lt x ms i p h))
  ])
]

-- The first occurrence is the one that is cleared.
pub clear_member-set :
    (x : ℕ) (ms : List Member) (i : ℕ)
    → 0 < x
    → ((j : ℕ) → j < i → typed_at ms j ≢ x)
    → typed_at ms i ≡ x
    → clear_member x ms ≡ set ms i (record (get_or ms i no_member) { typed_id = 0 })
unfolding clear_member
clear_member-set x [] i p before h = refl
clear_member-set x (m ∷ ms) zero p before h =
    let here : (m.typed_id == x) ≡ true = rw h (==_refl x) in rw here refl
clear_member-set x (m ∷ ms) (suc i) p before h =
    rw (ne→== m.typed_id x (before 0 (omega arith)))
      (ap (◌∷◌ m) (clear_member-set x ms i p (λ j lt. before (suc j) (omega arith)) h))

module _ (P : ℕ → Type 0) where
  pub AllTyped-clear_member :
      (x : ℕ) (ms : List Member) → P 0 → AllTyped P ms → AllTyped P (clear_member x ms)
  unfolding clear_member
  AllTyped-clear_member x [] z a = tt
  AllTyped-clear_member x (m ∷ ms) z (a, rest) = elim (Bool-cases (m.typed_id == x)) [
    | inl e ↦ rw e (z, rest)
    | inr e ↦ rw e (a, AllTyped-clear_member x ms z rest)
  ]

  pub AllTyped-set :
      (ms : List Member) (i : ℕ) (m : Member)
      → P m.typed_id
      → AllTyped P ms
      → AllTyped P (set ms i m)
  AllTyped-set [] i m p a = tt
  AllTyped-set (x ∷ ms) zero m p (a, rest) = (p, rest)
  AllTyped-set (x ∷ ms) (suc i) m p (a, rest) = (a, AllTyped-set ms i m p rest)

  pub AllTyped-at : (ms : List Member) (i : ℕ) → P 0 → AllTyped P ms → P (typed_at ms i)
  AllTyped-at [] i z a = z
  AllTyped-at (m ∷ ms) zero z (a, rest) = a
  AllTyped-at (m ∷ ms) (suc i) z (a, rest) = AllTyped-at ms i z rest

  pub AllTyped-of :
      (ms : List Member) → ((i : ℕ) → i < length ms → P (typed_at ms i)) → AllTyped P ms
  AllTyped-of [] at = tt
  AllTyped-of (m ∷ ms) at = (at 0 (omega arith), AllTyped-of ms (λ i lt. at (suc i) (omega arith)))

  pub AllTyped-present : (ms : List Member) → AllTyped P ms → AllTyped P (present ms)
  AllTyped-present [] a = tt
  AllTyped-present (m ∷ ms) (a, rest) = elim (Bool-cases (m.typed_id == 0)) [
    | inl e ↦ rw e (AllTyped-present ms rest)
    | inr e ↦ rw e (a, AllTyped-present ms rest)
  ]

pub live-set-le :
    (ms : List Member) (i : ℕ) (m : Member)
    → (m.typed_id ≡ 0) ⊎ (m.typed_id ≡ typed_at ms i)
    → live (set ms i m) ≤ live ms
live-set-le [] i m h = omega arith
live-set-le (x ∷ ms) zero m (inl z) = rw z (elim (Bool-cases (x.typed_id == 0)) [
  | inl e ↦ rw e (omega arith)
  | inr e ↦ rw e (omega arith)
])
live-set-le (x ∷ ms) zero m (inr same) = rw same (omega arith)
live-set-le (x ∷ ms) (suc i) m h = elim (Bool-cases (x.typed_id == 0)) [
  | inl e ↦ rw e (live-set-le ms i m h)
  | inr e ↦ rw e (omega (arith, live-set-le ms i m h))
]

pub live-present : (ms : List Member) → live (present ms) ≡ live ms
live-present [] = refl
live-present (m ∷ ms) = elim (Bool-cases (m.typed_id == 0)) [
  | inl e ↦ rw e (live-present ms)
  | inr e ↦ rw (e, e) (ap suc (live-present ms))
]

module _ (v : Varint) where
  -- A body has the entries of `n` members.
  abbrev pub Readable : ℕ → List ℕ → Type 0
  Readable zero source = Unit
  Readable (suc n) source = elim (v.read source) [
    | none ↦ ⊥
    | some (typed_member_id, after_id) ↦ elim (v.read after_id) [
      | none ↦ ⊥
      | some (ref_or_len, after_ref) ↦
          Readable n (drop (if ref_or_len % 2 == 0 then ref_or_len / 2 else 0) after_ref)
    ]
  ]

  recode_members-present :
      (ms : List Member) (source : List ℕ)
      → Readable (length ms) source
      → (r : Recoded) × (recode_members v ms source ≡ some r) × (r.kept ≡ present ms)
  unfolding recode_members
  recode_members-present [] source h = (_, refl, refl)
  recode_members-present (m ∷ ms) source h = elim (Option-cases (v.read source)) [
    | inl e ↦ absurd (rw e at h)
    | inr ((id, after_id), e) ↦
        let h' = rw e at h in
        elim (Option-cases (v.read after_id)) [
          | inl e' ↦ absurd (rw e' at h')
          | inr ((ref, after_ref), e') ↦
              let (r, eq, kept) = recode_members-present ms _ (rw e' at h') in
              let len = if ref % 2 == 0 then ref / 2 else 0 in
              let entry = v.write id ++ v.write ref ++ take len after_ref in
              elim (Bool-cases (m.typed_id == 0)) [
                | inl z ↦ (r, rw (recode_members, e, e', eq, z) refl, rw z kept)
                | inr z ↦ (
                  keep_entry m entry r,
                  rw (recode_members, e, e', eq, z) refl,
                  rw z (ap (◌∷◌ m) kept),
                )
              ]
        ]
  ]

  module _ (zoom_of : ℕ → ℕ) where
    none_cleared : (ms : List Member) → count_removed v zoom_of ms ≡ 0 → present ms ≡ ms
    none_cleared [] h = refl
    none_cleared (m ∷ ms) h = elim (Bool-cases (m.typed_id == 0)) [
      | inl e ↦ absurd (omega (arith, rw e at h))
      | inr e ↦ rw e (ap (◌∷◌ m) (none_cleared ms (rw e at h)))
    ]

    -- `validate` of a relation whose body can be read leaves the members that are not cleared.
    pub validate-present :
        (rel : SuperRelation)
        → Readable (length rel.members) rel.body
        → (out : SuperRelation) × (validate v zoom_of rel ≡ some out)
          × (out.members ≡ present rel.members)
    unfolding validate recode
    validate-present rel h =
        let removed = count_removed v zoom_of rel.members in
        let counted : SuperRelation = record rel {
          highest_member_zoom = highest_zoom v zoom_of rel.members;
          missing_member_count =
              (rel.missing_member_count + removed + 2 ^ 32 - rel.removed_refcycle_count) % 2 ^ 32;
        } in
        elim (Bool-cases (removed == 0)) [
          | inl e ↦ (counted, rw e refl, sym (none_cleared rel.members (==→eq removed 0 e)))
          | inr e ↦
              let (r, eq, kept) = recode_members-present rel.members rel.body h in
              let recoded : SuperRelation = record counted {
                members = r.kept;
                body = r.written ++ r.tags;
              } in
              (recoded, rw (e, recode, eq) refl, kept)
        ]
