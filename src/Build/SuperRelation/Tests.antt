-- ===== src/Build/SuperRelation/Tests.antt =====
-- A relation with three members, of which the second is cleared.
use geodesk_gol.Prelude.{ℕ, ◌+◌, ◌-◌, ◌%◌, ◌^◌, ◌≡◌, refl, some, List, [], ◌∷◌, arith}
use geodesk_gol.Tes.Wire.Leb.{leb128}
use geodesk_gol.Build.SuperRelation.{Member, clear_member, validate, recode, recode_members}
use geodesk_gol.Build.SuperRelation.Validity.{Entry, relation_of, IsHighest, validate-relation_of}

abbrev member : ℕ → ℕ → Member
member typed_id zoom = record { typed_id = typed_id; pile_pair = 4; tile_pair = zoom }

abbrev coded : Entry
coded = record {
  id = 14;
  role = 7;
  literal = [];
  id_small = omega arith;
  role_small = omega arith;
  literal_length = refl;
}

abbrev named : Entry
named = record {
  id = 300;
  role = 4;
  literal = 97 ∷ 98 ∷ [];
  id_small = omega arith;
  role_small = omega arith;
  literal_length = refl;
}

abbrev entries : List (Member × Entry)
entries = (member 14 9, coded) ∷ (member 0 12, named) ∷ (member 6 3, named) ∷ []

-- Of two occurrences the first one is cleared.
clears_first :
    clear_member 6 (member 5 1 ∷ member 6 1 ∷ member 6 2 ∷ [])
    ≡ member 5 1 ∷ member 0 1 ∷ member 6 2 ∷ []
unfolding clear_member
clears_first = refl

abbrev left : List (Member × Entry)
left = (member 14 9, coded) ∷ (member 6 3, named) ∷ []

validated :
    validate leb128 (λ z. z) (relation_of leb128 entries (9 ∷ 9 ∷ []) 0 5 1)
    ≡ some (relation_of leb128 left (9 ∷ 9 ∷ []) 9 5 1)
unfolding validate recode recode_members
validated = refl

validate-relation_of_example :
    (highest : ℕ) × (removed : ℕ) × (validate leb128
        (λ z. z)
        (relation_of leb128 entries (9 ∷ 9 ∷ []) 0 5 1)
      ≡ some (relation_of leb128 left (9 ∷ 9 ∷ []) highest ((5 + removed + 2 ^ 32 - 1) % 2 ^ 32) 1))
    × (removed + 2 ≡ 3)
    × IsHighest leb128 (λ z. z) highest left
validate-relation_of_example = validate-relation_of leb128 (λ z. z) entries (9 ∷ 9 ∷ []) 0 5 1
