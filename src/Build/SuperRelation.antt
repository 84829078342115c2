-- ===== src/Build/SuperRelation.antt =====
-- src/build/sort/SuperRelation.h and .cpp: a relation with child relations, from which the children
-- that are missing are removed.
-- The body is rewritten in place, from the front; here the loop gives what it writes, which never
-- overtakes what it has read. Tile pairs and their zoom levels are the GeoDesk library's, and the
-- variable-length numbers the clarisma library's. Counts are 32-bit numbers that may wrap around.
pub mod Validity
pub mod Members
mod Tests
use geodesk_gol.Prelude.{
  ℕ, zero, suc, ◌+◌, ◌-◌, ◌*◌, ◌/◌, ◌%◌, ◌^◌, max, Option, none, some, List, [], ◌∷◌, ◌++◌, take,
  drop, ◌==◌, if◌then◌else◌,
}
use geodesk_gol.Tes.Wire.{Varint}

-- `SortedChildFeature`
pub record Member : Type 0 where
  pub typed_id : ℕ
  pub pile_pair : ℕ
  pub tile_pair : ℕ

pub record SuperRelation : Type 0 where
  pub members : List Member
  pub body : List ℕ
  pub highest_member_zoom : ℕ
  pub missing_member_count : ℕ
  pub removed_refcycle_count : ℕ

-- `clearMember`: the first occurrence of the member is cleared.
unfoldable pub clear_member : ℕ → List Member → List Member
clear_member typed_id [] = []
clear_member typed_id (m ∷ members) =
    let rest = clear_member typed_id members in
    if m.typed_id == typed_id then record m { typed_id = 0 } ∷ members else m ∷ rest

-- What the loop of `recode` leaves: the members kept, the bytes written, and the bytes behind the
-- entries, which are the tags.
pub record Recoded : Type 0 where
  pub kept : List Member
  pub written : List ℕ
  pub tags : List ℕ

abbrev pub keep_entry : Member → List ℕ → Recoded → Recoded
keep_entry m entry r = record r { kept = m ∷ r.kept; written = entry ++ r.written }

module _ (v : Varint) where
  -- The loop of `recode`; nothing where it would read past the end.
  unfoldable pub recode_members : List Member → List ℕ → Option Recoded
  recode_members [] source = some (record { kept = []; written = []; tags = source })
  recode_members (m ∷ members) source = elim (v.read source) [
    | none ↦ none
    | some (typed_member_id, after_id) ↦ elim (v.read after_id) [
      | none ↦ none
      | some (ref_or_len, after_ref) ↦
          let len = if ref_or_len % 2 == 0 then ref_or_len / 2 else 0 in
          let entry = v.write typed_member_id ++ v.write ref_or_len ++ take len after_ref in
          elim (recode_members members (drop len after_ref)) [
            | none ↦ none
            | some r ↦ some (if m.typed_id == 0 then r else keep_entry m entry r)
          ]
    ]
  ]

  -- `recode`
  unfoldable pub recode : SuperRelation → Option SuperRelation
  recode rel = elim (recode_members rel.members rel.body) [
    | none ↦ none
    | some r ↦ some (record rel { members = r.kept; body = r.written ++ r.tags })
  ]

  module _ (zoom_of : ℕ → ℕ) where
    abbrev pub count_removed : List Member → ℕ
    count_removed [] = 0
    count_removed (m ∷ members) =
        if m.typed_id == 0 then suc (count_removed members) else count_removed members

    abbrev pub highest_zoom : List Member → ℕ
    highest_zoom [] = 0
    highest_zoom (m ∷ members) =
        if m.typed_id == 0
        then highest_zoom members
        else max (zoom_of m.tile_pair) (highest_zoom members)

    -- `validate`
    unfoldable pub validate : SuperRelation → Option SuperRelation
    validate rel =
        let removed = count_removed rel.members in
        let counted : SuperRelation = record rel {
          highest_member_zoom = highest_zoom rel.members;
          missing_member_count =
              (rel.missing_member_count + removed + 2 ^ 32 - rel.removed_refcycle_count) % 2 ^ 32;
        } in
        if removed == 0 then some counted else recode counted
