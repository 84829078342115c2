-- ===== src/Build/SuperRelationResolver.antt =====
-- src/build/sort/SuperRelationResolver.h and .cpp: the order in which relations that are members of
-- each other are placed, and the removal of members where they refer to each other in a cycle.
-- A pointer to a relation is its position in the queue, `rels` is the memory behind the pointers. The
-- members of a relation are changed in place, while the loop over them runs and calls itself for a
-- child. Tile pairs are the GeoDesk library's; the sort is the standard library's.
-- A call that runs out of fuel, or meets a body that cannot be read, is `stuck`.
pub mod Rounds
pub mod Changes
pub mod Score
pub mod State
pub mod Cycles
pub mod Retry
pub mod Leave
pub mod Loop
pub mod Members
pub mod Calls
pub mod Resolved
pub mod Adding
mod Tests
use mathlib.Core.List.{Permᴰ}
use geodesk_gol.Prelude.{
  ℕ, zero, suc, ◌+◌, ◌*◌, ◌/◌, ◌%◌, max, Bool, true, false, not, ltb, Option, none, some, List, [],
  ◌∷◌, ◌++◌, map, length, get_or, set, ◌==◌, if◌then◌else◌,
}
use geodesk_gol.Tes.Wire.{Varint}
use geodesk_gol.Build.SuperRelation.{Member, SuperRelation, clear_member, validate}
use geodesk_gol.Build.SuperRelation.Members.{no_member}

-- `SuperRelation`, with the fields that the resolver sets.
pub record Relation : Type 0 where
  pub relation : SuperRelation
  pub id : ℕ
  pub is_resolved : Bool
  pub is_pending : Bool
  pub level : ℕ
  pub tile_pair : ℕ
  pub pile_pair : ℕ

-- `CyclicalRelation`; its score is kept beside it.
pub record CyclicalRelation : Type 0 where
  pub relation : ℕ
  pub child : ℕ

pub record Resolver : Type 0 where
  pub rels : ℕ → Relation
  pub cyclical_relations : List CyclicalRelation

-- What a resolver reads and does not change: the relation index, the map of the super-relations by
-- their ids, the tile catalog, and the scores (`calculateScore`, in Score.antt) with the sort by them.
pub record Setting : Type 1 where
  pub varint : Varint
  pub zoom_of : ℕ → ℕ
  pub relation_index : ℕ → ℕ
  pub super_relations_by_id : ℕ → Option ℕ
  pub tile_pair_of_pile_pair : ℕ → ℕ
  pub is_null : ℕ → Bool
  pub add_tile_pair : ℕ → ℕ → ℕ
  pub normalized_tile_pair : ℕ → ℕ
  pub pile_pair_of_tile_pair : ℕ → ℕ
  pub Score : Type 0
  pub score : SuperRelation → Score
  pub sort : List (Score × CyclicalRelation) → List (Score × CyclicalRelation)
  pub sort-perm : (xs : List (Score × CyclicalRelation)) → Permᴰ xs (sort xs)

pub data Found : Type 0 where
  indexed : ℕ → Found
  super_relation : ℕ → Found
  missing : Found

-- The tile pair and the highest level of a child, so far.
pub record Totals : Type 0 where
  pub tile_pair : ℕ
  pub max_child_level : ℕ

pub data Answer : Type 0 where
  stuck : Answer
  yes : Resolver → Answer
  no : Resolver → Answer

pub data Visit : Type 0 where
  visit_stuck : Visit
  given_up : Resolver → Visit
  visited : Totals → Resolver → Visit

abbrev pub update : ℕ → Relation → (ℕ → Relation) → ℕ → Relation
update r rel rels p = if r == p then rel else rels p

abbrev pub put_relation : ℕ → Relation → Resolver → Resolver
put_relation r rel s = record s { rels = update r rel s.rels }

abbrev pub members_of : ℕ → Resolver → List Member
members_of r s = (s.rels r).relation.members

abbrev pub member_at : ℕ → ℕ → Resolver → Member
member_at r i s = get_or (members_of r s) i no_member

abbrev pub with_members : List Member → Relation → Relation
with_members members rel = record rel { relation = record rel.relation { members = members } }

abbrev pub put_member : ℕ → ℕ → Member → Resolver → Resolver
put_member r i m s = put_relation r (with_members (set (members_of r s) i m) (s.rels r)) s

abbrev pub set_pending : ℕ → Bool → Resolver → Resolver
set_pending r b s = put_relation r (record (s.rels r) { is_pending = b }) s

abbrev pub push_cyclical : ℕ → ℕ → Resolver → Resolver
push_cyclical r c s = record s {
  cyclical_relations = s.cyclical_relations ++ record { relation = r; child = c } ∷ [];
}

abbrev pub give_up : ℕ → Resolver → Resolver
give_up r s = set_pending r false s

-- The typed id of a relation: its id is shifted and 2 set.
abbrev pub relation_member : ℕ → ℕ
relation_member id = id * 4 + 2

module _ (g : Setting) where
  abbrev pub find_child : ℕ → Found
  find_child member_id =
      let pile_pair = g.relation_index member_id in
      if pile_pair == 0
      then elim (g.super_relations_by_id member_id) [ none ↦ missing | some c ↦ super_relation c ]
      else indexed pile_pair

  -- The removal of a child from the relation with the lowest score.
  abbrev pub break_at : CyclicalRelation → Resolver → Resolver
  break_at e s =
      let loser = s.rels e.relation in
      let rel = loser.relation in
      record (put_relation e.relation
        (record loser {
          relation = record rel {
            members = clear_member (relation_member (s.rels e.child).id) rel.members;
            removed_refcycle_count = suc rel.removed_refcycle_count;
          };
        })
        s) { cyclical_relations = [] }

  abbrev pub scored : Resolver → List CyclicalRelation → List (g.Score × CyclicalRelation)
  scored s [] = []
  scored s (e ∷ es) = (g.score (s.rels e.relation).relation, e) ∷ scored s es

  -- `breakReferenceCycle`: the entry with the lowest score, and the state after.
  pub break_reference_cycle : Resolver → Option (CyclicalRelation × Resolver)
  break_reference_cycle s = elim (g.sort (scored s s.cyclical_relations)) [
    | [] ↦ none
    | (score, e) ∷ rest ↦ some (e, break_at e s)
  ]

  abbrev pub is_root : ℕ → List CyclicalRelation → Bool
  is_root r [] = false
  is_root r (e ∷ es) = e.child == r

  -- The loop around the call for a child. `yes` goes on behind it, `no` leaves the caller.
  pub retry : (ℕ → Resolver → Answer) → ℕ → ℕ → ℕ → Resolver → Answer
  retry resolve_child zero r c s = stuck
  retry resolve_child (suc fuel) r c s = elim (resolve_child c s) [
    | stuck ↦ stuck
    | yes s' ↦ yes s'
    | no s' ↦
        let pushed = push_cyclical r c s' in
        if is_root r pushed.cyclical_relations
        then elim (break_reference_cycle pushed) [
          | none ↦ stuck
          | some (loser, broken) ↦
              let again = retry resolve_child fuel r c broken in
              if r == loser.relation then yes broken else again
        ]
        else no (give_up r pushed)
  ]

  -- A child that is not resolved.
  abbrev pub enter : (ℕ → Resolver → Answer) → ℕ → ℕ → ℕ → Resolver → Answer
  enter resolve_child fuel r c s =
      if (s.rels c).is_resolved
      then yes s
      else (if (s.rels c).is_pending
          then no (give_up r (push_cyclical r c s))
          else retry resolve_child fuel r c s)

  abbrev place_member : ℕ → ℕ → ℕ → ℕ → Totals → Resolver → Visit
  place_member r i pile_pair tile_pair t s =
      visited (record t { tile_pair = g.add_tile_pair t.tile_pair tile_pair })
        (put_member r i (record (member_at r i s) { pile_pair = pile_pair; tile_pair = tile_pair })
          s)

  abbrev clear_at : ℕ → ℕ → Resolver → Resolver
  clear_at r i s = put_member r i (record (member_at r i s) { typed_id = 0 }) s

  -- Behind the loop: the child is resolved, or no longer a member.
  abbrev pub take_child : ℕ → ℕ → ℕ → Totals → Resolver → Visit
  take_child r i c t s =
      let child = s.rels c in
      if (member_at r i s).typed_id == 0
      then visited t s
      else (if g.is_null child.tile_pair
          then visited t (clear_at r i s)
          else place_member r i child.pile_pair child.tile_pair
              (record t { max_child_level = max t.max_child_level child.level }) s)

  -- The body of the loop over the members.
  abbrev pub visit_member : (ℕ → Resolver → Answer) → ℕ → ℕ → ℕ → Totals → Resolver → Visit
  visit_member resolve_child fuel r i t s =
      let m = member_at r i s in
      if m.typed_id % 4 == 2
      then elim (find_child (m.typed_id / 4)) [
        | indexed pile_pair ↦ place_member r i pile_pair (g.tile_pair_of_pile_pair pile_pair) t s
        | missing ↦ visited t (clear_at r i s)
        | super_relation c ↦ elim (enter resolve_child fuel r c s) [
          | stuck ↦ visit_stuck
          | no s' ↦ given_up s'
          | yes s' ↦ take_child r i c t s'
        ]
      ]
      else visited t s

  -- The end of `resolve` behind the loop.
  abbrev pub place_relation : ℕ → Totals → Resolver → Relation
  place_relation r t s =
      let rel = s.rels r in
      let placed : Relation =
        if g.is_null t.tile_pair
        then rel
        else (let tile_pair = g.normalized_tile_pair t.tile_pair in
            record rel { tile_pair = tile_pair; pile_pair = g.pile_pair_of_tile_pair tile_pair }) in
      record placed { is_resolved = true; is_pending = false; level = suc t.max_child_level }

  pub finish : ℕ → Totals → Resolver → Answer
  finish r t s = elim (validate g.varint g.zoom_of (s.rels r).relation) [
    | none ↦ stuck
    | some relation ↦ yes (put_relation r (record (place_relation r t s) { relation = relation }) s)
  ]

  -- The loop over the `n` members from number `i` on.
  pub visit_members : (ℕ → Resolver → Answer) → ℕ → ℕ → ℕ → ℕ → Totals → Resolver → Answer
  visit_members resolve_child fuel r zero i t s = finish r t s
  visit_members resolve_child fuel r (suc n) i t s =
      elim (visit_member resolve_child fuel r i t s) [
        | visit_stuck ↦ stuck
        | given_up s' ↦ no s'
        | visited t' s' ↦ visit_members resolve_child fuel r n (suc i) t' s'
      ]

  -- `resolve(rel)`
  pub resolve_relation : ℕ → ℕ → Resolver → Answer
  resolve_relation zero r s = stuck
  resolve_relation (suc fuel) r s =
      let pending = set_pending r true s in
      visit_members (resolve_relation fuel) (suc fuel) r (length (members_of r pending)) 0
        (record { tile_pair = (pending.rels r).tile_pair; max_child_level = 0 }) pending

  abbrev max_relation_level : ℕ
  max_relation_level = 9

  abbrev pub after : Answer → Option Resolver
  after stuck = none
  after (yes s) = some s
  after (no s) = some s

  -- A relation that is placed in the vector of its level.
  abbrev pub add_level : ℕ → Relation → List (ℕ × ℕ) → List (ℕ × ℕ)
  add_level r rel levels =
      if g.is_null rel.tile_pair
      then levels
      else (if ltb max_relation_level rel.level then levels else (rel.level, r) ∷ levels)

  -- The first loop of `resolve()` on the `n` relations from number `r` on.
  pub resolve_relations : ℕ → ℕ → ℕ → Resolver → Option (List (ℕ × ℕ) × Resolver)
  resolve_relations fuel zero r s = some ([], s)
  resolve_relations fuel (suc n) r s =
      elim (after (if (s.rels r).is_resolved then yes s else resolve_relation fuel r s)) [
        | none ↦ none
        | some s' ↦ elim (resolve_relations fuel n (suc r) s') [
          | none ↦ none
          | some (levels, last) ↦ some (add_level r (s'.rels r) levels, last)
        ]
      ]
