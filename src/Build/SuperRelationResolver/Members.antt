-- ===== src/Build/SuperRelationResolver/Members.antt =====
-- src/build/sort/SuperRelationResolver.cpp, the body of the loop of resolve, for one member.
use geodesk_gol.Prelude.{
  ℕ, suc, ◌/◌, ◌%◌, max, ◌<◌, ◌≡◌, ◌⊎◌, ◌∙◌, refl, sym, ap, subst, inl, inr, Bool-cases, Bool, true,
  false, Option, none, some, Option-cases, ◌==◌, ==→eq, arith,
}
use geodesk_gol.Build.SuperRelation.Members.{typed_at}
use geodesk_gol.Build.SuperRelationResolver.{
  Relation, Resolver, Setting, Found, indexed, super_relation, missing, Totals, no, Visit,
  visit_stuck, given_up, visited, member_at, find_child, take_child,
}
use geodesk_gol.Build.SuperRelationResolver.State.{FoundFits, Fits}
use geodesk_gol.Build.SuperRelationResolver.Changes.{ms_of, clash}
use geodesk_gol.Build.SuperRelationResolver.Cycles.{Outcome}
use geodesk_gol.Build.SuperRelationResolver.Loop.{begun, Seen, Seen-next, Seen-put}

pub Found-cases :
    (f : Found) → ((p : ℕ) × (f ≡ indexed p)) ⊎ (((c : ℕ) × (f ≡ super_relation c)) ⊎ (f ≡ missing))
Found-cases (indexed p) = inl (p, refl)
Found-cases (super_relation c) = inr (inl (c, refl))
Found-cases missing = inr (inr refl)

abbrev pub child_of : Found → Option ℕ
child_of (super_relation c) = some c
child_of _ = none

no_child : {c : ℕ} → none ≡ some c → ⊥
no_child h = cc

fits_child :
    (rels : ℕ → Relation) (level c : ℕ) (b : Bool)
    → (rels c).is_resolved ≡ true
    → (rels c).level < level
    → FoundFits rels level b (super_relation c)
fits_child rels level c true done lt = (done, lt)
fits_child rels level c false done lt = tt

module _ (g : Setting) where
  pub found_by_id :
      (id c : ℕ) → child_of (find_child g id) ≡ some c → g.super_relations_by_id id ≡ some c
  found_by_id id c h = elim (Bool-cases (g.relation_index id == 0)) [
    | inl e ↦ elim (Option-cases (g.super_relations_by_id id)) [
      | inl unknown ↦ absurd (no_child (rw (e, unknown) at h))
      | inr (d, known) ↦ known ∙ (rw (e, known) at h)
    ]
    | inr e ↦ absurd (no_child (rw e at h))
  ]

  module _ (n r : ℕ) (s : Resolver) (r_lt : r < n) (unresolved : (s.rels r).is_resolved ≡ false)
      (idle : (s.rels r).is_pending ≡ false) (size : ℕ) where
    abbrev pub At : ℕ → ℕ → Resolver → Type 0
    At i level now = Seen g n r s r_lt unresolved idle size i level now

    abbrev pub start : Resolver
    start = begun g n r s r_lt unresolved idle size

    -- What a visit of member `i` may give.
    abbrev pub Visited : ℕ → Visit → Type 0
    Visited i visit_stuck = ⊥
    Visited i (given_up s') = Outcome g n r s (no s')
    Visited i (visited t s') =
        Seen g n r s r_lt unresolved idle size (suc i) (suc t.max_child_level) s'

    -- Behind the loop around the call.
    pub take_child_lem :
        (i c : ℕ) (t : Totals) (now : Resolver)
        → i < size
        → At i (suc t.max_child_level) now
        → (typed_at (ms_of r now.rels) i ≡ 0)
          ⊎ (((now.rels c).is_resolved ≡ true)
              × (find_child g (typed_at (ms_of r now.rels) i / 4) ≡ super_relation c))
        → Visited i (take_child g r i c t now)
    take_child_lem i c t now lt seen kind =
        let x = typed_at (ms_of r now.rels) i in
        let level = suc t.max_child_level in
        elim (Bool-cases (x == 0)) [
          | inl e ↦ rw e (
              Seen-next g n r s r_lt unresolved idle size i level level now seen (omega arith)
                (subst (Fits g now.rels level) (sym (==→eq x 0 e)) tt))
          | inr e ↦ rw e (elim kind [
            | inl gone ↦ absurd (clash e (ap (λ k. k == 0) gone))
            | inr (done, found) ↦ elim (Bool-cases (g.is_null (now.rels c).tile_pair)) [
              | inl empty ↦ rw empty (
                  Seen-put g n r s r_lt unresolved idle size i level level
                    (record (member_at r i now) { typed_id = 0 }) now lt seen (omega arith)
                    (inl refl) tt)
              | inr full ↦
                  let level' = suc (max t.max_child_level (now.rels c).level) in
                  rw full (
                    Seen-put g n r s r_lt unresolved idle size i level level'
                      (record (member_at r i now) {
                        pile_pair = (now.rels c).pile_pair;
                        tile_pair = (now.rels c).tile_pair;
                      })
                      now lt seen (omega arith) (inr refl)
                      (subst (FoundFits now.rels level' (x % 4 == 2)) (sym found)
                        (fits_child now.rels level' c (x % 4 == 2) done (omega arith))))
            ]
          ])
        ]
