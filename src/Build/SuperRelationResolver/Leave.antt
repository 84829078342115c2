-- ===== src/Build/SuperRelationResolver/Leave.antt =====
-- src/build/sort/SuperRelationResolver.cpp, resolve: how a call for a relation is left, with the
-- relation resolved or with a cycle that goes on above it.
use geodesk_gol.Prelude.{
  ℕ, suc, ◌≤◌, ◌≡◌, ◌≢◌, ◌∙◌, refl, sym, ap, subst, inl, inr, Bool-cases, true, false, List, [],
  ◌∷◌, All, arith,
}
use geodesk_gol.Build.SuperRelation.{SuperRelation}
use geodesk_gol.Build.SuperRelation.Members.{
  live, typed_at, AllTyped, AllTyped-present, live-present, validate-present,
}
use geodesk_gol.Build.SuperRelationResolver.{
  Relation, CyclicalRelation, Resolver, Setting, Totals, no, update, relation_member, set_pending,
  give_up, place_relation, finish,
}
use geodesk_gol.Build.SuperRelationResolver.State.{Fits, Valid, Valid-put, Valid-resolve_relation}
use geodesk_gol.Build.SuperRelationResolver.Changes.{
  ms_of, clash, update_cases, update_other, Change,
}
use geodesk_gol.Build.SuperRelationResolver.Cycles.{Link, Below, Outcome}
use geodesk_gol.Build.SuperRelationResolver.Retry.{Own, GivenUp}

module _ (r : ℕ) (s : Resolver) (unresolved : (s.rels r).is_resolved ≡ false)
    (idle : (s.rels r).is_pending ≡ false) where
  abbrev pub pending : Resolver
  pending = set_pending r true s

  elsewhere : (p : ℕ) → p ≢ r → pending.rels p ≡ s.rels p
  elsewhere p ne = update_other r p (record (s.rels r) { is_pending = true }) s.rels ne

  pub pending_itself : (pending.rels r).is_pending ≡ true
  pending_itself =
      update_cases r (record (s.rels r) { is_pending = true }) s.rels
        (λ p now. p ≡ r → now.is_pending ≡ true) (λ e. refl) (λ p ne e. absurd (ne e)) r refl

  pending_same_id : (p : ℕ) → (pending.rels p).id ≡ (s.rels p).id
  pending_same_id =
      update_cases r (record (s.rels r) { is_pending = true }) s.rels
        (λ p now. now.id ≡ (s.rels p).id) refl (λ p ne. refl)

  pending_same_relation : (p : ℕ) → (pending.rels p).relation ≡ (s.rels p).relation
  pending_same_relation =
      update_cases r (record (s.rels r) { is_pending = true }) s.rels
        (λ p now. now.relation ≡ (s.rels p).relation) refl (λ p ne. refl)

  -- The relation is no longer pending: to the caller nothing but the relation has changed.
  leave-Change :
      (now : ℕ → Relation) (rel : Relation)
      → Change r pending.rels now
      → rel.is_pending ≡ false
      → rel.id ≡ (now r).id
      → live rel.relation.members ≤ live (ms_of r now)
      → Change r s.rels (update r rel now)
  leave-Change now rel f done same_id fewer =
      let few : (p : ℕ) → live (ms_of p now) ≤ live (ms_of p s.rels) = λ p.
        subst (λ (x : SuperRelation). live (ms_of p now) ≤ live x.members) (pending_same_relation p)
          (f.fewer p) in
      record {
        same_pending =
            update_cases r rel now (λ p x. x.is_pending ≡ (s.rels p).is_pending) (done ∙ sym idle)
              (λ p ne. f.same_pending p ∙ ap (λ (x : Relation). x.is_pending) (elsewhere p ne));
        kept = λ p ne h.
            update_other r p rel now ne
            ∙ f.kept p ne (ap (λ (x : Relation). x.is_pending) (elsewhere p ne) ∙ h)
            ∙ elsewhere p ne;
        kept_resolved =
            update_cases r rel now (λ p x. (s.rels p).is_resolved ≡ true → x ≡ s.rels p)
              (λ h. absurd (clash unresolved h))
              (λ p ne h.
                f.kept_resolved p (ap (λ (x : Relation). x.is_resolved) (elsewhere p ne) ∙ h)
                ∙ elsewhere p ne);
        same_id =
            update_cases r rel now (λ p x. x.id ≡ (s.rels p).id)
              (same_id ∙ f.same_id r ∙ pending_same_id r) (λ p ne. f.same_id p ∙ pending_same_id p);
        fewer =
            update_cases r rel now (λ p x. live x.relation.members ≤ live (ms_of p s.rels))
              (omega (arith, fewer, few r)) (λ p ne. few p);
      }

  module _ (g : Setting) (n : ℕ) where
    -- The state differs from `now` in that `r` is not pending.
    module _ (now : Resolver) where
      same_relation : (p : ℕ) → ((give_up r now).rels p).relation ≡ (now.rels p).relation
      same_relation =
          update_cases r (record (now.rels r) { is_pending = false }) now.rels
            (λ p x. x.relation ≡ (now.rels p).relation) refl (λ p ne. refl)

      same_resolved : (p : ℕ) → ((give_up r now).rels p).is_resolved ≡ (now.rels p).is_resolved
      same_resolved =
          update_cases r (record (now.rels r) { is_pending = false }) now.rels
            (λ p x. x.is_resolved ≡ (now.rels p).is_resolved) refl (λ p ne. refl)

      same_id : (p : ℕ) → ((give_up r now).rels p).id ≡ (now.rels p).id
      same_id =
          update_cases r (record (now.rels r) { is_pending = false }) now.rels
            (λ p x. x.id ≡ (now.rels p).id) refl (λ p ne. refl)

      still_linked : (e : CyclicalRelation) → Link g n now.rels e → Link g n (give_up r now).rels e
      still_linked e (free, lt, (i, at)) = (
        same_resolved e.relation ∙ free,
        lt,
        (
          i,
          ap (λ (x : SuperRelation). typed_at x.members i) (same_relation e.relation)
              ∙ at
              ∙ ap relation_member (sym (same_id e.child)),
        ),
      )

      seen_above :
          (es : List CyclicalRelation)
          → All (Own g n r pending.rels now.rels) es
          → All (Below g n s.rels (give_up r now).rels) es
      seen_above [] b = tt
      seen_above (e ∷ es) ((inl same, link), b) =
          ((ap (λ k. (s.rels k).is_pending) same ∙ idle, still_linked e link), seen_above es b)
      seen_above (e ∷ es) ((inr free, link), b) =
          let ne : e.relation ≢ r = λ same.
            clash (ap (λ k. (pending.rels k).is_pending) (sym same) ∙ free) pending_itself in
          (
            (
              ap (λ (x : Relation). x.is_pending) (sym (elsewhere e.relation ne)) ∙ free,
              still_linked e link,
            ),
            seen_above es b,
          )

    -- The cycle goes on above the relation.
    pub give_up-Outcome :
        (now : Resolver) → GivenUp g n r pending now → Outcome g n r s (no (give_up r now))
    give_up-Outcome now (f, v, free, (head, rest, eq, ne, pend, seen)) = (
      leave-Change now.rels (record (now.rels r) { is_pending = false }) f refl refl (omega arith),
      Valid-put g n now.rels v r (record (now.rels r) { is_pending = false }) free refl free
          (v.others r free) (v.readable r free),
      same_resolved now r ∙ free,
      (
        head,
        rest,
        eq,
        ap (λ (x : Relation). x.is_pending) (sym (elsewhere head.child ne)) ∙ pend,
        seen_above now now.cyclical_relations seen,
      ),
    )

    placed_same_id : (t : Totals) (now : Resolver) → (place_relation g r t now).id ≡ (now.rels r).id
    placed_same_id t now = elim (Bool-cases (g.is_null t.tile_pair)) [
      | inl e ↦ rw e refl
      | inr e ↦ rw e refl
    ]

    -- All members have been seen.
    pub finish-Outcome :
        (t : Totals) (now : Resolver)
        → Change r pending.rels now.rels
        → Valid g n now.rels
        → now.cyclical_relations ≡ []
        → (now.rels r).is_resolved ≡ false
        → AllTyped (Fits g now.rels (suc t.max_child_level)) (ms_of r now.rels)
        → Outcome g n r s (finish g r t now)
    unfolding finish
    finish-Outcome t now f v none_cyclical free fits =
        let (out, eq, left) =
          validate-present g.varint g.zoom_of (now.rels r).relation (v.readable r free) in
        let rel : Relation = record (place_relation g r t now) { relation = out } in
        let fewer : live out.members ≤ live (ms_of r now.rels) =
          omega (arith, ap live left, live-present (ms_of r now.rels)) in
        let kept : AllTyped (Fits g now.rels rel.level) out.members =
          subst (AllTyped (Fits g now.rels (suc t.max_child_level))) (sym left)
            (AllTyped-present (Fits g now.rels (suc t.max_child_level)) (ms_of r now.rels) fits) in
        let id : rel.id ≡ (now.rels r).id = placed_same_id t now in
        rw (finish, eq)
          (
            leave-Change now.rels rel f refl id fewer,
            Valid-resolve_relation g n now.rels v r rel free id refl kept,
            none_cyclical,
            update_cases r rel now.rels (λ p x. p ≡ r → x.is_resolved ≡ true) (λ e. refl)
                (λ p ne e. absurd (ne e)) r refl,
          )
