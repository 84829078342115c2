-- ===== src/Build/SuperRelationResolver/Cycles.antt =====
-- src/build/sort/SuperRelationResolver.cpp, breakReferenceCycle, and the answers of
-- a call.
use mathlib.Core.List.{Permᴰ}
use geodesk_gol.Prelude.{
  ℕ, suc, ◌+◌, ◌≤◌, ◌<◌, ◌≡◌, ◌≢◌, ◌⊎◌, refl, sym, ap, subst, inl, inr, true, false, Option, none,
  some, List, [], ◌∷◌, All, if◌then◌else◌, arith,
}
use geodesk_gol.Build.SuperRelation.{Member, clear_member}
use geodesk_gol.Build.SuperRelation.Members.{
  live, typed_at, AllTyped-clear_member, Readable, length-clear_member, live-clear_member-le,
  live-clear_member-lt,
}
use geodesk_gol.Build.SuperRelationResolver.{
  Relation, CyclicalRelation, Resolver, Setting, Answer, stuck, yes, no, relation_member, scored,
  break_at, break_reference_cycle,
}
use geodesk_gol.Build.SuperRelationResolver.State.{Other, Valid, Valid-put}
use geodesk_gol.Build.SuperRelationResolver.Changes.{
  ms_of, cost, total, total-le, total-lt, update_self, update_other, Change, Change-put, cost-le,
}

pub Answer-cases :
    (a : Answer) → (a ≡ stuck) ⊎ (((s : Resolver) × (a ≡ yes s)) ⊎ ((s : Resolver) × (a ≡ no s)))
Answer-cases stuck = inl refl
Answer-cases (yes s) = inr (inl (s, refl))
Answer-cases (no s) = inr (inr (s, refl))

All-perm : {A : Type 0} (P : A → Type 0) {xs ys : List A} → Permᴰ xs ys → All P xs → All P ys
All-perm P Permᴰ.nil a = tt
All-perm P (Permᴰ.cons e p) (a, rest) = (subst P e a, All-perm P p rest)
All-perm P (Permᴰ.swap e e') (a, (b, rest)) = (subst P e' b, (subst P e a, rest))
All-perm P (Permᴰ.trans p q) a = All-perm P q (All-perm P p a)

abbrev pub Inhabited : {A : Type 0} → List A → Type 0
Inhabited [] = ⊥
Inhabited (x ∷ xs) = Unit

Inhabited-perm : {A : Type 0} {xs ys : List A} → Permᴰ xs ys → Inhabited xs → Inhabited ys
Inhabited-perm Permᴰ.nil h = h
Inhabited-perm (Permᴰ.cons e p) h = tt
Inhabited-perm (Permᴰ.swap e e') h = tt
Inhabited-perm (Permᴰ.trans p q) h = Inhabited-perm q (Inhabited-perm p h)

module _ (g : Setting) (n : ℕ) where
  abbrev pub measure : (ℕ → Relation) → ℕ
  measure rels = total (cost rels) n

  pub measure-le : (r : ℕ) (a b : ℕ → Relation) → Change r a b → measure b ≤ measure a
  measure-le r a b f = total-le (cost b) (cost a) n (cost-le r a b f)

  -- An entry of the cycle in the state `now`: its relation is open and has the child as a member.
  abbrev pub Link : (ℕ → Relation) → CyclicalRelation → Type 0
  Link now e =
      ((now e.relation).is_resolved ≡ false)
      × (e.relation < n)
      × ((i : ℕ) × (typed_at (ms_of e.relation now) i ≡ relation_member (now e.child).id))

  abbrev pub Below : (ℕ → Relation) → (ℕ → Relation) → CyclicalRelation → Type 0
  Below before now e = ((before e.relation).is_pending ≡ false) × Link now e

  -- The entries name relations that were not pending before, and the first child one that was.
  abbrev Blocked : Resolver → Resolver → Type 0
  Blocked s s' =
      (head : CyclicalRelation) × (rest : List CyclicalRelation) × (s'.cyclical_relations
        ≡ head ∷ rest)
      × ((s.rels head.child).is_pending ≡ true)
      × All (Below s.rels s'.rels) s'.cyclical_relations

  -- What a call for the relation `c` may answer.
  abbrev pub Outcome : ℕ → Resolver → Answer → Type 0
  Outcome c s stuck = ⊥
  Outcome c s (yes s') =
      Change c s.rels s'.rels
      × Valid g n s'.rels
      × (s'.cyclical_relations ≡ [])
      × ((s'.rels c).is_resolved ≡ true)
  Outcome c s (no s') =
      Change c s.rels s'.rels × Valid g n s'.rels × ((s'.rels c).is_resolved ≡ false) × Blocked s s'

  -- The least requirements of a call, and that it answers where the measure is within `bound`.
  abbrev pub Answers : ℕ → (ℕ → Resolver → Answer) → Type 0
  Answers bound resolve_child =
      (c : ℕ) (s : Resolver)
      → measure s.rels ≤ bound
      → c < n
      → (s.rels c).is_resolved ≡ false
      → (s.rels c).is_pending ≡ false
      → s.cyclical_relations ≡ []
      → Valid g n s.rels
      → Outcome c s (resolve_child c s)

  scored-All :
      (s : Resolver) (Q : CyclicalRelation → Type 0) (es : List CyclicalRelation)
      → All Q es
      → All (λ x. Q x.1) (scored g s es)
  scored-All s Q [] a = tt
  scored-All s Q (e ∷ es) (a, rest) = (a, scored-All s Q es rest)

  break_entry :
      (s : Resolver) (Q : CyclicalRelation → Type 0) (xs : List (g.Score × CyclicalRelation))
      → Inhabited xs
      → All (λ x. Q x.1) xs
      → (e : CyclicalRelation) × ((elim xs as (λ x. Option (CyclicalRelation × Resolver)) [
        | [] ↦ none
        | (score, e) ∷ rest ↦ some (e, break_at g e s)
      ])
          ≡ some (e, break_at g e s))
        × Q e
  break_entry s Q [] h a = absurd h
  break_entry s Q ((score, e) ∷ xs) h (a, rest) = (e, refl, a)

  -- The cycle is broken at one of its entries.
  pub break_reference_cycle_at :
      (s : Resolver) (Q : CyclicalRelation → Type 0)
      → Inhabited s.cyclical_relations
      → All Q s.cyclical_relations
      → (e : CyclicalRelation) × (break_reference_cycle g s ≡ some (e, break_at g e s)) × Q e
  unfolding break_reference_cycle
  break_reference_cycle_at s Q h a =
      let perm = g.sort-perm (scored g s s.cyclical_relations) in
      break_entry s Q (g.sort (scored g s s.cyclical_relations))
        (Inhabited-perm perm (some_scored s.cyclical_relations h))
        (All-perm (λ x. Q x.1) perm (scored-All s Q s.cyclical_relations a))
    where
      some_scored : (es : List CyclicalRelation) → Inhabited es → Inhabited (scored g s es)
      some_scored [] h = h
      some_scored (e ∷ es) h = tt

  module _ (s : Resolver) (v : Valid g n s.rels) (e : CyclicalRelation) (link : Link s.rels e) where
    abbrev x : ℕ
    x = relation_member (s.rels e.child).id

    abbrev ms : List Member
    ms = ms_of e.relation s.rels

    abbrev loser : Relation
    loser =
        let rel = (s.rels e.relation).relation in
        record (s.rels e.relation) {
          relation = record rel {
            members = clear_member x rel.members;
            removed_refcycle_count = suc rel.removed_refcycle_count;
          };
        }

    pub break_at-Change : Change e.relation s.rels (break_at g e s).rels
    break_at-Change =
        Change-put e.relation loser s.rels link.0 refl refl (live-clear_member-le x ms)

    pub break_at-Valid : Valid g n (break_at g e s).rels
    break_at-Valid =
        Valid-put g n s.rels v e.relation loser link.0 refl link.0
          (AllTyped-clear_member (Other g e.relation) x ms tt (v.others e.relation link.0))
          (subst (λ k. Readable g.varint k (s.rels e.relation).relation.body)
            (sym (length-clear_member x ms)) (v.readable e.relation link.0))

    pub break_at-measure : measure (break_at g e s).rels < measure s.rels
    break_at-measure =
        let (unresolved, lt, (i, at)) = link in
        let fewer = live-clear_member-lt x ms i (omega arith) at in
        total-lt (cost (break_at g e s).rels) (cost s.rels) n e.relation
          (cost-le e.relation s.rels (break_at g e s).rels break_at-Change) lt
          (subst
            (λ (y : Relation).
              live y.relation.members + (if y.is_pending then 0 else 1) < cost s.rels e.relation)
            (sym (update_self e.relation loser s.rels)) (omega (arith, fewer)))

    pub break_at_members :
        ms_of e.relation (break_at g e s).rels ≡ clear_member x (ms_of e.relation s.rels)
    break_at_members =
        ap (λ (y : Relation). y.relation.members) (update_self e.relation loser s.rels)

    pub break_at_other : (p : ℕ) → p ≢ e.relation → (break_at g e s).rels p ≡ s.rels p
    break_at_other p ne = update_other e.relation p loser s.rels ne
