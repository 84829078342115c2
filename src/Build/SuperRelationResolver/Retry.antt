-- ===== src/Build/SuperRelationResolver/Retry.antt =====
-- src/build/sort/SuperRelationResolver.cpp, the loop around the call for a child.
use geodesk_gol.Prelude.{
  ℕ, zero, suc, ◌≤◌, ◌<◌, ◌≡◌, ◌≢◌, ◌⊎◌, ◌∙◌, refl, sym, ap, subst, inl, inr, Bool-cases, true,
  false, none, some, if◌then◌else◌, List, [], ◌∷◌, ◌++◌, get_or, set, All, All-append, ◌==◌, ==→eq,
  ==→ne, ==_refl, arith,
}
use geodesk_gol.Build.SuperRelation.{Member, clear_member}
use geodesk_gol.Build.SuperRelation.Members.{no_member, typed_at, clear_member-set}
use geodesk_gol.Build.SuperRelationResolver.{
  Relation, CyclicalRelation, Resolver, Setting, Answer, stuck, yes, no, relation_member, give_up,
  push_cyclical, break_at, break_reference_cycle, is_root, retry,
}
use geodesk_gol.Build.SuperRelationResolver.State.{Valid}
use geodesk_gol.Build.SuperRelationResolver.Changes.{
  ms_of, clash, Change, Change-trans, Change-other,
}
use geodesk_gol.Build.SuperRelationResolver.Cycles.{
  Answer-cases, measure, measure-le, Link, Below, Outcome, Answers, Inhabited,
  break_reference_cycle_at, break_at-Change, break_at-Valid, break_at-measure, break_at_members,
  break_at_other,
}

abbrev pub cleared : List Member → ℕ → List Member
cleared ms i = set ms i (record (get_or ms i no_member) { typed_id = 0 })

module _ (g : Setting) (n : ℕ) where
  abbrev pub Own : ℕ → (ℕ → Relation) → (ℕ → Relation) → CyclicalRelation → Type 0
  Own r before now e =
      ((e.relation ≡ r) ⊎ ((before e.relation).is_pending ≡ false)) × Link g n now e

  -- The relation `r` is left, since the cycle goes on above it.
  abbrev pub GivenUp : ℕ → Resolver → Resolver → Type 0
  GivenUp r s s' =
      Change r s.rels s'.rels
      × Valid g n s'.rels
      × ((s'.rels r).is_resolved ≡ false)
      × ((head : CyclicalRelation) × (rest : List CyclicalRelation) × (s'.cyclical_relations
            ≡ head ∷ rest)
          × (head.child ≢ r)
          × ((s.rels head.child).is_pending ≡ true)
          × All (Own r s.rels s'.rels) s'.cyclical_relations)

  -- What the loop may answer for the child `c`, member `i` of `r`.
  abbrev pub Retried : ℕ → ℕ → ℕ → Resolver → Answer → Type 0
  Retried r i c s stuck = ⊥
  Retried r i c s (yes s') =
      Change r s.rels s'.rels
      × Valid g n s'.rels
      × (s'.cyclical_relations ≡ [])
      × ((((s'.rels c).is_resolved ≡ true) × (s'.rels r ≡ s.rels r))
          ⊎ (((s'.rels r).is_resolved ≡ false) × (ms_of r s'.rels ≡ cleared (ms_of r s.rels) i)))
  Retried r i c s (no s') = (s'' : Resolver) × (s' ≡ give_up r s'') × GivenUp r s s''

  module _ (r i c : ℕ) (s : Resolver) (r_lt : r < n) (c_lt : c < n)
      (unresolved : (s.rels r).is_resolved ≡ false) (pending : (s.rels r).is_pending ≡ true)
      (child_free : (s.rels c).is_pending ≡ false)
      (at : typed_at (ms_of r s.rels) i ≡ relation_member (s.rels c).id)
      (before : (j : ℕ) → j < i → typed_at (ms_of r s.rels) j ≢ relation_member (s.rels c).id) where
    -- The state before an attempt.
    abbrev Attempt : Resolver → Type 0
    Attempt now =
        Change r s.rels now.rels
        × Valid g n now.rels
        × (now.cyclical_relations ≡ [])
        × (now.rels r ≡ s.rels r)
        × ((now.rels c).is_resolved ≡ false)

    not_child : r ≢ c
    not_child e = clash (ap (λ k. (s.rels k).is_pending) e ∙ child_free) pending

    abbrev entry : CyclicalRelation
    entry = record { relation = r; child = c }

    -- An entry of the cycle as seen by `r`.
    abbrev Seen : (ℕ → Relation) → CyclicalRelation → Type 0
    Seen now e =
        (((e.relation ≡ r) × (e.child ≡ c)) ⊎ ((s.rels e.relation).is_pending ≡ false))
        × Link g n now e

    module _ (now : Resolver) (a : Attempt now) (s' : Resolver)
        (o : Outcome g n c now (no s')) where
      change : Change r s.rels s'.rels
      change =
          Change-trans r s.rels now.rels s'.rels a.0
            (Change-other c r now.rels s'.rels (a.0.same_pending c ∙ child_free) o.0)

      own : s'.rels r ≡ s.rels r
      own = o.0.kept r not_child (a.0.same_pending r ∙ pending) ∙ a.3

      entry_linked : Link g n s'.rels entry
      entry_linked = (
        ap (λ (x : Relation). x.is_resolved) own ∙ unresolved,
        r_lt,
        (
          i,
          ap (λ (x : Relation). typed_at x.relation.members i) own
              ∙ at
              ∙ ap relation_member (sym (change.same_id c)),
        ),
      )

      seen : All (Seen s'.rels) (push_cyclical r c s').cyclical_relations
      seen =
          All-append (Seen s'.rels) s'.cyclical_relations (entry ∷ [])
            (from s'.cyclical_relations o.3.4) ((inl (refl, refl), entry_linked), tt)
        where
          from :
              (es : List CyclicalRelation)
              → All (Below g n now.rels s'.rels) es
              → All (Seen s'.rels) es
          from [] b = tt
          from (e ∷ es) ((free, link), b) =
              ((inr (sym (a.0.same_pending e.relation) ∙ free), link), from es b)

      -- The entry at which the cycle is broken is that of `r`: its child is no longer a member.
      broken_here :
          (e : CyclicalRelation)
          → Link g n s'.rels e
          → e.relation ≡ r
          → e.child ≡ c
          → Retried r i c s (yes (break_at g e (push_cyclical r c s')))
      broken_here e link here child =
          let pushed = push_cyclical r c s' in
          let x = relation_member (s.rels c).id in
          let id : relation_member (s'.rels e.child).id ≡ x =
            ap relation_member (ap (λ k. (s'.rels k).id) child ∙ change.same_id c) in
          (
            Change-trans r s.rels s'.rels (break_at g e pushed).rels change (
                subst (λ k. Change k s'.rels (break_at g e pushed).rels) here
                  (break_at-Change g n pushed o.1 e link)),
            break_at-Valid g n pushed o.1 e link,
            refl,
            inr (
              rw (here, ==_refl r) (ap (λ (y : Relation). y.is_resolved) own ∙ unresolved),
              ap (λ k. ms_of k (break_at g e pushed).rels) (sym here)
                  ∙ break_at_members g n pushed o.1 e link
                  ∙ ap (λ k. clear_member (relation_member (s'.rels e.child).id) (ms_of k s'.rels))
                      here
                  ∙ ap (λ y. clear_member y (ms_of r s'.rels)) id
                  ∙ ap (λ (y : Relation). clear_member x y.relation.members) own
                  ∙ clear_member-set x (ms_of r s.rels) i (omega arith) before at,
            ),
          )

      -- The entry is that of another relation: one more attempt.
      broken_there :
          (e : CyclicalRelation)
          → Link g n s'.rels e
          → e.relation ≢ r
          → (s.rels e.relation).is_pending ≡ false
          → Attempt (break_at g e (push_cyclical r c s'))
      broken_there e link there free =
          let pushed = push_cyclical r c s' in
          let broken = break_at g e pushed in
          let step = break_at-Change g n pushed o.1 e link in
          (
            Change-trans r s.rels s'.rels broken.rels change (
                Change-other e.relation r s'.rels broken.rels
                  (change.same_pending e.relation ∙ free) step),
            break_at-Valid g n pushed o.1 e link,
            refl,
            break_at_other g n pushed o.1 e link r (λ k. there (sym k)) ∙ own,
            still_open e link,
          )
        where
          still_open :
              (e : CyclicalRelation)
              → Link g n s'.rels e
              → ((break_at g e (push_cyclical r c s')).rels c).is_resolved ≡ false
          still_open e link = elim (Bool-cases (e.relation == c)) [
            | inl same ↦ rw same link.0
            | inr other ↦ rw other o.2
          ]

    module _ (bound : ℕ) (resolve_child : ℕ → Resolver → Answer)
        (answers : Answers g n bound resolve_child) where
      to_own :
          (now : ℕ → Relation) (es : List CyclicalRelation)
          → All (Seen now) es
          → All (Own r s.rels now) es
      to_own now [] b = tt
      to_own now (e ∷ es) ((inl (here, child), link), b) = ((inl here, link), to_own now es b)
      to_own now (e ∷ es) ((inr free, link), b) = ((inr free, link), to_own now es b)

      -- The cycle goes on above `r`.
      leave :
          (now : Resolver) (a : Attempt now) (s' : Resolver) (o : Outcome g n c now (no s'))
          → is_root g r (push_cyclical r c s').cyclical_relations ≡ false
          → Retried r i c s (no (give_up r (push_cyclical r c s')))
      leave now a s' o above =
          let (head, rest, eq, pend, below) = o.3 in
          let eq' : s'.cyclical_relations ++ entry ∷ [] ≡ head ∷ (rest ++ entry ∷ []) =
            ap (λ es. es ++ entry ∷ []) eq in
          let not_root : (head.child == r) ≡ false = ap (is_root g r) (sym eq') ∙ above in
          (
            push_cyclical r c s',
            refl,
            (
              change now a s' o,
              o.1,
              ap (λ (x : Relation). x.is_resolved) (own now a s' o) ∙ unresolved,
              (
                head,
                rest ++ entry ∷ [],
                eq',
                ==→ne head.child r not_root,
                sym (a.0.same_pending head.child) ∙ pend,
                to_own s'.rels (push_cyclical r c s').cyclical_relations (seen now a s' o),
              ),
            ),
          )

      -- The cycle is broken, and one more attempt is made where `r` keeps the child.
      broken :
          (fuel : ℕ) (now : Resolver) (a : Attempt now) (s' : Resolver)
          (o' : Outcome g n c now (no s'))
          → ((next : Resolver)
              → Attempt next
              → measure g n next.rels < measure g n now.rels
              → Retried r i c s (retry g resolve_child fuel r c next))
          → Retried r i c s (elim (break_reference_cycle g (push_cyclical r c s')) [
            | none ↦ stuck
            | some (loser, after) ↦
                let again = retry g resolve_child fuel r c after in
                if r == loser.relation then yes after else again
          ])
      broken fuel now a s' o' attempt =
          let pushed = push_cyclical r c s' in
          let (head, rest, eq, pend, below) = o'.3 in
          let (e, eq, (place, link)) =
            break_reference_cycle_at g n pushed (Seen s'.rels)
              (subst Inhabited (ap (λ es. es ++ entry ∷ []) (sym eq)) tt) (seen now a s' o') in
          rw eq (elim (Bool-cases (r == e.relation)) [
            | inl here ↦ rw here (elim place [
              | inl (same, child) ↦ broken_here now a s' o' e link same child
              | inr free ↦ absurd (
                  clash free
                    (ap (λ k. (s.rels k).is_pending) (sym (==→eq r e.relation here)) ∙ pending))
            ])
            | inr there ↦ rw there (elim place [
              | inl (same, child) ↦ absurd (==→ne r e.relation there (sym same))
              | inr free ↦
                  let less = break_at-measure g n pushed o'.1 e link in
                  let no_more = measure-le g n c now.rels s'.rels o'.0 in
                  attempt (break_at g e pushed)
                    (broken_there now a s' o' e link (λ same. ==→ne r e.relation there (sym same))
                      free)
                    (omega (arith, less, no_more))
            ])
          ])

      -- With fuel for as many attempts as there are members to lose.
      pub retry_lem :
          (fuel : ℕ) (now : Resolver)
          → Attempt now
          → measure g n now.rels ≤ bound
          → measure g n now.rels < fuel
          → Retried r i c s (retry g resolve_child fuel r c now)
      unfolding retry
      retry_lem zero now a le lt = absurd (omega (arith, lt))
      retry_lem (suc fuel) now a le lt =
          let o = answers c now le c_lt a.4 (a.0.same_pending c ∙ child_free) a.2 a.1 in
          elim (Answer-cases (resolve_child c now)) [
            | inl e ↦ absurd (rw e at o)
            | inr (inl (s', e)) ↦
                let o' : Outcome g n c now (yes s') = rw e at o in
                rw (retry, e)
                  (
                    Change-trans r s.rels now.rels s'.rels a.0
                        (Change-other c r now.rels s'.rels (a.0.same_pending c ∙ child_free) o'.0),
                    o'.1,
                    o'.2,
                    inl (o'.3, o'.0.kept r not_child (a.0.same_pending r ∙ pending) ∙ a.3),
                  )
            | inr (inr (s', e)) ↦
                let o' : Outcome g n c now (no s') = rw e at o in
                rw (retry, e)
                  (elim (Bool-cases (is_root g r (push_cyclical r c s').cyclical_relations)) [
                    | inr above ↦ rw above (leave now a s' o' above)
                    | inl root ↦ rw root (
                        broken fuel now a s' o' (λ next a' less.
                          retry_lem fuel next a' (omega (arith, less, le))
                            (omega (arith, less, lt))))
                  ])
          ]
