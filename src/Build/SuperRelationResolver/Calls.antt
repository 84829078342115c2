-- ===== src/Build/SuperRelationResolver/Calls.antt =====
-- src/build/sort/SuperRelationResolver.cpp, the loop of resolve over the members, with the calls for
-- the children that it makes.
use geodesk_gol.Prelude.{
  ℕ, ◌/◌, ◌%◌, ◌≤◌, ◌<◌, ◌≡◌, ◌≢◌, ◌⊎◌, ◌∙◌, refl, sym, ap, subst, inl, inr, Bool-cases, true,
  false, List, [], ◌∷◌, ◌++◌, length, length-set, get_or-set_ne, All, ◌==◌, ==→eq, arith,
}
use geodesk_gol.Build.SuperRelation.{Member}
use geodesk_gol.Build.SuperRelation.Members.{no_member, typed_at, AllTyped-at}
use geodesk_gol.Build.SuperRelationResolver.{
  Relation, CyclicalRelation, Resolver, Setting, super_relation, Answer, stuck, yes, no, member_at,
  push_cyclical, give_up, relation_member, find_child, enter, retry,
}
use geodesk_gol.Build.SuperRelationResolver.State.{Fits, Other}
use geodesk_gol.Build.SuperRelationResolver.Changes.{ms_of, clash, Change-refl, Change-trans}
use geodesk_gol.Build.SuperRelationResolver.Cycles.{measure, measure-le, Outcome, Answers}
use geodesk_gol.Build.SuperRelationResolver.Retry.{Own, GivenUp, Retried, retry_lem}
use geodesk_gol.Build.SuperRelationResolver.Leave.{pending_itself, give_up-Outcome}
use geodesk_gol.Build.SuperRelationResolver.Loop.{typed_at-cleared, Seen-later}
use geodesk_gol.Build.SuperRelationResolver.Members.{child_of, found_by_id, At, start}

module _ (g : Setting) (n r : ℕ) (s : Resolver) (r_lt : r < n)
    (unresolved : (s.rels r).is_resolved ≡ false) (idle : (s.rels r).is_pending ≡ false) (size : ℕ)
    (bound fuel : ℕ) (resolve_child : ℕ → Resolver → Answer)
    (answers : Answers g n bound resolve_child)
    (within : measure g n (start g n r s r_lt unresolved idle size).rels ≤ bound)
    (enough : measure g n (start g n r s r_lt unresolved idle size).rels < fuel) where
  abbrev from : Resolver
  from = start g n r s r_lt unresolved idle size

  abbrev Upto : ℕ → ℕ → Resolver → Type 0
  Upto i level now = At g n r s r_lt unresolved idle size i level now

  module _ (i level c : ℕ) (now : Resolver) (seen : Upto i level now)
      (is_relation : (typed_at (ms_of r now.rels) i % 4 == 2) ≡ true)
      (found : find_child g (typed_at (ms_of r now.rels) i / 4) ≡ super_relation c) where
    abbrev x : ℕ
    x = typed_at (ms_of r now.rels) i

    registered_child : (c < n) × ((now.rels c).id ≡ x / 4)
    registered_child = seen.1.registered (x / 4) c (found_by_id g (x / 4) c (ap child_of found))

    at_child : x ≡ relation_member (now.rels c).id
    at_child = omega (arith, registered_child.1, ==→eq (x % 4) 2 is_relation)

    not_self : c ≢ r
    not_self =
        rw (is_relation, found) at
          (AllTyped-at (Other g r) (ms_of r now.rels) i tt (seen.1.others r seen.3))

    -- An earlier member is another one, since its child is resolved.
    earlier :
        (now.rels c).is_resolved ≡ false
        → (j : ℕ) → j < i
        → typed_at (ms_of r now.rels) j ≢ relation_member (now.rels c).id
    earlier free j lt same =
        let fits : Fits g now.rels level x =
          subst (Fits g now.rels level) (same ∙ sym at_child) (seen.4 j lt) in
        clash free ((rw (is_relation, found) at fits).0)

    -- The state after the loop around the call.
    abbrev Entered : Answer → Type 0
    Entered stuck = ⊥
    Entered (no s') = Outcome g n r s (no s')
    Entered (yes s') =
        Upto i level s'
        × ((typed_at (ms_of r s'.rels) i ≡ 0)
            ⊎ (((s'.rels c).is_resolved ≡ true)
                × (find_child g (typed_at (ms_of r s'.rels) i / 4) ≡ super_relation c)))

    give_up_later : (s' : Resolver) → GivenUp g n r now s' → Outcome g n r s (no (give_up r s'))
    give_up_later s' (f, v, free, (head, rest, eq, ne, pend, own)) =
        give_up-Outcome r s unresolved idle g n s' (
          Change-trans r from.rels now.rels s'.rels seen.0 f,
          v,
          free,
          (
            head,
            rest,
            eq,
            ne,
            sym (seen.0.same_pending head.child) ∙ pend,
            from_start s'.cyclical_relations own,
          ),
        )
      where
        from_start :
            (es : List CyclicalRelation)
            → All (Own g n r now.rels s'.rels) es
            → All (Own g n r from.rels s'.rels) es
        from_start [] b = tt
        from_start (e ∷ es) ((inl same, link), b) = ((inl same, link), from_start es b)
        from_start (e ∷ es) ((inr idle', link), b) =
            ((inr (sym (seen.0.same_pending e.relation) ∙ idle'), link), from_start es b)

    -- The child is the start of a cycle.
    cycle_found :
        (now.rels c).is_pending ≡ true → Outcome g n r s (no (give_up r (push_cyclical r c now)))
    cycle_found pend =
        let entry : CyclicalRelation = record { relation = r; child = c } in
        let eq : now.cyclical_relations ++ entry ∷ [] ≡ entry ∷ [] =
          ap (λ es. es ++ entry ∷ []) seen.2 in
        let (f, v, none_cyclical, free, fits, len) = seen in
        give_up-Outcome r s unresolved idle g n (push_cyclical r c now) (
          f,
          v,
          free,
          (
            entry,
            [],
            eq,
            not_self,
            sym (f.same_pending c) ∙ pend,
            subst (All (Own g n r from.rels now.rels)) (sym eq)
                ((inl refl, (free, r_lt, (i, at_child))), tt),
          ),
        )

    after_retry : (a : Answer) → Retried g n r i c now a → Entered a
    after_retry stuck o = o
    after_retry (no s') (s'', eq, given) =
        subst (λ y. Outcome g n r s (no y)) (sym eq) (give_up_later s'' given)
    after_retry (yes s') (f, v, none_cyclical, inl (done, same)) =
        let ms_same : ms_of r s'.rels ≡ ms_of r now.rels =
          ap (λ (y : Relation). y.relation.members) same in
        (
          Seen-later g n r s r_lt unresolved idle size i level now s' seen f v none_cyclical
              (ap (λ (y : Relation). y.is_resolved) same ∙ seen.3)
              (λ j lt. ap (λ ms. typed_at ms j) ms_same) (ap length ms_same),
          inr (done, ap (λ ms. find_child g (typed_at ms i / 4)) ms_same ∙ found),
        )
    after_retry (yes s') (f, v, none_cyclical, inr (free, gone)) =
        let ms = ms_of r now.rels in
        let m : Member = record (member_at r i now) { typed_id = 0 } in
        (
          Seen-later g n r s r_lt unresolved idle size i level now s' seen f v none_cyclical free
              (λ j lt.
                ap (λ xs. typed_at xs j) gone
                ∙ ap (λ (y : Member). y.typed_id)
                    (get_or-set_ne ms i j m no_member (λ e. omega (arith, e, lt))))
              (ap length gone ∙ length-set ms i m),
          inl (ap (λ xs. typed_at xs i) gone ∙ typed_at-cleared ms i),
        )

    pub enter_lem : Entered (enter g resolve_child fuel r c now)
    enter_lem = elim (Bool-cases (now.rels c).is_resolved) [
      | inl done ↦ rw done (seen, inr (done, found))
      | inr free ↦ rw free (elim (Bool-cases (now.rels c).is_pending) [
        | inl pend ↦ rw pend (cycle_found pend)
        | inr idle' ↦
            let le = measure-le g n r from.rels now.rels seen.0 in
            rw idle' (
              after_retry (retry g resolve_child fuel r c now) (
                retry_lem g n r i c now r_lt registered_child.0 seen.3
                  (seen.0.same_pending r ∙ pending_itself r s unresolved idle) idle' at_child
                  (earlier free) bound resolve_child answers fuel now
                  (Change-refl r now.rels, seen.1, seen.2, refl, free) (omega (arith, le, within))
                  (omega (arith, le, enough))))
      ])
    ]
