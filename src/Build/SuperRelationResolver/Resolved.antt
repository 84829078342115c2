-- ===== src/Build/SuperRelationResolver/Resolved.antt =====
-- src/build/sort/SuperRelationResolver.cpp, resolve for one relation and for all of them.
use geodesk_gol.Prelude.{
  ℕ, zero, suc, ◌+◌, ◌≤◌, ◌<◌, ◌≡◌, ◌∙◌, refl, sym, ap, subst, inl, inr, Bool-cases, true, false,
  some, List, [], length, ◌==◌, ==→eq, ==→ne, if◌then◌else◌, arith,
}
use geodesk_gol.Build.SuperRelation.Members.{live, AllTyped}
use geodesk_gol.Build.SuperRelationResolver.{
  Relation, Resolver, Setting, yes, resolve_relation, resolve_relations, after, add_level,
  set_pending,
}
use geodesk_gol.Build.SuperRelationResolver.State.{Fits, Valid, Valid-put}
use geodesk_gol.Build.SuperRelationResolver.Changes.{
  ms_of, cost, total-lt, clash, update_cases, update_self, Change-refl,
}
use geodesk_gol.Build.SuperRelationResolver.Cycles.{Answer-cases, measure, measure-le, Answers}
use geodesk_gol.Build.SuperRelationResolver.Rounds.{visit_members_lem}

module _ (g : Setting) (n : ℕ) where
  pending_measure :
      (r : ℕ) (s : Resolver)
      → r < n
      → (s.rels r).is_pending ≡ false
      → measure g n (set_pending r true s).rels < measure g n s.rels
  pending_measure r s lt idle =
      let rel = record (s.rels r) { is_pending = true } in
      total-lt (cost (set_pending r true s).rels) (cost s.rels) n r
        (update_cases r rel s.rels
          (λ p x. live x.relation.members + (if x.is_pending then 0 else 1) ≤ cost s.rels p)
          (omega arith) (λ p ne. omega arith))
        lt
        (subst
          (λ (x : Relation).
            live x.relation.members + (if x.is_pending then 0 else 1) < cost s.rels r)
          (sym (update_self r rel s.rels)) (rw idle (omega arith)))

  -- `resolve`, on fuel for every member that can be lost and every relation that can be entered.
  resolve_relation-Answers : (fuel : ℕ) → Answers g n fuel (resolve_relation g fuel)
  unfolding resolve_relation
  resolve_relation-Answers zero r s le lt unresolved idle none_cyclical v =
      absurd (omega (arith, le, pending_measure r s lt idle))
  resolve_relation-Answers (suc fuel) r s le lt unresolved idle none_cyclical v =
      let rel = record (s.rels r) { is_pending = true } in
      let begun = set_pending r true s in
      let size = length (ms_of r begun.rels) in
      let less = pending_measure r s lt idle in
      visit_members_lem g n r s lt unresolved idle size fuel (suc fuel) (resolve_relation g fuel)
        (resolve_relation-Answers fuel) (omega (arith, le, less)) (omega (arith, le, less)) size 0
        (record { tile_pair = (begun.rels r).tile_pair; max_child_level = 0 }) begun (omega arith)
        (
          Change-refl r begun.rels,
          Valid-put g n s.rels v r rel unresolved refl unresolved (v.others r unresolved)
              (v.readable r unresolved),
          none_cyclical,
          ap (λ (x : Relation). x.is_resolved) (update_self r rel s.rels) ∙ unresolved,
          (λ j before. absurd (omega (arith, before))),
          refl,
        )

  -- The relations from number `r` on that are placed, with their levels.
  abbrev pub listed : ℕ → ℕ → (ℕ → Relation) → List (ℕ × ℕ)
  listed zero r rels = []
  listed (suc k) r rels = add_level g r (rels r) (listed k (suc r) rels)

  -- Every relation is resolved, and its children among them are at lower levels.
  abbrev pub Hierarchy : (ℕ → Relation) → Type 0
  Hierarchy rels =
      (p : ℕ)
      → p < n
      → ((rels p).is_resolved ≡ true) × AllTyped (Fits g rels (rels p).level) (ms_of p rels)

  -- Between two calls at the top no relation is pending.
  abbrev pub Ready : ℕ → Resolver → Type 0
  Ready fuel s =
      Valid g n s.rels
      × (s.cyclical_relations ≡ [])
      × ((p : ℕ) → (s.rels p).is_pending ≡ false)
      × (measure g n s.rels ≤ fuel)

  abbrev Kept : Resolver → Resolver → Type 0
  Kept s s' = (p : ℕ) → (s.rels p).is_resolved ≡ true → s'.rels p ≡ s.rels p

  resolve_next :
      (fuel r : ℕ) (s : Resolver)
      → r < n
      → Ready fuel s
      → (s' : Resolver) × (after g
            (if (s.rels r).is_resolved then yes s else resolve_relation g fuel r s)
          ≡ some s')
        × Ready fuel s'
        × Kept s s'
        × ((s'.rels r).is_resolved ≡ true)
  resolve_next fuel r s lt ready = elim (Bool-cases (s.rels r).is_resolved) [
    | inl done ↦ (s, rw done refl, ready, (λ p h. refl), done)
    | inr free ↦
        let (v, none_cyclical, idle, le) = ready in
        let o = resolve_relation-Answers fuel r s le lt free (idle r) none_cyclical v in
        elim (Answer-cases (resolve_relation g fuel r s)) [
          | inl e ↦ absurd (rw e at o)
          | inr (inl (s', e)) ↦
              let (f, v', none', done) = rw e at o in
              (
                s',
                rw (free, e) refl,
                (
                  v',
                  none',
                  (λ p. f.same_pending p ∙ idle p),
                  omega (arith, measure-le g n r s.rels s'.rels f, le),
                ),
                f.kept_resolved,
                done,
              )
          | inr (inr (s', e)) ↦
              let (f, v', open_r, (head, rest, eq, pend, below)) = rw e at o in
              absurd (clash (idle head.child) pend)
        ]
  ]

  resolve_relations_from :
      (fuel k r : ℕ) (s : Resolver)
      → r + k ≡ n
      → Ready fuel s
      → (last : Resolver) × (resolve_relations g fuel k r s ≡ some (listed k r last.rels, last))
        × Valid g n last.rels
        × Kept s last
        × ((p : ℕ) → r ≤ p → p < n → (last.rels p).is_resolved ≡ true)
  unfolding resolve_relations
  resolve_relations_from fuel zero r s len ready =
      (s, refl, ready.0, (λ p h. refl), (λ p from below. absurd (omega (arith, len, from, below))))
  resolve_relations_from fuel (suc k) r s len ready =
      let (s', e, ready', kept, done) = resolve_next fuel r s (omega (arith, len)) ready in
      let (last, e', v, kept', rest) =
        resolve_relations_from fuel k (suc r) s' (omega (arith, len)) ready' in
      (
        last,
        rw (resolve_relations, e, e')
            (ap (λ rel. some (add_level g r rel (listed k (suc r) last.rels), last))
              (sym (kept' r done))),
        v,
        (λ p h. kept' p (ap (λ (x : Relation). x.is_resolved) (kept p h) ∙ h) ∙ kept p h),
        (λ p from below. elim (Bool-cases (p == r)) [
          | inl here ↦
              subst (λ q. (last.rels q).is_resolved ≡ true) (sym (==→eq p r here))
                (ap (λ (x : Relation). x.is_resolved) (kept' r done) ∙ done)
          | inr later ↦ rest p (grind (arith, ==→ne p r later, from)) below
        ]),
      )

  -- For relations of which none is a member of itself, that can be read and are found by their ids:
  -- with fuel for each relation and each member, resolve ends, and then every relation is resolved and
  -- no member of it is missing or at its level or above, so the relations form a hierarchy, whatever
  -- cycles they formed. Those that are placed are listed with their final levels.
  pub resolve_relations-Hierarchy :
      (fuel : ℕ) (s : Resolver)
      → Ready fuel s
      → (last : Resolver) × (resolve_relations g fuel n 0 s ≡ some (listed n 0 last.rels, last))
        × Hierarchy last.rels
  resolve_relations-Hierarchy fuel s ready =
      let (last, e, v, kept, done) = resolve_relations_from fuel n 0 s (omega arith) ready in
      (last, e, λ p lt. (done p (omega arith) lt, v.settled p (done p (omega arith) lt)))
