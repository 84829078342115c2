-- ===== src/Build/SuperRelationResolver/Loop.antt =====
-- src/build/sort/SuperRelationResolver.cpp, the loop of resolve over the members of a relation.
use geodesk_gol.Prelude.{
  ℕ, zero, suc, ◌/◌, ◌%◌, ◌≤◌, ◌<◌, ◌≡◌, ◌⊎◌, ◌∙◌, refl, sym, ap, subst, inl, inr, Bool-cases,
  false, List, [], ◌∷◌, length, set, length-set, get_or-set_self, get_or-set_ne, ◌==◌, ==→eq, ==→ne,
  arith,
}
use geodesk_gol.Build.SuperRelation.{Member}
use geodesk_gol.Build.SuperRelation.Members.{
  no_member, typed_at, AllTyped-at, AllTyped-set, Readable, live-set-le,
}
use geodesk_gol.Build.SuperRelationResolver.{
  Relation, Resolver, Setting, put_member, with_members, find_child,
}
use geodesk_gol.Build.SuperRelationResolver.State.{FoundFits-mono, Fits, Other, Valid, Valid-put}
use geodesk_gol.Build.SuperRelationResolver.Changes.{
  ms_of, update_self, Change, Change-trans, Change-put,
}
use geodesk_gol.Build.SuperRelationResolver.Retry.{cleared}
use geodesk_gol.Build.SuperRelationResolver.Leave.{pending}

pub typed_at-cleared : (ms : List Member) (i : ℕ) → typed_at (cleared ms i) i ≡ 0
typed_at-cleared [] i = refl
typed_at-cleared (m ∷ ms) zero = refl
typed_at-cleared (m ∷ ms) (suc i) = typed_at-cleared ms i

module _ (g : Setting) (n r : ℕ) (s : Resolver) (r_lt : r < n)
    (unresolved : (s.rels r).is_resolved ≡ false) (idle : (s.rels r).is_pending ≡ false)
    (size : ℕ) where
  abbrev pub begun : Resolver
  begun = pending r s unresolved idle

  -- The first `i` members have been seen; `level` is above those of their children.
  abbrev pub Seen : ℕ → ℕ → Resolver → Type 0
  Seen i level now =
      Change r begun.rels now.rels
      × Valid g n now.rels
      × (now.cyclical_relations ≡ [])
      × ((now.rels r).is_resolved ≡ false)
      × ((j : ℕ) → j < i → Fits g now.rels level (typed_at (ms_of r now.rels) j))
      × (length (ms_of r now.rels) ≡ size)

  -- One more member, which is as it was.
  pub Seen-next :
      (i level level' : ℕ) (now : Resolver)
      → Seen i level now
      → level ≤ level'
      → Fits g now.rels level' (typed_at (ms_of r now.rels) i)
      → Seen (suc i) level' now
  Seen-next i level level' now (f, v, none_cyclical, free, fits, len) le here = (
    f,
    v,
    none_cyclical,
    free,
    (λ j lt. elim (Bool-cases (j == i)) [
      | inl e ↦
          subst (λ k. Fits g now.rels level' (typed_at (ms_of r now.rels) k)) (sym (==→eq j i e))
            here
      | inr e ↦
          let x = typed_at (ms_of r now.rels) j in
          let ne = ==→ne j i e in
          FoundFits-mono now.rels now.rels level level' (x % 4 == 2) (find_child g (x / 4))
            (λ p h. refl) le (fits j (grind (arith, ne, lt)))
    ]),
    len,
  )

  -- A later state, in which the members before `i` are as they were.
  pub Seen-later :
      (i level : ℕ) (now later : Resolver)
      → Seen i level now
      → Change r now.rels later.rels
      → Valid g n later.rels
      → later.cyclical_relations ≡ []
      → (later.rels r).is_resolved ≡ false
      → ((j : ℕ) → j < i → typed_at (ms_of r later.rels) j ≡ typed_at (ms_of r now.rels) j)
      → length (ms_of r later.rels) ≡ length (ms_of r now.rels)
      → Seen i level later
  Seen-later i level now later (f, v, none_cyclical, free, fits, len) f' v' none' free' same len' =
      (
        Change-trans r begun.rels now.rels later.rels f f',
        v',
        none',
        free',
        (λ j lt. subst (Fits g later.rels level) (sym (same j lt)) (
            let x = typed_at (ms_of r now.rels) j in
            FoundFits-mono now.rels later.rels level level (x % 4 == 2) (find_child g (x / 4))
              f'.kept_resolved (omega arith) (fits j lt))),
        len' ∙ len,
      )

  -- Member `i` is written.
  pub Seen-put :
      (i level level' : ℕ) (m : Member) (now : Resolver)
      → i < size
      → Seen i level now
      → level ≤ level'
      → (m.typed_id ≡ 0) ⊎ (m.typed_id ≡ typed_at (ms_of r now.rels) i)
      → Fits g now.rels level' m.typed_id
      → Seen (suc i) level' (put_member r i m now)
  Seen-put i level level' m now lt seen le kind fits =
      let (f, v, none_cyclical, free, before, len) = seen in
      let ms = ms_of r now.rels in
      let rel = with_members (set ms i m) (now.rels r) in
      let later = put_member r i m now in
      let at_r : ms_of r later.rels ≡ set ms i m =
        ap (λ (x : Relation). x.relation.members) (update_self r rel now.rels) in
      let f' = Change-put r rel now.rels free refl refl (live-set-le ms i m kind) in
      let other : Other g r m.typed_id = elim kind [
        | inl zero_id ↦ subst (Other g r) (sym zero_id) tt
        | inr same ↦
            subst (Other g r) (sym same) (AllTyped-at (Other g r) ms i tt (v.others r free))
      ] in
      let v' =
        Valid-put g n now.rels v r rel free refl free
          (AllTyped-set (Other g r) ms i m other (v.others r free))
          (subst (λ k. Readable g.varint k (now.rels r).relation.body) (sym (length-set ms i m))
            (v.readable r free)) in
      let written : typed_at (ms_of r later.rels) i ≡ m.typed_id =
        ap (λ xs. typed_at xs i) at_r
        ∙ ap (λ (x : Member). x.typed_id)
            (get_or-set_self ms i m no_member (omega (arith, len, lt))) in
      Seen-next i level level' later
        (Seen-later i level now later seen f' v' none_cyclical
          (ap (λ (x : Relation). x.is_resolved) (update_self r rel now.rels) ∙ free)
          (λ j before_i.
            ap (λ xs. typed_at xs j) at_r
            ∙ ap (λ (x : Member). x.typed_id)
                (get_or-set_ne ms i j m no_member (λ e. omega (arith, e, before_i))))
          (ap length at_r ∙ length-set ms i m))
        le
        (subst (Fits g later.rels level') (sym written) (
          FoundFits-mono now.rels later.rels level' level' (m.typed_id % 4 == 2)
            (find_child g (m.typed_id / 4)) f'.kept_resolved (omega arith) fits))
