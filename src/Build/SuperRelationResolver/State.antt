-- ===== src/Build/SuperRelationResolver/State.antt =====
-- src/build/sort/SuperRelationResolver.cpp: what holds between two steps of the resolver.
use geodesk_gol.Prelude.{
  ℕ, ◌/◌, ◌%◌, ◌≤◌, ◌<◌, ◌≡◌, ◌≢◌, ◌∙◌, refl, Bool, true, false, some, List, [], ◌∷◌, length, ◌==◌,
  arith,
}
use geodesk_gol.Build.SuperRelation.{Member}
use geodesk_gol.Build.SuperRelation.Members.{AllTyped, Readable}
use geodesk_gol.Build.SuperRelationResolver.{
  Relation, Setting, Found, indexed, super_relation, missing, update, find_child,
}
use geodesk_gol.Build.SuperRelationResolver.Changes.{update_cases, clash, ms_of}

-- A child: it is resolved, at a lower level than `level`, or no child that the resolver knows.
abbrev pub FoundFits : (ℕ → Relation) → ℕ → Bool → Found → Type 0
FoundFits rels level false found = Unit
FoundFits rels level true (indexed pile_pair) = Unit
FoundFits rels level true (super_relation c) =
    ((rels c).is_resolved ≡ true) × ((rels c).level < level)
FoundFits rels level true missing = ⊥

abbrev pub FoundOther : ℕ → Bool → Found → Type 0
FoundOther r true (super_relation c) = c ≢ r
FoundOther r _ _ = Unit

pub FoundFits-mono :
    (rels rels' : ℕ → Relation) (l l' : ℕ) (b : Bool) (found : Found)
    → ((p : ℕ) → (rels p).is_resolved ≡ true → rels' p ≡ rels p)
    → l ≤ l'
    → FoundFits rels l b found
    → FoundFits rels' l' b found
FoundFits-mono rels rels' l l' false found same le h = tt
FoundFits-mono rels rels' l l' true (indexed pile_pair) same le h = tt
FoundFits-mono rels rels' l l' true (super_relation c) same le (done, lt) =
    rw (same c done) (done, omega (arith, le, lt))
FoundFits-mono rels rels' l l' true missing same le h = h

pub AllTyped-map :
    (P Q : ℕ → Type 0) (ms : List Member) → ((x : ℕ) → P x → Q x) → AllTyped P ms → AllTyped Q ms
AllTyped-map P Q [] f a = tt
AllTyped-map P Q (m ∷ ms) f (a, rest) = (f m.typed_id a, AllTyped-map P Q ms f rest)

module _ (g : Setting) where
  -- A member of a resolved relation at `level`, by its typed id.
  abbrev pub Fits : (ℕ → Relation) → ℕ → ℕ → Type 0
  Fits rels level typed_id = FoundFits rels level (typed_id % 4 == 2) (find_child g (typed_id / 4))

  -- A member is not the relation `r` itself.
  abbrev pub Other : ℕ → ℕ → Type 0
  Other r typed_id = FoundOther r (typed_id % 4 == 2) (find_child g (typed_id / 4))

  -- The `n` relations: their map by ids, the members of those that are resolved, and of those that
  -- are not, with a body that can be read.
  pub record Valid (n : ℕ) (rels : ℕ → Relation) : Type 0 where
    pub registered : (id c : ℕ) → g.super_relations_by_id id ≡ some c → (c < n) × ((rels c).id ≡ id)
    pub settled :
        (p : ℕ) → (rels p).is_resolved ≡ true → AllTyped (Fits rels (rels p).level) (ms_of p rels)
    pub others : (p : ℕ) → (rels p).is_resolved ≡ false → AllTyped (Other p) (ms_of p rels)
    pub readable :
        (p : ℕ)
        → (rels p).is_resolved ≡ false
        → Readable g.varint (length (ms_of p rels)) (rels p).relation.body

  module _ (n : ℕ) (rels : ℕ → Relation) (v : Valid n rels) (r : ℕ) (rel : Relation)
      (free : (rels r).is_resolved ≡ false) (same_id : rel.id ≡ (rels r).id) where
    abbrev now : ℕ → Relation
    now = update r rel rels

    resolved_stay : (p : ℕ) → (rels p).is_resolved ≡ true → now p ≡ rels p
    resolved_stay =
        update_cases r rel rels (λ p x. (rels p).is_resolved ≡ true → x ≡ rels p)
          (λ h. absurd (clash free h)) (λ p ne h. refl)

    registered_stay : (id c : ℕ) → g.super_relations_by_id id ≡ some c → (c < n) × ((now c).id ≡ id)
    registered_stay id c e =
        let ids : (p : ℕ) → (now p).id ≡ (rels p).id =
          update_cases r rel rels (λ p x. x.id ≡ (rels p).id) same_id (λ p ne. refl) in
        ((v.registered id c e).0, ids c ∙ (v.registered id c e).1)

    still :
        (p : ℕ) → (rels p).is_resolved ≡ true → AllTyped (Fits now (rels p).level) (ms_of p rels)
    still p h =
        AllTyped-map (Fits rels (rels p).level) (Fits now (rels p).level) (ms_of p rels)
          (λ x.
            FoundFits-mono rels now (rels p).level (rels p).level (x % 4 == 2)
              (find_child g (x / 4)) resolved_stay (omega arith))
          (v.settled p h)

    -- A relation that is not resolved is changed.
    pub Valid-put :
        rel.is_resolved ≡ false
        → AllTyped (Other r) rel.relation.members
        → Readable g.varint (length rel.relation.members) rel.relation.body
        → Valid n now
    Valid-put unresolved others readable = record {
      registered = registered_stay;
      settled =
          update_cases r rel rels
            (λ p x. x.is_resolved ≡ true → AllTyped (Fits now x.level) x.relation.members)
            (λ h. absurd (clash unresolved h)) (λ p ne h. still p h);
      others =
          update_cases r rel rels
            (λ p x. x.is_resolved ≡ false → AllTyped (Other p) x.relation.members) (λ h. others)
            (λ p ne h. v.others p h);
      readable =
          update_cases r rel rels
            (λ p x.
              x.is_resolved ≡ false → Readable g.varint (length x.relation.members) x.relation.body)
            (λ h. readable) (λ p ne h. v.readable p h);
    }

    -- A relation becomes resolved.
    pub Valid-resolve_relation :
        rel.is_resolved ≡ true → AllTyped (Fits rels rel.level) rel.relation.members → Valid n now
    Valid-resolve_relation resolved fits = record {
      registered = registered_stay;
      settled =
          update_cases r rel rels
            (λ p x. x.is_resolved ≡ true → AllTyped (Fits now x.level) x.relation.members)
            (λ h.
              AllTyped-map (Fits rels rel.level) (Fits now rel.level) rel.relation.members
                (λ x.
                  FoundFits-mono rels now rel.level rel.level (x % 4 == 2) (find_child g (x / 4))
                    resolved_stay (omega arith))
                fits)
            (λ p ne h. still p h);
      others =
          update_cases r rel rels
            (λ p x. x.is_resolved ≡ false → AllTyped (Other p) x.relation.members)
            (λ h. absurd (clash h resolved)) (λ p ne h. v.others p h);
      readable =
          update_cases r rel rels
            (λ p x.
              x.is_resolved ≡ false → Readable g.varint (length x.relation.members) x.relation.body)
            (λ h. absurd (clash h resolved)) (λ p ne h. v.readable p h);
    }
