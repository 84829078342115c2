-- ===== src/Build/SuperRelationResolver/Adding.antt =====
-- src/build/sort/SuperRelationResolver.h, add, and resolve after it.
use geodesk_gol.Prelude.{
  ℕ, zero, suc, ◌+◌, ◌/◌, ◌%◌, ◌≤◌, ◌<◌, ◌≡◌, ◌≢◌, ◌∙◌, refl, sym, ap, subst, inl, inr, Bool,
  Bool-cases, true, false, Option, none, some, List, [], ◌∷◌, length, All, ◌==◌, ==→eq,
  if◌then◌else◌, arith,
}
use geodesk_gol.Tes.Wire.{Varint}
use geodesk_gol.Build.SuperRelation.Members.{AllTyped, Readable, live}
use geodesk_gol.Build.SuperRelationResolver.{
  Relation, Resolver, Setting, Found, super_relation, indexed, missing, find_child, update,
  resolve_relations,
}
use geodesk_gol.Build.SuperRelationResolver.Changes.{
  total, cost, update_cases, update_self, update_other, clash,
}
use geodesk_gol.Build.SuperRelationResolver.State.{AllTyped-map, FoundOther, Other, Valid}
use geodesk_gol.Build.SuperRelationResolver.Cycles.{measure}
use geodesk_gol.Build.SuperRelationResolver.Members.{child_of, found_by_id}
use geodesk_gol.Build.SuperRelationResolver.Resolved.{
  listed, Hierarchy, resolve_relations-Hierarchy,
}

-- The queue of relations, and the map by their ids.
pub record Queue : Type 0 where
  pub count : ℕ
  pub rels : ℕ → Relation
  pub by_id : ℕ → Option ℕ

-- `add`
unfoldable pub add : Relation → Queue → Queue
add rel q = record {
  count = suc q.count;
  rels = update q.count rel q.rels;
  by_id = λ id. if rel.id == id then some q.count else q.by_id id;
}

abbrev pub add_relations : List Relation → Queue → Queue
add_relations [] q = q
add_relations (rel ∷ rels) q = add_relations rels (add rel q)

-- What stands behind a pointer that is not in the queue.
abbrev pub nowhere : Relation
nowhere = record {
  relation = record {
    members = [];
    body = [];
    highest_member_zoom = 0;
    missing_member_count = 0;
    removed_refcycle_count = 0;
  };
  id = 0;
  is_resolved = false;
  is_pending = false;
  level = 0;
  tile_pair = 0;
  pile_pair = 0;
}

abbrev pub no_relations : Queue
no_relations = record { count = 0; rels = λ p. nowhere; by_id = λ id. none }

abbrev pub resolver_of : Queue → Resolver
resolver_of q = record { rels = q.rels; cyclical_relations = [] }

abbrev pub setting_of : Setting → Queue → Setting
setting_of g q = record g { super_relations_by_id = q.by_id }

-- A member, by its typed id, is another relation than the one with this id.
abbrev Foreign : ℕ → ℕ → Type 0
Foreign id typed_id = (typed_id % 4 == 2) ≡ true → typed_id / 4 ≢ id

-- A relation as it is added: not yet resolved, not a member of itself, and with a body that has an
-- entry for each member.
abbrev pub IsFresh : Varint → Relation → Type 0
IsFresh v rel =
    (rel.is_resolved ≡ false)
    × (rel.is_pending ≡ false)
    × AllTyped (Foreign rel.id) rel.relation.members
    × Readable v (length rel.relation.members) rel.relation.body

abbrev Registered : Queue → Type 0
Registered q = (id c : ℕ) → q.by_id id ≡ some c → (c < q.count) × ((q.rels c).id ≡ id)

abbrev number : Option ℕ → ℕ → ℕ
number none d = d
number (some c) d = c

absent : {c : ℕ} → none ≡ some c → ⊥
absent h = cc

module _ (v : Varint) where
  abbrev IsAdded : Queue → Type 0
  IsAdded q = Registered q × ((p : ℕ) → IsFresh v (q.rels p))

  add-IsAdded : (rel : Relation) (q : Queue) → IsFresh v rel → IsAdded q → IsAdded (add rel q)
  unfolding add
  add-IsAdded rel q fresh (registered, all_fresh) = (
    (λ id c h. elim (Bool-cases (rel.id == id)) [
      | inl e ↦
          let here : q.count ≡ c = ap (λ o. number o 0) (rw e at h) in
          subst (λ k. (k < suc q.count) × ((update q.count rel q.rels k).id ≡ id)) here
            (
              omega arith,
              ap (λ (x : Relation). x.id) (update_self q.count rel q.rels) ∙ ==→eq rel.id id e,
            )
      | inr e ↦
          let (lt, same) = registered id c (rw e at h) in
          (
            omega (arith, lt),
            ap (λ (x : Relation). x.id)
                  (update_other q.count c rel q.rels (λ k. omega (arith, k, lt)))
                ∙ same,
          )
    ]),
    update_cases q.count rel q.rels (λ p x. IsFresh v x) fresh (λ p ne. all_fresh p),
  )

  add_relations-IsAdded :
      (rels : List Relation) (q : Queue)
      → All (IsFresh v) rels
      → IsAdded q
      → IsAdded (add_relations rels q)
  add_relations-IsAdded [] q fresh a = a
  add_relations-IsAdded (rel ∷ rels) q (here, fresh) a =
      add_relations-IsAdded rels (add rel q) fresh (add-IsAdded rel q here a)

other_of :
    (r : ℕ) (b : Bool) (found : Found)
    → (b ≡ true → (c : ℕ) → found ≡ super_relation c → c ≢ r)
    → FoundOther r b found
other_of r false found h = tt
other_of r true (indexed pile_pair) h = tt
other_of r true (super_relation c) h = h refl c refl
other_of r true missing h = tt

module _ (g : Setting) (q : Queue) (added : IsAdded g.varint q) where
  queue-Valid : Valid (setting_of g q) q.count q.rels
  queue-Valid = record {
    registered = added.0;
    settled = λ p h. absurd (clash (added.1 p).0 h);
    others = λ p h.
        AllTyped-map (Foreign (q.rels p).id) (Other (setting_of g q) p) (q.rels p).relation.members
          (λ x foreign.
            other_of p (x % 4 == 2) (find_child (setting_of g q) (x / 4))
              (λ is_relation c found same. foreign is_relation (
                sym
                  (added.0 (x / 4) c (found_by_id (setting_of g q) (x / 4) c (ap child_of found))).1
                ∙ ap (λ k. (q.rels k).id) same)))
          (added.1 p).2;
    readable = λ p h. (added.1 p).3;
  }

-- A unit of fuel for each relation and for each of its members that are not cleared.
abbrev pub work : List Relation → ℕ
work [] = 0
work (rel ∷ rels) = suc (live rel.relation.members) + work rels

total-below : (f h : ℕ → ℕ) (n : ℕ) → ((p : ℕ) → p < n → f p ≤ h p) → total f n ≤ total h n
total-below f h zero le = omega arith
total-below f h (suc n) le =
    omega (arith, total-below f h n (λ p lt. le p (omega (arith, lt))), le n (omega arith))

module _ (g : Setting) where
  add-measure :
      (rel : Relation) (q : Queue)
      → measure g (add rel q).count (add rel q).rels
        ≤ measure g q.count q.rels + suc (live rel.relation.members)
  unfolding add
  add-measure rel q =
      let now = update q.count rel q.rels in
      let bit : (b : Bool) → (if b then 0 else 1) ≤ 1 =
        λ b. elim (Bool-cases b) [ inl e ↦ rw e (omega arith) | inr e ↦ rw e (omega arith) ] in
      let below : total (cost now) q.count ≤ total (cost q.rels) q.count =
        total-below (cost now) (cost q.rels) q.count (λ p lt.
          subst
            (λ (x : Relation).
              live x.relation.members + (if x.is_pending then 0 else 1) ≤ cost q.rels p)
            (sym (update_other q.count p rel q.rels (λ k. omega (arith, k, lt)))) (omega arith)) in
      let last : cost now q.count ≤ suc (live rel.relation.members) =
        subst
          (λ (x : Relation).
            live x.relation.members + (if x.is_pending then 0 else 1)
            ≤ suc (live rel.relation.members))
          (sym (update_self q.count rel q.rels)) (omega (arith, bit rel.is_pending)) in
      omega (arith, below, last)

  add_relations-measure :
      (rels : List Relation) (q : Queue)
      → measure g (add_relations rels q).count (add_relations rels q).rels
        ≤ measure g q.count q.rels + work rels
  add_relations-measure [] q = omega arith
  add_relations-measure (rel ∷ rels) q =
      omega (arith, add_relations-measure rels (add rel q), add-measure rel q)

  -- Any relations that are added, not resolved and each with a body that can be read and not a member
  -- of itself: with fuel for each relation and each member, resolve ends. Then every relation is
  -- resolved and above all its children, so that they form a hierarchy whatever cycles they had, no
  -- member is missing, and those that are placed are listed with their final levels.
  pub resolve_relations-add_relations :
      (rels : List Relation) (fuel : ℕ)
      → All (IsFresh g.varint) rels
      → work rels ≤ fuel
      → (last : Resolver) × (resolve_relations
            (setting_of g (add_relations rels no_relations))
            fuel
            (add_relations rels no_relations).count
            0
            (resolver_of (add_relations rels no_relations))
          ≡ some (
            listed
                (setting_of g (add_relations rels no_relations))
                (add_relations rels no_relations).count
                (add_relations rels no_relations).count
                0
                last.rels,
            last,
          ))
        × Hierarchy
            (setting_of g (add_relations rels no_relations))
            (add_relations rels no_relations).count
            last.rels
  resolve_relations-add_relations rels fuel fresh enough =
      let q = add_relations rels no_relations in
      let added =
        add_relations-IsAdded g.varint rels no_relations fresh
          ((λ id c h. absurd (absent h)), λ p. (refl, refl, tt, tt)) in
      resolve_relations-Hierarchy (setting_of g q) q.count fuel (resolver_of q) (
        queue-Valid g q added,
        refl,
        (λ p. (added.1 p).1),
        omega (arith, add_relations-measure rels no_relations, enough),
      )
