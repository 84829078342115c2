-- ===== src/Build/SuperRelationResolver/Changes.antt =====
-- src/build/sort/SuperRelationResolver.cpp: what a step of the resolver leaves as it was, and a measure
-- of what is left to do.
use geodesk_gol.Prelude.{
  ℕ, zero, suc, ◌+◌, ◌≤◌, ◌<◌, ◌≡◌, ◌≢◌, ◌∙◌, refl, sym, ap, subst, inl, inr, Bool-cases, Bool,
  true, false, List, ◌==◌, ==→eq, ==→ne, ==_refl, ne→==, if◌then◌else◌, arith,
}
use geodesk_gol.Build.SuperRelation.{Member}
use geodesk_gol.Build.SuperRelation.Members.{live}
use geodesk_gol.Build.SuperRelationResolver.{Relation, update}

pub update_self : (r : ℕ) (rel : Relation) (rels : ℕ → Relation) → update r rel rels r ≡ rel
update_self r rel rels = rw (==_refl r) refl

pub update_other :
    (r p : ℕ) (rel : Relation) (rels : ℕ → Relation) → p ≢ r → update r rel rels p ≡ rels p
update_other r p rel rels ne = rw (ne→== r p (λ e. ne (sym e))) refl

pub update_cases :
    (r : ℕ) (rel : Relation) (rels : ℕ → Relation) (P : ℕ → Relation → Type 0)
    → P r rel
    → ((p : ℕ) → p ≢ r → P p (rels p))
    → (p : ℕ) → P p (update r rel rels p)
update_cases r rel rels P here there p = elim (Bool-cases (r == p)) [
  | inl e ↦
      subst (λ k. P k (update r rel rels k)) (==→eq r p e)
        (subst (P r) (sym (update_self r rel rels)) here)
  | inr e ↦
      let ne : p ≢ r = λ same. ==→ne r p e (sym same) in
      subst (P p) (sym (update_other r p rel rels ne)) (there p ne)
]

pub clash : {b : Bool} → b ≡ false → b ≡ true → ⊥
clash denied given = cc

abbrev pub ms_of : ℕ → (ℕ → Relation) → List Member
ms_of p rels = (rels p).relation.members

-- What a relation has left to do: its members, and being entered.
abbrev pub cost : (ℕ → Relation) → ℕ → ℕ
cost rels p = live (ms_of p rels) + (if (rels p).is_pending then 0 else 1)

abbrev pub total : (ℕ → ℕ) → ℕ → ℕ
total f zero = 0
total f (suc n) = total f n + f n

pub total-le : (f h : ℕ → ℕ) (n : ℕ) → ((p : ℕ) → f p ≤ h p) → total f n ≤ total h n
total-le f h zero le = omega arith
total-le f h (suc n) le = omega (arith, total-le f h n le, le n)

pub total-lt :
    (f h : ℕ → ℕ) (n p : ℕ) → ((q : ℕ) → f q ≤ h q) → p < n → f p < h p → total f n < total h n
total-lt f h zero p le lt at = absurd (omega (arith, lt))
total-lt f h (suc n) p le lt at = elim (Bool-cases (p == n)) [
  | inl e ↦
      let here : f n < h n = subst (λ k. f k < h k) (==→eq p n e) at in
      omega (arith, total-le f h n le, here)
  | inr e ↦
      let ne = ==→ne p n e in omega (arith, total-lt f h n p le (grind (arith, ne, lt)) at, le n)
]

-- All but relation `r`: what is pending or resolved stays as it is. Every relation, `r` too, keeps its
-- id, gains no member, and is pending afterwards as before.
pub record Change (r : ℕ) (before now : ℕ → Relation) : Type 0 where
  pub same_pending : (p : ℕ) → (now p).is_pending ≡ (before p).is_pending
  pub kept : (p : ℕ) → p ≢ r → (before p).is_pending ≡ true → now p ≡ before p
  pub kept_resolved : (p : ℕ) → (before p).is_resolved ≡ true → now p ≡ before p
  pub same_id : (p : ℕ) → (now p).id ≡ (before p).id
  pub fewer : (p : ℕ) → live (ms_of p now) ≤ live (ms_of p before)

pub Change-refl : (r : ℕ) (rels : ℕ → Relation) → Change r rels rels
Change-refl r rels = record {
  same_pending = λ p. refl;
  kept = λ p ne h. refl;
  kept_resolved = λ p h. refl;
  same_id = λ p. refl;
  fewer = λ p. omega arith;
}

pub Change-trans : (r : ℕ) (a b c : ℕ → Relation) → Change r a b → Change r b c → Change r a c
Change-trans r a b c f g = record {
  same_pending = λ p. g.same_pending p ∙ f.same_pending p;
  kept = λ p ne h. g.kept p ne (f.same_pending p ∙ h) ∙ f.kept p ne h;
  kept_resolved = λ p h.
      g.kept_resolved p (ap (λ (x : Relation). x.is_resolved) (f.kept_resolved p h) ∙ h)
      ∙ f.kept_resolved p h;
  same_id = λ p. g.same_id p ∙ f.same_id p;
  fewer = λ p. omega (arith, f.fewer p, g.fewer p);
}

-- A change to a relation that is not pending is one for any relation that is.
pub Change-other :
    (c r : ℕ) (a b : ℕ → Relation) → (a c).is_pending ≡ false → Change c a b → Change r a b
Change-other c r a b free f = record {
  same_pending = f.same_pending;
  kept = λ p ne h. f.kept p (λ e. clash (ap (λ k. (a k).is_pending) e ∙ free) h) h;
  kept_resolved = f.kept_resolved;
  same_id = f.same_id;
  fewer = f.fewer;
}

pub cost-le : (r : ℕ) (a b : ℕ → Relation) → Change r a b → (p : ℕ) → cost b p ≤ cost a p
cost-le r a b f p = rw (f.same_pending p) (omega (arith, f.fewer p))

pub Change-put :
    (r : ℕ) (rel : Relation) (rels : ℕ → Relation)
    → (rels r).is_resolved ≡ false
    → rel.is_pending ≡ (rels r).is_pending
    → rel.id ≡ (rels r).id
    → live rel.relation.members ≤ live (ms_of r rels)
    → Change r rels (update r rel rels)
Change-put r rel rels free pending id fewer = record {
  same_pending =
      update_cases r rel rels (λ p now. now.is_pending ≡ (rels p).is_pending) pending
        (λ p ne. refl);
  kept = λ p ne h. update_other r p rel rels ne;
  kept_resolved =
      update_cases r rel rels (λ p now. (rels p).is_resolved ≡ true → now ≡ rels p)
        (λ h. absurd (clash free h)) (λ p ne h. refl);
  same_id = update_cases r rel rels (λ p now. now.id ≡ (rels p).id) id (λ p ne. refl);
  fewer =
      update_cases r rel rels (λ p now. live now.relation.members ≤ live (ms_of p rels)) fewer
        (λ p ne. omega arith);
}
