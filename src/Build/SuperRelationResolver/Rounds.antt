-- ===== src/Build/SuperRelationResolver/Rounds.antt =====
-- src/build/sort/SuperRelationResolver.cpp: the rounds of the loop of resolve over the members.
use geodesk_gol.Prelude.{
  ℕ, zero, suc, ◌+◌, ◌/◌, ◌%◌, ◌≤◌, ◌<◌, ◌≡◌, ◌⊎◌, refl, sym, subst, inl, inr, Bool-cases, false,
  ◌==◌, arith,
}
use geodesk_gol.Build.SuperRelation.Members.{typed_at, AllTyped-of}
use geodesk_gol.Build.SuperRelationResolver.{
  Resolver, Setting, Totals, Answer, find_child, member_at, enter, visit_member, visit_members,
  Visit, visit_stuck, given_up, visited,
}
use geodesk_gol.Build.SuperRelationResolver.State.{FoundFits, Fits}
use geodesk_gol.Build.SuperRelationResolver.Changes.{ms_of}
use geodesk_gol.Build.SuperRelationResolver.Cycles.{Answer-cases, measure, Outcome, Answers}
use geodesk_gol.Build.SuperRelationResolver.Leave.{finish-Outcome}
use geodesk_gol.Build.SuperRelationResolver.Loop.{Seen-next, Seen-put}
use geodesk_gol.Build.SuperRelationResolver.Members.{
  Found-cases, At, start, Visited, take_child_lem,
}
use geodesk_gol.Build.SuperRelationResolver.Calls.{enter_lem}

module _ (g : Setting) (n r : ℕ) (s : Resolver) (r_lt : r < n)
    (unresolved : (s.rels r).is_resolved ≡ false) (idle : (s.rels r).is_pending ≡ false) (size : ℕ)
    (bound fuel : ℕ) (resolve_child : ℕ → Resolver → Answer)
    (answers : Answers g n bound resolve_child)
    (within : measure g n (start g n r s r_lt unresolved idle size).rels ≤ bound)
    (enough : measure g n (start g n r s r_lt unresolved idle size).rels < fuel) where
  abbrev Upto : ℕ → ℕ → Resolver → Type 0
  Upto i level now = At g n r s r_lt unresolved idle size i level now

  visit_member_lem :
      (i : ℕ) (t : Totals) (now : Resolver)
      → i < size
      → Upto i (suc t.max_child_level) now
      → Visited g n r s r_lt unresolved idle size i (visit_member g resolve_child fuel r i t now)
  visit_member_lem i t now lt seen =
      let x = typed_at (ms_of r now.rels) i in
      let level = suc t.max_child_level in
      elim (Bool-cases (x % 4 == 2)) [
        | inr e ↦ rw e (
            Seen-next g n r s r_lt unresolved idle size i level level now seen (omega arith)
              (subst (λ b. FoundFits now.rels level b (find_child g (x / 4))) (sym e) tt))
        | inl e ↦ rw e (elim (Found-cases (find_child g (x / 4))) [
          | inl (pile, found) ↦ rw found (
              Seen-put g n r s r_lt unresolved idle size i level level
                (record (member_at r i now) {
                  pile_pair = pile;
                  tile_pair = g.tile_pair_of_pile_pair pile;
                })
                now lt seen (omega arith) (inr refl)
                (subst (λ f. FoundFits now.rels level (x % 4 == 2) f) (sym found) (rw e tt)))
          | inr (inr found) ↦ rw found (
              Seen-put g n r s r_lt unresolved idle size i level level
                (record (member_at r i now) { typed_id = 0 }) now lt seen (omega arith) (inl refl)
                tt)
          | inr (inl (c, found)) ↦
              let o =
                enter_lem g n r s r_lt unresolved idle size bound fuel resolve_child answers within
                  enough i level c now seen e found in
              rw found (elim (Answer-cases (enter g resolve_child fuel r c now)) [
                | inl eq ↦ absurd (rw eq at o)
                | inr (inr (s', eq)) ↦ rw eq (rw eq at o)
                | inr (inl (s', eq)) ↦
                    let (seen', kind) = rw eq at o in
                    rw eq (take_child_lem g n r s r_lt unresolved idle size i c t s' lt seen' kind)
              ])
        ])
      ]

  Visit-cases :
      (v : Visit)
      → (v ≡ visit_stuck)
        ⊎ (((s' : Resolver) × (v ≡ given_up s'))
            ⊎ ((t : Totals) × (s' : Resolver) × (v ≡ visited t s')))
  Visit-cases visit_stuck = inl refl
  Visit-cases (given_up s') = inr (inl (s', refl))
  Visit-cases (visited t s') = inr (inr (t, s', refl))

  pub visit_members_lem :
      (k i : ℕ) (t : Totals) (now : Resolver)
      → i + k ≡ size
      → Upto i (suc t.max_child_level) now
      → Outcome g n r s (visit_members g resolve_child fuel r k i t now)
  unfolding visit_members
  visit_members_lem zero i t now len (f, v, none_cyclical, free, fits, size_now) =
      finish-Outcome r s unresolved idle g n t now f v none_cyclical free (
        AllTyped-of (Fits g now.rels (suc t.max_child_level)) (ms_of r now.rels)
          (λ j lt. fits j (omega (arith, len, size_now, lt))))
  visit_members_lem (suc k) i t now len seen =
      let o = visit_member_lem i t now (omega (arith, len)) seen in
      elim (Visit-cases (visit_member g resolve_child fuel r i t now)) [
        | inl e ↦ absurd (rw e at o)
        | inr (inl (s', e)) ↦ rw (visit_members, e) (rw e at o)
        | inr (inr (t', s', e)) ↦
            rw (visit_members, e)
              (visit_members_lem k (suc i) t' s' (omega (arith, len)) (rw e at o))
      ]
