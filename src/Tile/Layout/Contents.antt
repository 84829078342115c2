-- ===== src/Tile/Layout/Contents.antt =====
-- Which elements layout places.
use mathlib.Core.List.{Perm, perm_middle, perm_append_singleton, map-append}
use mathlib.Core.List.Perm
use geodesk_gol.Prelude.{
  ℕ, zero, suc, ◌≤◌, ◌≡◌, refl, sym, ap, ◌∙◌, inl, inr, false, List, [], ◌∷◌, ◌++◌, map, length,
  append-nil, append_assoc, arith, leb→gt, length-append, nil_of_length,
}
use geodesk_gol.Prelude.Int.{pos}
use geodesk_gol.Tile.Element.{Element, set_location}
use geodesk_gol.Tile.Queues.{FixedQueue, LinkedQueue}
use geodesk_gol.Tile.Layout.{
  Layout, deferred_queuesize, put_at, put, put_oldest, place_deferred, rounds, defer, place, flush,
  flush_loop, place_all, place_bodies, put_oldest_cases, place_cases,
}

-- An element but for its location, which layout decides.
abbrev pub unplaced : Element → Element
unplaced e = record e { location = pos 0 }

module _ (F : FixedQueue Element deferred_queuesize) (L : LinkedQueue Element) where
  -- What is placed, and what waits.
  abbrev pub contents : Layout F L → List Element
  contents l = map unplaced (L.to_list l.placed) ++ map unplaced (F.to_list l.deferred)

  placed-put :
      (e : Element) (l : Layout F L)
      → map unplaced (L.to_list (put F L e l).placed)
        ≡ map unplaced (L.to_list l.placed) ++ unplaced e ∷ []
  unfolding put put_at set_location
  placed-put e l = rw L.to_list-add_tail (map-append _ _ _)

  deferred-put : (e : Element) (l : Layout F L) → (put F L e l).deferred ≡ l.deferred
  unfolding put put_at
  deferred-put e l = refl

  contents-put :
      (e : Element) (l : Layout F L) → Perm (contents (put F L e l)) (unplaced e ∷ contents l)
  contents-put e l =
      rw (placed-put e l, deferred-put e l, append_assoc)
        (perm_middle (map unplaced (L.to_list l.placed)) (map unplaced (F.to_list l.deferred)))

  contents-put_oldest : (l : Layout F L) → contents (put_oldest F L l) ≡ contents l
  contents-put_oldest l = elim (put_oldest_cases F L l) [
    | inl (_, _, e) ↦ rw e refl
    | inr (a, r, c, _, e) ↦
        rw
          (
            e,
            placed-put a (record l { deferred = r }),
            deferred-put a (record l { deferred = r }),
            c,
            append_assoc,
          )
          refl
  ]

  contents-place_deferred :
      (fuel : ℕ) (l : Layout F L) → contents (place_deferred F L fuel l) ≡ contents l
  unfolding place_deferred
  contents-place_deferred zero l = refl
  contents-place_deferred (suc fuel) l =
      ground (arith, contents-place_deferred fuel (put_oldest F L l), contents-put_oldest l)

  contents-flush_loop : (fuel : ℕ) (l : Layout F L) → contents (flush_loop F L fuel l) ≡ contents l
  unfolding flush_loop
  contents-flush_loop zero l = refl
  contents-flush_loop (suc fuel) l =
      ground (arith, contents-flush_loop fuel (put_oldest F L l), contents-put_oldest l)

  abbrev IsQueued : Layout F L → Type 0
  IsQueued l = length (F.to_list l.deferred) ≤ deferred_queuesize

  contents-defer :
      (e : Element) (l : Layout F L)
      → F.is_full l.deferred ≡ false
      → Perm (contents (defer F L e l)) (unplaced e ∷ contents l)
  unfolding defer
  contents-defer e l open_ =
      rw
        (
          F.to_list-add e l.deferred (sym (F.is_full_lem l.deferred) ∙ open_),
          map-append,
          ← append_assoc,
        )
        (perm_append_singleton (unplaced e) (contents l))

  IsQueued-put : (e : Element) (l : Layout F L) → IsQueued l → IsQueued (put F L e l)
  IsQueued-put e l q = rw (deferred-put e l) q

  IsQueued-put_oldest :
      (l : Layout F L)
      → IsQueued l
      → IsQueued (put_oldest F L l) × (F.is_full (put_oldest F L l).deferred ≡ false)
  IsQueued-put_oldest l q = elim (put_oldest_cases F L l) [
    | inl (c, _, e) ↦ rw e (q, rw (F.is_full_lem l.deferred, c) refl)
    | inr (a, r, c, _, e) ↦
        rw (e, deferred-put a (record l { deferred = r }), F.is_full_lem r)
          (omega (arith, ap length c), ground (arith, ap length c))
  ]

  IsQueued-place_deferred :
      (fuel : ℕ) (l : Layout F L) → IsQueued l → IsQueued (place_deferred F L fuel l)
  unfolding place_deferred
  IsQueued-place_deferred zero l q = q
  IsQueued-place_deferred (suc fuel) l q =
      ground (arith, IsQueued-place_deferred fuel (put_oldest F L l) (IsQueued-put_oldest l q).0)

  IsQueued-defer :
      (e : Element) (l : Layout F L) → F.is_full l.deferred ≡ false → IsQueued (defer F L e l)
  unfolding defer
  IsQueued-defer e l open_ =
      let free = sym (F.is_full_lem l.deferred) ∙ open_ in
      rw (F.to_list-add e l.deferred free)
        (omega (arith, length-append (F.to_list l.deferred) (e ∷ []), leb→gt _ _ free))

  IsQueued-place : (e : Element) (l : Layout F L) → IsQueued l → IsQueued (place F L e l)
  IsQueued-place e l q = elim (place_cases F L e l) [
    | inl (_, p) ↦ rw p (IsQueued-place_deferred _ _ (IsQueued-put e l q))
    | inr (inl (_, _, p)) ↦
        rw p (IsQueued-place_deferred _ _ (IsQueued-defer e _ (IsQueued-put_oldest l q).1))
    | inr (inr (_, open_, p)) ↦ rw p (IsQueued-defer e l open_)
  ]

  contents-place :
      (e : Element) (l : Layout F L)
      → IsQueued l
      → Perm (contents (place F L e l)) (unplaced e ∷ contents l)
  contents-place e l q = elim (place_cases F L e l) [
    | inl (_, p) ↦ rw (p, contents-place_deferred) (contents-put e l)
    | inr (inl (_, _, p)) ↦
        rw (p, contents-place_deferred)
          (rw (contents-put_oldest l) at
            (contents-defer e (put_oldest F L l) (IsQueued-put_oldest l q).1))
    | inr (inr (_, open_, p)) ↦ rw p (contents-defer e l open_)
  ]

  contents-place_all :
      (es : List Element) (l : Layout F L)
      → IsQueued l
      → Perm (contents (place_all F L es l)) (map unplaced es ++ contents l)
  unfolding place_all
  contents-place_all [] l q = Perm.refl _
  contents-place_all (e ∷ es) l q =
      Perm.trans (contents-place_all es (place F L e l) (IsQueued-place e l q))
        (Perm.trans (Perm.append_left (map unplaced es) (contents-place e l q)) (perm_middle _ _))

  flush_loop_empties :
      (fuel : ℕ) (l : Layout F L)
      → length (F.to_list l.deferred) ≤ fuel
      → F.to_list (flush_loop F L fuel l).deferred ≡ []
  unfolding flush_loop
  flush_loop_empties zero l h = nil_of_length _ h
  flush_loop_empties (suc fuel) l h = elim (put_oldest_cases F L l) [
    | inl (c, p, e) ↦ rw (p, flush_loop) c
    | inr (a, r, c, p, e) ↦
        rw (p, flush_loop)
          (flush_loop_empties fuel (put_oldest F L l)
            (rw (e, deferred-put a (record l { deferred = r })) (omega (arith, ap length c))))
  ]

  -- Placing a list of elements and flushing leaves no element deferred, if no more than 32 were at
  -- the start, and adds each element of the list and each deferred one to the placed ones once.
  pub flush-place_all-contents :
      (es : List Element) (l : Layout F L)
      → length (F.to_list l.deferred) ≤ deferred_queuesize
      → (F.to_list (flush F L (place_all F L es l)).deferred ≡ [])
        × Perm
            (map unplaced (L.to_list (flush F L (place_all F L es l)).placed))
            (map unplaced es ++ contents l)
  unfolding flush
  flush-place_all-contents es l q =
      let before = place_all F L es l in
      let empty = flush_loop_empties (rounds F L before) before (omega arith) in
      let same : map unplaced (L.to_list (flush_loop F L (rounds F L before) before).placed)
          ≡ contents before =
        sym (append-nil _)
        ∙ ap
            (λ (t : List Element).
              map unplaced (L.to_list (flush_loop F L (rounds F L before) before).placed)
              ++ map unplaced t)
            (sym empty)
        ∙ contents-flush_loop (rounds F L before) before in
      (empty, rw same (contents-place_all es l q))

  -- `placeBodies` places each body that was added, once, behind all that is placed or deferred.
  pub place_bodies-contents :
      (l : Layout F L)
      → length (F.to_list l.deferred) ≤ deferred_queuesize
      → (F.to_list (place_bodies F L l).deferred ≡ [])
        × Perm
            (map unplaced (L.to_list (place_bodies F L l).placed))
            (map unplaced (L.to_list l.bodies) ++ contents l)
  unfolding place_bodies
  place_bodies-contents l q = flush-place_all-contents (L.to_list l.bodies) l q
