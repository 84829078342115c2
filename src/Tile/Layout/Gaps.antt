-- ===== src/Tile/Layout/Gaps.antt =====
-- When layout leaves a gap, and when a deferred element is placed.
use geodesk_gol.Prelude.{
  ℕ, zero, suc, ◌+◌, ◌^◌, ◌≤◌, ◌<◌, ◌≡◌, ◌≢◌, refl, sym, ap, ◌∙◌, inl, inr, false, some, List, [],
  ◌∷◌, ◌++◌, length, ◌==◌, Bool-cases, ==→eq, ==→ne, arith, leb→le,
}
use geodesk_gol.Prelude.Int.{pos}
use geodesk_gol.Tile.Element.{Element, aligned_location, set_location}
use geodesk_gol.Tile.Queues.{FixedQueue, LinkedQueue}
use geodesk_gol.Tile.Layout.Geometry.{
  IsElement, IsLaidOut, room, put_oldest-IsLaidOut, put-IsLaidOut,
}
use geodesk_gol.Tile.Layout.{
  Layout, deferred_queuesize, put_at, put, put_oldest, place_deferred, rounds, defer, place,
  put_oldest_cases, place_cases,
}

-- The bytes of a list of elements.
abbrev pub sizes : List Element → ℕ
sizes [] = 0
sizes (e ∷ es) = e.size + sizes es

sizes-append : (xs ys : List Element) → sizes (xs ++ ys) ≡ sizes xs + sizes ys
sizes-append [] ys = omega arith
sizes-append (x ∷ xs) ys = omega (arith, sizes-append xs ys)

module _ (F : FixedQueue Element deferred_queuesize) (L : LinkedQueue Element) where
  -- Between the two layouts the tile grew by the placed elements only.
  abbrev pub IsGapless : Layout F L → Layout F L → Type 0
  IsGapless l m = m.pos_ + sizes (L.to_list l.placed) ≡ l.pos_ + sizes (L.to_list m.placed)

  put-IsGapless :
      (e : Element) (l : Layout F L)
      → aligned_location e l.pos_ ≡ l.pos_
      → l.pos_ + e.size < 2 ^ 32
      → IsGapless l (put F L e l)
  unfolding put put_at set_location
  put-IsGapless e l fit small =
      rw (fit, L.to_list-add_tail)
        (omega (arith, sizes-append (L.to_list l.placed) (set_location e (pos l.pos_) ∷ [])))

  peek-cons :
      (q : F.Queue) (a b : Element) (r : List Element)
      → F.to_list q ≡ a ∷ r
      → F.peek q ≡ some b
      → a ≡ b
  peek-cons q a b r c p = elim (F.front q) [ inl (n, _, _) ↦ cc | inr (x, _, h, k, _) ↦ cc ]

  place_deferred-IsGapless :
      (fuel : ℕ) (l : Layout F L) (limit : ℕ)
      → limit < 2 ^ 31
      → IsLaidOut F L l limit
      → IsGapless l (place_deferred F L fuel l)
  unfolding place_deferred
  place_deferred-IsGapless zero l limit small v = refl
  place_deferred-IsGapless (suc fuel) l limit small v = elim (put_oldest_cases F L l) [
    | inl (_, p, _) ↦ rw (p, place_deferred) refl
    | inr (a, r, c, p, e) ↦ elim (Bool-cases (aligned_location a l.pos_ == l.pos_)) [
      | inr gap ↦ rw (p, place_deferred, gap) refl
      | inl fit ↦
          let fits : l.pos_ + (a.size + 7 + room (F.to_list r)) ≤ limit = rw c at v.fits in
          let step : IsGapless l (put_oldest F L l) =
            rw e (put-IsGapless a (record l { deferred = r }) (==→eq _ _ fit) (omega arith)) in
          let rest =
            place_deferred-IsGapless fuel (put_oldest F L l) limit small
              (put_oldest-IsLaidOut F L l limit small v) in
          rw (p, place_deferred, fit) (omega arith)
    ]
  ]

  -- As long as fewer than 32 elements are deferred, `place` makes no gap: the tile grows by the
  -- sizes of the elements that it places, and by nothing else.
  pub place-IsGapless :
      (e : Element) (l : Layout F L) (limit : ℕ)
      → IsElement e
      → limit + e.size + 7 < 2 ^ 31
      → IsLaidOut F L l limit
      → length (F.to_list l.deferred) < deferred_queuesize
      → IsGapless l (place F L e l)
  place-IsGapless e l limit a small v free = elim (place_cases F L e l) [
    | inl (fit, q) ↦
        let step = put-IsGapless e l fit (omega (arith, v.fits)) in
        let rest =
          place_deferred-IsGapless (rounds F L (put F L e l)) (put F L e l) (limit + e.size + 7)
            small
            (put-IsLaidOut F L e l (limit + e.size + 7) small v.packed (omega (arith, v.fits))
              (a, v.elements) v.queued) in
        rw q (omega arith)
    | inr (inl (_, full, _)) ↦
        absurd (omega (arith, leb→le _ _ (sym (F.is_full_lem l.deferred) ∙ full)))
    | inr (inr (_, _, q)) ↦ rw q (unfold defer in refl)
  ]

  -- The oldest deferred element, if any, does not fit without a gap.
  abbrev pub IsSettled : Layout F L → Type 0
  IsSettled l = (a : Element) → F.peek l.deferred ≡ some a → aligned_location a l.pos_ ≢ l.pos_

  deferred-put : (e : Element) (l : Layout F L) → (put F L e l).deferred ≡ l.deferred
  unfolding put put_at
  deferred-put e l = refl

  place_deferred-IsSettled :
      (fuel : ℕ) (l : Layout F L)
      → length (F.to_list l.deferred) ≤ fuel
      → IsSettled (place_deferred F L fuel l)
  unfolding place_deferred
  place_deferred-IsSettled zero l h = elim (F.front l.deferred) [
    | inl (_, n, _) ↦ λ a p. cc
    | inr (_, _, c, _, _) ↦ absurd (omega (arith, ap length c))
  ]
  place_deferred-IsSettled (suc fuel) l h = elim (put_oldest_cases F L l) [
    | inl (_, p, _) ↦ rw (p, place_deferred) (λ a q. cc)
    | inr (a, r, c, p, e) ↦ elim (Bool-cases (aligned_location a l.pos_ == l.pos_)) [
      | inr gap ↦
          rw (p, place_deferred, gap)
            (λ b q. rw (peek-cons l.deferred a b (F.to_list r) c q) at (==→ne _ _ gap))
      | inl fit ↦
          rw (p, place_deferred, fit)
            (place_deferred-IsSettled fuel (put_oldest F L l)
              (rw (e, deferred-put a (record l { deferred = r })) (omega (arith, ap length c))))
    ]
  ]

  defer-IsSettled :
      (e : Element) (l : Layout F L)
      → aligned_location e l.pos_ ≢ l.pos_
      → F.is_full l.deferred ≡ false
      → IsSettled l
      → IsSettled (defer F L e l)
  unfolding defer
  defer-IsSettled e l gap open_ s a p =
      let added = F.to_list-add e l.deferred (sym (F.is_full_lem l.deferred) ∙ open_) in
      elim (F.front l.deferred) [
        | inl (c, _, _) ↦
            rw (sym (peek-cons _ e a [] (added ∙ ap (λ (t : List Element). t ++ e ∷ []) c) p)) gap
        | inr (b, r, c, q, _) ↦ s a (
            q
            ∙ ap some (
                peek-cons _ b a (F.to_list r ++ e ∷ [])
                  (added ∙ ap (λ (t : List Element). t ++ e ∷ []) c) p))
      ]

  -- If the oldest deferred element, where there is one, needs a gap before `place`, then so does the
  -- oldest one after it.
  pub place-IsSettled : (e : Element) (l : Layout F L) → IsSettled l → IsSettled (place F L e l)
  place-IsSettled e l s = elim (place_cases F L e l) [
    | inl (_, q) ↦
        rw q (place_deferred-IsSettled (rounds F L (put F L e l)) (put F L e l) (omega arith))
    | inr (inl (_, _, q)) ↦ rw q (
        place_deferred-IsSettled (rounds F L (defer F L e (put_oldest F L l)))
          (defer F L e (put_oldest F L l)) (omega arith))
    | inr (inr (gap, open_, q)) ↦ rw q (defer-IsSettled e l gap open_ s)
  ]
