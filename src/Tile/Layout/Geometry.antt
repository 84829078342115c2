-- ===== src/Tile/Layout/Geometry.antt =====
-- Where layout puts its elements.
use geodesk_gol.Prelude.{
  ℕ, zero, suc, ◌+◌, ◌%◌, ◌^◌, ◌≤◌, ◌<◌, ◌≡◌, refl, sym, ap, subst, ◌∙◌, inl, inr, false, List, [],
  ◌∷◌, ◌++◌, length, All, All-append, arith, leb→gt, length-append,
}
use geodesk_gol.Prelude.Int.{pos}
use geodesk_gol.Tile.Element.{
  Element, round_up, set_location, aligned_location-round_up, round_up_bounds,
}
use geodesk_gol.Tile.Queues.{FixedQueue, LinkedQueue}
use geodesk_gol.Tile.Layout.{
  Layout, deferred_queuesize, init, put_at, put, put_oldest, place_deferred, rounds, defer, place,
  flush, place_all, put_oldest_cases, place_cases, flush_loop,
}

-- The elements follow one another from `s` to `e`, each at the first aligned location behind the
-- element before it.
abbrev pub Packed : ℕ → List Element → ℕ → Type 0
Packed s [] e = s ≡ e
Packed s (x ∷ xs) e =
    (x.location ≡ pos (round_up x.alignment s)) × Packed (round_up x.alignment s + x.size) xs e

Packed-concat :
    (s : ℕ) (xs : List Element) (e : ℕ) (x : Element)
    → Packed s xs e
    → Packed s
        (xs ++ set_location x (pos (round_up x.alignment e)) ∷ [])
        (round_up x.alignment e + x.size)
unfolding set_location
Packed-concat s [] e x h =
    subst
      (λ t.
        Packed t (set_location x (pos (round_up x.alignment e)) ∷ [])
          (round_up x.alignment e + x.size))
      (sym h) (refl, refl)
Packed-concat s (y ∷ ys) e x h = (h.0, Packed-concat (round_up y.alignment s + y.size) ys e x h.1)

-- Room for an element with the bytes lost to its alignment.
abbrev pub room : List Element → ℕ
room [] = 0
room (e ∷ es) = e.size + 7 + room es

-- The alignment is a field of two bits.
abbrev pub IsElement : Element → Type 0
IsElement e = e.alignment < 4

room-append : (xs ys : List Element) → room (xs ++ ys) ≡ room xs + room ys
room-append [] ys = omega arith
room-append (x ∷ xs) ys = omega (arith, room-append xs ys)

module _ (F : FixedQueue Element deferred_queuesize) (L : LinkedQueue Element) where
  -- `limit` bounds the tile that is laid out, with all that is deferred.
  pub record IsLaidOut (l : Layout F L) (limit : ℕ) : Type 0 where
    pub packed : Packed 4 (L.to_list l.placed) l.pos_
    pub fits : l.pos_ + room (F.to_list l.deferred) ≤ limit
    pub elements : All IsElement (F.to_list l.deferred)
    pub queued : length (F.to_list l.deferred) ≤ deferred_queuesize

  put_lem :
      (e : Element) (l : Layout F L)
      → IsElement e
      → l.pos_ + e.size + 7 < 2 ^ 31
      → Packed 4 (L.to_list l.placed) l.pos_
      → Packed 4 (L.to_list (put F L e l).placed) (put F L e l).pos_
        × ((put F L e l).pos_ ≤ l.pos_ + e.size + 7)
  unfolding put put_at
  put_lem e l a b p =
      let up = aligned_location-round_up e l.pos_ e.alignment refl a (omega arith) in
      let bounds = round_up_bounds e.alignment l.pos_ a in
      let wrap : (round_up e.alignment l.pos_ + e.size) % 2 ^ 32
          ≡ round_up e.alignment l.pos_ + e.size =
        omega arith in
      rw (up, wrap, L.to_list-add_tail)
        (Packed-concat 4 (L.to_list l.placed) l.pos_ e p, omega arith)

  deferred-put : (e : Element) (l : Layout F L) → (put F L e l).deferred ≡ l.deferred
  unfolding put put_at
  deferred-put e l = refl

  pub put-IsLaidOut :
      (e : Element) (l : Layout F L) (limit : ℕ)
      → limit < 2 ^ 31
      → Packed 4 (L.to_list l.placed) l.pos_
      → l.pos_ + room (e ∷ F.to_list l.deferred) ≤ limit
      → All IsElement (e ∷ F.to_list l.deferred)
      → length (F.to_list l.deferred) ≤ deferred_queuesize
      → IsLaidOut (put F L e l) limit
  put-IsLaidOut e l limit small p fits parts queued =
      let done = put_lem e l parts.0 (omega arith) p in
      let same = ap F.to_list (deferred-put e l) in
      record {
        packed = done.0;
        fits = rw same (omega arith);
        elements = subst (All IsElement) (sym same) parts.1;
        queued = rw same queued;
      }

  pub put_oldest-IsLaidOut :
      (l : Layout F L) (limit : ℕ)
      → limit < 2 ^ 31
      → IsLaidOut l limit
      → IsLaidOut (put_oldest F L l) limit
  put_oldest-IsLaidOut l limit small v = elim (put_oldest_cases F L l) [
    | inl (_, _, e) ↦ rw e v
    | inr (a, r, c, _, e) ↦ rw e (
        put-IsLaidOut a (record l { deferred = r }) limit small v.packed (rw c at v.fits)
          (rw c at v.elements) (omega (arith, ap length c, v.queued)))
  ]

  place_deferred-IsLaidOut :
      (fuel : ℕ) (l : Layout F L) (limit : ℕ)
      → limit < 2 ^ 31
      → IsLaidOut l limit
      → IsLaidOut (place_deferred F L fuel l) limit
  unfolding place_deferred
  place_deferred-IsLaidOut zero l limit small v = v
  place_deferred-IsLaidOut (suc fuel) l limit small v = ground (
    arith,
    place_deferred-IsLaidOut fuel (put_oldest F L l) limit small
        (put_oldest-IsLaidOut l limit small v),
  )

  defer-IsLaidOut :
      (e : Element) (l : Layout F L) (limit : ℕ)
      → F.is_full l.deferred ≡ false
      → IsElement e
      → IsLaidOut l limit
      → IsLaidOut (defer F L e l) (limit + e.size + 7)
  unfolding defer
  defer-IsLaidOut e l limit open_ a v =
      let added = F.to_list-add e l.deferred (sym (F.is_full_lem l.deferred) ∙ open_) in
      record {
        packed = v.packed;
        fits = rw added (omega (arith, room-append (F.to_list l.deferred) (e ∷ [])));
        elements =
            rw added (All-append IsElement (F.to_list l.deferred) (e ∷ []) v.elements (a, tt));
        queued = rw added (
            omega (
              arith,
              length-append (F.to_list l.deferred) (e ∷ []),
              leb→gt _ _ (sym (F.is_full_lem l.deferred) ∙ open_),
            ));
      }

  -- A full queue has room again once its oldest entry is placed.
  put_oldest_room :
      (l : Layout F L)
      → length (F.to_list l.deferred) ≤ deferred_queuesize
      → F.is_full (put_oldest F L l).deferred ≡ false
  put_oldest_room l q = elim (put_oldest_cases F L l) [
    | inl (c, _, e) ↦ rw (e, F.is_full_lem l.deferred, c) refl
    | inr (a, r, c, _, e) ↦
        rw (e, deferred-put a (record l { deferred = r }), F.is_full_lem r)
          (ground (arith, ap length c))
  ]

  -- `place` keeps the elements packed: aligned, in order, and with no overlap; `limit` grows by
  -- the room of the new element.
  pub place-IsLaidOut :
      (e : Element) (l : Layout F L) (limit : ℕ)
      → IsElement e
      → limit + e.size + 7 < 2 ^ 31
      → IsLaidOut l limit
      → IsLaidOut (place F L e l) (limit + e.size + 7)
  place-IsLaidOut e l limit a small v = elim (place_cases F L e l) [
    | inl (_, q) ↦ rw q (
        place_deferred-IsLaidOut _ _ _ small
          (put-IsLaidOut e l _ small v.packed (omega arith) (a, v.elements) v.queued))
    | inr (inl (_, _, q)) ↦ rw q (
        place_deferred-IsLaidOut _ _ _ small (
          defer-IsLaidOut e _ limit (put_oldest_room l v.queued) a
            (put_oldest-IsLaidOut l limit (omega arith) v)))
    | inr (inr (_, open_, q)) ↦ rw q (defer-IsLaidOut e l limit open_ a v)
  ]

  place_all-IsLaidOut :
      (es : List Element) (l : Layout F L) (limit : ℕ)
      → All IsElement es
      → limit + room es < 2 ^ 31
      → IsLaidOut l limit
      → IsLaidOut (place_all F L es l) (limit + room es)
  unfolding place_all
  place_all-IsLaidOut [] l limit a small v = subst (IsLaidOut l) (omega arith) v
  place_all-IsLaidOut (e ∷ es) l limit a small v =
      subst (IsLaidOut (place_all F L es (place F L e l))) (omega arith) (
        place_all-IsLaidOut es (place F L e l) (limit + e.size + 7) a.1 (omega arith)
          (place-IsLaidOut e l limit a.0 (omega arith) v))

  flush_loop-IsLaidOut :
      (fuel : ℕ) (l : Layout F L) (limit : ℕ)
      → limit < 2 ^ 31
      → IsLaidOut l limit
      → IsLaidOut (flush_loop F L fuel l) limit
  unfolding flush_loop
  flush_loop-IsLaidOut zero l limit small v = v
  flush_loop-IsLaidOut (suc fuel) l limit small v = ground (
    arith,
    flush_loop-IsLaidOut fuel (put_oldest F L l) limit small (put_oldest-IsLaidOut l limit small v),
  )

  pub init-IsLaidOut : IsLaidOut (init F L) 4
  unfolding init
  init-IsLaidOut = record {
    packed = rw L.to_list-empty refl;
    fits = rw F.to_list-empty (omega arith);
    elements = rw F.to_list-empty tt;
    queued = rw F.to_list-empty (omega arith);
  }

  -- A whole layout: the elements passed to `place` from the start, and then flushed, are packed
  -- from offset 4, each aligned and behind the one before it, up to the size of the tile, which
  -- loses at most 7 bytes for each element; the elements and this loss are to fit 2 GB.
  pub flush-place_all-packed :
      (es : List Element)
      → All IsElement es
      → 4 + room es < 2 ^ 31
      → (Packed 4
          (L.to_list (flush F L (place_all F L es (init F L))).placed)
          (flush F L (place_all F L es (init F L))).pos_)
        × ((flush F L (place_all F L es (init F L))).pos_ ≤ 4 + room es)
  unfolding flush
  flush-place_all-packed es a small =
      let all = place_all-IsLaidOut es (init F L) 4 a small init-IsLaidOut in
      let v =
        flush_loop-IsLaidOut (rounds F L (place_all F L es (init F L))) _ (4 + room es) small all in
      (v.packed, omega (arith, v.fits))
