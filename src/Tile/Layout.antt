-- ===== src/Tile/Layout.antt =====
-- src/tile/model/Layout.h and Layout.cpp: the order and the locations of a tile's elements.
-- The assertions of the source do not run in a release build and are no part of the functions.
use geodesk_gol.Prelude.{
  ℕ, zero, suc, ◌+◌, ◌%◌, ◌^◌, ◌≡◌, refl, ◌⊎◌, inl, inr, none, some, List, [], ◌∷◌, length, ◌==◌,
  if◌then◌else◌, ◌≢◌, true, false, Bool-cases, ==→eq, ==→ne,
}
pub mod Geometry
pub mod Contents
pub mod Gaps
mod Tests
use geodesk_gol.Prelude.Int.{pos, negsuc}
use geodesk_gol.Tile.Element.{Element, aligned_location, set_location}
use geodesk_gol.Tile.Queues.{FixedQueue, LinkedQueue}

-- `DEFERRED_QUEUESIZE`
abbrev pub deferred_queuesize : ℕ
deferred_queuesize = 32

module _ (F : FixedQueue Element deferred_queuesize) (L : LinkedQueue Element) where
  pub record Layout : Type 0 where
    pub placed : L.Chain
    pub bodies : L.Chain
    pub deferred : F.Queue
    pub pos_ : ℕ

  pub init : Layout
  init = record { placed = L.empty; bodies = L.empty; deferred = F.empty; pos_ = 4 }

  -- `put(elem, pos)`
  pub put_at : Element → ℕ → Layout → Layout
  put_at e p l = record l {
    pos_ = (p + e.size) % 2 ^ 32;
    placed = L.add_tail (set_location e (pos p)) l.placed;
  }

  -- `put(elem)`
  pub put : Element → Layout → Layout
  put e l = put_at e (aligned_location e l.pos_) l

  -- `put(deferred_.remove())`
  pub put_oldest : Layout → Layout
  put_oldest l = elim (F.remove l.deferred) [
    | none ↦ l
    | some (e, q) ↦ put e (record l { deferred = q })
  ]

  -- The loop that places the deferred elements as long as the oldest fits without a gap.
  pub place_deferred : ℕ → Layout → Layout
  place_deferred zero l = l
  place_deferred (suc fuel) l = elim (F.peek l.deferred) [
    | none ↦ l
    | some e ↦
        let rest = place_deferred fuel (put_oldest l) in
        if aligned_location e l.pos_ == l.pos_ then rest else l
  ]

  abbrev pub rounds : Layout → ℕ
  rounds l = length (F.to_list l.deferred)

  pub defer : Element → Layout → Layout
  defer e l = record l { deferred = F.add e l.deferred }

  pub place : Element → Layout → Layout
  place e l =
      if aligned_location e l.pos_ == l.pos_
      then (let placed = put_at e (aligned_location e l.pos_) l in
          place_deferred (rounds placed) placed)
      else if F.is_full l.deferred
      then (let forced = defer e (put_oldest l) in place_deferred (rounds forced) forced)
      else defer e l

  pub flush_loop : ℕ → Layout → Layout
  flush_loop zero l = l
  flush_loop (suc fuel) l = elim (F.peek l.deferred) [
    | none ↦ l
    | some _ ↦ flush_loop fuel (put_oldest l)
  ]

  pub flush : Layout → Layout
  flush l = flush_loop (rounds l) l

  pub place_all : List Element → Layout → Layout
  place_all [] l = l
  place_all (e ∷ es) l = place_all es (place e l)

  pub add_body_element : Element → Layout → Layout
  add_body_element e l = record l { bodies = L.add_tail (set_location e (negsuc 0)) l.bodies }

  pub place_bodies : Layout → Layout
  place_bodies l = flush (place_all (L.to_list l.bodies) l)

  -- The cases of `put_oldest` and of the queue's front.
  pub put_oldest_cases :
      (l : Layout)
      → ((F.to_list l.deferred ≡ []) × (F.peek l.deferred ≡ none) × (put_oldest l ≡ l))
        ⊎ ((a : Element) × (r : F.Queue) × (F.to_list l.deferred ≡ a ∷ F.to_list r)
            × (F.peek l.deferred ≡ some a)
            × (put_oldest l ≡ put a (record l { deferred = r })))
  unfolding put_oldest
  put_oldest_cases l = elim (F.front l.deferred) [
    | inl (c, p, e) ↦ inl (c, p, rw (e, put_oldest))
    | inr (a, r, c, p, e) ↦ inr (a, r, c, p, rw (e, put_oldest))
  ]

  -- The three ways through `place`.
  pub place_cases :
      (e : Element) (l : Layout)
      → ((aligned_location e l.pos_ ≡ l.pos_)
          × (place e l ≡ place_deferred (rounds (put e l)) (put e l)))
        ⊎ ((aligned_location e l.pos_ ≢ l.pos_)
            × (F.is_full l.deferred ≡ true)
            × (place e l
                ≡ place_deferred (rounds (defer e (put_oldest l))) (defer e (put_oldest l))))
        ⊎ ((aligned_location e l.pos_ ≢ l.pos_)
            × (F.is_full l.deferred ≡ false)
            × (place e l ≡ defer e l))
  unfolding place put
  place_cases e l = elim (Bool-cases (aligned_location e l.pos_ == l.pos_)) [
    | inl fit ↦ inl (==→eq _ _ fit, rw fit refl)
    | inr gap ↦ elim (Bool-cases (F.is_full l.deferred)) [
      | inl full ↦ inr (inl (==→ne _ _ gap, full, rw (gap, full) refl))
      | inr open_ ↦ inr (inr (==→ne _ _ gap, open_, rw (gap, open_) refl))
    ]
  ]
