-- ===== src/Tile/Layout/Tests.antt =====
-- Layout at concrete elements.
use mathlib.Core.List.{Perm}
use geodesk_gol.Prelude.{ℕ, ◌+◌, ◌≡◌, ◌≤◌, refl, List, [], ◌∷◌, ◌++◌, map, arith}
use geodesk_gol.Prelude.Int.{pos}
use geodesk_gol.Tile.Element.{
  Element, aligned_location, set_location, round_up, aligned_location-round_up,
}
use geodesk_gol.Tile.Queues.{
  FixedQueue, LinkedQueue, list_queue, list_chain, list_peek, list_remove,
}
use geodesk_gol.Tile.Layout.Geometry.{Packed, room, init-IsLaidOut, flush-place_all-packed}
use geodesk_gol.Tile.Layout.Contents.{unplaced, flush-place_all-contents}
use geodesk_gol.Tile.Layout.Gaps.{IsGapless, IsSettled, place-IsGapless, place-IsSettled}
use geodesk_gol.Tile.Layout.{
  Layout, deferred_queuesize, init, put_at, put, put_oldest, place_deferred, place, flush,
  flush_loop, place_all, defer,
}

abbrev F : FixedQueue Element deferred_queuesize
F = list_queue Element deferred_queuesize

abbrev L : LinkedQueue Element
L = list_chain Element

abbrev item : ℕ → ℕ → ℕ → Element
item h s a = record { handle = h; size = s; alignment = a; location = pos 0 }

-- A string of 3 bytes, a feature aligned to 4 and a string of one byte.
abbrev items : List Element
items = item 1 3 0 ∷ item 2 24 2 ∷ item 3 1 0 ∷ []

-- The feature waits for the second string, and then follows it with no gap.
items_order :
    (flush F L (place_all F L items (init F L))).placed
    ≡ record (item 1 3 0) { location = pos 4 }
      ∷ record (item 3 1 0) { location = pos 7 }
      ∷ record (item 2 24 2) { location = pos 8 }
      ∷ []
unfolding flush flush_loop place_all place put_at put put_oldest place_deferred defer init
    aligned_location list_peek list_remove set_location
items_order = refl

abbrev start : Layout F L
start = init F L

flush-place_all-packed_example :
    (Packed 4
      (flush F L (place_all F L items start)).placed
      (flush F L (place_all F L items start)).pos_)
    × ((flush F L (place_all F L items start)).pos_ ≤ 4 + room items)
flush-place_all-packed_example = flush-place_all-packed F L items (omega arith) (omega arith)

flush-place_all-contents_example :
    ((flush F L (place_all F L items start)).deferred ≡ [])
    × Perm (map unplaced (flush F L (place_all F L items start)).placed) (map unplaced items ++ [])
unfolding init
flush-place_all-contents_example = flush-place_all-contents F L items start (omega arith)

place-IsGapless_example : IsGapless F L start (place F L (item 2 24 2) start)
unfolding init
place-IsGapless_example =
    place-IsGapless F L (item 2 24 2) start 4 (omega arith) (omega arith) (init-IsLaidOut F L)
      (omega arith)

place-IsSettled_case : IsSettled F L (place F L (item 1 3 0) start)
unfolding init list_peek
place-IsSettled_case = place-IsSettled F L (item 1 3 0) start (λ a p. cc)

aligned_location-round_up_case : aligned_location (item 2 24 2) 7 ≡ 8
unfolding round_up
aligned_location-round_up_case =
    aligned_location-round_up (item 2 24 2) 7 2 refl (omega arith) (omega arith)
