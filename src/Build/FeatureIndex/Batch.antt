-- ===== src/Build/FeatureIndex/Batch.antt =====
-- src/build/sort/FastFeatureIndex.cpp, a whole batch against its effect on the memory: each entry
-- sets the bits of its pile in one word or two, at once and in place.
use geodesk_gol.Prelude.{
  ℕ, ◌+◌, ◌-◌, ◌*◌, ◌/◌, ◌%◌, ◌^◌, ◌≤◌, ◌<◌, ◌≡◌, ◌∙◌, refl, sym, ap, inl, inr, ltb, Bool-cases,
  bit_or, Option, none, some, List, [], ◌∷◌, ◌==◌, ==→eq, ==_refl, ==→ne, ne→==, subst,
  if◌then◌else◌, arith,
}
use geodesk_gol.Prelude.Bits.{bit_or-zero, zero-bit_or, bit_or_assoc}
use geodesk_gol.Build.FeatureIndex.{
  FeatureIndex, WriteState, not_started, at_start, beyond_start, access, init, write_cell, flush,
  flush_atomic, put, put_all, end_batch,
}
use geodesk_gol.Build.FeatureIndex.Cells.{
  last_cell, last_id, Ascending, cells_ascend, access-last_cell, last_ascends,
}

-- The effect of a batch, a word at a time.
abbrev pub or_cell : ℕ → ℕ → (ℕ → ℕ) → ℕ → ℕ
or_cell p v cells = write_cell p (bit_or (cells p) v) cells

abbrev pub or_pile : ℕ → ℕ → ℕ → (ℕ → ℕ) → ℕ → ℕ
or_pile w id pile cells =
    let ref = access w id in
    let first = or_cell ref.cell ((pile * 2 ^ ref.bit_offset) % 2 ^ 64) cells in
    let overflow = ref.bit_offset + w - 64 in
    if ltb 0 overflow then or_cell (ref.cell + 1) (pile / 2 ^ (w - overflow)) first else first

abbrev pub or_all : ℕ → List (ℕ × ℕ) → (ℕ → ℕ) → ℕ → ℕ
or_all w [] cells = cells
or_all w ((id, pile) ∷ entries) cells = or_all w entries (or_pile w id pile cells)

or_nothing : (p : ℕ) (cells : ℕ → ℕ) → or_cell p 0 cells ≡ cells
or_nothing p cells = λ i q. same q i
  where
    same : (q : ℕ) → or_cell p 0 cells q ≡ cells q
    same q = elim (Bool-cases (p == q)) [
      | inl here ↦ rw here (bit_or-zero (cells p) ∙ ap cells (==→eq p q here))
      | inr e ↦ rw e refl
    ]

or_twice :
    (p u v : ℕ) (cells : ℕ → ℕ) → or_cell p (bit_or u v) cells ≡ or_cell p v (or_cell p u cells)
or_twice p u v cells = λ i q. same q i
  where
    same : (q : ℕ) → or_cell p (bit_or u v) cells q ≡ or_cell p v (or_cell p u cells) q
    same q = elim (Bool-cases (p == q)) [
      | inl here ↦ rw (here, ==_refl p) (sym (bit_or_assoc (cells p) u v))
      | inr e ↦ rw e refl
    ]

-- A word that is blank takes the new value as it is.
write_blank : (p v : ℕ) (cells : ℕ → ℕ) → cells p ≡ 0 → write_cell p v cells ≡ or_cell p v cells
write_blank p v cells blank = rw (blank, zero-bit_or v) refl

-- The state between two entries: word `p` is pending, and from it on, or behind it when it is the
-- batch's first, the words before `end` are blank.
abbrev pub Blank : ℕ → ℕ → (ℕ → ℕ) → WriteState → Type 0
Blank p end cells not_started = ⊥
Blank p end cells at_start = (q : ℕ) → p < q → q < end → cells q ≡ 0
Blank p end cells beyond_start = (q : ℕ) → p ≤ q → q < end → cells q ≡ 0

module _ (max_id w : ℕ) where
  abbrev pub state : (ℕ → ℕ) → Option ℕ → ℕ → WriteState → FeatureIndex
  state cells current pending ws = record {
    cells = cells;
    max_id = max_id;
    current_cell = current;
    cell_data = pending;
    write_state = ws;
    value_width = w;
  }

  -- A state in which word `p` is pending, and the memory with it written.
  record Pending (p end : ℕ) (memory : ℕ → ℕ) (t : FeatureIndex) : Type 0 where
    cells : ℕ → ℕ
    pending : ℕ
    ws : WriteState
    shape : t ≡ state cells (some p) pending ws
    blank : Blank p end cells ws
    holds : or_cell p pending cells ≡ memory

  flush_ready :
      (cells : ℕ → ℕ) (p pending c end : ℕ) (ws : WriteState)
      → Blank p end cells ws
      → p < c
      → c ≤ end
      → (flush (state cells (some p) pending ws)
          ≡ state (or_cell p pending cells) (some p) 0 beyond_start)
        × Blank c end (or_cell p pending cells) beyond_start
  unfolding flush flush_atomic
  flush_ready cells p pending c end not_started b lt le = absurd b
  flush_ready cells p pending c end at_start b lt le =
      (refl, λ q cq qe. rw (ne→== p q (omega arith)) (b q (omega arith) qe))
  flush_ready cells p pending c end beyond_start b lt le = (
    ap (λ cs. state cs (some p) 0 beyond_start)
        (write_blank p pending cells (b p (omega arith) (omega arith))),
    λ q cq qe. rw (ne→== p q (omega arith)) (b q (omega arith) qe),
  )

  -- `put`, from the word of the entry on.
  abbrev add : ℕ → ℕ → FeatureIndex → FeatureIndex
  add id pile t =
      let ref = access w id in
      let added : FeatureIndex = record t {
        current_cell = some ref.cell;
        cell_data = bit_or t.cell_data ((pile * 2 ^ ref.bit_offset) % 2 ^ 64);
      } in
      let overflow = ref.bit_offset + w - 64 in
      if ltb 0 overflow
      then record (flush added) {
        current_cell = some (ref.cell + 1);
        cell_data = pile / 2 ^ (w - overflow);
      }
      else added

  add-Pending :
      (id pile end : ℕ) (cells : ℕ → ℕ) (current : Option ℕ) (pending : ℕ) (ws : WriteState)
      → Blank (access w id).cell end cells ws
      → last_cell w id ≤ end
      → Pending
          (last_cell w id)
          end
          (or_pile w id pile (or_cell (access w id).cell pending cells))
          (add id pile (state cells current pending ws))
  add-Pending id pile end cells current pending ws blank le =
      let c = (access w id).cell in
      let offset = (access w id).bit_offset in
      let bits = (pile * 2 ^ offset) % 2 ^ 64 in
      let high = pile / 2 ^ (w - (offset + w - 64)) in
      elim (Bool-cases (ltb 0 (offset + w - 64))) [
        | inl e ↦ rw e (
            let le' : c + 1 ≤ end = rw e at le in
            let (flushed, blank') =
              flush_ready cells c (bit_or pending bits) (c + 1) end ws blank (omega arith) le' in
            record {
              cells = or_cell c (bit_or pending bits) cells;
              pending = high;
              ws = beyond_start;
              shape =
                  ap
                    (λ (t : FeatureIndex). record t {
                      current_cell = some (c + 1);
                      cell_data = high;
                    })
                    flushed;
              blank = blank';
              holds = ap (or_cell (c + 1) high) (or_twice c pending bits cells);
            })
        | inr e ↦ rw e (record {
          cells = cells;
          pending = bit_or pending bits;
          ws = ws;
          shape = refl;
          blank = blank;
          holds = or_twice c pending bits cells;
        })
      ]

  put-Pending :
      (id pile p end : ℕ) (memory : ℕ → ℕ) (t : FeatureIndex)
      → Pending p end memory t
      → p ≤ (access w id).cell
      → last_cell w id ≤ end
      → Pending (last_cell w id) end (or_pile w id pile memory) (put id pile t)
  unfolding put
  put-Pending id pile p end memory t r le le' =
      let c = (access w id).cell in
      rw r.shape (elim (Bool-cases (c == p)) [
        | inl e ↦ rw e (
            let same = ==→eq c p e in
            subst
              (λ m.
                Pending (last_cell w id) end (or_pile w id pile m)
                  (add id pile (state r.cells (some p) r.pending r.ws)))
              (ap (λ x. or_cell x r.pending r.cells) same ∙ r.holds)
              (add-Pending id pile end r.cells (some p) r.pending r.ws
                (subst (λ x. Blank x end r.cells r.ws) (sym same) r.blank) le'))
        | inr e ↦ rw e (
            let ne = ==→ne c p e in
            let later : p < c = omega (arith, le, ne) in
            let (flushed, blank) =
              flush_ready r.cells p r.pending c end r.ws r.blank later
                (omega (arith, access-last_cell w id, le')) in
            let memory' = or_cell p r.pending r.cells in
            rw flushed (
              subst
                (λ m.
                  Pending (last_cell w id) end (or_pile w id pile m)
                    (add id pile (state memory' (some p) 0 beyond_start)))
                (or_nothing c memory' ∙ r.holds)
                (add-Pending id pile end memory' (some p) 0 beyond_start blank le')))
      ])

  put_fresh :
      (id pile end : ℕ) (cells : ℕ → ℕ)
      → Blank (access w id).cell end cells at_start
      → last_cell w id ≤ end
      → Pending (last_cell w id) end (or_pile w id pile cells) (put id pile (init cells max_id w))
  unfolding put flush
  put_fresh id pile end cells blank le =
      subst
        (λ m.
          Pending (last_cell w id) end (or_pile w id pile m)
            (add id pile (state cells none 0 at_start)))
        (or_nothing (access w id).cell cells)
        (add-Pending id pile end cells none 0 at_start blank le)

  put_all-Pending :
      (id p end : ℕ) (entries : List (ℕ × ℕ)) (memory : ℕ → ℕ) (t : FeatureIndex)
      → 0 < w
      → w ≤ 64
      → Ascending id entries
      → last_cell w (last_id id entries) ≤ end
      → Pending (last_cell w id) end memory t
      → Pending (last_cell w (last_id id entries)) end (or_all w entries memory) (put_all entries t)
  unfolding put_all
  put_all-Pending id p end [] memory t pos bound asc le r = r
  put_all-Pending id p end ((next, pile) ∷ entries) memory t pos bound (lt, asc) le r =
      put_all-Pending next p end entries (or_pile w next pile memory) (put next pile t) pos bound
        asc le
        (put-Pending next pile (last_cell w id) end memory t r (cells_ascend w id next pos bound lt)
          (omega (arith, last_ascends w next entries pos bound asc, le)))

  end-Pending :
      (p end : ℕ) (memory : ℕ → ℕ) (t : FeatureIndex)
      → Pending p end memory t
      → end_batch t ≡ init memory max_id w
  unfolding end_batch flush_atomic
  end-Pending p end memory t r = rw (r.shape, ← r.holds) refl

  -- A batch of entries in ascending order, put into a fresh index and ended, leaves a fresh index
  -- whose memory is the former one with the bits of each entry's pile set in place, an entry at a
  -- time, for every width of 1 to 64 bits, when the words strictly between the first and the last
  -- one that the batch reaches are blank. The first and the last may hold bits of other batches.
  pub batch_implements_or_all :
      (cells : ℕ → ℕ) (id pile : ℕ) (entries : List (ℕ × ℕ))
      → 0 < w
      → w ≤ 64
      → Ascending id entries
      → ((q : ℕ) → (access w id).cell < q → q < last_cell w (last_id id entries) → cells q ≡ 0)
      → end_batch (put_all ((id, pile) ∷ entries) (init cells max_id w))
        ≡ init (or_all w ((id, pile) ∷ entries) cells) max_id w
  unfolding put_all
  batch_implements_or_all cells id pile entries pos bound asc blank =
      let end = last_cell w (last_id id entries) in
      let within = last_ascends w id entries pos bound asc in
      end-Pending end end (or_all w ((id, pile) ∷ entries) cells)
        (put_all ((id, pile) ∷ entries) (init cells max_id w))
        (put_all-Pending id 0 end entries (or_pile w id pile cells)
          (put id pile (init cells max_id w)) pos bound asc (omega arith)
          (put_fresh id pile end cells blank within))
