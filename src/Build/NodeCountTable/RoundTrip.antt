-- ===== src/Build/NodeCountTable/RoundTrip.antt =====
-- src/build/analyze/NodeCountTable.cpp: a table that is saved and loaded.
use geodesk_gol.Prelude.{
  ℕ, zero, suc, ◌+◌, ◌*◌, ◌≤◌, ◌<◌, ◌≡◌, ◌∙◌, refl, sym, ap, ap₂, subst, inl, inr, Bool-cases, List,
  [], ◌∷◌, ◌++◌, ◌==◌, ==→eq, ==→ne, ne→==, arith,
}
use geodesk_gol.Build.StringStatistics.{put_at}
use geodesk_gol.Build.NodeCountTable.{
  Tiles, SavedCount, cleared, cell, save_columns, save_rows, save, load,
}

-- Cells before `base` have their counts, and those from `base` on none yet.
record Loaded (counts : ℕ → ℕ) (base : ℕ) (table : ℕ → ℕ) : Type 0 where
  before : (i : ℕ) → i < base → table i ≡ counts i
  after : (i : ℕ) → base ≤ i → table i ≡ 0

skip-Loaded :
    (counts : ℕ → ℕ) (base : ℕ) (table : ℕ → ℕ)
    → counts base ≡ 0
    → Loaded counts base table
    → Loaded counts (base + 1) table
skip-Loaded counts base table none r = record {
  before = λ i lt. elim (Bool-cases (i == base)) [
    | inl e ↦ let same = ==→eq i base e in rw same (r.after base (omega arith) ∙ sym none)
    | inr e ↦ r.before i (omega (arith, lt, ==→ne i base e))
  ];
  after = λ i le. r.after i (omega (arith, le));
}

put-Loaded :
    (counts : ℕ → ℕ) (base : ℕ) (table : ℕ → ℕ)
    → Loaded counts base table
    → Loaded counts (base + 1) (put_at base (counts base) table)
put-Loaded counts base table r = record {
  before = λ i lt. elim (Bool-cases (base == i)) [
    | inl e ↦ rw e (ap counts (==→eq base i e))
    | inr e ↦ rw e (r.before i (omega (arith, lt, ==→ne base i e)))
  ];
  after = λ i le. rw (ne→== base i (omega (arith, le))) (r.after i (omega (arith, le)));
}

module _ (extent : ℕ) (t : Tiles extent) where
  load-append :
      (xs ys : List SavedCount) (table : ℕ → ℕ)
      → load extent t (xs ++ ys) table ≡ load extent t ys (load extent t xs table)
  unfolding load
  load-append [] ys table = refl
  load-append (x ∷ xs) ys table =
      load-append xs ys (put_at (cell extent t (t.column x.tile) (t.row x.tile)) x.count table)

  load-columns :
      (n col row : ℕ) (counts table : ℕ → ℕ)
      → col + n ≤ extent
      → row < extent
      → Loaded counts (row * extent + col) table
      → Loaded counts
          (row * extent + (col + n))
          (load extent t (save_columns extent t n col row counts) table)
  unfolding save_columns load
  load-columns zero col row counts table le lt r =
      let same : row * extent + col ≡ row * extent + (col + 0) = omega arith in
      subst (λ b. Loaded counts b table) same r
  load-columns (suc n) col row counts table le lt r =
      let base = row * extent + col in
      let next : base + 1 ≡ row * extent + (col + 1) = omega arith in
      let last : row * extent + ((col + 1) + n) ≡ row * extent + (col + suc n) = omega arith in
      elim (Bool-cases (counts base == 0)) [
        | inl e ↦ rw e (
            subst
              (λ b.
                Loaded counts b
                  (load extent t (save_columns extent t n (col + 1) row counts) table))
              last
              (load-columns n (col + 1) row counts table (omega (arith, le)) lt (
                subst (λ b. Loaded counts b table) next
                  (skip-Loaded counts base table (==→eq (counts base) 0 e) r))))
        | inr e ↦ rw e (
            let tile = t.of_column_row col row in
            let in_row : col < extent = omega (arith, le) in
            let stored : base ≡ cell extent t (t.column tile) (t.row tile) =
              sym (
                ap₂ (cell extent t) (t.column_of col row in_row lt) (t.row_of col row in_row lt)) in
            let table' = put_at (cell extent t (t.column tile) (t.row tile)) (counts base) table in
            subst
              (λ b.
                Loaded counts b
                  (load extent t (save_columns extent t n (col + 1) row counts) table'))
              last
              (load-columns n (col + 1) row counts table' (omega (arith, le)) lt (
                subst (λ b. Loaded counts b table') next
                  (subst (λ b. Loaded counts (base + 1) (put_at b (counts base) table)) stored
                    (put-Loaded counts base table r)))))
      ]

  load-rows :
      (n row : ℕ) (counts table : ℕ → ℕ)
      → row + n ≤ extent
      → Loaded counts (row * extent) table
      → Loaded counts ((row + n) * extent) (load extent t (save_rows extent t n row counts) table)
  unfolding save_rows load
  load-rows zero row counts table le r =
      let same : row * extent ≡ (row + 0) * extent = ap (λ (k : ℕ). k * extent) (omega arith) in
      subst (λ b. Loaded counts b table) same r
  load-rows (suc n) row counts table le r =
      let here = save_columns extent t extent 0 row counts in
      let rest = save_rows extent t n (row + 1) counts in
      let table' = load extent t here table in
      let start : row * extent ≡ row * extent + 0 = omega arith in
      let next : row * extent + (0 + extent) ≡ (row + 1) * extent = omega arith in
      let last : ((row + 1) + n) * extent ≡ (row + suc n) * extent =
        ap (λ (k : ℕ). k * extent) (omega arith) in
      rw (load-append here rest table) (
        subst (λ b. Loaded counts b (load extent t rest table')) last
          (load-rows n (row + 1) counts table' (omega (arith, le)) (
            subst (λ b. Loaded counts b table') next
              (load-columns extent 0 row counts table (omega arith) (omega (arith, le))
                (subst (λ b. Loaded counts b table) start r)))))

  -- A table that is saved and loaded into a cleared one has the same count in every cell of the grid;
  -- the cell behind the grid, for rejected nodes, is not saved.
  pub load-save :
      (counts : ℕ → ℕ)
      → ((i : ℕ) → i < extent * extent → load extent t (save extent t counts) cleared i ≡ counts i)
        × ((i : ℕ) → extent * extent ≤ i → load extent t (save extent t counts) cleared i ≡ 0)
  unfolding save
  load-save counts =
      let start : Loaded counts (0 * extent) cleared = record {
        before = λ i lt. absurd (omega (arith, lt));
        after = λ i le. refl;
      } in
      let all = load-rows extent 0 counts cleared (omega arith) start in
      let end : (0 + extent) * extent ≡ extent * extent = omega arith in
      let loaded : Loaded counts (extent * extent) (load extent t (save extent t counts) cleared) =
        subst (λ b. Loaded counts b (load extent t (save extent t counts) cleared)) end all in
      (loaded.before, loaded.after)
