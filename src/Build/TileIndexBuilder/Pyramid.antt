-- ===== src/Build/TileIndexBuilder/Pyramid.antt =====
-- What a pass over a tier does to the node counts of the tier above.
use geodesk_gol.Prelude.{
  ℕ, ◌+◌, ◌%◌, ◌^◌, ◌≡◌, ◌≢◌, refl, sym, ap, subst, ◌∙◌, inl, inr, List, [], ◌∷◌, All, All-imp,
  ◌==◌, ==→eq, ne→==, ==_refl, if◌then◌else◌, Bool-cases, arith,
}
use geodesk_gol.Build.TileIndexBuilder.{Grid, STile, Pass, add_parent, add_parents}

-- The nodes of a tile of the parent tier: 0 until the tile is made.
abbrev pub parent_total : Pass → ℕ → ℕ
parent_total p q = if p.known q then (p.heap q).total_node_count else 0

module _ (grid : Grid) (density : ℕ) where
  -- The nodes of the tiles below the tile `q` of a level.
  unfoldable pub children_total : ℕ → (ℕ → STile) → List ℕ → ℕ → ℕ
  children_total level heap [] q = 0
  children_total level heap (ct ∷ cts) q =
      (if grid.zoomed_out ct level == q then (heap ct).total_node_count else 0)
      + children_total level heap cts q

  abbrev below : ℕ → Pass → ℕ
  below ct p = grid.zoomed_out ct p.parent_tier.level

  add_parent-level :
      (ct : ℕ) (p : Pass) → (add_parent grid density ct p).parent_tier.level ≡ p.parent_tier.level
  unfolding add_parent
  add_parent-level ct p = elim (Bool-cases (p.known (below ct p))) [
    | inl k ↦ ground arith
    | inr k ↦ ground arith
  ]

  -- A tile that is neither the child nor its parent keeps its nodes, and so does the child.
  add_parent-other :
      (ct : ℕ) (p : Pass) (t : ℕ)
      → below ct p ≢ t
      → ((add_parent grid density ct p).heap t).total_node_count ≡ (p.heap t).total_node_count
  unfolding add_parent
  add_parent-other ct p t h =
      let apart = ne→== (below ct p) t h in
      elim (Bool-cases (ct == t)) [
        | inl e ↦ ground (arith, apart, e, ==→eq ct t e)
        | inr e ↦ ground (arith, apart, e)
      ]

  add_parent-total :
      (ct : ℕ) (p : Pass) (q : ℕ)
      → below ct p ≢ ct
      → ct ≢ q
      → parent_total (add_parent grid density ct p) q % 2 ^ 64
        ≡ (parent_total p q + (if below ct p == q then (p.heap ct).total_node_count else 0))
          % 2 ^ 64
  unfolding add_parent
  add_parent-total ct p q h g =
      let apart = ne→== (below ct p) ct h in
      let other = ne→== ct q g in
      let self = ==_refl ct in
      elim (Bool-cases (below ct p == q)) [
        | inl e ↦
            let same = ==→eq (below ct p) q e in
            rw (sym same)
              (let one = ==_refl (below ct p) in ground (arith, apart, other, self, one))
        | inr e ↦ ground (arith, apart, other, self, e)
      ]

  children_total-agree :
      (level : ℕ) (heap heap' : ℕ → STile) (cts : List ℕ) (q : ℕ)
      → All (λ ct. (heap' ct).total_node_count ≡ (heap ct).total_node_count) cts
      → children_total level heap' cts q ≡ children_total level heap cts q
  unfolding children_total
  children_total-agree level heap heap' [] q h = refl
  children_total-agree level heap heap' (ct ∷ cts) q h =
      rw (h.0, children_total-agree level heap heap' cts q h.1) refl

  apart :
      ((t l : ℕ) → grid.zoom (grid.zoomed_out t l) ≡ l)
      → (ct level t : ℕ) → grid.zoom t ≢ level
      → grid.zoomed_out ct level ≢ t
  apart zooms ct level t h e = h (sym (ap grid.zoom e) ∙ zooms ct level)

  pass_total :
      ((t l : ℕ) → grid.zoom (grid.zoomed_out t l) ≡ l)
      → (level : ℕ) (cts : List ℕ) (p : Pass) (q : ℕ) → p.parent_tier.level ≡ level
      → All (λ ct. grid.zoom ct ≢ level) cts
      → grid.zoom q ≡ level
      → parent_total (add_parents grid density cts p) q % 2 ^ 64
        ≡ (parent_total p q + children_total level p.heap cts q) % 2 ^ 64
  unfolding add_parents children_total
  pass_total zooms level [] p q e h z = omega arith
  pass_total zooms level (ct ∷ cts) p q e h z =
      let next = add_parent grid density ct p in
      let away : (t : ℕ) → grid.zoom t ≢ level → below ct p ≢ t =
        λ t n. rw e (apart zooms ct level t n) in
      let step = add_parent-total ct p q (away ct h.0) (λ i. h.0 (ap grid.zoom i ∙ z)) in
      let rest = pass_total zooms level cts next q (add_parent-level ct p ∙ e) h.1 z in
      let same = children_total-agree level p.heap next.heap cts q (
        All-imp (λ t. grid.zoom t ≢ level)
          (λ t. (next.heap t).total_node_count ≡ (p.heap t).total_node_count)
          (λ t n. add_parent-other ct p t (away t n)) cts h.1) in
      omega (
        arith,
        rest,
        same,
        subst
            (λ (l : ℕ).
              parent_total next q % 2 ^ 64
              ≡ (parent_total p q
                  + (if grid.zoomed_out ct l == q then (p.heap ct).total_node_count else 0))
                % 2 ^ 64)
            e step,
      )

  -- A pass over the tiles of a tier gives each tile of the tier above the nodes it had plus those
  -- of every tile below it, modulo 2^64, whether or not the tile below is kept. The pass relies on
  -- `zoomedOut` giving a tile of the level asked for, and on the tiles being of another level.
  pub add_parents-total :
      (cts : List ℕ) (p : Pass) (q : ℕ)
      → ((t l : ℕ) → grid.zoom (grid.zoomed_out t l) ≡ l)
      → All (λ ct. grid.zoom ct ≢ p.parent_tier.level) cts
      → grid.zoom q ≡ p.parent_tier.level
      → parent_total (add_parents grid density cts p) q % 2 ^ 64
        ≡ (parent_total p q + children_total p.parent_tier.level p.heap cts q) % 2 ^ 64
  add_parents-total cts p q zooms h z = pass_total zooms p.parent_tier.level cts p q refl h z
