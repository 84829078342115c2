-- ===== src/Build/StringStatistics/Lookup.antt =====
-- src/build/util/StringStatistics.cpp, getCounter, addString and addRequiredCounter against a plain
-- list of tallies.
use geodesk_gol.Prelude.{
  ℕ, true, false, not, ◌+◌, ◌%◌, ◌<◌, ◌≡◌, ◌⊎◌, ◌∙◌, refl, sym, ap, ap₂, subst, inl, inr,
  Bool-cases, List, [], ◌∷◌, map, All, ◌==◌, ==→eq, ne→==, if◌then◌else◌, ltb, ltb→lt, ltb→ge, ◌≤◌,
  arith,
}
use geodesk_gol.Build.StringStatistics.{
  StringStatistics, Counter, put_at, gross_size, fresh, place, find_counter, get_counter, add_at,
  add_counter, add_string,
}
use geodesk_gol.Build.StringStatistics.Entries.{
  Tally, tally_of, Linked, SameShape, relink, Laid, Laid-bound, Laid-below, relay, Holds,
  put_at_self, put_at_other,
}
use geodesk_gol.Build.StringStatistics.Search.{
  is_tally, has, bump, tally, first, find_counter-first, first-has, first-below, unchanged,
  same_below, positive, first_new,
}

module _ (total_size : ℕ → ℕ) where
  Laid-pos :
      (arena : ℕ → Counter) (p : ℕ) (os : List ℕ) → Laid total_size arena p os → All (λ o. 0 < o) os
  Laid-pos arena p [] laid = tt
  Laid-pos arena p (o ∷ os) (at, laid) =
      (omega (arith, Laid-bound total_size arena o os laid), Laid-pos arena o os laid)

  -- Adding to the counter that the search found adds to the tally.
  add_found :
      (arena : ℕ → Counter) (p ofs : ℕ) (c : Counter) (os : List ℕ)
      → Laid total_size arena p os
      → ofs ≡ first arena c.string c.hash os
      → map (λ o. tally_of (put_at ofs (add_counter c (arena ofs)) arena o)) os
        ≡ bump c (map (λ o. tally_of (arena o)) os)
  add_found arena p ofs c [] laid found = refl
  add_found arena p ofs c (o ∷ os) (at, laid) found =
      let below = Laid-below total_size arena o os laid in
      elim (Bool-cases (is_tally c.string c.hash (tally_of (arena o)))) [
        | inl e ↦
            let here : ofs ≡ o = rw e at found in
            subst
              (λ (k : ℕ).
                map (λ x. tally_of (put_at k (add_counter c (arena k)) arena x)) (o ∷ os)
                ≡ bump c (map (λ x. tally_of (arena x)) (o ∷ os)))
              (sym here)
              (rw e (
                ap₂ ◌∷◌ (ap tally_of (put_at_self o (add_counter c (arena o)) arena))
                  (unchanged arena o (add_counter c (arena o)) os below)))
        | inr e ↦
            let later : ofs ≡ first arena c.string c.hash os = rw e at found in
            let lt =
              first-below arena c.string c.hash o os
                (omega (arith, Laid-bound total_size arena o os laid)) below in
            rw e (
              ap₂ ◌∷◌
                (ap tally_of (
                  put_at_other ofs o (add_counter c (arena ofs)) arena
                    (ne→== ofs o (omega (arith, later, lt)))))
                (add_found arena o ofs c os laid later))
      ]

  SameShape-added :
      (arena : ℕ → Counter) (ofs : ℕ) (c : Counter) (os : List ℕ)
      → All (SameShape arena (put_at ofs (add_counter c (arena ofs)) arena)) os
  SameShape-added arena ofs c [] = tt
  SameShape-added arena ofs c (o ∷ os) = (here, SameShape-added arena ofs c os)
    where
      here : SameShape arena (put_at ofs (add_counter c (arena ofs)) arena) o
      here = elim (Bool-cases (ofs == o)) [
        | inl e ↦ let same = ==→eq ofs o e in rw (e, same) (refl, refl, refl)
        | inr e ↦ rw e (refl, refl, refl)
      ]

  -- A new counter at the head of its chain.
  pub link_new :
      (arena : ℕ → Counter) (table : ℕ → ℕ) (size p : ℕ) (c : Counter) (os : List ℕ)
      → 0 < p
      → All (λ o. o < p) os
      → c.next ≡ table (c.hash % size)
      → ((s : ℕ) → Linked arena size s (table s) os)
      → (s : ℕ) → Linked (put_at p c arena) size s (put_at (c.hash % size) p table s) (p ∷ os)
  link_new arena table size p c os pos below next linked s =
      let chain : (head : ℕ)
          → Linked arena size s head os
          → Linked (put_at p c arena) size s head os =
        λ head. relink arena (put_at p c arena) size s head os (same_below arena p c os below) in
      rw (put_at_self p c arena) (elim (Bool-cases (c.hash % size == s)) [
        | inl e ↦
            rw e (refl, pos, rw (next, ==→eq (c.hash % size) s e) (chain (table s) (linked s)))
        | inr e ↦ rw e (chain (table s) (linked s))
      ])

  pub place-Holds :
      (c : Counter) (t : StringStatistics) (es : List Tally)
      → c.next ≡ t.table (c.hash % t.table_size)
      → Holds total_size t es
      → Holds total_size (place total_size c t) (tally_of c ∷ es)
  place-Holds c t es next r =
      let below = Laid-below total_size t.arena t.p r.offsets r.laid in
      let pos : 0 < t.p = omega (arith, Laid-bound total_size t.arena t.p r.offsets r.laid) in
      record {
        offsets = t.p ∷ r.offsets;
        laid = (
          rw (put_at_self t.p c t.arena) refl,
          relay total_size t.arena (put_at t.p c t.arena) t.p r.offsets
              (same_below t.arena t.p c r.offsets below) r.laid,
        );
        linked = link_new t.arena t.table t.table_size t.p c r.offsets pos below next r.linked;
        counted =
            ap₂ ◌∷◌ (ap tally_of (put_at_self t.p c t.arena))
              (unchanged t.arena t.p c r.offsets below ∙ r.counted);
      }

  pub add_at-Holds :
      (c : Counter) (ofs : ℕ) (t : StringStatistics) (es : List Tally) (r : Holds total_size t es)
      → ofs ≡ first t.arena c.string c.hash r.offsets
      → Holds total_size (add_at total_size ofs c t) (bump c es)
  add_at-Holds c ofs t es r found = record {
    offsets = r.offsets;
    laid =
        relay total_size t.arena (put_at ofs (add_counter c (t.arena ofs)) t.arena) t.p r.offsets
          (SameShape-added t.arena ofs c r.offsets) r.laid;
    linked = λ s.
        relink t.arena (put_at ofs (add_counter c (t.arena ofs)) t.arena) t.table_size s (t.table s)
          r.offsets (SameShape-added t.arena ofs c r.offsets) (r.linked s);
    counted = add_found t.arena t.p ofs c r.offsets r.laid found ∙ ap (bump c) r.counted;
  }

  -- What the search finds in the statistics that hold the tallies.
  found_first :
      (str hash : ℕ) (t : StringStatistics) (es : List Tally) (r : Holds total_size t es)
      → find_counter t.p t.arena str hash (t.table (hash % t.table_size))
        ≡ first t.arena str hash r.offsets
  found_first str hash t es r =
      find_counter-first t.arena t.table_size str hash t.p (t.table (hash % t.table_size)) r.offsets
        (omega (arith, Laid-bound total_size t.arena t.p r.offsets r.laid))
        (r.linked (hash % t.table_size))

  first_zero :
      (str hash : ℕ) (t : StringStatistics) (es : List Tally) (r : Holds total_size t es)
      → (first t.arena str hash r.offsets == 0) ≡ not (has str hash es)
  first_zero str hash t es r =
      first-has t.arena str hash r.offsets (Laid-pos t.arena t.p r.offsets r.laid)
      ∙ ap (λ es. not (has str hash es)) r.counted

  get_counter-known :
      (str hash ofs : ℕ) (t : StringStatistics)
      → find_counter t.p t.arena str hash (t.table (hash % t.table_size)) ≡ ofs
      → (ofs == 0) ≡ false
      → get_counter total_size str hash t ≡ (ofs, t)
  unfolding get_counter
  get_counter-known str hash ofs t found pos = rw (found, pos) refl

  get_counter-new :
      (str hash : ℕ) (t : StringStatistics)
      → (find_counter t.p t.arena str hash (t.table (hash % t.table_size)) == 0) ≡ true
      → get_counter total_size str hash t ≡ (
          if ltb t.arena_end (t.p + gross_size (total_size str))
          then (0, t)
          else (t.p, place total_size (fresh (t.table (hash % t.table_size)) hash str) t))
  unfolding get_counter
  get_counter-new str hash t e = rw e refl

  -- What a lookup does: it finds the string's counter, or makes one, or has no room for it.
  pub record Found (str hash : ℕ) (es : List Tally) (found : ℕ × StringStatistics) : Type 0 where
    pub holds : Holds total_size found.1 es
    pub at : found.0 ≡ first found.1.arena str hash holds.offsets
    pub pos : (found.0 == 0) ≡ false

  abbrev pub NoRoom : ℕ → ℕ → List Tally → StringStatistics → ℕ × StringStatistics → Type 0
  NoRoom str hash es t found =
      (found ≡ (0, t))
      × (has str hash es ≡ false)
      × (t.arena_end < t.p + gross_size (total_size str))

  -- The string has a counter, or the arena has room for one.
  abbrev pub HasPlace : ℕ → ℕ → List Tally → StringStatistics → Type 0
  HasPlace str hash es t =
      (has str hash es ≡ true) ⊎ (t.p + gross_size (total_size str) ≤ t.arena_end)

  abbrev pub listed : ℕ → ℕ → List Tally → List Tally
  listed str hash es = if has str hash es then es else tally_of (fresh 0 hash str) ∷ es

  pub get_counter_outcome :
      (str hash : ℕ) (t : StringStatistics) (es : List Tally)
      → Holds total_size t es
      → (Found str hash (listed str hash es) (get_counter total_size str hash t)
          × HasPlace str hash es t)
        ⊎ NoRoom str hash es t (get_counter total_size str hash t)
  unfolding place-Holds
  get_counter_outcome str hash t es r =
      let here = found_first str hash t es r in
      let zero = first_zero str hash t es r in
      elim (Bool-cases (has str hash es)) [
        | inl known ↦
            let pos : (first t.arena str hash r.offsets == 0) ≡ false = rw known at zero in
            rw (get_counter-known str hash (first t.arena str hash r.offsets) t here pos, known)
              (inl (record { holds = r; at = refl; pos = pos }, inl refl))
        | inr new ↦
            let none : (find_counter t.p t.arena str hash (t.table (hash % t.table_size)) == 0)
                ≡ true =
              rw here (rw new at zero) in
            elim (Bool-cases (ltb t.arena_end (t.p + gross_size (total_size str)))) [
              | inl full ↦
                  rw (get_counter-new str hash t none, full)
                    (inr (refl, new, ltb→lt t.arena_end (t.p + gross_size (total_size str)) full))
              | inr room ↦
                  rw (get_counter-new str hash t none, room, new)
                    (inl (
                      record {
                        holds =
                            place-Holds (fresh (t.table (hash % t.table_size)) hash str) t es refl
                              r;
                        at =
                            first_new t.arena t.p (t.table (hash % t.table_size)) str hash
                              r.offsets;
                        pos =
                            ne→== t.p 0
                              (omega (arith, Laid-bound total_size t.arena t.p r.offsets r.laid));
                      },
                      inr (ltb→ge t.arena_end (t.p + gross_size (total_size str)) room),
                    ))
            ]
      ]

  -- `addString` on statistics that hold a list of tallies. Where the string has a counter or the arena
  -- has room for one, the counts are added to it, and the statistics hold the list with the same sums
  -- taken. Where the string has no counter and the arena no room for one, 0 is returned and nothing
  -- changes.
  pub add_string_implements_tally :
      (c : Counter) (t : StringStatistics) (es : List Tally)
      → Holds total_size t es
      → (Holds total_size (add_string total_size c t).1 (tally c es)
          × (0 < (add_string total_size c t).0)
          × HasPlace c.string c.hash es t)
        ⊎ ((add_string total_size c t ≡ (0, t))
            × (has c.string c.hash es ≡ false)
            × (t.arena_end < t.p + gross_size (total_size c.string)))
  unfolding add_string
  add_string_implements_tally c t es r = elim (get_counter_outcome c.string c.hash t es r) [
    | inl (found, place) ↦
        let (ofs, counted) = get_counter total_size c.string c.hash t in
        rw found.pos (
          inl (
            add_at-Holds c ofs counted (listed c.string c.hash es) found.holds found.at,
            positive ofs found.pos,
            place,
          ))
    | inr (none, new, full) ↦ rw none (inr (refl, new, full))
  ]
