-- ===== src/Build/StringStatistics/Removal.antt =====
-- src/build/util/StringStatistics.cpp, removeStrings: the compaction of the arena and the new chains.
use geodesk_gol.Prelude.{
  ℕ, zero, suc, ◌+◌, ◌%◌, ◌≤◌, ◌<◌, ◌≡◌, ◌∙◌, refl, ap, ap₂, subst, inl, inr, Bool-cases, List, [],
  ◌∷◌, map, length, All, All-imp, ne→==, if◌then◌else◌, lt→ltb, ge→ltb, leb, arith,
}
use geodesk_gol.Build.StringStatistics.{
  StringStatistics, Counter, put_at, size_of, place, remove_from, remove_strings,
}
use geodesk_gol.Build.StringStatistics.Entries.{
  Tally, tally_of, relink, Laid, Laid-bound, Laid-below, relay, Holds,
}
use geodesk_gol.Build.StringStatistics.Lookup.{place-Holds}
use geodesk_gol.Build.StringStatistics.Search.{unchanged, same_below}

-- The tallies of a usage, in their order.
abbrev pub with_usage : ℕ → List Tally → List Tally
with_usage min_count [] = []
with_usage min_count (e ∷ es) =
    if leb min_count e.total then e ∷ with_usage min_count es else with_usage min_count es

-- The same from the oldest tally on, on top of those that are kept already.
abbrev kept_onto : ℕ → List Tally → List Tally → List Tally
kept_onto min_count [] acc = acc
kept_onto min_count (e ∷ es) acc =
    kept_onto min_count es (if leb min_count e.total then e ∷ acc else acc)

abbrev pub onto {ℓ} : {A : Type ℓ} → List A → List A → List A
onto [] acc = acc
onto (x ∷ xs) acc = onto xs (x ∷ acc)

kept_onto-onto :
    (min_count : ℕ) (es more : List Tally)
    → kept_onto min_count (onto es more) [] ≡ kept_onto min_count more (with_usage min_count es)
kept_onto-onto min_count [] more = refl
kept_onto-onto min_count (e ∷ es) more = kept_onto-onto min_count es (e ∷ more)

pub map-onto {ℓ κ} :
    {A : Type ℓ} {B : Type κ} (f : A → B) (xs acc : List A)
    → map f (onto xs acc) ≡ onto (map f xs) (map f acc)
map-onto f [] acc = refl
map-onto f (x ∷ xs) acc = map-onto f xs (x ∷ acc)

pub length-onto {ℓ} : {A : Type ℓ} (xs acc : List A) → length (onto xs acc) ≡ length xs + length acc
length-onto [] acc = omega arith
length-onto (x ∷ xs) acc = omega (arith, length-onto xs (x ∷ acc))

module _ (total_size : ℕ → ℕ) where
  -- The offsets from `source` up to `end`, the oldest first.
  abbrev pub Ahead : (ℕ → Counter) → ℕ → ℕ → List ℕ → Type 0
  Ahead arena source end [] = source ≡ end
  Ahead arena source end (o ∷ os) =
      (o ≡ source) × Ahead arena (source + size_of total_size (arena source)) end os

  pub ahead :
      (arena : ℕ → Counter) (p end : ℕ) (os more : List ℕ)
      → Laid total_size arena p os
      → Ahead arena p end more
      → Ahead arena 4 end (onto os more)
  ahead arena p end [] more laid rest = rw laid at rest
  ahead arena p end (o ∷ os) more (at, laid) rest =
      ahead arena o end os (o ∷ more) laid (refl, rw at at rest)

  -- Ahead of the compaction nothing has changed.
  abbrev Untouched : (ℕ → Counter) → (ℕ → Counter) → ℕ → Type 0
  Untouched arena arena' source = (q : ℕ) → source ≤ q → arena' q ≡ arena q

  Ahead-Untouched :
      (arena arena' : ℕ → Counter) (source end : ℕ) (os : List ℕ)
      → Untouched arena arena' source
      → Ahead arena source end os
      → Ahead arena' source end os
        × (map (λ o. tally_of (arena' o)) os ≡ map (λ o. tally_of (arena o)) os)
  Ahead-Untouched arena arena' source end [] same rest = (rest, refl)
  Ahead-Untouched arena arena' source end (o ∷ os) same (at, rest) =
      let here = same source (omega arith) in
      let next = source + size_of total_size (arena source) in
      let later : Untouched arena arena' next = λ q le. same q (omega (arith, le)) in
      let (rest', equal) = Ahead-Untouched arena arena' next end os later rest in
      ((at, rw here rest'), ap₂ ◌∷◌ (ap tally_of (same o (omega (arith, at)))) equal)

  pub Ahead-bound :
      (arena : ℕ → Counter) (source end : ℕ) (os : List ℕ)
      → Ahead arena source end os
      → source ≤ end
  Ahead-bound arena source end [] at = omega (arith, at)
  Ahead-bound arena source end (o ∷ os) (at, rest) =
      omega (arith, Ahead-bound arena (source + size_of total_size (arena source)) end os rest)

  write_ahead :
      (source : ℕ) (c : Counter) (t : StringStatistics) (es : List Tally)
      → t.p ≤ source
      → Holds total_size t es
      → Holds total_size (record t { arena = put_at source c t.arena }) es
  write_ahead source c t es le r =
      let below : All (λ o. o < source) r.offsets =
        All-imp (λ o. o < t.p) (λ o. o < source) (λ o lt. omega (arith, lt, le)) r.offsets
          (Laid-below total_size t.arena t.p r.offsets r.laid) in
      let same = same_below t.arena source c r.offsets below in
      record {
        offsets = r.offsets;
        laid = relay total_size t.arena (put_at source c t.arena) t.p r.offsets same r.laid;
        linked = λ s.
            relink t.arena (put_at source c t.arena) t.table_size s (t.table s) r.offsets same
              (r.linked s);
        counted = unchanged t.arena source c r.offsets below ∙ r.counted;
      }

  kept_lem :
      (source : ℕ) (t : StringStatistics) (es : List Tally)
      → t.p ≤ source
      → Holds total_size t es
      → Holds total_size
          (place total_size
            (record (t.arena source) { next = t.table ((t.arena source).hash % t.table_size) })
            (record t {
              arena =
                  put_at source
                    (record (t.arena source) {
                      next = t.table ((t.arena source).hash % t.table_size);
                    })
                    t.arena;
            }))
          (tally_of (t.arena source) ∷ es)
  kept_lem source t es le r =
      let c : Counter = record (t.arena source) {
        next = t.table ((t.arena source).hash % t.table_size);
      } in
      place-Holds total_size c (record t { arena = put_at source c t.arena }) es refl
        (write_ahead source c t es le r)

  removed :
      (min_count fuel end source : ℕ) (t : StringStatistics) (os : List ℕ) (acc : List Tally)
      → Ahead t.arena source end os
      → length os ≤ fuel
      → t.p ≤ source
      → Holds total_size t acc
      → Holds total_size
          (remove_from total_size fuel min_count end source t)
          (kept_onto min_count (map (λ o. tally_of (t.arena o)) os) acc)
  unfolding remove_from
  removed min_count zero end source t [] acc at bound le r = r
  removed min_count (suc fuel) end source t [] acc at bound le r =
      rw (ge→ltb source end (omega (arith, at))) r
  removed min_count zero end source t (o ∷ os) acc at bound le r = absurd (omega arith)
  removed min_count (suc fuel) end source t (o ∷ os) acc (at, rest) bound le r =
      let next = source + size_of total_size (t.arena source) in
      let relinked : Counter = record (t.arena source) {
        next = t.table ((t.arena source).hash % t.table_size);
      } in
      let t' = place total_size relinked (record t { arena = put_at source relinked t.arena }) in
      let acc' = tally_of (t.arena source) ∷ acc in
      let same : Untouched t.arena t'.arena next =
        λ q h. rw (ne→== t.p q (omega (arith, h, le)), ne→== source q (omega (arith, h))) refl in
      let (rest', equal) = Ahead-Untouched t.arena t'.arena next end os same rest in
      let lt : source < end = omega (arith, Ahead-bound t.arena next end os rest) in
      rw (lt→ltb source end lt, at)
        (elim (Bool-cases (leb min_count (t.arena source).total_count)) [
          | inl e ↦ rw e (
              subst
                (λ m.
                  Holds total_size (remove_from total_size fuel min_count end next t')
                    (kept_onto min_count m acc'))
                equal
                (removed min_count fuel end next t' os acc' rest' (omega arith) (omega (arith, le))
                  (kept_lem source t acc le r)))
          | inr e ↦
              rw e
                (removed min_count fuel end next t os acc rest (omega arith) (omega (arith, le)) r)
        ])

  -- `removeStrings` on statistics that hold a list of tallies: afterwards they hold those of at least
  -- the given usage, in their order, with chains that reach each of them.
  pub remove_strings_implements_with_usage :
      (min_count : ℕ) (t : StringStatistics) (es : List Tally)
      → Holds total_size t es
      → Holds total_size (remove_strings total_size min_count t) (with_usage min_count es)
  unfolding remove_strings
  remove_strings_implements_with_usage min_count t es r =
      let f : ℕ → Tally = λ o. tally_of (t.arena o) in
      let order : kept_onto min_count (map f (onto r.offsets [])) [] ≡ with_usage min_count es =
        ap (λ m. kept_onto min_count m []) (map-onto f r.offsets [])
        ∙ kept_onto-onto min_count (map f r.offsets) []
        ∙ ap (with_usage min_count) r.counted in
      subst (Holds total_size (remove_strings total_size min_count t)) order (
        removed min_count t.p t.p 4 (record t { table = λ slot. 0; p = 4; counter_count = 0 })
          (onto r.offsets []) [] (ahead t.arena t.p t.p r.offsets [] r.laid refl)
          (omega
            (arith, length-onto r.offsets [], Laid-bound total_size t.arena t.p r.offsets r.laid))
          (omega arith) (record { offsets = []; laid = refl; linked = λ s. refl; counted = refl }))
