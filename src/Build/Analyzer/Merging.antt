-- ===== src/Build/Analyzer/Merging.antt =====
-- src/build/analyze/Analyzer.cpp, processTask: the merge ends, and what the global counters are then.
use native.Mathlib.Nat.{pow-le-pow_right}
use geodesk_gol.Prelude.{
  ℕ, zero, suc, ◌+◌, ◌-◌, ◌^◌, ◌≤◌, ◌<◌, ◌≡◌, ◌∙◌, ◌⊎◌, refl, sym, ap, subst, inl, inr, Bool-cases,
  true, false, ◌%◌, ◌==◌, leb, Option, some, List, [], ◌∷◌, map, length, All, ltb, ltb→lt, ltb→ge,
  lt→ltb, ge→ltb, arith,
}
use geodesk_gol.Prelude.Bits.{pow2_suc}
use geodesk_gol.Build.StringStatistics.{
  StringStatistics, Counter, size_of, gross_size, find_counter, get_counter, add_at, remove_from,
  remove_strings,
}
use geodesk_gol.Build.StringStatistics.Entries.{
  Tally, tally_of, Laid-bound, Holds, bytes, Holds-bytes,
}
use geodesk_gol.Build.StringStatistics.Lookup.{get_counter_outcome, add_at-Holds, listed}
use geodesk_gol.Build.StringStatistics.Search.{tally, has}
use geodesk_gol.Build.StringStatistics.Removal.{
  with_usage, onto, length-onto, map-onto, Ahead, ahead, Ahead-bound,
  remove_strings_implements_with_usage,
}
use geodesk_gol.Build.Analyzer.{
  Analyzer, widened, shifted, merge_counter, process_from, process_task,
}

abbrev pub counter_of : Tally → Counter
counter_of e = record {
  next = 0;
  hash = e.hash;
  total_count = e.total;
  key_count = e.keys;
  string = e.string;
}

-- How a tally enters the list, in an arena that ends at `room`: it is below the threshold and ignored;
-- or it is in the list or fits into the arena, and is added; or it is new and does not fit, the tallies
-- below the threshold leave the list, the threshold doubles, and it tries again.
pub data Merged (total_size : ℕ → ℕ) (room : ℕ) (e : Tally)
    : ℕ → List Tally → ℕ → List Tally → Type 0 where
  ignored : (m : ℕ) (es : List Tally) → e.total < widened m → Merged total_size room e m es m es
  counted :
      (m : ℕ) (es : List Tally)
      → widened m ≤ e.total
      → (has e.string e.hash es ≡ true)
        ⊎ (bytes total_size es + gross_size (total_size e.string) ≤ room)
      → Merged total_size room e m es m (tally (counter_of e) es)
  culled :
      (m m' : ℕ) (es es' : List Tally)
      → widened m ≤ e.total
      → has e.string e.hash es ≡ false
      → room < bytes total_size es + gross_size (total_size e.string)
      → Merged total_size room e (shifted m) (with_usage m es) m' es'
      → Merged total_size room e m es m' es'

pub data AllMerged (total_size : ℕ → ℕ) (room : ℕ)
    : List Tally → ℕ → List Tally → ℕ → List Tally → Type 0 where
  done : (m : ℕ) (es : List Tally) → AllMerged total_size room [] m es m es
  next :
      (e : Tally) (rest : List Tally) (m m' m'' : ℕ) (es es' es'' : List Tally)
      → Merged total_size room e m es m' es'
      → AllMerged total_size room rest m' es' m'' es''
      → AllMerged total_size room (e ∷ rest) m es m'' es''

-- The threshold as a power of two, and the steps it has left until its sign bit is set.
abbrev pub Threshold : ℕ → ℕ → Type 0
Threshold left m = (k : ℕ) × (m ≡ 2 ^ k) × (k + left ≡ 31)

shifted_lem : (left m : ℕ) → Threshold (suc left) m → Threshold left (shifted m)
shifted_lem left m (k, e, sum) = (
  suc k,
  omega (
    arith,
    e,
    pow2_suc k,
    pow-le-pow_right {n = 2} (omega arith) {i = k} {j = 30} (omega (arith, sum)),
  ),
  omega (arith, sum),
)

within : (left m : ℕ) → Threshold left m → left < 32
within left m (k, e, sum) = omega (arith, sum)

-- With the sign bit set the threshold is above every count without the flag of a required string.
sign_bit : (m total : ℕ) → Threshold 0 m → total < 2 ^ 63 → widened m ≤ total → ⊥
sign_bit m total (k, e, sum) small ge =
    let last : k ≡ 31 = omega (arith, sum) in
    let top : m ≡ 2 ^ 31 = e ∙ ap (λ (j : ℕ). 2 ^ j) last in
    absurd (omega (arith, small, rw top at ge))

All-onto {ℓ κ μ} :
    {A : Type ℓ} {B : Type κ} (P : B → Type μ) (f : A → B) (xs acc : List A)
    → All P (map f xs)
    → All (λ x. P (f x)) acc
    → All (λ x. P (f x)) (onto xs acc)
All-onto P f [] acc h h' = h'
All-onto P f (x ∷ xs) acc (p, h) h' = All-onto P f xs (x ∷ acc) h (p, h')

-- The arena stays where it ends.
get_counter-arena_end :
    (total_size : ℕ → ℕ) (str hash : ℕ) (t : StringStatistics)
    → (get_counter total_size str hash t).1.arena_end ≡ t.arena_end
unfolding get_counter
get_counter-arena_end total_size str hash t =
    let found = find_counter t.p t.arena str hash (t.table (hash % t.table_size)) in
    elim (Bool-cases (found == 0)) [
      | inl new ↦ elim (Bool-cases (ltb t.arena_end (t.p + gross_size (total_size str)))) [
        | inl full ↦ rw (new, full) refl
        | inr room ↦ rw (new, room) refl
      ]
      | inr known ↦ rw known refl
    ]

remove_from-arena_end :
    (total_size : ℕ → ℕ) (fuel min_count end source : ℕ) (t : StringStatistics)
    → (remove_from total_size fuel min_count end source t).arena_end ≡ t.arena_end
unfolding remove_from
remove_from-arena_end total_size zero min_count end source t = refl
remove_from-arena_end total_size (suc fuel) min_count end source t =
    elim (Bool-cases (ltb source end)) [
      | inr e ↦ rw e refl
      | inl e ↦ elim (Bool-cases (leb min_count (t.arena source).total_count)) [
        | inl kept ↦ rw (e, kept) (remove_from-arena_end total_size fuel min_count end _ _)
        | inr gone ↦ rw (e, gone) (remove_from-arena_end total_size fuel min_count end _ _)
      ]
    ]

remove_strings-arena_end :
    (total_size : ℕ → ℕ) (min_count : ℕ) (t : StringStatistics)
    → (remove_strings total_size min_count t).arena_end ≡ t.arena_end
unfolding remove_strings
remove_strings-arena_end total_size min_count t =
    remove_from-arena_end total_size t.p min_count t.p 4
      (record t { table = λ slot. 0; p = 4; counter_count = 0 })

module _ (total_size : ℕ → ℕ) (room : ℕ) where
  record MergeStep (e : Tally) (m : ℕ) (es : List Tally) (result : Option Analyzer) : Type 0 where
    after : Analyzer
    same_end : after.strings.arena_end ≡ room
    after_tallies : List Tally
    returns : result ≡ some after
    holds : Holds total_size after.strings after_tallies
    merged : Merged total_size room e m es after.min_string_count after_tallies
    left : ℕ
    threshold : Threshold left after.min_string_count

  merge_lem :
      (left fuel : ℕ) (c : Counter) (a : Analyzer) (es : List Tally)
      → left < fuel
      → c.total_count < 2 ^ 63
      → Threshold left a.min_string_count
      → Holds total_size a.strings es
      → a.strings.arena_end ≡ room
      → MergeStep (tally_of c) a.min_string_count es (merge_counter total_size fuel c a)
  unfolding merge_counter
  merge_lem left zero c a es lt small th r ends = absurd (omega arith)
  merge_lem left (suc fuel) c a es lt small th r ends =
      elim (Bool-cases (ltb c.total_count (widened a.min_string_count))) [
        | inl e ↦ rw e (record {
          after = a;
          same_end = ends;
          after_tallies = es;
          returns = refl;
          holds = r;
          merged =
              Merged.ignored a.min_string_count es
                (ltb→lt c.total_count (widened a.min_string_count) e);
          left = left;
          threshold = th;
        })
        | inr e ↦
            let ge = ltb→ge c.total_count (widened a.min_string_count) e in
            elim (get_counter_outcome total_size c.string c.hash a.strings es r) [
              | inl (found, place) ↦
                  let (ofs, strings) = get_counter total_size c.string c.hash a.strings in
                  rw (e, found.pos)
                    (record {
                      after = record a { strings = add_at total_size ofs c strings };
                      same_end = get_counter-arena_end total_size c.string c.hash a.strings ∙ ends;
                      after_tallies = tally c es;
                      returns = refl;
                      holds =
                          add_at-Holds total_size c ofs strings
                            (listed total_size c.string c.hash es) found.holds found.at;
                      merged = Merged.counted a.min_string_count es ge (elim place [
                        | inl known ↦ inl known
                        | inr fits ↦
                            inr (omega (arith, fits, ends, Holds-bytes total_size a.strings es r))
                      ]);
                      left = left;
                      threshold = th;
                    })
              | inr (no_room, new, full) ↦
                  rw (e, no_room)
                    (retry (λ l b fs lt th r ends. merge_lem l fuel c b fs lt small th r ends) left
                      lt th ge new
                      (omega (arith, full, ends, Holds-bytes total_size a.strings es r)))
            ]
      ]
    where
      retry :
          ((l : ℕ) (b : Analyzer) (fs : List Tally)
            → l < fuel
            → Threshold l b.min_string_count
            → Holds total_size b.strings fs
            → b.strings.arena_end ≡ room
            → MergeStep (tally_of c) b.min_string_count fs (merge_counter total_size fuel c b))
          → (left : ℕ) → left < suc fuel
          → Threshold left a.min_string_count
          → widened a.min_string_count ≤ c.total_count
          → has c.string c.hash es ≡ false
          → room < bytes total_size es + gross_size (total_size c.string)
          → MergeStep (tally_of c) a.min_string_count es (
              merge_counter total_size fuel c (record {
                strings = remove_strings total_size a.min_string_count a.strings;
                min_string_count = shifted a.min_string_count;
              }))
      retry again zero lt th ge new full =
          absurd (sign_bit a.min_string_count c.total_count th small ge)
      retry again (suc left) lt th ge new full =
          let culled : Analyzer = record {
            strings = remove_strings total_size a.min_string_count a.strings;
            min_string_count = shifted a.min_string_count;
          } in
          let es' = with_usage a.min_string_count es in
          let step =
            again left culled es' (omega (arith, lt)) (shifted_lem left a.min_string_count th)
              (remove_strings_implements_with_usage total_size a.min_string_count a.strings es r)
              (remove_strings-arena_end total_size a.min_string_count a.strings ∙ ends) in
          record {
            after = step.after;
            same_end = step.same_end;
            after_tallies = step.after_tallies;
            returns = step.returns;
            holds = step.holds;
            left = step.left;
            threshold = step.threshold;
            merged =
                Merged.culled a.min_string_count step.after.min_string_count es step.after_tallies
                  ge new full step.merged;
          }

  record TaskStep (tallies : List Tally) (m : ℕ) (es : List Tally) (result : Option Analyzer)
      : Type 0 where
    after : Analyzer
    same_end : after.strings.arena_end ≡ room
    after_tallies : List Tally
    returns : result ≡ some after
    holds : Holds total_size after.strings after_tallies
    merged : AllMerged total_size room tallies m es after.min_string_count after_tallies
    left : ℕ
    threshold : Threshold left after.min_string_count

  process_lem :
      (left fuel end source : ℕ) (arena : ℕ → Counter) (os : List ℕ) (a : Analyzer)
      (es : List Tally)
      → length os < fuel
      → Ahead total_size arena source end os
      → All (λ o. (arena o).total_count < 2 ^ 63) os
      → Threshold left a.min_string_count
      → Holds total_size a.strings es
      → a.strings.arena_end ≡ room
      → TaskStep
          (map (λ o. tally_of (arena o)) os)
          a.min_string_count
          es
          (process_from total_size 32 fuel arena source end a)
  unfolding process_from
  process_lem left zero end source arena os a es lt ah small th r ends = absurd (omega arith)
  process_lem left (suc fuel) end source arena [] a es lt at small th r ends =
      rw (ge→ltb source end (omega (arith, at))) (record {
        after = a;
        same_end = ends;
        after_tallies = es;
        returns = refl;
        holds = r;
        merged = AllMerged.done a.min_string_count es;
        left = left;
        threshold = th;
      })
  process_lem left (suc fuel) end source arena (o ∷ os) a es lt (at, rest) (p, small) th r ends =
      let next = source + size_of total_size (arena source) in
      let lt' : source < end = omega (arith, Ahead-bound total_size arena next end os rest) in
      let small' : (arena source).total_count < 2 ^ 63 = rw at at p in
      let step =
        merge_lem left 32 (arena source) a es (within left a.min_string_count th) small' th r
          ends in
      let more =
        process_lem step.left fuel end next arena os step.after step.after_tallies
          (omega (arith, lt)) rest small step.threshold step.holds step.same_end in
      rw (lt→ltb source end lt', at, step.returns)
        (record {
          after = more.after;
          same_end = more.same_end;
          after_tallies = more.after_tallies;
          returns = more.returns;
          holds = more.holds;
          left = more.left;
          threshold = more.threshold;
          merged =
              AllMerged.next (tally_of (arena source)) (map (λ o. tally_of (arena o)) os)
                a.min_string_count step.after.min_string_count more.after.min_string_count es
                step.after_tallies more.after_tallies step.merged more.merged;
        })

module _ (total_size : ℕ → ℕ) where
  -- `processTask` on the arena of a worker whose counters are below the flag of a required string:
  -- it returns, with 32 turns for each counter and as much fuel as the arena has bytes, when the
  -- threshold is a power of two from 1 up to the sign bit. The worker's tallies have then entered the
  -- global list in the order of their age: each of them is ignored below the threshold; or it is added,
  -- where it has a counter or the arena has room for one; or, where it has none and there is no room,
  -- the list is culled, the threshold doubled, and it tries again.
  pub process_task_merges :
      (k : ℕ) (worker : StringStatistics) (tallies : List Tally) (a : Analyzer) (es : List Tally)
      → a.min_string_count ≡ 2 ^ k
      → k ≤ 31
      → Holds total_size worker tallies
      → All (λ (e : Tally). e.total < 2 ^ 63) tallies
      → Holds total_size a.strings es
      → (k' : ℕ) × (after : Analyzer) × (after_tallies : List Tally) × (process_task total_size 32
            worker.p worker.arena worker.p a
          ≡ some after)
        × (after.min_string_count ≡ 2 ^ k')
        × (k' ≤ 31)
        × Holds total_size after.strings after_tallies
        × AllMerged total_size a.strings.arena_end
            (onto tallies [])
            a.min_string_count
            es
            after.min_string_count
            after_tallies
  unfolding process_task
  process_task_merges k worker tallies a es power le w small r =
      let f : ℕ → Tally = λ o. tally_of (worker.arena o) in
      let P : Tally → Type 0 = λ e. e.total < 2 ^ 63 in
      let step =
        process_lem total_size a.strings.arena_end (31 - k) worker.p worker.p 4 worker.arena
          (onto w.offsets []) a es
          (omega (
            arith,
            length-onto w.offsets [],
            Laid-bound total_size worker.arena worker.p w.offsets w.laid,
          ))
          (ahead total_size worker.arena worker.p worker.p w.offsets [] w.laid refl)
          (All-onto P f w.offsets [] (subst (All P) (sym w.counted) small) tt)
          (k, power, omega (arith, le)) r refl in
      let (k', power', sum) = step.threshold in
      let order : map f (onto w.offsets []) ≡ onto tallies [] =
        map-onto f w.offsets [] ∙ ap (λ ts. onto ts []) w.counted in
      (
        k',
        step.after,
        step.after_tallies,
        step.returns,
        power',
        omega (arith, sum),
        step.holds,
        subst
            (λ ts.
              AllMerged total_size a.strings.arena_end ts a.min_string_count es
                step.after.min_string_count step.after_tallies)
            order step.merged,
      )
