-- ===== src/Build/StringStatistics/Entries.antt =====
-- src/build/util/StringStatistics.h, the layout of the arena: which counters it holds, and how they
-- are chained.
use geodesk_gol.Prelude.{
  ℕ, Bool, ◌+◌, ◌*◌, ◌%◌, ◌≤◌, ◌<◌, ◌≡◌, ◌∙◌, ap, refl, inl, inr, Bool-cases, List, [], ◌∷◌, map,
  length, All, ◌==◌, ==_refl, if◌then◌else◌, arith,
}
use geodesk_gol.Build.StringStatistics.{StringStatistics, Counter, put_at, gross_size, size_of}

-- What a counter counts, whatever its place in the arena.
pub record Tally : Type 0 where
  pub string : ℕ
  pub hash : ℕ
  pub total : ℕ
  pub keys : ℕ

abbrev pub tally_of : Counter → Tally
tally_of c = record { string = c.string; hash = c.hash; total = c.total_count; keys = c.key_count }

pub put_at_self {ℓ} : {A : Type ℓ} (i : ℕ) (v : A) (f : ℕ → A) → put_at i v f i ≡ v
put_at_self i v f = rw (==_refl i) refl

pub put_at_other {ℓ} :
    {A : Type ℓ} (i j : ℕ) (v : A) (f : ℕ → A) → (i == j) ≡ Bool.false → put_at i v f j ≡ f j
put_at_other i j v f e = rw e refl

-- The chain of slot `s` that begins at `head` runs through the offsets of that slot, in order.
abbrev pub Linked : (ℕ → Counter) → ℕ → ℕ → ℕ → List ℕ → Type 0
Linked arena size s head [] = head ≡ 0
Linked arena size s head (o ∷ os) =
    if (arena o).hash % size == s
    then (head ≡ o) × (0 < o) × Linked arena size s (arena o).next os
    else Linked arena size s head os

-- Two arenas with the same chains and sizes at an offset.
abbrev pub SameShape : (ℕ → Counter) → (ℕ → Counter) → ℕ → Type 0
SameShape arena arena' o =
    ((arena' o).next ≡ (arena o).next)
    × ((arena' o).hash ≡ (arena o).hash)
    × ((arena' o).string ≡ (arena o).string)

pub relink :
    (arena arena' : ℕ → Counter) (size s head : ℕ) (os : List ℕ)
    → All (SameShape arena arena') os
    → Linked arena size s head os
    → Linked arena' size s head os
relink arena arena' size s head [] same linked = linked
relink arena arena' size s head (o ∷ os) ((next, hash, str), same) linked =
    elim (Bool-cases ((arena o).hash % size == s)) [
      | inl e ↦
          let (at, pos, rest) = rw e at linked in
          rw (hash, e) (at, pos, rw next (relink arena arena' size s (arena o).next os same rest))
      | inr e ↦ rw (hash, e) (relink arena arena' size s head os same (rw e at linked))
    ]

module _ (total_size : ℕ → ℕ) where
  -- The offsets of the counters below `p`, the newest first.
  abbrev pub Laid : (ℕ → Counter) → ℕ → List ℕ → Type 0
  Laid arena p [] = p ≡ 4
  Laid arena p (o ∷ os) = (p ≡ o + size_of total_size (arena o)) × Laid arena o os

  pub Laid-bound :
      (arena : ℕ → Counter) (p : ℕ) (os : List ℕ) → Laid arena p os → 4 + 24 * length os ≤ p
  Laid-bound arena p [] laid = omega (arith, laid)
  Laid-bound arena p (o ∷ os) (at, laid) = omega (arith, at, Laid-bound arena o os laid)

  pub Laid-below :
      (arena : ℕ → Counter) (p : ℕ) (os : List ℕ) → Laid arena p os → All (λ o. o < p) os
  Laid-below arena p [] laid = tt
  Laid-below arena p (o ∷ os) (at, laid) =
      (omega (arith, at), below os (Laid-below arena o os laid))
    where
      below : (os : List ℕ) → All (λ x. x < o) os → All (λ x. x < p) os
      below [] h = tt
      below (x ∷ xs) (lt, h) = (omega (arith, lt, at), below xs h)

  pub relay :
      (arena arena' : ℕ → Counter) (p : ℕ) (os : List ℕ)
      → All (SameShape arena arena') os
      → Laid arena p os
      → Laid arena' p os
  relay arena arena' p [] same laid = laid
  relay arena arena' p (o ∷ os) ((next, hash, str), same) (at, laid) =
      (rw str at, relay arena arena' o os same laid)

  -- The statistics hold the given tallies, the newest first.
  pub record Holds (t : StringStatistics) (tallies : List Tally) : Type 0 where
    pub offsets : List ℕ
    pub laid : Laid t.arena t.p offsets
    pub linked : (s : ℕ) → Linked t.arena t.table_size s (t.table s) offsets
    pub counted : map (λ o. tally_of (t.arena o)) offsets ≡ tallies

  -- The bytes of the arena that a list of tallies takes.
  abbrev pub bytes : List Tally → ℕ
  bytes [] = 4
  bytes (e ∷ es) = gross_size (total_size e.string) + bytes es

  Laid-bytes :
      (arena : ℕ → Counter) (p : ℕ) (os : List ℕ)
      → Laid arena p os
      → p ≡ bytes (map (λ o. tally_of (arena o)) os)
  Laid-bytes arena p [] laid = laid
  Laid-bytes arena p (o ∷ os) (at, laid) = omega (arith, at, Laid-bytes arena o os laid)

  pub Holds-bytes : (t : StringStatistics) (es : List Tally) → Holds t es → t.p ≡ bytes es
  Holds-bytes t es r = Laid-bytes t.arena t.p r.offsets r.laid ∙ ap bytes r.counted
