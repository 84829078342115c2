-- ===== src/Build/StringStatistics/Search.antt =====
-- src/build/util/StringStatistics.cpp, getCounter: the search along a chain, against the search in a
-- plain list of tallies.
use geodesk_gol.Prelude.{
  ℕ, Bool, true, false, not, zero, suc, ◌+◌, ◌%◌, ◌^◌, ◌≤◌, ◌<◌, ◌≡◌, refl, ap, ap₂, inl, inr,
  Bool-cases, List, [], ◌∷◌, map, length, All, ◌==◌, ◌&&◌, ==→eq, ==→ne, ==_refl, ne→==,
  if◌then◌else◌, arith,
}
use geodesk_gol.Build.StringStatistics.{Counter, put_at, fresh, find_counter}
use geodesk_gol.Build.StringStatistics.Entries.{
  Tally, tally_of, Linked, SameShape, put_at_self, put_at_other,
}

-- The tally of a string in the list.
abbrev pub is_tally : ℕ → ℕ → Tally → Bool
is_tally str hash e = (e.hash == hash) && (e.string == str)

abbrev pub has : ℕ → ℕ → List Tally → Bool
has str hash [] = false
has str hash (e ∷ es) = if is_tally str hash e then true else has str hash es

abbrev pub bump : Counter → List Tally → List Tally
bump c [] = []
bump c (e ∷ es) =
    if is_tally c.string c.hash e
    then record e {
      total = (e.total + c.total_count) % 2 ^ 64;
      keys = (e.keys + c.key_count) % 2 ^ 64;
    }
      ∷ es
    else e ∷ bump c es

-- The list with a counter added: to the tally of its string, or to a new one that begins at 0.
abbrev pub tally : Counter → List Tally → List Tally
tally c es = bump c (if has c.string c.hash es then es else tally_of (fresh 0 c.hash c.string) ∷ es)

-- The offset that the search finds.
abbrev pub first : (ℕ → Counter) → ℕ → ℕ → List ℕ → ℕ
first arena str hash [] = 0
first arena str hash (o ∷ os) =
    if is_tally str hash (tally_of (arena o)) then o else first arena str hash os

pub is_tally-hash : (str hash : ℕ) (e : Tally) → is_tally str hash e ≡ true → e.hash ≡ hash
is_tally-hash str hash e h = elim (Bool-cases (e.hash == hash)) [
  | inl same ↦ ==→eq e.hash hash same
  | inr other ↦ cc (other, h)
]

pub other_slot :
    (c : Counter) (size str hash : ℕ)
    → (c.hash % size == hash % size) ≡ false
    → is_tally str hash (tally_of c) ≡ false
other_slot c size str hash e = elim (Bool-cases (is_tally str hash (tally_of c))) [
  | inl hit ↦ absurd (
      ==→ne (c.hash % size) (hash % size) e
        (ap (λ (h : ℕ). h % size) (is_tally-hash str hash (tally_of c) hit)))
  | inr miss ↦ miss
]

pub find_counter-first :
    (arena : ℕ → Counter) (size str hash fuel head : ℕ) (os : List ℕ)
    → length os ≤ fuel
    → Linked arena size (hash % size) head os
    → find_counter fuel arena str hash head ≡ first arena str hash os
unfolding find_counter
find_counter-first arena size str hash zero head [] le linked = refl
find_counter-first arena size str hash (suc fuel) head [] le linked = rw linked refl
find_counter-first arena size str hash zero head (o ∷ os) le linked = absurd (omega arith)
find_counter-first arena size str hash (suc fuel) head (o ∷ os) le linked =
    elim (Bool-cases ((arena o).hash % size == hash % size)) [
      | inl e ↦
          let (at, pos, rest) = rw e at linked in
          rw (at, ne→== o 0 (omega arith))
            (ap (λ (r : ℕ). if is_tally str hash (tally_of (arena o)) then o else r)
              (find_counter-first arena size str hash fuel (arena o).next os (omega arith) rest))
      | inr e ↦
          rw (other_slot (arena o) size str hash e) (
            find_counter-first arena size str hash (suc fuel) head os (omega arith)
              (rw e at linked))
    ]

-- The search finds an offset exactly if the list has a tally of the string.
pub first-has :
    (arena : ℕ → Counter) (str hash : ℕ) (os : List ℕ)
    → All (λ o. 0 < o) os
    → (first arena str hash os == 0) ≡ not (has str hash (map (λ o. tally_of (arena o)) os))
first-has arena str hash [] pos = refl
first-has arena str hash (o ∷ os) (p, pos) =
    elim (Bool-cases (is_tally str hash (tally_of (arena o)))) [
      | inl e ↦ rw e (ne→== o 0 (omega arith))
      | inr e ↦ rw e (first-has arena str hash os pos)
    ]

pub first-below :
    (arena : ℕ → Counter) (str hash p : ℕ) (os : List ℕ)
    → 0 < p
    → All (λ o. o < p) os
    → first arena str hash os < p
first-below arena str hash p [] pos below = pos
first-below arena str hash p (o ∷ os) pos (lt, below) =
    elim (Bool-cases (is_tally str hash (tally_of (arena o)))) [
      | inl e ↦ rw e lt
      | inr e ↦ rw e (first-below arena str hash p os pos below)
    ]

-- A write at `p` changes no counter below `p`.
pub unchanged :
    (arena : ℕ → Counter) (p : ℕ) (c : Counter) (os : List ℕ)
    → All (λ o. o < p) os
    → map (λ o. tally_of (put_at p c arena o)) os ≡ map (λ o. tally_of (arena o)) os
unchanged arena p c [] below = refl
unchanged arena p c (o ∷ os) (lt, below) =
    ap₂ ◌∷◌ (ap tally_of (put_at_other p o c arena (ne→== p o (omega arith))))
      (unchanged arena p c os below)

pub same_below :
    (arena : ℕ → Counter) (p : ℕ) (c : Counter) (os : List ℕ)
    → All (λ o. o < p) os
    → All (SameShape arena (put_at p c arena)) os
same_below arena p c [] below = tt
same_below arena p c (o ∷ os) (lt, below) =
    (rw (ne→== p o (omega arith)) (refl, refl, refl), same_below arena p c os below)

pub positive : (n : ℕ) → (n == 0) ≡ false → 0 < n
positive n e = omega (arith, ==→ne n 0 e)

pub first_new :
    (arena : ℕ → Counter) (p next str hash : ℕ) (os : List ℕ)
    → p ≡ first (put_at p (fresh next hash str) arena) str hash (p ∷ os)
first_new arena p next str hash os =
    rw (put_at_self p (fresh next hash str) arena, ==_refl hash, ==_refl str) refl
