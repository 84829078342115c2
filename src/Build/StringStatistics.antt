-- ===== src/Build/StringStatistics.antt =====
-- src/build/util/StringStatistics.h and .cpp: the counters of strings, laid out one after the other
-- in an arena and chained by the slot of their hash.
-- The arena is a map from an offset to the counter that begins there, and a string is a number that
-- stands for its contents. The size of a stored string (ShortVarString) and the hash of a string
-- belong to the clarisma library, and are parameters.
pub mod Search
pub mod Entries
pub mod Lookup
pub mod Removal
mod Tests
use geodesk_gol.Prelude.{
  ℕ, zero, suc, ◌+◌, ◌-◌, ◌*◌, ◌/◌, ◌%◌, ◌^◌, bit_and, bit_or, Bool, ◌&&◌, ltb, leb, ◌==◌,
  if◌then◌else◌,
}

abbrev pub required : ℕ
required = 2 ^ 63

pub record Counter : Type 0 where
  pub next : ℕ
  pub hash : ℕ
  pub total_count : ℕ
  pub key_count : ℕ
  pub string : ℕ

pub record StringStatistics : Type 0 where
  pub table : ℕ → ℕ
  pub arena : ℕ → Counter
  pub arena_end : ℕ
  pub p : ℕ
  pub table_size : ℕ
  pub counter_count : ℕ

abbrev pub put_at {ℓ} : {A : Type ℓ} → ℕ → A → (ℕ → A) → ℕ → A
put_at i v f j = if i == j then v else f j

-- The accessors of a counter, with and without the flag of a required string.
unfoldable pub true_total_count : Counter → ℕ
true_total_count c = bit_and c.total_count (2 ^ 63 - 1)

unfoldable pub adjusted_key_count : Counter → ℕ
adjusted_key_count c = bit_or c.key_count (bit_and c.total_count required)

unfoldable pub value_count : Counter → ℕ
value_count c = (c.total_count + 2 ^ 64 - c.key_count) % 2 ^ 64

-- The two forms of `add`.
abbrev pub add : ℕ → ℕ → Counter → Counter
add keys values c = record c {
  total_count = (c.total_count + (keys + values)) % 2 ^ 64;
  key_count = (c.key_count + keys) % 2 ^ 64;
}

abbrev pub add_counter : Counter → Counter → Counter
add_counter other c = record c {
  total_count = (c.total_count + other.total_count) % 2 ^ 64;
  key_count = (c.key_count + other.key_count) % 2 ^ 64;
}

-- `grossSize`; the mask clears the lower two bits.
abbrev pub gross_size : ℕ → ℕ
gross_size string_size = (24 + string_size + 3) / 4 * 4

-- The constructor of a counter.
abbrev pub fresh : ℕ → ℕ → ℕ → Counter
fresh next hash str = record {
  next = next;
  hash = hash;
  total_count = 0;
  key_count = 0;
  string = str;
}

-- The constructor and `reset`.
abbrev pub init : ℕ → ℕ → (ℕ → Counter) → StringStatistics
init table_size arena_size arena = record {
  table = λ slot. 0;
  arena = arena;
  arena_end = arena_size;
  p = 4;
  table_size = table_size;
  counter_count = 0;
}

-- The chain of a slot, followed up to the counter of a string. Offsets fall along a chain, so the
-- end of the arena's used part is fuel enough.
unfoldable pub find_counter : ℕ → (ℕ → Counter) → ℕ → ℕ → ℕ → ℕ
find_counter zero arena str hash ofs = 0
find_counter (suc fuel) arena str hash ofs =
    let counter = arena ofs in
    let rest = find_counter fuel arena str hash counter.next in
    if ofs == 0
    then 0
    else (if (counter.hash == hash) && (counter.string == str) then ofs else rest)

module _ (total_size : ℕ → ℕ) where
  abbrev pub size_of : Counter → ℕ
  size_of c = gross_size (total_size c.string)

  -- A new counter at the end of the arena, at the head of its slot's chain.
  abbrev pub place : Counter → StringStatistics → StringStatistics
  place c t = record t {
    arena = put_at t.p c t.arena;
    table = put_at (c.hash % t.table_size) t.p t.table;
    p = t.p + size_of c;
    counter_count = t.counter_count + 1;
  }

  -- `getCounter`: the offset of the counter of a string, made if there is none, or 0 if the arena has
  -- no room for it.
  unfoldable pub get_counter : ℕ → ℕ → StringStatistics → ℕ × StringStatistics
  get_counter str hash t =
      let slot = hash % t.table_size in
      let found = find_counter t.p t.arena str hash (t.table slot) in
      if found == 0
      then (if ltb t.arena_end (t.p + gross_size (total_size str))
          then (0, t)
          else (t.p, place (fresh (t.table slot) hash str) t))
      else (found, t)

  -- `counterAt(ofs)->add(pCounter)`
  abbrev pub add_at : ℕ → Counter → StringStatistics → StringStatistics
  add_at ofs counter t = record t { arena = put_at ofs (add_counter counter (t.arena ofs)) t.arena }

  -- `addString`
  pub add_string : Counter → StringStatistics → ℕ × StringStatistics
  add_string counter t =
      let (ofs, counted) = get_counter counter.string counter.hash t in
      if ofs == 0 then (0, counted) else (ofs, add_at ofs counter counted)

  -- `addRequiredCounter`
  pub add_required_counter : (ℕ → ℕ) → ℕ → StringStatistics → StringStatistics
  add_required_counter hash_of str t =
      let hash = hash_of str in
      place (add 0 required (fresh (t.table (hash % t.table_size)) hash str)) t

  -- The loop of `removeStrings`, from the counter at `source` on, with `p` for `pDest`.
  unfoldable pub remove_from : ℕ → ℕ → ℕ → ℕ → StringStatistics → StringStatistics
  remove_from zero min_count end source t = t
  remove_from (suc fuel) min_count end source t =
      let counter = t.arena source in
      let slot = counter.hash % t.table_size in
      let relinked : Counter = record counter { next = t.table slot } in
      let kept : StringStatistics = record t {
        arena = put_at t.p relinked (put_at source relinked t.arena);
        table = put_at slot t.p t.table;
        p = t.p + size_of counter;
        counter_count = t.counter_count + 1;
      } in
      let moved = if leb min_count counter.total_count then kept else t in
      let rest = remove_from fuel min_count end (source + size_of counter) moved in
      if ltb source end then rest else t

  -- `removeStrings`: the counters below a usage are dropped, and the others move up.
  unfoldable pub remove_strings : ℕ → StringStatistics → StringStatistics
  remove_strings min_count t =
      let cleared : StringStatistics = record t { table = λ slot. 0; p = 4; counter_count = 0 } in
      remove_from t.p min_count t.p 4 cleared

-- `takeStrings`: what was counted, and the empty statistics in an arena of the same size.
pub take_strings : (ℕ → Counter) → StringStatistics → ((ℕ → Counter) × ℕ) × StringStatistics
take_strings new_arena t =
    ((t.arena, t.p), record t { arena = new_arena; p = 4; table = λ slot. 0 })
