-- ===== src/Tes/Index/Entries.antt =====
-- Reading a list of entries that was written, and the zeros between the lists.
use geodesk_gol.Prelude.{
  ℕ, zero, suc, ◌+◌, ◌-◌, ◌*◌, ◌/◌, ◌%◌, ◌^◌, ◌≤◌, ◌<◌, bit_or, Bool, true, false, not, ◌≡◌, refl,
  sym, ap, subst, ◌∙◌, Option, none, some, List, [], ◌∷◌, ◌++◌, length, append_assoc, ◌==◌, ne→==,
  arith,
}
use geodesk_gol.Prelude.Bits.{bit_or_fields}
use geodesk_gol.Tes.Wire.{Varint}
use geodesk_gol.Tes.Index.{Entry, Read, bit, put_entry, write_start, write_list, read_entries}

-- Ids above `prev`, each above the one before it, that leave room for the flag.
abbrev pub Ascending : ℕ → List (ℕ × Bool) → Type 0
Ascending prev [] = Unit
Ascending prev ((id, flag) ∷ fs) = (prev < id) × (id < 2 ^ 63) × Ascending id fs

abbrev pub tagged : ℕ → List (ℕ × Bool) → List Entry
tagged t [] = []
tagged t ((id, flag) ∷ fs) = record { type_code = t; id = id; flag = flag } ∷ tagged t fs

abbrev pub last_id : ℕ → List (ℕ × Bool) → ℕ
last_id prev [] = prev
last_id prev ((id, flag) ∷ fs) = last_id id fs

abbrev pub prepend : List Entry → Option Read → Option Read
prepend xs none = none
prepend xs (some r) = some (record r { entries = xs ++ r.entries })

prepend_nil : (r : Option Read) → r ≡ prepend [] r
prepend_nil none = refl
prepend_nil (some r) = refl

prepend-put :
    (e : Entry) (xs : List Entry) (r : Option Read)
    → put_entry e (prepend xs r) ≡ prepend (e ∷ xs) r
prepend-put e xs none = refl
prepend-put e xs (some r) = refl

-- The number written for an entry, and what the reader makes of it.
entry_ref :
    (prev id : ℕ) (flag : Bool)
    → prev < id
    → id < 2 ^ 63
    → bit_or ((id + 2 ^ 64 - prev) % 2 ^ 64 * 2 % 2 ^ 64) (bit flag) ≡ (id - prev) * 2 + bit flag
entry_ref prev id true h k =
    let e : (id + 2 ^ 64 - prev) % 2 ^ 64 * 2 % 2 ^ 64 ≡ (id - prev) * 2 ^ 1 = omega arith in
    rw e (omega (arith, bit_or_fields 1 (id - prev) 1))
entry_ref prev id false h k =
    let e : (id + 2 ^ 64 - prev) % 2 ^ 64 * 2 % 2 ^ 64 ≡ (id - prev) * 2 ^ 1 = omega arith in
    rw e (omega (arith, bit_or_fields 1 (id - prev) 0))

entry_flag : (d : ℕ) (flag : Bool) → not ((d * 2 + bit flag) % 2 == 0) ≡ flag
entry_flag d true = let e : (d * 2 + 1) % 2 ≡ 1 = omega arith in rw e refl
entry_flag d false = let e : (d * 2 + 0) % 2 ≡ 0 = omega arith in rw e refl

bit-le : (flag : Bool) → bit flag ≤ 1
bit-le true = omega arith
bit-le false = omega arith

module _ (v : Varint) where
  pub read_entries-nil :
      (fuel done t prev : ℕ) (bytes : List ℕ) (starts : ℕ → ℕ)
      → read_entries v fuel 0 done t prev bytes starts
        ≡ some (record { entries = []; starts = starts; rest = bytes })
  unfolding read_entries
  read_entries-nil zero done t prev bytes starts = refl
  read_entries-nil (suc fuel) done t prev bytes starts = refl

  read_entries-list :
      (xs : List (ℕ × Bool)) (fuel count done t prev : ℕ) (rest : List ℕ) (starts : ℕ → ℕ)
      → Ascending prev xs
      → read_entries v
          (length xs + fuel)
          (length xs + count)
          done
          t
          prev
          (write_list v prev xs ++ rest)
          starts
        ≡ prepend
            (tagged t xs)
            (read_entries v fuel count (done + length xs) t (last_id prev xs) rest starts)
  unfolding write_list read_entries
  read_entries-list [] fuel count done t prev rest starts h =
      let f : 0 + fuel ≡ fuel = omega arith in
      let c : 0 + count ≡ count = omega arith in
      let d : done + 0 ≡ done = omega arith in
      rw (f, c, d) (prepend_nil (read_entries v fuel count done t prev rest starts))
  read_entries-list ((id, flag) ∷ xs) fuel count done t prev rest starts h =
      let f : suc (length xs) + fuel ≡ suc (length xs + fuel) = omega arith in
      let c : suc (length xs) + count ≡ suc (length xs + count) = omega arith in
      let d : done + suc (length xs) ≡ done + 1 + length xs = omega arith in
      let ref = (id - prev) * 2 + bit flag in
      let le = bit-le flag in
      let e = entry_ref prev id flag h.0 h.1 in
      let tail = write_list v id xs ++ rest in
      let some_ref : (ref == 0) ≡ false = ne→== ref 0 (λ z. absurd (omega (arith, z, h.0))) in
      let back : (ref / 2 + prev) % 2 ^ 64 ≡ id = omega (arith, h.0, h.1) in
      rw
        (
          f,
          c,
          d,
          e,
          append_assoc (v.write ref) (write_list v id xs) rest,
          read_entries,
          v.read-write ref tail (omega (arith, h.0, h.1)),
          some_ref,
          back,
          entry_flag (id - prev) flag,
        )
        (ap (put_entry (record { type_code = t; id = id; flag = flag }))
            (read_entries-list xs fuel count (done + 1) t id rest starts h.2)
          ∙ prepend-put _ (tagged t xs) _)

  pub read_entries-fuel :
      (xs : List (ℕ × Bool)) (fuel count done next t prev : ℕ) (rest : List ℕ) (starts : ℕ → ℕ)
      → length xs ≤ fuel
      → next ≡ done + length xs
      → Ascending prev xs
      → read_entries v fuel (length xs + count) done t prev (write_list v prev xs ++ rest) starts
        ≡ prepend
            (tagged t xs)
            (read_entries v (fuel - length xs) count next t (last_id prev xs) rest starts)
  read_entries-fuel xs fuel count done next t prev rest starts le n h =
      let e : fuel ≡ length xs + (fuel - length xs) = omega arith in
      subst
        (λ f.
          read_entries v f (length xs + count) done t prev (write_list v prev xs ++ rest) starts
          ≡ prepend (tagged t xs)
              (read_entries v (fuel - length xs) count next t (last_id prev xs) rest starts))
        (sym e) (rw n (read_entries-list xs (fuel - length xs) count done t prev rest starts h))

  -- A 0 begins the next type.
  pub read_entries-zero :
      (fuel count done t prev : ℕ) (bytes : List ℕ) (starts : ℕ → ℕ)
      → read_entries v (suc fuel) (suc count) done t prev (0 ∷ bytes) starts
        ≡ read_entries v fuel (suc count) done (t + 1) 0 bytes (write_start (t + 1) done starts)
  unfolding read_entries
  read_entries-zero fuel count done t prev bytes starts =
      let zero_byte : v.read (0 ∷ bytes) ≡ some (0, bytes) =
        subst (λ b. v.read (b ++ bytes) ≡ some (0, bytes)) v.write_zero
          (v.read-write 0 bytes (omega arith)) in
      rw (read_entries, zero_byte) refl
