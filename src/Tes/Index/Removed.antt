-- ===== src/Tes/Index/Removed.antt =====
-- Reading the list of removed features that was written.
use geodesk_gol.Prelude.{
  ℕ, zero, suc, ◌+◌, ◌/◌, ◌%◌, ◌^◌, ◌≤◌, ◌<◌, Bool, not, ◌≡◌, refl, sym, ap, ap₂, ◌∙◌, Option, none,
  some, inl, inr, Bool-cases, Option-cases, List, ◌++◌, length, ◌==◌,
}
use geodesk_gol.Tes.Wire.{Varint}
use geodesk_gol.Tes.Index.{
  Entry, Read, put_entry, put_removed, write_start, write_index, read_entries, read_index,
  read_removed_entries, read_removed,
}
use geodesk_gol.Tes.Index.Entries.{Ascending, tagged}
use geodesk_gol.Tes.Index.RoundTrip.{read_index-write_index}

-- The list of removed features is read the way the index is, but for the places.
abbrev forget : Option Read → Option (List Entry × List ℕ)
forget none = none
forget (some r) = some (r.entries, r.rest)

forget-put : (e : Entry) (o : Option Read) → forget (put_entry e o) ≡ put_removed e (forget o)
forget-put e none = refl
forget-put e (some r) = refl

module _ (v : Varint) where
  read_removed_entries-forget :
      (fuel count done t prev : ℕ) (bytes : List ℕ) (starts : ℕ → ℕ)
      → read_removed_entries v fuel count t prev bytes
        ≡ forget (read_entries v fuel count done t prev bytes starts)
  unfolding read_removed_entries read_entries
  read_removed_entries-forget zero zero done t prev bytes starts = refl
  read_removed_entries-forget (suc fuel) zero done t prev bytes starts = refl
  read_removed_entries-forget zero (suc count) done t prev bytes starts = refl
  read_removed_entries-forget (suc fuel) (suc count) done t prev bytes starts =
      elim (Option-cases (v.read bytes)) [
        | inl e ↦ rw (read_removed_entries, read_entries, e) refl
        | inr (p, e) ↦ elim (Bool-cases (p.0 == 0)) [
          | inl z ↦
              rw (read_removed_entries, read_entries, e, z)
                (read_removed_entries-forget fuel (suc count) done (t + 1) 0 p.1
                  (write_start (t + 1) done starts))
          | inr z ↦
              let id = (p.0 / 2 + prev) % 2 ^ 64 in
              let entry : Entry = record { type_code = t; id = id; flag = not (p.0 % 2 == 0) } in
              rw (read_removed_entries, read_entries, e, z)
                (ap (put_removed entry)
                    (read_removed_entries-forget fuel count (done + 1) t id p.1 starts)
                  ∙ sym (forget-put entry (read_entries v fuel count (done + 1) t id p.1 starts)))
        ]
      ]

  -- The updater writes its removed features the way it writes its index, and the reader takes them
  -- in: the entries in their order with their flags, and every byte after them left, under the same conditions on
  -- the ids, the counts and the fuel.
  pub read_removed-write_index :
      (ns ws rs : List (ℕ × Bool)) (fuel : ℕ) (rest : List ℕ)
      → Ascending 0 ns
      → Ascending 0 ws
      → Ascending 0 rs
      → length ns + (length ws + length rs) < 2 ^ 32
      → 2 + (length ns + (length ws + length rs)) ≤ fuel
      → read_removed v fuel (write_index v ns ws rs ++ rest)
        ≡ some (tagged 0 ns ++ (tagged 1 ws ++ tagged 2 rs), rest)
  unfolding read_removed read_index
  read_removed-write_index ns ws rs fuel rest hn hw hr small le =
      let (r, e, entries, _, _, left) =
        read_index-write_index v ns ws rs fuel rest hn hw hr small le in
      let bytes = write_index v ns ws rs ++ rest in
      let f : read_removed v fuel bytes ≡ forget (read_index v fuel bytes) =
        elim (Option-cases (v.read bytes)) [
          | inl n ↦ rw (read_removed, read_index, n) refl
          | inr (p, n) ↦
              rw (read_removed, read_index, n)
                (read_removed_entries-forget fuel (p.0 % 2 ^ 32) 0 0 0 p.1 _)
        ] in
      f ∙ ap forget e ∙ ap₂ (λ a b. some (a, b)) entries left
