-- ===== src/Change/CRef/Tests.antt =====
-- References at concrete TIPs and offsets.
use geodesk_gol.Prelude.{◌-◌, ◌^◌, ◌≡◌, inr, refl, arith, true, false, [], ◌∷◌}
use geodesk_gol.Change.CRef.Fields.{
  maybe_exported_ref, exported_ref, encode, of_not_exported_overflow,
}
use geodesk_gol.Change.CRef.Status.{
  is_vague-encode, is_vague_misses, write_to-encode, encode-injective,
}
use geodesk_gol.Change.CRef.{of_not_exported, tip, is_vague, text, number, write_to}

of_not_exported_overflow_example : tip (of_not_exported 7 (2 ^ 29)) ≡ 2 ^ 32 - 1
of_not_exported_overflow_example =
    of_not_exported_overflow 7 (2 ^ 29) (omega arith) (omega arith) (omega arith)

is_vague-encode_case : is_vague (encode (maybe_exported_ref 7 64)) ≡ true
is_vague-encode_case = is_vague-encode (maybe_exported_ref 7 64) (omega arith)

is_vague_misses_example : is_vague (encode (maybe_exported_ref 7 80)) ≡ false
is_vague_misses_example = is_vague_misses 7 80 (omega arith) (omega arith) (inr (omega arith))

write_to-encode_case :
    write_to (encode (exported_ref 7 40)) ≡ text "exported " ∷ number 7 ∷ text " #" ∷ number 40 ∷ []
write_to-encode_case = write_to-encode (exported_ref 7 40) (omega arith)

encode-injective_case : exported_ref 7 40 ≡ exported_ref 7 40
encode-injective_case =
    encode-injective (exported_ref 7 40) (exported_ref 7 40) (omega arith) (omega arith) refl
