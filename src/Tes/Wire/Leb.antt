-- ===== src/Tes/Wire/Leb.antt =====
-- A concrete `Varint` for the examples: seven bits to a byte, the lowest first, ten bytes at most.
use geodesk_gol.Prelude.{
  ℕ, zero, suc, ◌+◌, ◌*◌, ◌/◌, ◌%◌, false, Bool-cases, ◌≡◌, refl, ap, ◌∙◌, Option, none, some, inl,
  inr, List, [], ◌∷◌, ◌++◌, ltb, ge→ltb, if◌then◌else◌, arith,
}
use geodesk_gol.Tes.Wire.{Varint}

abbrev pub encode : ℕ → ℕ → List ℕ
encode zero v = v ∷ []
encode (suc fuel) v =
    let later = encode fuel (v / 128) in if ltb v 128 then v ∷ [] else (v % 128 + 128) ∷ later

abbrev pub carry : ℕ → Option (ℕ × List ℕ) → Option (ℕ × List ℕ)
carry b none = none
carry b (some (high, rest)) = some (high * 128 + b % 128, rest)

abbrev pub decode : ℕ → List ℕ → Option (ℕ × List ℕ)
decode fuel [] = none
decode zero (b ∷ bytes) = some (b, bytes)
decode (suc fuel) (b ∷ bytes) =
    let later = decode fuel bytes in if ltb b 128 then some (b, bytes) else carry b later

pub decode-encode :
    (fuel v : ℕ) (rest : List ℕ) → decode fuel (encode fuel v ++ rest) ≡ some (v, rest)
decode-encode zero v rest = refl
decode-encode (suc fuel) v rest = elim (Bool-cases (ltb v 128)) [
  | inl e ↦ rw (e, e) refl
  | inr e ↦
      let big : ltb (v % 128 + 128) 128 ≡ false = ge→ltb _ _ (omega arith) in
      let back : v / 128 * 128 + (v % 128 + 128) % 128 ≡ v = omega arith in
      rw (e, big)
        (ap (carry (v % 128 + 128)) (decode-encode fuel (v / 128) rest)
          ∙ ap (λ w. some (w, rest)) back)
]

abbrev pub leb128 : Varint
leb128 = record {
  write = encode 9;
  read = decode 9;
  read-write = λ v rest h. decode-encode 9 v rest;
  write_zero = refl;
}
