-- ===== src/Tag/AreaClassifier/Parser.antt =====
-- src/tag/AreaClassifier.cpp, Parser::parseRules: the rules as they are written.
use geodesk_gol.Prelude.{
  ℕ, zero, suc, bit_or, Bool, true, false, Option, none, some, List, [], ◌∷◌, ◌++◌, if◌then◌else◌,
}
use geodesk_gol.Tag.AreaClassifier.{
  Entry, reject_some, accept_all, definite_for_way, definite_for_relation, same_bytes,
}

-- What the code calls of its scanner: a key, a character if it comes next, an identifier and the
-- whitespace behind it, a character that must come next. A missing token is an error.
pub record Scanner (Text : Type 0) : Type 0 where
  pub expect_key : Text → Option (List ℕ × Text)
  pub accept : ℕ → Text → Bool × Text
  pub identifier : Text → List ℕ × Text
  pub expect : ℕ → Text → Option Text

abbrev pub entry : List ℕ → Entry
entry s = record { code = 0; flags = 0; is_key = false; string = s }

-- The bytes of "area", "type" and "except".
abbrev pub word_area : List ℕ
word_area = 97 ∷ 114 ∷ 101 ∷ 97 ∷ []

abbrev pub word_type : List ℕ
word_type = 116 ∷ 121 ∷ 112 ∷ 101 ∷ []

abbrev pub word_except : List ℕ
word_except = 101 ∷ 120 ∷ 99 ∷ 101 ∷ 112 ∷ 116 ∷ []

-- A key before its values are read.
pub key_entry : List ℕ → Entry
key_entry key = record (entry key) {
  is_key = true;
  flags =
      if same_bytes key word_area
      then definite_for_way
      else if same_bytes key word_type
      then definite_for_relation
      else 0;
}

module _ {Text : Type 0} (scanner : Scanner Text) where
  -- The values of a key, whose flags "except" overwrites. `none` is an error, or too little fuel.
  pub parse_values : ℕ → Entry → List Entry → Text → Option (Entry × List Entry × Text)
  parse_values zero key values text = none
  parse_values (suc fuel) key values text =
      let (value, behind) = scanner.identifier text in
      let (more, next) = scanner.accept 44 behind in
      if same_bytes value []
      then none
      else if same_bytes value word_except
      then parse_values fuel (record key { flags = reject_some }) values behind
      else if more
      then parse_values fuel key (values ++ entry value ∷ []) next
      else some (key, values ++ entry value ∷ [], next)

  pub parse_key : ℕ → List ℕ → Text → Option (Entry × List Entry × Text)
  parse_key fuel key text =
      let (opened, inside) = scanner.accept 40 text in
      if opened
      then (elim (parse_values fuel (key_entry key) [] inside) [
        | none ↦ none
        | some (k, values, behind) ↦ elim (scanner.expect 41 behind) [
          | none ↦ none
          | some closed ↦ some (k, values, closed)
        ]
      ])
      else some
          (record (key_entry key) { flags = bit_or (key_entry key).flags accept_all }, [], inside)

  pub parse_rules : ℕ → List Entry → Text → Option (List Entry)
  parse_rules zero entries text = none
  parse_rules (suc fuel) entries text = elim (scanner.expect_key text) [
    | none ↦ none
    | some (key, behind) ↦ elim (parse_key fuel key behind) [
      | none ↦ none
      | some (k, values, end) ↦
          let parsed = entries ++ k ∷ values in
          let (more, next) = scanner.accept 44 end in
          if more then parse_rules fuel parsed next else some parsed
    ]
  ]
