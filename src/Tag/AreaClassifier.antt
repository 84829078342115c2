-- ===== src/Tag/AreaClassifier.antt =====
-- src/tag/AreaClassifier.h and .cpp: the rules that tell which tags make a feature an area.
-- A string is the list of its bytes; the table of rules is a list of bytes and a pointer into it a
-- position. The dictionary of global strings, the sort of the standard library and the parser's
-- scanner are parameters. The assertions do not run in a release build.
pub mod Tags
pub mod Parser
mod Tests
use geodesk_gol.Prelude.{
  ℕ, zero, suc, ◌+◌, ◌-◌, ◌*◌, ◌/◌, ◌%◌, ◌^◌, max, bit_and, bit_or, Bool, true, false, not, ◌&&◌,
  ◌||◌, Option, none, some, List, [], ◌∷◌, ◌++◌, length, get_or, take, drop, leb, ltb, ◌==◌,
  if◌then◌else◌,
}

pub record Entry : Type 0 where
  pub code : ℕ
  pub flags : ℕ
  pub is_key : Bool
  pub string : List ℕ

abbrev pub reject_some : ℕ
reject_some = 1

abbrev pub accept_all : ℕ
accept_all = 2

abbrev pub definite_for_way : ℕ
definite_for_way = 4

abbrev pub definite_for_relation : ℕ
definite_for_relation = 8

abbrev pub has_flag : ℕ → ℕ → Bool
has_flag flags flag = not (bit_and flags flag == 0)

abbrev pub same_bytes : List ℕ → List ℕ → Bool
same_bytes [] [] = true
same_bytes [] (y ∷ ys) = false
same_bytes (x ∷ xs) [] = false
same_bytes (x ∷ xs) (y ∷ ys) = (x == y) && same_bytes xs ys

-- `operator<` of `std::string_view`
abbrev pub string_less : List ℕ → List ℕ → Bool
string_less xs [] = false
string_less [] (y ∷ ys) = true
string_less (x ∷ xs) (y ∷ ys) = ltb x y || ((x == y) && string_less xs ys)

-- `Entry::operator<`: local strings in reverse order, then global ones by their code.
pub entry_less : Entry → Entry → Bool
entry_less a b = if a.code == b.code then string_less b.string a.string else ltb a.code b.code

-- `RulePtr`: the position in the upper 28 bits, the flags below. The position of a rule that accepts
-- all values is never read.
abbrev pub rule_ptr : Option ℕ → ℕ → ℕ
rule_ptr none flags = flags
rule_ptr (some p) flags = bit_or ((p * 2 ^ 4) % 2 ^ 32) flags

abbrev pub rule_flags : ℕ → ℕ
rule_flags packed = bit_and packed 15

abbrev pub rule_pos : ℕ → ℕ
rule_pos packed = packed / 2 ^ 4

abbrev pub unsigned_short : ℕ → List ℕ
unsigned_short x = (x % 2 ^ 8) ∷ ((x / 2 ^ 8) % 2 ^ 8) ∷ []

-- The entries up to the next key, and the rest.
abbrev pub values_of : List Entry → List Entry × List Entry
values_of [] = ([], [])
values_of (e ∷ es) =
    let (values, rest) = values_of es in if e.is_key then ([], e ∷ es) else (e ∷ values, rest)

pub record Rules : Type 0 where
  pub table : List ℕ
  pub global_rules : ℕ → Option ℕ
  pub local_rules : List ℕ → Option ℕ

-- A lookup in the global strings gives a code, or `none` where the source has a number below 0.
module _ (lookup : List ℕ → Option ℕ) where
  abbrev unsigned_code : List ℕ → ℕ
  unsigned_code s = elim (lookup s) [ none ↦ 2 ^ 32 - 1 | some c ↦ c ]

  -- `determineLastDefiniteGlobalKey`; -1 is the largest 32-bit number.
  pub last_definite_global_key : List ℕ → List ℕ → ℕ
  last_definite_global_key area type = max (unsigned_code area) (unsigned_code type)

  -- The first loop over the values of a key: their codes, and the size of the table.
  pub resolve : List Entry → ℕ → List Entry × ℕ
  resolve [] size = ([], size)
  resolve (e ∷ es) size = elim (lookup e.string) [
    | some code ↦
        let (rest, total) = resolve es (size + 2) in
        (record e { code = code % 2 ^ 16 } ∷ rest, total)
    | none ↦
        let padded = size + 2 + length e.string in
        let (rest, total) = resolve es (padded + padded % 2) in (e ∷ rest, total)
  ]

  -- The first loop over the entries, on at most `fuel` keys.
  pub resolve_all : (List Entry → List Entry) → ℕ → List Entry → ℕ → List Entry × ℕ
  resolve_all sort zero es size = (es, size)
  resolve_all sort (suc fuel) [] size = ([], size)
  resolve_all sort (suc fuel) (key ∷ es) size =
      let (values, rest) = values_of es in
      if has_flag key.flags accept_all
      then (let (others, total) = resolve_all sort fuel es size in (key ∷ others, total))
      else (let (coded, grown) = resolve values (size + 4) in
          let (others, total) = resolve_all sort fuel rest grown in
          (key ∷ sort coded ++ others, total))

  -- The second loop over the values: the bytes so far, and where the global values start.
  pub put_values : List Entry → List ℕ → Option ℕ → List ℕ × Option ℕ
  put_values [] table rule = (table, rule)
  put_values (e ∷ es) table rule =
      if e.code == 0
      then put_values es
          (table
            ++ take (length e.string % 2) (0 ∷ [])
            ++ e.string
            ++ unsigned_short (length e.string))
          rule
      else put_values es (table ++ unsigned_short e.code)
          (elim rule [ none ↦ some (length table) | some p ↦ some p ])

  -- The part of the table for a key: a 0 word, the values, and 0xffff.
  pub put_rule : List Entry → List ℕ → List ℕ × ℕ
  put_rule values table =
      let (filled, rule) = put_values values (table ++ unsigned_short 0) none in
      (filled ++ unsigned_short 65535, elim rule [ none ↦ length filled | some p ↦ p ])

  -- `HashMap::insert` keeps an entry that is there.
  abbrev pub insert_rule : ℕ → Entry → ℕ → Rules → Rules
  insert_rule max_common_key key rule r =
      let insert_local = record r {
        local_rules = λ s. elim (r.local_rules s) [
          | some old ↦ some old
          | none ↦ if same_bytes s key.string then some rule else none
        ];
      } in
      elim (lookup key.string) [
        | none ↦ insert_local
        | some code ↦
            if leb code max_common_key
            then record r {
              global_rules = λ k. elim (r.global_rules k) [
                | some old ↦ some old
                | none ↦ if k == code then some rule else none
              ];
            }
            else insert_local
      ]

  -- The second loop over the entries, on at most `fuel` keys.
  pub build_rules : ℕ → ℕ → List Entry → Rules → Rules
  build_rules max_common_key zero es r = r
  build_rules max_common_key (suc fuel) [] r = r
  build_rules max_common_key (suc fuel) (key ∷ es) r =
      let (values, rest) = values_of es in
      if has_flag key.flags accept_all
      then build_rules max_common_key fuel es
          (insert_rule max_common_key key (rule_ptr none key.flags) r)
      else (let (table, p) = put_rule values r.table in
          build_rules max_common_key fuel rest (
            insert_rule max_common_key key (rule_ptr (some p) key.flags)
              (record r { table = table })))

  -- The constructor.
  pub classifier_of : (List Entry → List Entry) → ℕ → List Entry → Rules
  classifier_of sort max_common_key es =
      build_rules max_common_key (length es) (resolve_all sort (length es) es 0).0
        (record { table = []; global_rules = λ k. none; local_rules = λ s. none })
