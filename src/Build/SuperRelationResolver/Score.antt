-- ===== src/Build/SuperRelationResolver/Score.antt =====
-- src/build/sort/SuperRelationResolver.cpp, calculateScore: how likely a relation is at the top of a
-- hierarchy.
-- Floating-point numbers and their parser are an interface. A string is the list of its bytes. A body
-- that ends too early has no score.
use geodesk_gol.Prelude.{
  ℕ, zero, suc, ◌%◌, ◌||◌, Option, none, some, List, [], ◌∷◌, length, ◌==◌, if◌then◌else◌,
}
use geodesk_gol.Tag.AreaClassifier.{same_bytes}
use geodesk_gol.Build.StringCatalog.{StringCatalog, key, value}
use geodesk_gol.Build.StringCatalog.Strings.{bind, read_string_view}
use geodesk_gol.Build.SuperRelation.{SuperRelation, Member}

pub record Doubles : Type 1 where
  pub Double : Type 0
  pub of_int : ℕ → Double
  pub plus : Double → Double → Double
  pub minus : Double → Double → Double
  pub times : Double → Double → Double
  pub parse_double : List ℕ → Option Double

-- What the literals of the source are as bytes.
pub record Words : Type 0 where
  pub type_key : List ℕ
  pub superroute : List ℕ
  pub route_master : List ℕ
  pub network : List ℕ
  pub site : List ℕ
  pub admin_level : List ℕ

abbrev pub words : Words
words = record {
  type_key = 116 ∷ 121 ∷ 112 ∷ 101 ∷ [];
  superroute = 115 ∷ 117 ∷ 112 ∷ 101 ∷ 114 ∷ 114 ∷ 111 ∷ 117 ∷ 116 ∷ 101 ∷ [];
  route_master = 114 ∷ 111 ∷ 117 ∷ 116 ∷ 101 ∷ 95 ∷ 109 ∷ 97 ∷ 115 ∷ 116 ∷ 101 ∷ 114 ∷ [];
  network = 110 ∷ 101 ∷ 116 ∷ 119 ∷ 111 ∷ 114 ∷ 107 ∷ [];
  site = 115 ∷ 105 ∷ 116 ∷ 101 ∷ [];
  admin_level = 97 ∷ 100 ∷ 109 ∷ 105 ∷ 110 ∷ 95 ∷ 108 ∷ 101 ∷ 118 ∷ 101 ∷ 108 ∷ [];
}

module _ (read_varint : List ℕ → Option (ℕ × List ℕ)) (bytes_of : ℕ → List ℕ)
    (strings : StringCatalog) (d : Doubles) where
  abbrev read_string : List ℕ → Option (List ℕ × List ℕ)
  read_string = read_string_view read_varint bytes_of value strings

  -- The first loop: the number of members that are not relations, and the bytes of the tags.
  unfoldable pub count_non_relations : List Member → List ℕ → Option (ℕ × List ℕ)
  count_non_relations [] p = some (0, p)
  count_non_relations (m ∷ members) p = bind (read_varint p) (λ id. bind (read_string id.1) (λ role.
      bind (count_non_relations members role.1)
        (λ rest. some (if id.0 % 4 == 2 then rest.0 else suc rest.0, rest.1))))

  -- The score of one tag.
  unfoldable pub add_tag_score : List ℕ → List ℕ → d.Double → d.Double
  add_tag_score k val score =
      if same_bytes k words.type_key
      then (if same_bytes val words.superroute || same_bytes val words.route_master
          then d.plus score (d.of_int 50000000)
          else (if same_bytes val words.network
              then d.plus score (d.of_int 100000000)
              else (if same_bytes val words.site then d.plus score (d.of_int 20000000) else score)))
      else (if same_bytes k words.admin_level
          then elim (d.parse_double val) [
            | none ↦ score
            | some level ↦ d.plus score (d.times (d.minus (d.of_int 14) level) (d.of_int 1000000))
          ]
          else score)

  -- The loop over the tags; each reads a byte at least.
  unfoldable pub add_tag_scores : ℕ → List ℕ → d.Double → Option d.Double
  add_tag_scores zero p score = elim p [ [] ↦ some score | b ∷ bs ↦ none ]
  add_tag_scores (suc fuel) [] score = some score
  add_tag_scores (suc fuel) (b ∷ bs) score =
      bind (read_string_view read_varint bytes_of key strings (b ∷ bs)) (λ k.
        bind (read_string k.1) (λ val. add_tag_scores fuel val.1 (add_tag_score k.0 val.0 score)))

  -- `calculateScore`
  unfoldable pub calculate_score : SuperRelation → Option d.Double
  calculate_score rel = bind (count_non_relations rel.members rel.body) (λ counted.
      add_tag_scores (length counted.1) counted.1
        (d.plus (d.of_int 0) (d.of_int (if counted.0 == 0 then 1000000000 else counted.0))))
