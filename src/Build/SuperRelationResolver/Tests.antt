-- ===== src/Build/SuperRelationResolver/Tests.antt =====
-- Relations 5 and 6 are members of each other, and relation 5 has a node besides. The cycle is broken
-- at relation 5, whose score is lower.
use mathlib.Core.List.{Permᴰ}
use mathlib.Core.List.Permᴰ
use geodesk_gol.Prelude.{
  ℕ, ◌+◌, ◌*◌, ◌-◌, ◌≡◌, refl, inl, inr, Bool-cases, Bool, true, false, Option, none, some, List,
  [], ◌∷◌, All, ltb, ◌==◌, if◌then◌else◌, arith,
}
use geodesk_gol.Tes.Wire.Leb.{leb128}
use geodesk_gol.Build.StringCatalog.{StringCatalog, Codes, null}
use geodesk_gol.Build.StringCatalog.Strings.{read_string_view}
use geodesk_gol.Build.SuperRelation.{
  Member, SuperRelation, validate, clear_member, recode, recode_members,
}
use geodesk_gol.Build.SuperRelationResolver.{
  Relation, CyclicalRelation, Resolver, Setting, resolve_relations, resolve_relation, visit_members,
  retry, finish, break_reference_cycle,
}
use geodesk_gol.Build.SuperRelationResolver.Score.{
  Doubles, calculate_score, count_non_relations, add_tag_scores, add_tag_score,
}
use geodesk_gol.Build.SuperRelationResolver.Adding.{
  Queue, add, add_relations, no_relations, resolver_of, setting_of, IsFresh,
  resolve_relations-add_relations,
}
use geodesk_gol.Build.SuperRelationResolver.Resolved.{listed, Hierarchy}

abbrev Entry : Type 0
Entry = Option ℕ × CyclicalRelation

abbrev lower : Entry → Entry → Bool
lower (none, e) y = true
lower (some a, e) (none, f) = false
lower (some a, e) (some b, f) = ltb a b

abbrev insert : Entry → List Entry → List Entry
insert x [] = x ∷ []
insert x (y ∷ ys) = if lower x y then x ∷ y ∷ ys else y ∷ insert x ys

abbrev sort : List Entry → List Entry
sort [] = []
sort (x ∷ xs) = insert x (sort xs)

insert-perm : (x : Entry) (ys : List Entry) → Permᴰ (x ∷ ys) (insert x ys)
insert-perm x [] = Permᴰ.refl _
insert-perm x (y ∷ ys) = elim (Bool-cases (lower x y)) [
  | inl e ↦ rw e (Permᴰ.refl _)
  | inr e ↦ rw e (Permᴰ.trans (Permᴰ.swap refl refl) (Permᴰ.cons refl (insert-perm x ys)))
]

sort-perm : (xs : List Entry) → Permᴰ xs (sort xs)
sort-perm [] = Permᴰ.nil
sort-perm (x ∷ xs) = Permᴰ.trans (Permᴰ.cons refl (sort-perm xs)) (insert-perm x (sort xs))

abbrev no_codes : Codes
no_codes = record { code_of = λ s. null; refs = [] }

abbrev catalog : StringCatalog
catalog = record {
  strings = [];
  table = λ i. [];
  table_slot_count = 0;
  global_strings = [];
  global_code_plus_one = λ i. 0;
  global_string_data_size = 0;
  keys = no_codes;
  values = no_codes;
}

abbrev whole : Doubles
whole = record {
  Double = ℕ;
  of_int = λ k. k;
  plus = λ a b. a + b;
  minus = λ a b. a - b;
  times = λ a b. a * b;
  parse_double = λ s. elim s [ [] ↦ none | c ∷ cs ↦ some (c - 48) ];
}

abbrev score : SuperRelation → Option ℕ
score = calculate_score leb128.read (λ s. []) catalog whole

abbrev setting : Setting
setting = record {
  varint = leb128;
  zoom_of = λ tile. 12;
  relation_index = λ id. 0;
  super_relations_by_id = λ id. none;
  tile_pair_of_pile_pair = λ pile. pile;
  is_null = λ tile. tile == 0;
  add_tile_pair = λ a b. if a == 0 then b else a;
  normalized_tile_pair = λ tile. tile;
  pile_pair_of_tile_pair = λ tile. tile;
  Score = Option ℕ;
  score = score;
  sort = sort;
  sort-perm = sort-perm;
}

abbrev member : ℕ → Member
member typed_id = record { typed_id = typed_id; pile_pair = 0; tile_pair = 0 }

abbrev relation : ℕ → List Member → List ℕ → ℕ → Relation
relation id members body tile_pair = record {
  relation = record {
    members = members;
    body = body;
    highest_member_zoom = 0;
    missing_member_count = 0;
    removed_refcycle_count = 0;
  };
  id = id;
  is_resolved = false;
  is_pending = false;
  level = 0;
  tile_pair = tile_pair;
  pile_pair = 0;
}

abbrev five : Relation
five = relation 5 (member 26 ∷ member 12 ∷ []) (26 ∷ 0 ∷ 12 ∷ 0 ∷ []) 3

-- With the tag admin_level=4.
abbrev six : Relation
six =
    relation 6 (member 22 ∷ [])
      (22 ∷ 0 ∷ 22 ∷ 97 ∷ 100 ∷ 109 ∷ 105 ∷ 110 ∷ 95 ∷ 108 ∷ 101 ∷ 118 ∷ 101 ∷ 108 ∷ 2 ∷ 52 ∷ []) 0

abbrev relations : List Relation
relations = five ∷ six ∷ []

abbrev queue : Queue
queue = add_relations relations no_relations

scores : (score five.relation ≡ some 1) × (score six.relation ≡ some 1010000000)
unfolding calculate_score count_non_relations add_tag_scores add_tag_score read_string_view
scores = (refl, refl)

abbrev levels : Option (List (ℕ × ℕ) × Resolver) → List (ℕ × ℕ)
levels none = []
levels (some (placed, last)) = placed

-- Relation 5 has no child left, and relation 6 is above it.
placed_levels :
    levels (resolve_relations (setting_of setting queue) 5 queue.count 0 (resolver_of queue))
    ≡ (1, 0) ∷ (2, 1) ∷ []
unfolding resolve_relations resolve_relation visit_members retry finish break_reference_cycle
    calculate_score count_non_relations add_tag_scores add_tag_score read_string_view clear_member
    validate recode recode_members add
placed_levels = refl

relations-IsFresh : All (IsFresh leb128) relations
relations-IsFresh = (
  (refl, refl, ((λ e h. omega (arith, h)), ((λ e h. omega (arith, h)), tt)), tt),
  ((refl, refl, ((λ e h. omega (arith, h)), tt), tt), tt),
)

resolve_relations-add_relations_example :
    (last : Resolver) × (resolve_relations
        (setting_of setting queue)
        5
        queue.count
        0
        (resolver_of queue)
      ≡ some (listed (setting_of setting queue) queue.count queue.count 0 last.rels, last))
    × Hierarchy (setting_of setting queue) queue.count last.rels
resolve_relations-add_relations_example =
    resolve_relations-add_relations setting relations 5 relations-IsFresh (omega arith)
