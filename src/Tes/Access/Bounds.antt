-- ===== src/Tes/Access/Bounds.antt =====
-- Which numbers the reader's tables accept.
use geodesk_gol.Prelude.{
  ℕ, zero, suc, ◌+◌, ◌≤◌, ◌<◌, ◌↔◌, inl, inr, Bool, Bool-cases, ◌≡◌, refl, sym, ap, ap₂, ◌∙◌, none,
  some, List, [], ◌∷◌, ◌++◌, length, length-append, get_elem?, if◌then◌else◌, ltb, ltb→lt, ltb→ge,
  ge→ltb, leb, leb→gt, gt→leb, ◌==◌, ==→eq, arith,
}
use geodesk_gol.Tes.Index.{Entry}
use geodesk_gol.Tes.Index.Entries.{tagged}
use geodesk_gol.Tes.Access.{
  Access, found, invalid, outside, element, of_type, get_string, get_tag_table, get_relation_table,
  get_feature, get_node, get_relation,
}

module _ {ℓ} {A : Type ℓ} where
  get_elem?-in : (xs : List A) (n : ℕ) → n < length xs → (a : A) × (get_elem? xs n ≡ some a)
  get_elem?-in [] n h = absurd (omega (arith, h))
  get_elem?-in (x ∷ xs) zero h = (x, refl)
  get_elem?-in (x ∷ xs) (suc n) h = get_elem?-in xs n (omega (arith, h))

  get_elem?-out : (xs : List A) (n : ℕ) → length xs ≤ n → get_elem? xs n ≡ none
  get_elem?-out [] n h = refl
  get_elem?-out (x ∷ xs) zero h = absurd (omega (arith, h))
  get_elem?-out (x ∷ xs) (suc n) h = get_elem?-out xs n (omega (arith, h))

  get_elem?-left :
      (xs ys : List A) (n : ℕ) (a : A) → get_elem? xs n ≡ some a → get_elem? (xs ++ ys) n ≡ some a
  get_elem?-left [] ys n a e = absurd (cc e)
  get_elem?-left (x ∷ xs) ys zero a e = e
  get_elem?-left (x ∷ xs) ys (suc n) a e = get_elem?-left xs ys n a e

  get_elem?-right : (xs ys : List A) (n : ℕ) → get_elem? (xs ++ ys) (length xs + n) ≡ get_elem? ys n
  get_elem?-right [] ys n = let z : 0 + n ≡ n = omega arith in ap (get_elem? ys) z
  get_elem?-right (x ∷ xs) ys n =
      let z : suc (length xs) + n ≡ suc (length xs + n) = omega arith in
      ap (get_elem? (x ∷ xs ++ ys)) z ∙ get_elem?-right xs ys n

  element-outside : (xs : List A) (n : ℕ) → element (get_elem? xs n) ≡ outside → length xs ≤ n
  element-outside xs n e = elim (Bool-cases (ltb n (length xs))) [
    | inl h ↦ let (a, f) = get_elem?-in xs n (ltb→lt _ _ h) in absurd (cc (sym (ap element f) ∙ e))
    | inr h ↦ ltb→ge _ _ h
  ]

  element-in :
      (xs : List A) (n : ℕ) → n < length xs → (a : A) × (element (get_elem? xs n) ≡ found a)
  element-in xs n h = let (a, e) = get_elem?-in xs n h in (a, ap element e)

  checked-outside :
      (xs : List A) (n : ℕ)
      → ((if ltb (length xs) n then invalid else element (get_elem? xs n)) ≡ outside)
        ↔ (n ≡ length xs)
  checked-outside xs n = (
    λ e. elim (Bool-cases (ltb (length xs) n)) [
      | inl h ↦ cc (e, h)
      | inr h ↦
          let at_least = element-outside xs n (cc (e, h)) in omega (arith, at_least, ltb→ge _ _ h)
    ],
    λ e.
        rw
          (
            e,
            ge→ltb (length xs) (length xs) (omega arith),
            get_elem?-out xs (length xs) (omega arith),
          )
          refl,
  )

  -- `getString` and `getTagTable` read outside their array for exactly one number, the number of its
  -- elements: what they refuse starts one later. `getRelationTable` does so from that number on.
  pub shared_tables-outside :
      (xs : List A) (number : ℕ)
      → ((get_string xs number ≡ outside) ↔ (number ≡ length xs))
        × ((get_tag_table xs number ≡ outside) ↔ (number ≡ length xs))
        × ((get_relation_table xs number ≡ outside) ↔ (length xs ≤ number))
  unfolding get_string get_tag_table get_relation_table
  shared_tables-outside xs number = (
    checked-outside xs number,
    checked-outside xs number,
    (element-outside xs number, λ h. rw (get_elem?-out xs number h) refl),
  )

-- An access that stays inside the array and gives what it promises, or throws.
abbrev pub Keeps : (Entry → Type 0) → Access Entry → Type 0
Keeps P (found e) = P e
Keeps P invalid = Unit
Keeps P outside = ⊥

of_type-Keeps :
    (t : ℕ) (a : Access Entry) → Keeps (λ e. Unit) a → Keeps (λ e. e.type_code ≡ t) (of_type t a)
of_type-Keeps t (found e) h = elim (Bool-cases (e.type_code == t)) [
  | inl same ↦ rw same (==→eq e.type_code t same)
  | inr new ↦ rw new _
]
of_type-Keeps t invalid h = _
of_type-Keeps t outside h = h

element-Keeps :
    (fs : List Entry) (n : ℕ) → n < length fs → Keeps (λ e. Unit) (element (get_elem? fs n))
element-Keeps fs n h = let (e, f) = element-in fs n h in rw f _

-- `getFeature`, `getNode` and `getRelation` never read outside the features: whatever number the file
-- has, they throw or give a feature, which is a node or a relation where that was asked for, provided
-- the ways start no later than the features end.
pub features_are_kept :
    (features : List Entry) (first_way first_relation number : ℕ)
    → first_way ≤ length features
    → Keeps (λ e. Unit) (get_feature features number)
      × Keeps (λ e. e.type_code ≡ 0) (get_node features first_way number)
      × Keeps (λ e. e.type_code ≡ 2) (get_relation features first_relation number)
unfolding get_feature get_node get_relation
features_are_kept fs first_way first_relation n h = (
  elim (Bool-cases (leb (length fs) n)) [
    | inl e ↦ rw e _
    | inr e ↦ rw e (element-Keeps fs n (leb→gt _ _ e))
  ],
  elim (Bool-cases (leb first_way n)) [
    | inl e ↦ rw e _
    | inr e ↦ rw e (of_type-Keeps 0 _ (element-Keeps fs n (omega (arith, leb→gt _ _ e, h))))
  ],
  elim (Bool-cases (leb (length fs) (first_relation + n))) [
    | inl e ↦ rw e _
    | inr e ↦ rw e (of_type-Keeps 2 _ (element-Keeps fs (first_relation + n) (leb→gt _ _ e)))
  ],
)

tagged-elem :
    (t : ℕ) (xs : List (ℕ × Bool)) (k : ℕ)
    → k < length xs
    → (e : Entry) × (get_elem? (tagged t xs) k ≡ some e) × (e.type_code ≡ t)
tagged-elem t [] k h = absurd (omega (arith, h))
tagged-elem t ((id, flag) ∷ xs) zero h =
    (record { type_code = t; id = id; flag = flag }, refl, refl)
tagged-elem t ((id, flag) ∷ xs) (suc k) h = tagged-elem t xs k (omega (arith, h))

length-tagged : (t : ℕ) (xs : List (ℕ × Bool)) → length (tagged t xs) ≡ length xs
length-tagged t [] = refl
length-tagged t ((id, flag) ∷ xs) = ap suc (length-tagged t xs)

-- With the features of an index, and the places of the index, the reader's node number `k` is the
-- `k`th node and its relation number `k` the `k`th relation, as long as there are so many.
pub numbers_of_index :
    (ns ws rs : List (ℕ × Bool)) (i k : ℕ)
    → i < length ns
    → k < length rs
    → ((e : Entry) × (get_elem? (tagged 0 ns) i ≡ some e)
        × (get_node (tagged 0 ns ++ (tagged 1 ws ++ tagged 2 rs)) (length ns) i ≡ found e))
      × ((e : Entry) × (get_elem? (tagged 2 rs) k ≡ some e)
          × (get_relation (tagged 0 ns ++ (tagged 1 ws ++ tagged 2 rs)) (length ns + length ws) k
              ≡ found e))
unfolding get_node get_relation
numbers_of_index ns ws rs i k hi hk =
    let later = tagged 1 ws ++ tagged 2 rs in
    let fs = tagged 0 ns ++ later in
    let (a, fa, ta) = tagged-elem 0 ns i hi in
    let (b, fb, tb) = tagged-elem 2 rs k hk in
    let place : length ns + length ws + k ≡ length (tagged 0 ns) + (length (tagged 1 ws) + k) =
      omega (arith, length-tagged 0 ns, length-tagged 1 ws) in
    let there : get_elem? fs (length ns + length ws + k) ≡ some b =
      ap (get_elem? fs) place
      ∙ get_elem?-right (tagged 0 ns) later (length (tagged 1 ws) + k)
      ∙ get_elem?-right (tagged 1 ws) (tagged 2 rs) k
      ∙ fb in
    let total : length fs ≡ length ns + (length ws + length rs) =
      length-append (tagged 0 ns) later
      ∙ ap₂ (λ x y. x + y) (length-tagged 0 ns)
          (length-append (tagged 1 ws) (tagged 2 rs)
            ∙ ap₂ (λ x y. x + y) (length-tagged 1 ws) (length-tagged 2 rs)) in
    (
      (a, fa, rw (gt→leb (length ns) i hi, get_elem?-left (tagged 0 ns) later i a fa, ta) refl),
      (
        b,
        fb,
        rw (gt→leb (length fs) (length ns + length ws + k) (omega (arith, total, hk)), there, tb)
            refl,
      ),
    )
