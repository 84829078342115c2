-- ===== src/Tile/KeyIndex/Ring.antt =====
-- The links between the features of a root: a circular list, kept by `addFeature` and `add`.
use mathlib.Core.List.{Perm, perm_append_comm, perm_middle}
use mathlib.Core.List.Perm
use geodesk_gol.Prelude.{
  ℕ, suc, ◌+◌, ◌^◌, ◌<◌, ◌≡◌, ◌≢◌, refl, sym, subst, true, false, none, some, List, [], ◌∷◌, ◌++◌,
  length, ne→==, ==_refl, All, All-append_left, All-append_right, arith, length-append, append-nil,
}
use geodesk_gol.Tile.KeyIndex.{
  Root, update, link_feature, splice, link_rings, add_feature, add, emptied, is_empty,
}

-- Links from `o` through the features `xs` to `e`.
abbrev pub Links : (ℕ → ℕ) → ℕ → List ℕ → ℕ → Type 0
Links next o [] e = o ≡ e
Links next o (x ∷ xs) e = (o ≡ x) × Links next (next x) xs e

abbrev pub Lacks : ℕ → List ℕ → Type 0
Lacks p = All (λ x. x ≢ p)

-- No feature twice.
abbrev pub Distinct : List ℕ → Type 0
Distinct [] = Unit
Distinct (x ∷ xs) = Lacks x xs × Distinct xs

update_self : (next : ℕ → ℕ) (p v : ℕ) → update next p v p ≡ v
update_self next p v = rw (==_refl p) refl

update_other : (next : ℕ → ℕ) (p v q : ℕ) → q ≢ p → update next p v q ≡ next q
update_other next p v q h = rw (ne→== p q (λ e. h (sym e))) refl

Links-update :
    (next : ℕ → ℕ) (p v o : ℕ) (xs : List ℕ) (e : ℕ)
    → Lacks p xs
    → Links next o xs e
    → Links (update next p v) o xs e
Links-update next p v o [] e h l = l
Links-update next p v o (x ∷ xs) e h l =
    (l.0, rw (update_other next p v x h.0) (Links-update next p v (next x) xs e h.1 l.1))

Links-append :
    (next : ℕ → ℕ) (o : ℕ) (xs : List ℕ) (b : ℕ) (ys : List ℕ) (e : ℕ)
    → Links next o xs b
    → Links next (next b) ys e
    → Links next o (xs ++ b ∷ ys) e
Links-append next o [] b ys e l m = (l, m)
Links-append next o (x ∷ xs) b ys e l m = (l.0, Links-append next (next x) xs b ys e l.1 m)

-- The circular list that starts with `a`.
abbrev pub Ring : (ℕ → ℕ) → ℕ → List ℕ → Type 0
Ring next a xs = Links next (next a) xs a

Ring-link_feature :
    (next : ℕ → ℕ) (a f : ℕ) (xs : List ℕ)
    → a ≢ f
    → Lacks a xs
    → Lacks f xs
    → Ring next a xs
    → Ring (link_feature f (some a) next) a (f ∷ xs)
unfolding link_feature
Ring-link_feature next a f xs ne la lf r =
    let inner = update next f (next a) in
    (
      update_self inner a f,
      rw (update_other inner a f f (λ e. ne (sym e)), update_self next f (next a))
          (Links-update inner a f (next a) xs a la
            (Links-update next f (next a) (next a) xs a lf r)),
    )

Ring-splice :
    (next : ℕ → ℕ) (a b : ℕ) (xs ys : List ℕ)
    → a ≢ b
    → Lacks a xs
    → Lacks b xs
    → Lacks a ys
    → Lacks b ys
    → Ring next a xs
    → Ring next b ys
    → Ring (splice a b next) a (ys ++ b ∷ xs)
unfolding splice
Ring-splice next a b xs ys ne axs bxs ays bys r s =
    let inner = update next a (next b) in
    let frame =
      λ (o : ℕ) (zs : List ℕ) (e : ℕ) (az : Lacks a zs) (bz : Lacks b zs) (l : Links next o zs e).
        Links-update inner b (next a) o zs e bz (Links-update next a (next b) o zs e az l) in
    let whole =
      Links-append (update inner b (next a)) (next b) ys b xs a (frame (next b) ys b ays bys s)
        (rw (update_self inner b (next a)) (frame (next a) xs a axs bxs r)) in
    rw (update_other inner b (next a) a ne, update_self next a (next b)) whole

-- What a list with no feature twice says of its two parts.
Distinct-append :
    (xs ys : List ℕ)
    → Distinct (xs ++ ys)
    → Distinct xs × Distinct ys × All (λ x. Lacks x ys) xs × All (λ y. Lacks y xs) ys
Distinct-append [] ys d = (tt, d, tt, all_nil ys)
  where
    all_nil : (ys : List ℕ) → All (λ y. Lacks y []) ys
    all_nil [] = tt
    all_nil (y ∷ ys) = (tt, all_nil ys)
Distinct-append (x ∷ xs) ys d =
    let (dx, dy, u, v) = Distinct-append xs ys d.1 in
    let mine = All-append_left (λ y. y ≢ x) xs ys d.0 in
    let theirs = All-append_right (λ y. y ≢ x) xs ys d.0 in
    ((mine, dx), dy, (theirs, u), zip ys theirs v)
  where
    zip : (ys : List ℕ) → Lacks x ys → All (λ y. Lacks y xs) ys → All (λ y. Lacks y (x ∷ xs)) ys
    zip [] l v = tt
    zip (y ∷ ys) l v = ((λ e. l.0 (sym e), v.0), zip ys l.1 v.1)

module _ {Trunk : Type 0} where
  -- A root that holds the features `xs`, its first one in front.
  pub data Holds (next : ℕ → ℕ) (r : Root Trunk) : List ℕ → Type 0 where
    holds_none : r.first ≡ none → r.feature_count ≡ 0 → Holds next r []
    holds_some :
        (a : ℕ) (xs : List ℕ)
        → r.first ≡ some a
        → r.feature_count ≡ suc (length xs)
        → Ring next a xs
        → Holds next r (a ∷ xs)

  -- `addFeature` puts a new feature behind the first one, and counts it.
  pub add_feature-Holds :
      (next : ℕ → ℕ) (r : Root Trunk) (xs : List ℕ) (f bits : ℕ)
      → Holds next r xs
      → Distinct (f ∷ xs)
      → length xs + 1 < 2 ^ 32
      → (ys : List ℕ) × Holds (link_feature f r.first next) (add_feature f bits r) ys
        × Perm ys (f ∷ xs)
  unfolding add_feature
  add_feature-Holds next r xs f bits (holds_none e c) n small = (
    f ∷ [],
    rw e (holds_some f [] refl (rw c refl) (unfold link_feature in update_self next f f)),
    Perm.refl _,
  )
  add_feature-Holds next r xs f bits (holds_some a rest e c ring) n small = (
    a ∷ f ∷ rest,
    rw e (
        holds_some a (f ∷ rest) refl (omega arith)
          (Ring-link_feature next a f rest n.0.0 n.1.0 n.0.1 ring)),
    Perm.swap f a rest,
  )

  -- `add` moves the features of another root into a root that has none of them, counts them, and
  -- leaves the other root empty.
  pub add-Holds :
      (next : ℕ → ℕ) (r other : Root Trunk) (xs ys : List ℕ)
      → Holds next r xs
      → Holds next other ys
      → Distinct (xs ++ ys)
      → length xs + length ys < 2 ^ 32
      → (zs : List ℕ) × Holds (link_rings r other next) (add r other) zs
        × Perm zs (xs ++ ys)
        × Holds (link_rings r other next) (emptied other) []
  unfolding add link_rings
  add-Holds next r other xs ys h (holds_none e c) n small =
      let z : is_empty other ≡ true = rw c refl in
      (xs, rw z h, subst (Perm xs) (sym (append-nil xs)) (Perm.refl xs), rw z (holds_none e c))
  add-Holds next r other xs ys (holds_none e c) (holds_some b rest eb cb ring) n small =
      let y : is_empty other ≡ false = ground (arith, cb) in
      let z : is_empty r ≡ true = rw c refl in
      (
        b ∷ rest,
        rw (y, z) (holds_some b rest eb (omega arith) ring),
        Perm.refl _,
        rw (y, z) (holds_none refl refl),
      )
  add-Holds next r other xs ys (holds_some a ra ea ca ringa) (holds_some b rb eb cb ringb) n small =
      let y : is_empty other ≡ false = ground (arith, cb) in
      let z : is_empty r ≡ false = ground (arith, ca) in
      let apart = Distinct-append (a ∷ ra) (b ∷ rb) n in
      let links =
        Ring-splice next a b ra rb apart.3.0.0 apart.0.0 apart.3.0.1 apart.2.0.1 apart.1.0 ringa
          ringb in
      (
        a ∷ (rb ++ b ∷ ra),
        rw (y, z, ea, eb)
            (holds_some a (rb ++ b ∷ ra) refl (omega (arith, length-append rb (b ∷ ra))) links),
        Perm.cons a (
            Perm.trans (perm_middle rb ra)
              (Perm.trans (Perm.cons b (perm_append_comm rb ra)) (Perm.symm (perm_middle ra rb)))),
        rw (y, z) (holds_none refl refl),
      )
