-- ===== src/Build/TileIndexBuilder/Tips/Words.antt =====
-- Entries of tiles that do not overlap, for src/build/analyze/TileIndexBuilder.cpp, assignTip.
use geodesk_gol.Prelude.{
  ℕ, ◌+◌, ◌≤◌, ◌≡◌, ◌≢◌, ◌⊎◌, subst, sym, ◌∙◌, inl, inr, List, [], ◌∷◌, ◌++◌, ap, arith,
}
use geodesk_gol.Build.TileIndexBuilder.{write_at}

abbrev pub In : ℕ → List ℕ → Type 0
In c [] = ⊥
In c (x ∷ xs) = (c ≡ x) ⊎ In c xs

-- No tile is listed twice.
abbrev pub IsOnce : List ℕ → Type 0
IsOnce [] = Unit
IsOnce (x ∷ xs) = (¬ In x xs) × IsOnce xs

pub In-left : (c : ℕ) (xs ys : List ℕ) → In c xs → In c (xs ++ ys)
In-left c [] ys h = elim h [ ]
In-left c (x ∷ xs) ys (inl e) = inl e
In-left c (x ∷ xs) ys (inr h) = inr (In-left c xs ys h)

pub In-right : (c : ℕ) (xs ys : List ℕ) → In c ys → In c (xs ++ ys)
In-right c [] ys h = h
In-right c (x ∷ xs) ys h = inr (In-right c xs ys h)

pub In-append : (c : ℕ) (xs ys : List ℕ) → In c (xs ++ ys) → In c xs ⊎ In c ys
In-append c [] ys h = inr h
In-append c (x ∷ xs) ys (inl e) = inl (inl e)
In-append c (x ∷ xs) ys (inr h) = elim (In-append c xs ys h) [ inl l ↦ inl (inr l) | inr r ↦ inr r ]

-- The two parts of such a list, and that they share no tile.
pub IsOnce-append :
    (xs ys : List ℕ) → IsOnce (xs ++ ys) → IsOnce xs × IsOnce ys × ((c : ℕ) → In c xs → ¬ In c ys)
IsOnce-append [] ys h = (tt, h, λ c l. absurd l)
IsOnce-append (x ∷ xs) ys (fresh, h) =
    let (l, r, apart) = IsOnce-append xs ys h in
    (
      ((λ m. fresh (In-left x xs ys m)), l),
      r,
      λ c m. elim m [
        | inl e ↦ λ k. fresh (In-right x xs ys (subst (λ q. In q ys) e k))
        | inr k ↦ apart c k
      ],
    )

-- Words from `v` on and words from `v'` on, `w` and `w'` of them, do not overlap.
abbrev pub AreClear : ℕ → ℕ → ℕ → ℕ → Type 0
AreClear v w v' w' = (v + w ≤ v') ⊎ (v' + w' ≤ v)

pub AreClear-swap : (v w v' w' : ℕ) → AreClear v w v' w' → AreClear v' w' v w
AreClear-swap v w v' w' (inl h) = inr h
AreClear-swap v w v' w' (inr h) = inl h

-- Each tile of the list has an entry that `P` allows for its words, the words of no two overlap,
-- and the other tiles keep what they had.
pub record IsGiven (width : ℕ → ℕ) (P : ℕ → ℕ → Type 0) (xs : List ℕ) (before after : ℕ → ℕ)
    : Type 0 where
  pub allowed : (c : ℕ) → In c xs → P (after c) (width c)
  pub apart :
      (c d : ℕ) → In c xs → In d xs → c ≢ d → AreClear (after c) (width c) (after d) (width d)
  pub others : (c : ℕ) → ¬ In c xs → after c ≡ before c

abbrev pub IsAt : ℕ → ℕ → ℕ → ℕ → Type 0
IsAt tip words v w = (v ≡ tip) × (w ≡ words)

pub IsGiven-one :
    (width : ℕ → ℕ) (c tip : ℕ) (tips : ℕ → ℕ)
    → IsGiven width (IsAt tip (width c)) (c ∷ []) tips (write_at c tip tips)
IsGiven-one width c tip tips = record {
  allowed = λ d m. elim m [ inl e ↦ (ground (arith, e), ap width e) | inr k ↦ absurd k ];
  apart = λ d k m m' ne. elim m [
    | inl l ↦ elim m' [ inl l' ↦ absurd (ne (l ∙ sym l')) | inr r ↦ absurd r ]
    | inr r ↦ absurd r
  ];
  others = λ d m. let ne : ¬ (c ≡ d) = λ e. m (inl (sym e)) in ground (arith, ne);
}

pub IsGiven-append :
    (width : ℕ → ℕ) (P Q R : ℕ → ℕ → Type 0) (xs ys : List ℕ) (f g h : ℕ → ℕ)
    → IsOnce (xs ++ ys)
    → ((v w v' w' : ℕ) → P v w → Q v' w' → AreClear v w v' w')
    → ((v w : ℕ) → P v w → R v w)
    → ((v w : ℕ) → Q v w → R v w)
    → IsGiven width P xs f g
    → IsGiven width Q ys g h
    → IsGiven width R (xs ++ ys) f h
IsGiven-append width P Q R xs ys f g h once clear pr qr a b = record {
  allowed = λ c m. elim (In-append c xs ys m) [
    | inl l ↦ pr (h c) (width c) (left c l)
    | inr r ↦ qr (h c) (width c) (b.allowed c r)
  ];
  apart = λ c d m n ne. elim (In-append c xs ys m) [
    | inl l ↦ elim (In-append d xs ys n) [
      | inl l' ↦ rw (kept c l, kept d l') (a.apart c d l l' ne)
      | inr r' ↦ clear (h c) (width c) (h d) (width d) (left c l) (b.allowed d r')
    ]
    | inr r ↦ elim (In-append d xs ys n) [
      | inl l' ↦
          AreClear-swap (h d) (width d) (h c) (width c)
            (clear (h d) (width d) (h c) (width c) (left d l') (b.allowed c r))
      | inr r' ↦ b.apart c d r r' ne
    ]
  ];
  others =
      λ c m. b.others c (λ r. m (In-right c xs ys r)) ∙ a.others c (λ l. m (In-left c xs ys l));
}
  where
    kept : (c : ℕ) → In c xs → h c ≡ g c
    kept c l = b.others c ((IsOnce-append xs ys once).2 c l)

    left : (c : ℕ) → In c xs → P (h c) (width c)
    left c l = subst (λ v. P v (width c)) (sym (kept c l)) (a.allowed c l)
