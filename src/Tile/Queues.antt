-- ===== src/Tile/Queues.antt =====
-- The queue classes of the clarisma library that layout uses, as interfaces, and a list that
-- meets both.
use geodesk_gol.Prelude.{
  ℕ, ◌≡◌, refl, ◌⊎◌, inl, inr, Bool, Option, none, some, List, [], ◌∷◌, ◌++◌, length, leb,
}

-- `FixedQueue`: a first-in first-out queue of bounded capacity. `to_list` is its content, oldest
-- first. `peek` and `remove` may be called if `isEmpty` does not hold, which is when they give
-- a value here.
pub record FixedQueue (A : Type 0) (capacity : ℕ) : Type 1 where
  pub Queue : Type 0
  pub to_list : Queue → List A
  pub empty : Queue
  pub is_full : Queue → Bool
  pub add : A → Queue → Queue
  pub peek : Queue → Option A
  pub remove : Queue → Option (A × Queue)
  pub to_list-empty : to_list empty ≡ []
  pub is_full_lem : (q : Queue) → is_full q ≡ leb capacity (length (to_list q))
  pub to_list-add :
      (a : A) (q : Queue)
      → leb capacity (length (to_list q)) ≡ Bool.false
      → to_list (add a q) ≡ to_list q ++ a ∷ []
  pub front :
      (q : Queue)
      → ((to_list q ≡ []) × (peek q ≡ none) × (remove q ≡ none))
        ⊎ ((a : A) × (r : Queue) × (to_list q ≡ a ∷ to_list r)
            × (peek q ≡ some a)
            × (remove q ≡ some (a, r)))

-- `LinkedQueue`: a chain through its elements, with `addTail`; `to_list` walks it from `first`.
pub record LinkedQueue (A : Type 0) : Type 1 where
  pub Chain : Type 0
  pub to_list : Chain → List A
  pub empty : Chain
  pub add_tail : A → Chain → Chain
  pub to_list-empty : to_list empty ≡ []
  pub to_list-add_tail : (a : A) (c : Chain) → to_list (add_tail a c) ≡ to_list c ++ a ∷ []

module _ (A : Type 0) where
  unfoldable pub list_peek : List A → Option A
  list_peek [] = none
  list_peek (x ∷ xs) = some x

  unfoldable pub list_remove : List A → Option (A × List A)
  list_remove [] = none
  list_remove (x ∷ xs) = some (x, xs)

  pub list_front :
      (q : List A)
      → ((q ≡ []) × (list_peek q ≡ none) × (list_remove q ≡ none))
        ⊎ ((a : A) × (r : List A) × (q ≡ a ∷ r)
            × (list_peek q ≡ some a)
            × (list_remove q ≡ some (a, r)))
  unfolding list_peek list_remove
  list_front [] = inl (refl, refl, refl)
  list_front (x ∷ xs) = inr (x, xs, refl, refl, refl)

  abbrev pub list_queue : (capacity : ℕ) → FixedQueue A capacity
  list_queue capacity = record {
    Queue = List A;
    to_list = λ q. q;
    empty = [];
    is_full = λ q. leb capacity (length q);
    add = λ a q. q ++ a ∷ [];
    peek = list_peek;
    remove = list_remove;
    to_list-empty = refl;
    is_full_lem = λ q. refl;
    to_list-add = λ a q h. refl;
    front = list_front;
  }

  abbrev pub list_chain : LinkedQueue A
  list_chain = record {
    Chain = List A;
    to_list = λ c. c;
    empty = [];
    add_tail = λ a c. c ++ a ∷ [];
    to_list-empty = refl;
    to_list-add_tail = λ a c. refl;
  }
