-- ===== src/Tag/TagTableModel/Sizes.antt =====
-- src/tag/TagTableModel.h: the sizes of tags, and the exchange of two of them.
use mathlib.Core.List
use mathlib.Core.List.Perm
use mathlib.Core.List.{Perm}
use native.Mathlib.Nat.{ℕ_set}
use geodesk_gol.Prelude.{ℕ, ◌+◌, ◌≡◌, ◌∙◌, refl, sym, ap, List, [], ◌∷◌, ◌++◌, arith}
use geodesk_gol.Tag.TagTableModel.{Tag, wide_flag}

-- The bytes of a tag in the tile.
abbrev pub global_size : List Tag → ℕ
global_size [] = 0
global_size (tag ∷ tags) = 4 + wide_flag tag.value_type + global_size tags

abbrev pub local_size : List Tag → ℕ
local_size [] = 0
local_size (tag ∷ tags) = 6 + wide_flag tag.value_type + local_size tags

-- Sorting changes no size.
pub size-perm :
    (size : List Tag → ℕ) (step : ℕ)
    → (size [] ≡ 0)
    → ((tag : Tag) (tags : List Tag)
        → size (tag ∷ tags) ≡ step + wide_flag tag.value_type + size tags)
    → (xs ys : List Tag) → Perm xs ys
    → size xs ≡ size ys
size-perm size step nil cons xs ys p =
    as_sum xs ∙ Perm.foldr-eq ℕ_set add (λ a b n. omega arith) p 0 ∙ sym (as_sum ys)
  where
    add : Tag → ℕ → ℕ
    add tag n = step + wide_flag tag.value_type + n

    as_sum : (xs : List Tag) → size xs ≡ List.foldr add 0 xs
    as_sum [] = nil
    as_sum (x ∷ xs) = cons x xs ∙ ap (add x) (as_sum xs)

pub global_size-perm : (xs ys : List Tag) → Perm xs ys → global_size xs ≡ global_size ys
global_size-perm = size-perm global_size 4 refl (λ tag tags. refl)

pub local_size-perm : (xs ys : List Tag) → Perm xs ys → local_size xs ≡ local_size ys
local_size-perm = size-perm local_size 6 refl (λ tag tags. refl)

pub global_size-append :
    (xs ys : List Tag) → global_size (xs ++ ys) ≡ global_size xs + global_size ys
global_size-append [] ys = omega arith
global_size-append (x ∷ xs) ys = omega (arith, global_size-append xs ys)

pub local_size-append : (xs ys : List Tag) → local_size (xs ++ ys) ≡ local_size xs + local_size ys
local_size-append [] ys = omega arith
local_size-append (x ∷ xs) ys = omega (arith, local_size-append xs ys)
