-- ===== src/Prelude/Perms.antt =====
-- Rearrangements of lists.
use mathlib.Core.List
use mathlib.Core.List.Perm
use mathlib.Core.List.{Perm}
use native.Mathlib.Bridge.{from_ℕ}
use Prim.Native.Nat.{suc}
use mathlib.Core.Path.{◌≡◌, refl, sym, ap, ◌∙◌}
use mathlib.Core.List.{[], ◌∷◌}
use geodesk_gol.Prelude.Lists.{length}

from_ℕ-length {ℓ} : {A : Type ℓ} (xs : List.List A) → from_ℕ (List.length xs) ≡ length xs
from_ℕ-length [] = refl
from_ℕ-length (x ∷ xs) = ap suc (from_ℕ-length xs)

pub length-perm {ℓ} : {A : Type ℓ} {xs ys : List.List A} → Perm xs ys → length xs ≡ length ys
length-perm {xs = xs} {ys = ys} p =
    sym (from_ℕ-length xs) ∙ ap from_ℕ (Perm.length-eq p) ∙ from_ℕ-length ys
