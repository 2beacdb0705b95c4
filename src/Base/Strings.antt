-- ===== src/Base/Strings.antt =====
-- Comparison of strings, which are lists of bytes.
use Prim.Native.Nat.{ℕ}
use mathlib.Core.Path.{◌≡◌, refl, ap₂}
use mathlib.Core.Logic.{inl, inr}
use mathlib.Core.Bool.{Bool, true, false, ◌&&◌}
use mathlib.Core.List.{List, [], ◌∷◌}
use native.Mathlib.Omega.{arith}
use crdt_server.Base.Tests.{◌==◌, ==_refl, Bool-cases}

-- `a == b` for two strings.
abbrev pub list_same : List ℕ → List ℕ → Bool
list_same [] [] = true
list_same (x ∷ xs) (y ∷ ys) = x == y && list_same xs ys
list_same _ _ = false

pub list_same_refl : (xs : List ℕ) → list_same xs xs ≡ true
list_same_refl [] = refl
list_same_refl (x ∷ xs) = rw (==_refl x) (list_same_refl xs)

pub list_same→eq : (xs ys : List ℕ) → list_same xs ys ≡ true → xs ≡ ys
list_same→eq [] [] h = refl
list_same→eq [] (y ∷ ys) h = cc
list_same→eq (x ∷ xs) [] h = cc
list_same→eq (x ∷ xs) (y ∷ ys) h = elim (Bool-cases (x == y)) [
  | inl e ↦
      let first : x ≡ y = ground arith in
      let h' = rw e at h in ap₂ (λ a b. a ∷ b) first (list_same→eq xs ys h')
  | inr e ↦ let h' = rw e at h in cc h'
]
