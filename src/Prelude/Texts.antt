-- ===== src/Prelude/Texts.antt =====
-- Texts as their bytes, and `==` on them.
use Prim.Native.Nat.{ℕ}
use mathlib.Core.Path.{◌≡◌, refl, ap₂}
use mathlib.Core.Logic.{inl, inr}
use mathlib.Core.Bool.{Bool, true, false, ◌&&◌}
use mathlib.Core.List.{List, [], ◌∷◌}
use native.Mathlib.Omega.{arith}
use al.Prelude.Tests.{◌==◌, Bool-cases}

unfoldable pub same_text : List ℕ → List ℕ → Bool
same_text [] [] = true
same_text [] (b ∷ bs) = false
same_text (a ∷ rest) [] = false
same_text (a ∷ rest) (b ∷ bs) = a == b && same_text rest bs

pub same_text_refl : (a : List ℕ) → same_text a a ≡ true
unfolding same_text
same_text_refl [] = refl
same_text_refl (b ∷ bs) = let rest = same_text_refl bs in ground arith

pub same_text-true : (a b : List ℕ) → same_text a b ≡ true → a ≡ b
unfolding same_text
same_text-true [] [] e = refl
same_text-true [] (b ∷ bs) e = cc
same_text-true (a ∷ rest) [] e = cc
same_text-true (a ∷ rest) (b ∷ bs) e = elim (Bool-cases (a == b)) [
  | inl h ↦
      let ab : a ≡ b = ground arith in
      let tails = rw h at e in ap₂ ◌∷◌ ab (same_text-true rest bs tails)
  | inr h ↦ let clash = rw h at e in cc
]
