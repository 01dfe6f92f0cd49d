-- ===== src/Prelude/Windows.antt =====
-- The `n` elements of a list from an index on, and what appending does to them.
use Prim.Native.Nat.{ℕ, zero, suc, ◌+◌, ◌≤◌, ◌<◌}
use mathlib.Core.Path.{◌≡◌, refl, ap}
use mathlib.Core.List.{List, [], ◌∷◌, ◌++◌}
use native.Mathlib.Omega.{arith}
use al.Prelude.Lists.{length, get_or, take, drop, take-nil, drop-nil}

module _ {ℓ} {A : Type ℓ} where
  abbrev pub window : List A → ℕ → ℕ → List A
  window log t n = take n (drop t log)

  pub get_or-append_left :
      (xs ys : List A) (p : ℕ) (d : A) → p < length xs → get_or (xs ++ ys) p d ≡ get_or xs p d
  get_or-append_left [] ys p d h = absurd (omega arith)
  get_or-append_left (x ∷ xs) ys zero d h = refl
  get_or-append_left (x ∷ xs) ys (suc p) d h = get_or-append_left xs ys p d (omega arith)

  pub get_or-snoc : (xs : List A) (x d : A) → get_or (xs ++ x ∷ []) (length xs) d ≡ x
  get_or-snoc [] x d = refl
  get_or-snoc (y ∷ xs) x d = get_or-snoc xs x d

  pub take-append_left : (n : ℕ) (xs ys : List A) → n ≤ length xs → take n (xs ++ ys) ≡ take n xs
  take-append_left zero xs ys h = refl
  take-append_left (suc n) [] ys h = absurd (omega arith)
  take-append_left (suc n) (x ∷ xs) ys h = ap (◌∷◌ x) (take-append_left n xs ys (omega arith))

  pub take-suc :
      (n : ℕ) (xs : List A) (d : A)
      → n < length xs
      → take (suc n) xs ≡ take n xs ++ get_or xs n d ∷ []
  take-suc n [] d h = absurd (omega arith)
  take-suc zero (x ∷ xs) d h = refl
  take-suc (suc n) (x ∷ xs) d h = ap (◌∷◌ x) (take-suc n xs d (omega arith))

  -- A window inside the list does not see what is appended.
  pub window-append :
      (log ys : List A) (t n : ℕ) → t + n ≤ length log → window (log ++ ys) t n ≡ window log t n
  window-append log ys zero n h = take-append_left n log ys (omega arith)
  window-append [] ys (suc t) n h = absurd (omega arith)
  window-append (x ∷ log) ys (suc t) n h = window-append log ys t n (omega arith)

  pub window-suc :
      (log : List A) (t n : ℕ) (d : A)
      → t + n < length log
      → window log t (suc n) ≡ window log t n ++ get_or log (t + n) d ∷ []
  window-suc log zero n d h =
      let e : 0 + n ≡ n = omega arith in rw e (take-suc n log d (omega arith))
  window-suc [] (suc t) n d h = absurd (omega arith)
  window-suc (x ∷ log) (suc t) n d h =
      let e : suc t + n ≡ suc (t + n) = omega arith in rw e (window-suc log t n d (omega arith))

  pub window-cons :
      (log : List A) (t n : ℕ) (d : A)
      → t < length log
      → window log t (suc n) ≡ get_or log t d ∷ window log (suc t) n
  window-cons [] t n d h = absurd (omega arith)
  window-cons (x ∷ log) zero n d h = refl
  window-cons (x ∷ log) (suc t) n d h = window-cons log t n d (omega arith)

  pub length-window : (log : List A) (t n : ℕ) → t + n ≤ length log → length (window log t n) ≡ n
  length-window log zero zero h = refl
  length-window [] zero (suc n) h = absurd (omega arith)
  length-window (x ∷ log) zero (suc n) h = ap suc (length-window log zero n (omega arith))
  length-window [] (suc t) n h = absurd (omega arith)
  length-window (x ∷ log) (suc t) n h = length-window log t n (omega arith)

  take-add : (n m : ℕ) (xs : List A) → take n xs ++ take m (drop n xs) ≡ take (n + m) xs
  take-add zero m xs = let e : 0 + m ≡ m = omega arith in rw e refl
  take-add (suc n) m [] = rw (take-nil m, take-nil (suc n + m)) refl
  take-add (suc n) m (x ∷ xs) =
      let e : suc n + m ≡ suc (n + m) = omega arith in rw e (ap (◌∷◌ x) (take-add n m xs))

  pub drop-add : (t n : ℕ) (xs : List A) → drop n (drop t xs) ≡ drop (t + n) xs
  drop-add zero n xs = let e : 0 + n ≡ n = omega arith in rw e refl
  drop-add (suc t) n [] = rw (drop-nil n, drop-nil (suc t + n)) refl
  drop-add (suc t) n (x ∷ xs) =
      let e : suc t + n ≡ suc (t + n) = omega arith in rw e (drop-add t n xs)

  -- A window and the next one make up one window.
  pub window-append_next :
      (log : List A) (t n m : ℕ) → window log t n ++ window log (t + n) m ≡ window log t (n + m)
  window-append_next log t n m = rw (← drop-add t n log) (take-add n m (drop t log))
