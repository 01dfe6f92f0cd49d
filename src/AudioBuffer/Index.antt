-- ===== src/AudioBuffer/Index.antt =====
-- audio_buffer.rs: the two runs of cells that a push or a peek walks are one walk round the ring,
-- and two positions less than the capacity apart have different cells.
use native.Mathlib.Nat.{mod-lt, mod-eq_of_lt, mod_self, suc-mod, mod-add-mod, mod-eq-sub-mod}
use al.Prelude.{
  ℕ, zero, suc, ◌+◌, ◌-◌, ◌%◌, ◌≤◌, ◌<◌, min, ◌≡◌, ◌≢◌, refl, ap, ap₂, ◌∙◌, List, [], ◌∷◌, ◌++◌,
  arith, length, take, drop, take-nil, drop-nil, dec_lt,
}
use al.AudioBuffer.{number, span}

-- Position `p + 1` is the next cell, or the first one.
pub next_cell : (size p : ℕ) → p % size + 1 < size → suc p % size ≡ suc (p % size)
next_cell size p h = suc-mod p size ∙ mod-eq_of_lt (omega arith)

pub next_cell_wraps : (size p : ℕ) → suc (p % size) ≡ size → suc p % size ≡ 0
next_cell_wraps size p h = suc-mod p size ∙ (ap (λ (n : ℕ). n % size) h ∙ mod_self size)

add-mod-ne : (size h d : ℕ) → h < size → 0 < d → d < size → (h + d) % size ≢ h
add-mod-ne size h d hh hd hdc = elim (dec_lt (h + d) size) [
  | yes p ↦ omega (arith, mod-eq_of_lt p)
  | no p ↦ omega (
    arith,
    mod-eq-sub-mod {n = h + d} {m = size} (omega arith),
    mod-eq_of_lt {n = h + d - size} {m = size} (omega arith),
  )
]

-- Two positions less than `size` apart have different cells.
pub cells_differ : (size p q : ℕ) → 0 < size → p < q → q < p + size → q % size ≢ p % size
cells_differ size p q pos lt close e =
    add-mod-ne size (p % size) (q - p) (mod-lt p pos) (omega arith) (omega arith)
      (mod-add-mod p size (q - p) ∙ (ap (λ (n : ℕ). n % size) (omega arith) ∙ e))

module _ (size : ℕ) where
  -- The cell stores of samples that begin at an absolute position.
  abbrev pub ring_writes : ℕ → List ℕ → List (ℕ × ℕ)
  ring_writes p [] = []
  ring_writes p (x ∷ xs) = (p % size, x) ∷ ring_writes (suc p) xs

  -- The cells of `n` positions.
  abbrev pub ring_reads : ℕ → ℕ → List ℕ
  ring_reads p zero = []
  ring_reads p (suc n) = p % size ∷ ring_reads (suc p) n

  -- Up to the end of the ring, the walk is a run of cells.
  ring_writes_straight :
      (p i : ℕ) (xs : List ℕ) → p % size ≡ i → i + length xs ≤ size → ring_writes p xs ≡ number i xs
  unfolding number
  ring_writes_straight p i [] e h = refl
  ring_writes_straight p i (x ∷ []) e h = ap (λ (k : ℕ). (k, x) ∷ []) e
  ring_writes_straight p i (x ∷ y ∷ xs) e h = ap₂ ◌∷◌ (ap (λ (k : ℕ). (k, x)) e) (
      ring_writes_straight (suc p) (suc i) (y ∷ xs) (next_cell size p (omega arith) ∙ ap suc e)
        (omega arith))

  ring_reads_straight : (p i n : ℕ) → p % size ≡ i → i + n ≤ size → ring_reads p n ≡ span i n
  unfolding span
  ring_reads_straight p i zero e h = refl
  ring_reads_straight p i (suc zero) e h = ap (λ (k : ℕ). k ∷ []) e
  ring_reads_straight p i (suc (suc n)) e h = ap₂ ◌∷◌ e (
      ring_reads_straight (suc p) (suc i) (suc n) (next_cell size p (omega arith) ∙ ap suc e)
        (omega arith))

  -- Past the end, the walk goes on from the first cell.
  pub ring_writes_round :
      (p i : ℕ) (xs : List ℕ)
      → p % size ≡ i
      → i < size
      → length xs ≤ size
      → ring_writes p xs ≡ number i (take (size - i) xs) ++ number 0 (drop (size - i) xs)
  unfolding number
  ring_writes_round p i [] e lt h = rw (take-nil (size - i), drop-nil (size - i))
  ring_writes_round p i (x ∷ xs) e lt h = elim (dec_lt (suc i) size) [
    | yes more ↦
        let left : size - i ≡ suc (size - suc i) = omega arith in
        rw left (
          ap₂ ◌∷◌ (ap (λ (k : ℕ). (k, x)) e) (
            ring_writes_round (suc p) (suc i) xs (next_cell size p (omega arith) ∙ ap suc e) more
              (omega arith)))
    | no last ↦
        let left : size - i ≡ 1 = omega arith in
        rw left (
          ap₂ ◌∷◌ (ap (λ (k : ℕ). (k, x)) e) (
            ring_writes_straight (suc p) 0 xs (next_cell_wraps size p (omega arith)) (omega arith)))
  ]

  pub ring_reads_round :
      (p i n : ℕ)
      → p % size ≡ i
      → i < size
      → n ≤ size
      → ring_reads p n ≡ span i (min (size - i) n) ++ span 0 (n - min (size - i) n)
  unfolding span
  ring_reads_round p i zero e lt h =
      let none_left : min (size - i) 0 ≡ 0 = omega arith in rw none_left refl
  ring_reads_round p i (suc n) e lt h = elim (dec_lt (suc i) size) [
    | yes more ↦
        let left : min (size - i) (suc n) ≡ suc (min (size - suc i) n) = omega arith in
        let rest : suc n - suc (min (size - suc i) n) ≡ n - min (size - suc i) n = omega arith in
        rw (left, rest)
          (ap₂ ◌∷◌ e (
            ring_reads_round (suc p) (suc i) n (next_cell size p (omega arith) ∙ ap suc e) more
              (omega arith)))
    | no last ↦
        let left : min (size - i) (suc n) ≡ 1 = omega arith in
        let rest : suc n - 1 ≡ n = omega arith in
        rw (left, rest)
          (ap₂ ◌∷◌ e
            (ring_reads_straight (suc p) 0 n (next_cell_wraps size p (omega arith)) (omega arith)))
  ]
