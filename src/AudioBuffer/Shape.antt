-- ===== src/AudioBuffer/Shape.antt =====
-- audio_buffer.rs: what `AudioBuffer::new` establishes and no operation changes, and the walks of
-- `push` and `peek_into` in a ring of that shape.
use native.Mathlib.Nat.{mod-lt}
use al.Prelude.{
  ℕ, zero, suc, ◌-◌, ◌/◌, ◌%◌, ◌^◌, ◌≤◌, ◌<◌, ◌≡◌, refl, sym, inl, inr, true, false, List, arith,
  length, length-replicate, take-min, drop-min, ◌==◌, ==_iff, any, Bool-cases, leb, ◌&&◌, returns,
  returns-injective, subst,
}
use al.Prelude.Bits.{bit_and-mask}
use al.AudioBuffer.{Inner, powers_of_two, is_power_of_two, new, cell_of, push_writes, peek_reads}
use al.AudioBuffer.Index.{ring_writes, ring_reads, ring_writes_round, ring_reads_round}

pub record HasShape (b : Inner) : Type 0 where
  pub exponent : ℕ
  pub sized : b.capacity ≡ 2 ^ exponent
  pub at_least_four : 4 ≤ b.capacity
  pub full : length b.cells ≡ b.capacity
  pub margin : b.safety_margin ≡ b.capacity / 4
  pub window : b.capacity_minus_margin ≡ b.capacity - b.capacity / 4

power_found : (m n : ℕ) → any (λ p. p == n) (powers_of_two m) ≡ true → (k : ℕ) × (n ≡ 2 ^ k)
power_found zero n h = cc
power_found (suc m) n h = elim (Bool-cases (2 ^ m == n)) [
  | inl e ↦ (m, sym ((==_iff (2 ^ m) n).0 e))
  | inr e ↦ power_found m n (rw e at h)
]

is_power_of_two-pow : (n : ℕ) → is_power_of_two n ≡ true → (k : ℕ) × (n ≡ 2 ^ k)
unfolding is_power_of_two
is_power_of_two-pow n h = power_found 64 n h

-- A capacity that `new` accepts is a power of two and at least 4; the fresh ring has the shape of
-- that capacity, and no writer and no samples yet.
pub new-HasShape :
    (capacity : ℕ) {b : Inner}
    → new capacity ≡ returns b
    → HasShape b × (b.capacity ≡ capacity) × (b.head ≡ 0) × (b.writer_taken ≡ false)
unfolding new
new-HasShape capacity {b} h = elim (Bool-cases (leb 4 capacity && is_power_of_two capacity)) [
  | inl e ↦
      let (k, sized) = is_power_of_two-pow capacity (ground arith) in
      subst
        (λ (c : Inner).
          HasShape c × (c.capacity ≡ capacity) × (c.head ≡ 0) × (c.writer_taken ≡ false))
        (returns-injective (rw e at h))
        (
          record {
            exponent = k;
            sized = sized;
            at_least_four = ground arith;
            full = length-replicate capacity 0;
            margin = refl;
            window = refl;
          },
          refl,
          refl,
          refl,
        )
  | inr e ↦ cc (rw e at h)
]

module _ (b : Inner) (v : HasShape b) where
  pub cell_of-mod : (p : ℕ) → cell_of b p ≡ p % b.capacity
  cell_of-mod p = rw v.sized (bit_and-mask v.exponent p)

  cell_of-lt : (p : ℕ) → cell_of b p < b.capacity
  cell_of-lt p = rw (cell_of-mod p) (mod-lt p (omega arith))

  -- A push stores the cells of the positions from `head` on, one each.
  pub push_writes-ring :
      (xs : List ℕ) → length xs ≤ b.capacity → push_writes b xs ≡ ring_writes b.capacity b.head xs
  unfolding push_writes
  push_writes-ring xs h =
      rw (take-min, drop-min)
        (sym (
          ring_writes_round b.capacity b.head (cell_of b b.head) xs (sym (cell_of-mod b.head))
            (cell_of-lt b.head) h))

  -- A peek loads the cells of the positions from `tail` on, one each.
  pub peek_reads-ring :
      (tail n : ℕ) → n ≤ b.capacity → peek_reads b tail n ≡ ring_reads b.capacity tail n
  unfolding peek_reads
  peek_reads-ring tail n h = sym (
      ring_reads_round b.capacity tail (cell_of b tail) n (sym (cell_of-mod tail)) (cell_of-lt tail)
        h)
