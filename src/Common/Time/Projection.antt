-- ===== src/Common/Time/Projection.antt =====
-- modules/common/time.rs: the projected capture time grows with the position.
use al.Prelude.{
  ℕ, zero, suc, ◌+◌, ◌-◌, ◌*◌, ◌/◌, ◌%◌, ◌^◌, ◌≤◌, ◌<◌, ◌≡◌, refl, false, arith, Bool-cases, inl,
  inr, leb, dec_lt, ==_false, le→leb,
}
use native.Mathlib.Nat.{le-div_iff_mul-le, div-mul-le_self, div-le_self, add-mul-div_right}
use al.Prelude.Ints.{pos, neg, minus, ◌+ℤ◌, times, quotient, clamp}
use al.Common.Time.{BufferTimingAnchor, delta_us, capture_us_for}

div_le : (x y k : ℕ) → 0 < k → x ≤ y → x / k ≤ y / k
div_le x y k p le = let below = div-mul-le_self x k in (le-div_iff_mul-le p).1 (omega arith)

times-neg : (m n : ℕ) → times (neg m) n ≡ neg (m * n)
unfolding times neg
times-neg zero n = let e : 0 * n ≡ 0 = omega arith in rw e refl
times-neg (suc m) n = refl

quotient-neg : (m n : ℕ) → 0 < n → quotient (neg m) n ≡ neg (m / n)
unfolding quotient neg
quotient-neg zero n p = let e : 0 / n ≡ 0 = omega (arith, div-le_self 0 n) in rw e refl
quotient-neg (suc m) n p = refl

clamp-neg_self : (m : ℕ) → clamp (neg m) ≡ 0
unfolding clamp neg
clamp-neg_self zero = refl
clamp-neg_self (suc m) = refl

clamp-neg : (c m : ℕ) → clamp (pos c +ℤ neg m) ≡ c - m
unfolding ◌+ℤ◌ neg minus
clamp-neg c zero = unfold clamp in omega arith
clamp-neg c (suc m) = elim (Bool-cases (leb (suc m) c)) [
  | inl t ↦ rw t (unfold clamp in refl)
  | inr t ↦ rw (t, clamp-neg_self (suc m - c)) (ground arith)
]

-- The time by natural arithmetic: ahead of the anchor microseconds add up, behind it they come off.
module _ (anchor : BufferTimingAnchor) (read_pos : ℕ) (rate : 0 < anchor.sample_rate_hz) where
  ahead :
      anchor.head_pos ≤ read_pos
      → capture_us_for anchor read_pos
        ≡ (anchor.captured_at + (read_pos - anchor.head_pos) * 1000000 / anchor.sample_rate_hz)
          % 2 ^ 64
  unfolding capture_us_for delta_us minus quotient times clamp ◌+ℤ◌
  ahead le =
      rw (==_false anchor.sample_rate_hz 0 (λ e. omega arith), le→leb anchor.head_pos read_pos le)
        refl

  behind :
      read_pos < anchor.head_pos
      → capture_us_for anchor read_pos
        ≡ (anchor.captured_at - (anchor.head_pos - read_pos) * 1000000 / anchor.sample_rate_hz)
          % 2 ^ 64
  unfolding capture_us_for delta_us minus
  behind lt =
      let late : leb anchor.head_pos read_pos ≡ false = ground arith in
      rw
        (
          ==_false anchor.sample_rate_hz 0 (λ e. omega arith),
          late,
          times-neg (anchor.head_pos - read_pos) 1000000,
          quotient-neg ((anchor.head_pos - read_pos) * 1000000) anchor.sample_rate_hz rate,
          clamp-neg,
        )
        refl

-- A later position has no earlier capture time, as long as the later time does not pass the range
-- of a `u64`.
pub capture_us_for_mono :
    (anchor : BufferTimingAnchor) (p q : ℕ)
    → 0 < anchor.sample_rate_hz
    → p ≤ q
    → anchor.captured_at + (q - anchor.head_pos) * 1000000 / anchor.sample_rate_hz < 2 ^ 64
    → capture_us_for anchor p ≤ capture_us_for anchor q
capture_us_for_mono anchor p q rate le fits = elim (dec_lt q anchor.head_pos) [
  | yes q_behind ↦
      let grows =
        div_le ((anchor.head_pos - q) * 1000000) ((anchor.head_pos - p) * 1000000)
          anchor.sample_rate_hz rate (omega arith) in
      rw (behind anchor p rate (omega arith), behind anchor q rate q_behind) (omega arith)
  | no q_ahead ↦ elim (dec_lt p anchor.head_pos) [
    | yes p_behind ↦
        rw (behind anchor p rate p_behind, ahead anchor q rate (omega arith)) (omega arith)
    | no p_ahead ↦
        let grows =
          div_le ((p - anchor.head_pos) * 1000000) ((q - anchor.head_pos) * 1000000)
            anchor.sample_rate_hz rate (omega arith) in
        rw (ahead anchor p rate (omega arith), ahead anchor q rate (omega arith)) (omega arith)
  ]
]

-- One second of samples after a position at the anchor or ahead of it is 1000000 microseconds later.
pub capture_us_for-second :
    (anchor : BufferTimingAnchor) (ahead_by : ℕ)
    → 0 < anchor.sample_rate_hz
    → anchor.captured_at + ahead_by * 1000000 / anchor.sample_rate_hz + 1000000 < 2 ^ 64
    → capture_us_for anchor (anchor.head_pos + ahead_by + anchor.sample_rate_hz)
      ≡ capture_us_for anchor (anchor.head_pos + ahead_by) + 1000000
capture_us_for-second anchor n rate fits =
    let whole = add-mul-div_right (n * 1000000) 1000000 rate in
    let later : (anchor.head_pos + n + anchor.sample_rate_hz - anchor.head_pos) * 1000000
        ≡ n * 1000000 + 1000000 * anchor.sample_rate_hz =
      omega arith in
    let here : (anchor.head_pos + n - anchor.head_pos) * 1000000 ≡ n * 1000000 = omega arith in
    rw
      (
        ahead anchor (anchor.head_pos + n + anchor.sample_rate_hz) rate (omega arith),
        ahead anchor (anchor.head_pos + n) rate (omega arith),
        later,
        here,
        whole,
      )
      (omega arith)
