-- ===== src/JobRegistry/LogLines.antt =====
-- job_registry.rs: the lines of a job's log.
use al.Prelude.{
  ℕ, ◌-◌, ◌≤◌, ◌<◌, ◌≡◌, refl, max, List, arith, Bool-cases, inl, inr, ltb, length, length-append,
  length-take, take, ap, ◌∙◌, returns, leb, true,
}
use al.Prelude.Utf8.{truncate}
use al.Prelude.Utf8.Text.{Text, Text-ascii}
use al.Common.LogTruncate.{snap_down}
use al.Common.LogTruncate.Cut.{Shortened, push_str-Shortened, snap_down-le}
use al.JobRegistry.Events.{suffix, cap_line}

length-Shortened :
    (m : List ℕ) (max_bytes : ℕ) (s : List ℕ)
    → Shortened m max_bytes (max (max_bytes - 16) 1) suffix s
    → length s ≤ max max_bytes 17
length-Shortened m max_bytes s h = elim h.content [
  | inl (within, same) ↦ let len = ap length same in omega arith
  | inr (long, k, cut, same) ↦
      let len = ap length same ∙ length-append (take k m) suffix in
      let kept = length-take k m in let below = cut.below in omega arith
]

-- A log line is capped without a panic, and stays text. A line of at most `max_bytes` bytes stays
-- as it is; of a longer one the result is what stands before the last character boundary within
-- `max_bytes - 16` bytes, or within one byte if that is less, and then the suffix of 16 bytes. So it
-- has at most `max_bytes` bytes, where a cap below 17 counts as 17.
pub cap_line-Text :
    (max_bytes : ℕ) (message : List ℕ)
    → Text message
    → (s : List ℕ) × (cap_line max_bytes message ≡ returns s)
      × Shortened message max_bytes (max (max_bytes - 16) 1) suffix s
      × (length s ≤ max max_bytes 17)
unfolding cap_line truncate
cap_line-Text max_bytes message t = elim (Bool-cases (ltb max_bytes (length message))) [
  | inl long ↦
      let target : ℕ = max (max_bytes - 16) 1 in
      let beyond : max_bytes < length message = ground arith in
      let inside : target ≤ length message = omega arith in
      let (s, cuts, short) =
        push_str-Shortened message max_bytes target suffix t beyond inside
          (Text-ascii suffix refl) in
      let low = snap_down-le message target in
      let within : leb (snap_down message target) (length message) ≡ true = ground arith in
      rw (long, within) (s, cuts, short, length-Shortened message max_bytes s short)
  | inr short ↦
      let within : length message ≤ max_bytes = ground arith in
      rw short (message, refl, record { text = t; content = inl (within, refl) }, omega arith)
]
