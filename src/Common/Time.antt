-- ===== src/Common/Time.antt =====
-- modules/common/time.rs: the projection of a read position to its capture time. Times are counts of
-- microseconds.
pub mod Projection
use al.Prelude.{ℕ, ◌-◌, ◌*◌, ◌%◌, ◌^◌, Option, none, some, ltb, ◌==◌, if◌then◌else◌}
use al.Prelude.Ints.{ℤ, pos, minus, ◌+ℤ◌, times, quotient, clamp}

-- `CaptureTime::since`
unfoldable pub since : ℕ → ℕ → Option ℕ
since self other = if ltb self other then none else some (self - other)

pub record BufferTimingAnchor : Type 0 where
  pub head_pos : ℕ
  pub captured_at : ℕ
  pub sample_rate_hz : ℕ

-- `BufferTimingAnchor::boot_placeholder`
abbrev pub boot_placeholder : BufferTimingAnchor
boot_placeholder = record { head_pos = 0; captured_at = 0; sample_rate_hz = 44100 }

-- The microseconds from the anchor to a position, by `i128` arithmetic.
unfoldable pub delta_us : BufferTimingAnchor → ℕ → ℤ
delta_us anchor read_pos =
    quotient (times (minus read_pos anchor.head_pos) 1000000) anchor.sample_rate_hz

unfoldable pub capture_us_for : BufferTimingAnchor → ℕ → ℕ
capture_us_for anchor read_pos =
    if anchor.sample_rate_hz == 0
    then anchor.captured_at
    else clamp (pos anchor.captured_at +ℤ delta_us anchor read_pos) % 2 ^ 64
