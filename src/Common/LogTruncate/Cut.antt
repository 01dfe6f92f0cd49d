-- ===== src/Common/LogTruncate/Cut.antt =====
-- modules/common/log_truncate.rs: what a cut message keeps.
use al.Prelude.{
  ℕ, zero, suc, ◌+◌, ◌≤◌, ◌<◌, ◌≡◌, refl, ap, true, List, ◌++◌, arith, Bool-cases, inl, inr, leb,
  length, take, ℕ_discrete, ◌⊎◌, returns,
}
use al.Prelude.Utf8.{ascii, is_char_boundary, slice_to, push_str}
use al.Prelude.Utf8.Text.{Text, Text-take, Text-append, Text-ascii, near_boundary}
use al.Common.LogTruncate.{max_log_line_bytes, snap_down, truncate_log_message}

pub snap_down-le : (m : List ℕ) (idx : ℕ) → snap_down m idx ≤ idx
unfolding snap_down
snap_down-le m zero = omega arith
snap_down-le m (suc idx) = ground (arith, snap_down-le m idx)

snap_down-is_char_boundary : (m : List ℕ) (idx : ℕ) → is_char_boundary m (snap_down m idx) ≡ true
unfolding snap_down
snap_down-is_char_boundary m zero = unfold is_char_boundary in refl
snap_down-is_char_boundary m (suc idx) = elim (Bool-cases (is_char_boundary m (suc idx))) [
  | inl t ↦ rw t t
  | inr t ↦ rw t (snap_down-is_char_boundary m idx)
]

snap_down-largest :
    (m : List ℕ) (idx j : ℕ) → j ≤ idx → is_char_boundary m j ≡ true → j ≤ snap_down m idx
unfolding snap_down
snap_down-largest m zero j le b = le
snap_down-largest m (suc idx) j le b = elim (Bool-cases (is_char_boundary m (suc idx))) [
  | inl t ↦ rw t le
  | inr t ↦ rw t (elim (ℕ_discrete j (suc idx)) [
    | yes same ↦ absurd (ground (arith, ap (is_char_boundary m) same))
    | no other ↦ snap_down-largest m idx j (omega arith) b
  ])
]

-- The last boundary that is not beyond the limit; at most three bytes are given up.
pub record LastBoundary (m : List ℕ) (limit k : ℕ) : Type 0 where
  pub boundary : is_char_boundary m k ≡ true
  pub below : k ≤ limit
  pub near : limit ≤ k + 3
  pub last : (j : ℕ) → j ≤ limit → is_char_boundary m j ≡ true → j ≤ k

pub snap_down-LastBoundary :
    (m : List ℕ) (idx : ℕ) → Text m → idx ≤ length m → LastBoundary m idx (snap_down m idx)
snap_down-LastBoundary m idx t le =
    let (j, below, near, b) = near_boundary m idx t le in
    let largest = snap_down-largest m idx j below b in
    record {
      boundary = snap_down-is_char_boundary m idx;
      below = snap_down-le m idx;
      near = omega arith;
      last = snap_down-largest m idx;
    }

-- What a message becomes under a limit: itself, or its text up to the last boundary that is not
-- beyond `target`, and the suffix.
pub record Shortened (m : List ℕ) (limit target : ℕ) (suffix s : List ℕ) : Type 0 where
  pub text : Text s
  pub content :
      ((length m ≤ limit) × (s ≡ m))
      ⊎ ((limit < length m) × (k : ℕ) × LastBoundary m target k × (s ≡ take k m ++ suffix))

-- A message that is too long is cut without a panic.
pub push_str-Shortened :
    (m : List ℕ) (limit target : ℕ) (suffix : List ℕ)
    → Text m
    → limit < length m
    → target ≤ length m
    → Text suffix
    → (s : List ℕ) × (push_str (slice_to m (snap_down m target)) suffix ≡ returns s)
      × Shortened m limit target suffix s
unfolding push_str slice_to
push_str-Shortened m limit target suffix t long inside ts =
    let k = snap_down m target in
    let cut = snap_down-LastBoundary m target t inside in
    (
      take k m ++ suffix,
      rw (cut.boundary, push_str) refl,
      record {
        text = Text-append (take k m) suffix (Text-take m k t cut.boundary) ts;
        content = inr (long, k, cut, refl);
      },
    )

-- Truncation of text never panics, and its result is text. Text of at most 8192 bytes stays as it
-- is; of longer text the result is what stands before the last character boundary within 8192
-- bytes, which is not below 8189, and then the suffix.
pub truncate_log_message_lem :
    (m : List ℕ)
    → Text m
    → (s : List ℕ) × (truncate_log_message m ≡ returns s)
      × Shortened m max_log_line_bytes max_log_line_bytes (ascii "...[truncated]") s
unfolding truncate_log_message
truncate_log_message_lem m t = elim (Bool-cases (leb (length m) max_log_line_bytes)) [
  | inl short ↦
      let within : length m ≤ max_log_line_bytes = ground arith in
      rw short (m, refl, record { text = t; content = inl (within, refl) })
  | inr long ↦
      let beyond : max_log_line_bytes < length m = ground arith in
      rw long (
        push_str-Shortened m max_log_line_bytes max_log_line_bytes _ t beyond (omega arith)
          (Text-ascii _ refl))
]
