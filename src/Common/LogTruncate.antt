-- ===== src/Common/LogTruncate.antt =====
-- modules/common/log_truncate.rs: bounded truncation of log messages. A message is its bytes.
pub mod Cut
use al.Prelude.{ℕ, zero, suc, ◌*◌, Bool, List, leb, if◌then◌else◌, length, Outcome, returns}
use al.Prelude.Utf8.{ascii, is_char_boundary, slice_to, push_str}

abbrev pub max_log_line_bytes : ℕ
max_log_line_bytes = 8 * 1024

-- `while idx > 0 && !m.is_char_boundary(idx) { idx -= 1; }`
unfoldable pub snap_down : List ℕ → ℕ → ℕ
snap_down m zero = zero
snap_down m (suc idx) =
    let rest = snap_down m idx in if is_char_boundary m (suc idx) then suc idx else rest

unfoldable pub truncate_log_message : List ℕ → Outcome (List ℕ)
unfolding slice_to push_str
truncate_log_message m =
    if leb (length m) max_log_line_bytes
    then returns m
    else push_str (slice_to m (snap_down m max_log_line_bytes)) (ascii "...[truncated]")
