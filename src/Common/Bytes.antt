-- ===== src/Common/Bytes.antt =====
-- The classes of bytes that the validators of modules/common test, and their error category.
use al.Prelude.{ℕ, Bool, ◌&&◌, ◌||◌, leb, ◌==◌}

-- `(lo..=hi).contains(&b)`
abbrev pub between : ℕ → ℕ → ℕ → Bool
between lo hi b = leb lo b && leb b hi

-- `u8::is_ascii_digit`
abbrev pub is_ascii_digit : ℕ → Bool
is_ascii_digit = between 48 57

-- `u8::is_ascii_alphanumeric`
abbrev pub is_ascii_alphanumeric : ℕ → Bool
is_ascii_alphanumeric b = is_ascii_digit b || between 65 90 b || between 97 122 b

-- `.`, `-`, `_` and `/`
abbrev pub dot : ℕ
dot = 46

abbrev pub dash : ℕ
dash = 45

abbrev pub underscore : ℕ
underscore = 95

abbrev pub slash : ℕ
slash = 47

-- `[A-Za-z0-9._-]`, the allowlist of asset_path.rs and of `AssetId`
unfoldable pub is_allowed_component_byte : ℕ → Bool
is_allowed_component_byte b =
    is_ascii_alphanumeric b || (b == dot || (b == dash || b == underscore))

pub data ErrorKind : Type 0 where
  user_input internal : ErrorKind
