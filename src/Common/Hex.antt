-- ===== src/Common/Hex.antt =====
-- modules/common/hex.rs: bytes as lowercase hex.
pub mod Decode
use al.Prelude.{ℕ, ◌+◌, ◌/◌, ◌%◌, List, [], ◌∷◌, get_or}
use al.Prelude.Utf8.{ascii}

abbrev pub hex : List ℕ
hex = ascii "0123456789abcdef"

-- `hex_lowercase`; the loop writes the two digits of each byte in turn.
unfoldable pub hex_lowercase : List ℕ → List ℕ
hex_lowercase [] = []
hex_lowercase (b ∷ bs) = get_or hex (b / 16) 0 ∷ get_or hex (b % 16) 0 ∷ hex_lowercase bs
