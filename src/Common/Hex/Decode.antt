-- ===== src/Common/Hex/Decode.antt =====
-- modules/common/hex.rs: the hex of bytes decodes to them.
use al.Prelude.{
  ℕ, ◌+◌, ◌-◌, ◌*◌, ◌/◌, ◌%◌, ◌<◌, ◌≡◌, refl, ap₂, List, [], ◌∷◌, arith, ltb, if◌then◌else◌, length,
  get_or, All,
}
use al.Common.Hex.{hex, hex_lowercase}

-- The value of a hex digit.
pub digit : ℕ → ℕ
digit c = if ltb c 97 then c - 48 else c - 87

pub decode : List ℕ → List ℕ
decode [] = []
decode (h ∷ []) = []
decode (h ∷ l ∷ rest) = (digit h * 16 + digit l) ∷ decode rest

digit-hex : (n : ℕ) → n < 16 → digit (get_or hex n 0) ≡ n
unfolding digit
digit-hex n lt = ground arith

-- The hex of bytes has two digits a byte and decodes to the bytes.
pub decode-hex_lowercase :
    (bs : List ℕ)
    → All (λ b. b < 256) bs
    → (decode (hex_lowercase bs) ≡ bs) × (length (hex_lowercase bs) ≡ 2 * length bs)
unfolding decode hex_lowercase
decode-hex_lowercase [] h = (refl, omega arith)
decode-hex_lowercase (b ∷ bs) h =
    let small = h.0 in
    let high : b / 16 < 16 = omega arith in
    let low : b % 16 < 16 = omega arith in
    let (same, len) = decode-hex_lowercase bs h.1 in
    (rw (digit-hex (b / 16) high, digit-hex (b % 16) low) (ap₂ ◌∷◌ (omega arith) same), omega arith)
