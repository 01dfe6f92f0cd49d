-- ===== src/Prelude/Bits.antt =====
-- `x & (2 ^ k - 1)` is `x % 2 ^ k`, at every width k.
use Prim.Native.Nat.{
  ℕ, zero, suc, ◌+◌, ◌-◌, ◌*◌, ◌/◌, ◌%◌, ◌^◌, ◌≤◌, ◌<◌, min, bit_and, bit_xor, digits, differ,
  bit_and-bitwise, bit_xor-bitwise,
}
use mathlib.Core.Path.{◌≡◌, ap, sym, subst, ◌∙◌}
use native.Mathlib.Nat.{pow-suc, mod-lt, mod-eq_of_lt, div-add-mod', mul-add-mod_self_right}
use native.Mathlib.Omega.{arith}

pub pow_pos : (k : ℕ) → 0 < 2 ^ k
pow_pos zero = omega arith
pow_pos (suc k) = omega (arith, pow_pos k, pow-suc 2 k)

-- The low `k + 1` bits are the low `k` bits of the half, and the last bit.
mod-double : (p a : ℕ) → 0 < p → a % (p * 2) ≡ a / 2 % p * 2 + a % 2
mod-double p a h =
    ap (λ n. n % (p * 2)) regroup
    ∙ (mul-add-mod_self_right (a / 2 / p) (p * 2) (a / 2 % p * 2 + a % 2)
        ∙ mod-eq_of_lt (omega (arith, mod-lt (a / 2) h)))
  where
    regroup : a ≡ a / 2 / p * (p * 2) + (a / 2 % p * 2 + a % 2)
    regroup = omega (arith, div-add-mod' (a / 2) p, div-add-mod' a 2)

-- The mask of `k` ones loses its last one when it is halved.
mask-half : (k : ℕ) → ((2 ^ suc k - 1) / 2 ≡ 2 ^ k - 1) × ((2 ^ suc k - 1) % 2 ≡ 1)
mask-half k = (omega (arith, pow_pos k, pow-suc 2 k), omega (arith, pow_pos k, pow-suc 2 k))

-- The digitwise minimum with a mask, in at least as many rounds as the number has digits.
digits-mask :
    (rounds k a : ℕ) → a ≤ rounds → digits (λ b. zero) min rounds a (2 ^ k - 1) ≡ a % 2 ^ k
digits-mask zero k zero le = omega (arith, mod-eq_of_lt (pow_pos k))
digits-mask (suc rounds) k zero le = omega (arith, mod-eq_of_lt (pow_pos k))
digits-mask zero k (suc a) le = absurd (omega arith)
digits-mask (suc rounds) zero (suc a) le =
    omega (arith, digits-mask rounds zero (suc a / 2) (omega arith))
digits-mask (suc rounds) (suc k) (suc a) le =
    let (half, one) = mask-half k in
    let rest = digits-mask rounds k (suc a / 2) (omega arith) in
    let low = mod-double (2 ^ k) (suc a) (pow_pos k) in
    rw (half, one, rest, pow-suc) (omega (arith, low))

pub bit_and-mask : (k a : ℕ) → bit_and a (2 ^ k - 1) ≡ a % 2 ^ k
bit_and-mask k a = bit_and-bitwise a (2 ^ k - 1) ∙ digits-mask a k a (omega arith)

differ_le : (a b : ℕ) → a < 2 → b < 2 → differ a b < 2
differ_le zero b ha hb = hb
differ_le (suc a) zero ha hb = ha
differ_le (suc a) (suc b) ha hb = differ_le a b (omega (arith, ha)) (omega (arith, hb))

digits-differ_lt :
    (rounds k a b : ℕ) → a < 2 ^ k → b < 2 ^ k → digits (λ b. b) differ rounds a b < 2 ^ k
digits-differ_lt zero k a b ha hb = hb
digits-differ_lt (suc rounds) k zero b ha hb = hb
digits-differ_lt (suc rounds) zero (suc a) b ha hb = absurd (omega (arith, ha))
digits-differ_lt (suc rounds) (suc k) (suc a) b ha hb =
    let rest =
      digits-differ_lt rounds k (suc a / 2) (b / 2) (omega (arith, ha, pow-suc 2 k))
        (omega (arith, hb, pow-suc 2 k)) in
    let last = differ_le (suc a % 2) (b % 2) (omega arith) (omega arith) in
    omega (arith, rest, last, pow-suc 2 k)

-- The exclusive or of two numbers of `k` bits has at most as many.
pub bit_xor_lt : (k a b : ℕ) → a < 2 ^ k → b < 2 ^ k → bit_xor a b < 2 ^ k
bit_xor_lt k a b ha hb =
    subst (λ n. n < 2 ^ k) (sym (bit_xor-bitwise a b)) (digits-differ_lt a k a b ha hb)
