-- ===== src/Common/Bits.antt =====
-- A mask of low bits is a remainder: `x & (2 ^ k - 1)` for every `k`.
use Prim.Native.Nat.{
  ℕ, zero, suc, ◌+◌, ◌-◌, ◌*◌, ◌/◌, ◌%◌, ◌^◌, ◌≤◌, ◌<◌, min, bit_and, digits, bit_and-bitwise,
}
use mathlib.Core.Path.{◌≡◌, ap, ◌∙◌, sym}
use native.Mathlib.Nat.{
  pow-suc, one-le-pow, mod-one, mod-lt, mod-eq_of_lt, div-add-mod, add-mul-mod_self_left,
}
use native.Mathlib.Omega.{arith}

-- The digit that a remainder by an even number has in front.
mod-double : (m x : ℕ) → 1 ≤ m → x % (m * 2) ≡ x / 2 % m * 2 + x % 2
mod-double m x pos_m =
    let low : x / 2 % m < m = mod-lt (x / 2) pos_m in
    let rest = x / 2 % m * 2 + x % 2 in
    let back : x ≡ rest + m * 2 * (x / 2 / m) =
      omega (arith, ap (λ (t : ℕ). t * 2) (div-add-mod (x / 2) m)) in
    ap (λ (t : ℕ). t % (m * 2)) back
    ∙ add-mul-mod_self_left rest (m * 2) (x / 2 / m)
    ∙ mod-eq_of_lt (omega arith)

-- The native operation runs over at most `n` digits.
abbrev low_bits : ℕ → ℕ → ℕ → ℕ
low_bits n x mask = digits (λ _. zero) min n x mask

low_bits-mod : (n k x : ℕ) → x ≤ n → low_bits n x (2 ^ k - 1) ≡ x % 2 ^ k
low_bits-mod zero k zero h = sym (mod-eq_of_lt (one-le-pow k 2 (omega arith)))
low_bits-mod zero k (suc x) h = absurd (omega arith)
low_bits-mod (suc n) k zero h = sym (mod-eq_of_lt (one-le-pow k 2 (omega arith)))
low_bits-mod (suc n) zero (suc x) h =
    omega (arith, low_bits-mod n zero (suc x / 2) (omega arith), mod-one (suc x / 2))
low_bits-mod (suc n) (suc k) (suc x) h =
    let some_bits = one-le-pow k 2 (omega arith) in
    let tail_mask : (2 ^ suc k - 1) / 2 ≡ 2 ^ k - 1 = omega (arith, pow-suc 2 k) in
    let last_bit : (2 ^ suc k - 1) % 2 ≡ 1 = omega (arith, pow-suc 2 k) in
    omega (
      arith,
      ap (low_bits n (suc x / 2)) tail_mask,
      low_bits-mod n k (suc x / 2) (omega arith),
      ap (λ (t : ℕ). suc x % t) (pow-suc 2 k),
      mod-double (2 ^ k) (suc x) some_bits,
    )

pub bit_and-mask : (k x : ℕ) → bit_and x (2 ^ k - 1) ≡ x % 2 ^ k
bit_and-mask k x = bit_and-bitwise x (2 ^ k - 1) ∙ low_bits-mod x k x (omega arith)
