-- ===== src/Mpmc/Arith.antt =====
-- The arithmetic of the ring: which slot a position has, and what a difference of words says.
use native.Mathlib.Nat.{
  mod-lt, mod-eq_of_lt, mod-mod_of_dvd, mod-add-mod, mod-eq-sub-mod, dvd-mul_right, dvd_refl,
  dvd_trans, pow-suc, pow-le-pow_right,
}
use Prim.Native.Nat.{◌∣◌}
use native.Mathlib.Decide.{dec_le}
use message_center_cpp.Common.{
  ℕ, zero, suc, ◌+◌, ◌-◌, ◌%◌, ◌^◌, ◌≤◌, ◌<◌, ◌≡◌, ap, ◌∙◌, sym, ◌≢◌, subst, arith, dec_lt,
}
use message_center_cpp.Common.Bits.{bit_and-mask}
use message_center_cpp.Mpmc.{word, index, diff, Verdict, verdict}

-- `Capacity` is a power of two, above 1 and small enough for `intptr_t`.
pub record IsCapacity (cap : ℕ) : Type 0 where
  pub bits : ℕ
  pub low : 1 ≤ bits
  pub high : bits ≤ 62
  pub power : cap ≡ 2 ^ bits

pub capacity_bounds : {cap : ℕ} → IsCapacity cap → (2 ≤ cap) × (cap ≤ 2 ^ 62)
capacity_bounds c =
    let low : 2 ^ 1 ≤ 2 ^ c.bits = pow-le-pow_right (omega arith) c.low in
    let high : 2 ^ c.bits ≤ 2 ^ 62 = pow-le-pow_right (omega arith) c.high in
    let e = c.power in omega arith

pow-dvd : (k n : ℕ) → k ≤ n → 2 ^ k ∣ 2 ^ n
pow-dvd k zero h = let e : k ≡ 0 = omega arith in rw e (dvd_refl (2 ^ 0))
pow-dvd k (suc n) h = elim (dec_le k n) [
  | yes below ↦ dvd_trans (2 ^ k) (pow-dvd k n below) (rw (pow-suc 2 n) (dvd-mul_right (2 ^ n) 2))
  | no top ↦ let e : k ≡ suc n = omega arith in rw e (dvd_refl (2 ^ suc n))
]

pub index_lem : {cap : ℕ} → IsCapacity cap → (at : ℕ) → index cap at ≡ at % cap
unfolding index
index_lem {cap} c at = rw c.power (bit_and-mask c.bits at)

-- The slot of a position does not see that the counter has wrapped.
pub index-word : {cap : ℕ} → IsCapacity cap → (at : ℕ) → index cap (at % word) ≡ at % cap
index-word {cap} c at =
    index_lem c (at % word)
    ∙ mod-mod_of_dvd cap at
        (subst (λ t. t ∣ word) (sym c.power) (pow-dvd c.bits 64 (omega (arith, c.high))))

-- The mask keeps every access inside the array.
pub index-lt : {cap : ℕ} → IsCapacity cap → (at : ℕ) → index cap at < cap
index-lt {cap} c at = rw (index_lem c at) (mod-lt at (omega (arith, capacity_bounds c)))

-- Positions that lie less than the capacity apart have different slots.
slot_apart : (cap at d : ℕ) → 0 < d → d < cap → at % cap ≢ (at + d) % cap
slot_apart cap at d pos small e =
    let r = at % cap in
    let r_lt : r < cap = mod-lt at (omega arith) in
    let e' : (r + d) % cap ≡ r = mod-add-mod at cap d ∙ sym e in
    elim (dec_lt (r + d) cap) [
      | yes p ↦ absurd (omega (arith, mod-eq_of_lt p))
      | no p ↦ absurd (
          omega (
            arith,
            mod-eq-sub-mod {n = r + d} {m = cap} (omega arith),
            mod-eq_of_lt {n = r + d - cap} {m = cap} (omega arith),
          ))
    ]

pub slot-ne : (cap h i j : ℕ) → i < cap → j < cap → i ≢ j → (h + i) % cap ≢ (h + j) % cap
slot-ne cap h i j hi hj ne e = elim (dec_lt i j) [
  | yes p ↦ slot_apart cap (h + i) (j - i) (omega arith) (omega arith) (shift i j p e)
  | no p ↦
      slot_apart cap (h + j) (i - j) (omega arith) (omega arith) (shift j i (omega arith) (sym e))
]
  where
    shift :
        (a b : ℕ) → a < b → (h + a) % cap ≡ (h + b) % cap → (h + a) % cap ≡ (h + a + (b - a)) % cap
    shift a b lt q = q ∙ ap (λ (t : ℕ). t % cap) (omega arith)

pub slot_wraps : (cap h : ℕ) → 0 < cap → (h + cap) % cap ≡ h % cap
slot_wraps cap h p =
    mod-eq-sub-mod {n = h + cap} {m = cap} (omega arith) ∙ ap (λ (t : ℕ). t % cap) (omega arith)

-- The sequence number is the position.
pub verdict_level : (at : ℕ) → verdict (diff (at % word) (at % word)) ≡ Verdict.claim
unfolding verdict
verdict_level at = ground arith

-- The sequence number is behind the position, by less than half of the range of a word.
pub verdict_behind :
    (at d : ℕ) → 0 < d → d ≤ 2 ^ 63 → verdict (diff (at % word) ((at + d) % word)) ≡ Verdict.give_up
unfolding verdict
verdict_behind at d p q = ground arith
