-- ===== src/Mempool/Align.antt =====
-- ALIGN of src/include/types.h on 64-bit words, and calculate_alignment.
use Prim.Native.Nat.{bit_and}
use native.Mathlib.Nat.{pow-suc, one-le-pow, div-lt_iff_lt-mul}
use treasure_house.Base.{ℕ, zero, suc, ◌+◌, ◌-◌, ◌*◌, ◌/◌, ◌%◌, ◌^◌, ◌≤◌, ◌≡◌, sym, ◌∙◌, ap, arith}
use treasure_house.Base.Bits.{bit_and-high}

abbrev pub word_mod : ℕ
word_mod = 2 ^ 64

-- (x + mask) & ~mask, with mask = a - 1
unfoldable pub align_up : ℕ → ℕ → ℕ
align_up x a =
    let mask = (a + word_mod - 1) % word_mod in
    bit_and ((x + mask) % word_mod) (word_mod - 1 - mask)

-- ALIGN(align, sizeof(void *))
unfoldable pub calculate_alignment : ℕ → ℕ
unfolding align_up
calculate_alignment align = align_up align 8

pub two_pow_add : (w k : ℕ) → 2 ^ (w + k) ≡ 2 ^ w * 2 ^ k
two_pow_add zero k = ground arith
two_pow_add (suc w) k =
    let e : suc w + k ≡ suc (w + k) = omega arith in
    rw e (grind (arith, pow-suc 2 (w + k), pow-suc 2 w, two_pow_add w k))

-- To a power of two ALIGN rounds up: the result is the least multiple of 2^k that is not below x.
pub align_up_power :
    (k w x : ℕ)
    → w + k ≡ 64
    → x + 2 ^ k ≤ word_mod
    → align_up x (2 ^ k) ≡ (x + 2 ^ k - 1) / 2 ^ k * 2 ^ k
unfolding align_up
align_up_power k w x h small =
    let p = 2 ^ k in
    let pos : 1 ≤ p = one-le-pow k 2 (omega arith) in
    let whole : 2 ^ w * p ≡ word_mod = sym (two_pow_add w k) ∙ ap (λ n. 2 ^ n) h in
    let mask : (p + word_mod - 1) % word_mod ≡ p - 1 = omega arith in
    let sum : (x + (p - 1)) % word_mod ≡ x + p - 1 = omega arith in
    let rest : word_mod - 1 - (p - 1) ≡ (2 ^ w - 1) * p =
      let one_more : 2 ^ w - 1 + 1 ≡ 2 ^ w = omega (arith, one-le-pow w 2 (omega arith)) in
      omega (arith, ap (λ (t : ℕ). t * p) one_more) in
    rw (mask, sum, rest) (bit_and-high w k (x + p - 1) ((div-lt_iff_lt-mul pos).1 (omega arith)))
