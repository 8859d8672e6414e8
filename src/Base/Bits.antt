-- ===== src/Base/Bits.antt =====
-- `|` of words whose low bits lie apart, as arithmetic, at every width.
use Prim.Native.Nat.{
  ℕ, zero, suc, ◌+◌, ◌-◌, ◌*◌, ◌/◌, ◌%◌, ◌^◌, ◌≤◌, ◌<◌, max, bit_or, digits, bit_or-bitwise,
}
use mathlib.Core.Path.{◌≡◌, refl, ap, ap₂, ◌∙◌}
use native.Mathlib.Nat.{pow-suc, one-le-pow}
use native.Mathlib.Omega.{arith}

abbrev or_digits : ℕ → ℕ → ℕ → ℕ
or_digits rounds a b = digits (λ x. x) max rounds a b

or_digits_rounds : (n m a b : ℕ) → a ≤ n → a ≤ m → or_digits n a b ≡ or_digits m a b
or_digits_rounds zero zero a b hn hm = refl
or_digits_rounds zero (suc m) zero b hn hm = refl
or_digits_rounds zero (suc m) (suc a) b hn hm = absurd (omega arith)
or_digits_rounds (suc n) zero zero b hn hm = refl
or_digits_rounds (suc n) zero (suc a) b hn hm = absurd (omega arith)
or_digits_rounds (suc n) (suc m) zero b hn hm = refl
or_digits_rounds (suc n) (suc m) (suc a) b hn hm =
    omega (arith, or_digits_rounds n m (suc a / 2) (b / 2) (omega arith) (omega arith))

zero-bit_or : (b : ℕ) → bit_or 0 b ≡ b
zero-bit_or b = bit_or-bitwise 0 b

-- The lowest digit, and the rest.
or_step : (a b : ℕ) → bit_or a b ≡ bit_or (a / 2) (b / 2) * 2 + max (a % 2) (b % 2)
or_step zero b = omega (arith, zero-bit_or b, zero-bit_or (b / 2))
or_step (suc a) b = omega (
  arith,
  bit_or-bitwise (suc a) b,
  bit_or-bitwise (suc a / 2) (b / 2),
  or_digits_rounds a (suc a / 2) (suc a / 2) (b / 2) (omega arith) (omega arith),
)

or-zero_below : (n a : ℕ) → a ≤ n → bit_or a 0 ≡ a
or-zero_below n zero h = refl
or-zero_below zero (suc a) h = absurd (omega arith)
or-zero_below (suc n) (suc a) h =
    omega (arith, or_step (suc a) 0, or-zero_below n (suc a / 2) (omega arith))

pub or-zero : (a : ℕ) → bit_or a 0 ≡ a
or-zero a = or-zero_below a a (omega arith)

mul_pow_suc : (q k : ℕ) → q * 2 ^ suc k ≡ 2 * (q * 2 ^ k)
mul_pow_suc q k = omega (arith, ap (λ (t : ℕ). q * t) (pow-suc 2 k))

-- The bits above `k` come from both sides, those below from the right one alone.
pub or_split :
    (k a b r : ℕ) → r < 2 ^ k → bit_or (a * 2 ^ k) (b * 2 ^ k + r) ≡ bit_or a b * 2 ^ k + r
or_split zero a b r h =
    let z : r ≡ 0 = omega arith in
    rw z (
      ap₂ bit_or {x = a * 2 ^ 0} {y = a} {u = b * 2 ^ 0 + 0} {v = b} (omega arith) (omega arith)
      ∙ omega arith)
or_split (suc k) a b r h =
    let ha : (a * 2 ^ suc k) / 2 ≡ a * 2 ^ k = omega (arith, mul_pow_suc a k) in
    let hb : (b * 2 ^ suc k + r) / 2 ≡ b * 2 ^ k + r / 2 = omega (arith, mul_pow_suc b k) in
    let halves : bit_or ((a * 2 ^ suc k) / 2) ((b * 2 ^ suc k + r) / 2)
        ≡ bit_or a b * 2 ^ k + r / 2 =
      rw (ha, hb) (or_split k a b (r / 2) (omega (arith, pow-suc 2 k))) in
    omega (
      arith,
      or_step (a * 2 ^ suc k) (b * 2 ^ suc k + r),
      halves,
      mul_pow_suc a k,
      mul_pow_suc b k,
      mul_pow_suc (bit_or a b) k,
    )

-- Fields that do not overlap add up.
pub or_fields : (k q r : ℕ) → r < 2 ^ k → bit_or (q * 2 ^ k) r ≡ q * 2 ^ k + r
or_fields k q r h =
    ap (bit_or (q * 2 ^ k)) (omega arith) ∙ or_split k q 0 r h ∙ ap (λ t. t * 2 ^ k + r) (or-zero q)

-- All ones swallow the other side.
pub or_ones : (k a : ℕ) → a < 2 ^ k → bit_or a (2 ^ k - 1) ≡ 2 ^ k - 1
or_ones zero a h = let z : a ≡ 0 = omega arith in rw z refl
or_ones (suc k) a h =
    let one : 1 ≤ 2 ^ k = one-le-pow k 2 (omega arith) in
    let half : (2 ^ suc k - 1) / 2 ≡ 2 ^ k - 1 = omega (arith, pow-suc 2 k) in
    let halves : bit_or (a / 2) ((2 ^ suc k - 1) / 2) ≡ 2 ^ k - 1 =
      rw half (or_ones k (a / 2) (omega (arith, pow-suc 2 k))) in
    omega (arith, or_step a (2 ^ suc k - 1), halves, pow-suc 2 k)
