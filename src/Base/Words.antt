-- ===== src/Base/Words.antt =====
-- Machine words as native numbers: `unsigned int` has 32 bits, and wraps.
use Prim.Native.Nat.{ℕ, ◌+◌, ◌-◌, ◌*◌, ◌%◌, ◌^◌, ◌≤◌, ◌<◌}
use mathlib.Core.Path.{◌≡◌, ap, ◌∙◌}
use native.Mathlib.Omega.{arith}
use native.Mathlib.Decide.{dec_le}

abbrev pub u8_mod : ℕ
u8_mod = 2 ^ 8

abbrev pub u16_mod : ℕ
u16_mod = 2 ^ 16

abbrev pub u32_mod : ℕ
u32_mod = 2 ^ 32

abbrev pub add32 : ℕ → ℕ → ℕ
add32 a b = (a + b) % 2 ^ 32

-- `-` on ℕ stops at 0, so the modulus is added first.
abbrev pub sub32 : ℕ → ℕ → ℕ
sub32 a b = (a + 2 ^ 32 - b) % 2 ^ 32

abbrev pub mul32 : ℕ → ℕ → ℕ
mul32 a b = (a * b) % 2 ^ 32

-- `~x` of a 32-bit word.
abbrev pub not32 : ℕ → ℕ
not32 x = 2 ^ 32 - 1 - x

-- The `int` -1, as the bit pattern that an `unsigned int` shares with it.
abbrev pub minus_one : ℕ
minus_one = 2 ^ 32 - 1

pub add32-sub32_one :
    (a c : ℕ) → a < 2 ^ 32 → 0 < c → c < 2 ^ 32 → c ≤ a + 1 → add32 (sub32 a c) 1 ≡ a + 1 - c
add32-sub32_one a c ha pos hc h = elim (dec_le c a) [
  | yes le ↦ let e : sub32 a c ≡ a - c = omega arith in ap (λ t. add32 t 1) e ∙ omega arith
  | no gt ↦ let e : sub32 a c ≡ 2 ^ 32 - 1 = omega arith in ap (λ t. add32 t 1) e ∙ omega arith
]
