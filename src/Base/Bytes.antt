-- ===== src/Base/Bytes.antt =====
-- Single bits of a byte: the laws of `|= 1 << i` and `&= ~(1 << i)`, checked on every byte.
use Prim.Native.Nat.{ℕ, zero, suc, ◌%◌, ◌^◌, ◌<◌, bit_and, bit_or}
use mathlib.Core.Path.{◌≡◌, refl, sym, ◌∙◌}
use mathlib.Core.Bool.{Bool, true, false, not, ◌&&◌}
use native.Mathlib.Omega.{arith}
use shmily.Base.Tests.{◌==◌, if◌then◌else◌, ==_iff}
use shmily.Base.Words.{not32}

unfoldable pub all_below : ℕ → (ℕ → Bool) → Bool
all_below zero test = true
all_below (suc last) test = test last && all_below last test

pub all_below_sound :
    (bound : ℕ) (test : ℕ → Bool) (i : ℕ) → all_below bound test ≡ true → i < bound → test i ≡ true
unfolding all_below
all_below_sound (suc last) test i table below = ground (arith, all_below_sound last test i)
all_below_sound zero test i table below = absurd (omega arith)

-- `b & (1 << i)`, as a truth value.
unfoldable pub test_bit : ℕ → ℕ → Bool
test_bit b i = not (bit_and b (2 ^ i) == 0)

-- `b |= 1 << i` and `b &= ~(1 << i)` on an `unsigned char`.
unfoldable pub raise_bit : ℕ → ℕ → ℕ
raise_bit b i = bit_or b (2 ^ i) % 256

unfoldable pub lower_bit : ℕ → ℕ → ℕ
lower_bit b i = bit_and b (not32 (2 ^ i)) % 256

abbrev pub bool_eq : Bool → Bool → Bool
bool_eq true b = b
bool_eq false b = not b

pub bool_eq_sound : (a b : Bool) → bool_eq a b ≡ true → a ≡ b
bool_eq_sound a b h = ground arith

-- The value of a bit after a write, at each position.
abbrev written : (ℕ → ℕ → ℕ) → Bool → ℕ → ℕ → ℕ → Bool
written write v b i j = bool_eq (test_bit (write b i) j) (if i == j then v else test_bit b j)

abbrev table : (ℕ → ℕ → ℕ → Bool) → Bool
table p = all_below 256 (λ b. all_below 8 (λ i. all_below 8 (λ j. p b i j)))

table_sound :
    (p : ℕ → ℕ → ℕ → Bool) (b i j : ℕ) → table p ≡ true → b < 256 → i < 8 → j < 8 → p b i j ≡ true
table_sound p b i j t hb hi hj =
    all_below_sound 8 _ j
      (all_below_sound 8 (λ i. all_below 8 (λ j. p b i j)) i
        (all_below_sound 256 (λ b. all_below 8 (λ i. all_below 8 (λ j. p b i j))) b t hb) hi)
      hj

raise_table : table (written raise_bit true) ≡ true
unfolding all_below test_bit raise_bit
raise_table = refl

lower_table : table (written lower_bit false) ≡ true
unfolding all_below test_bit lower_bit
lower_table = refl

pub test-raise :
    (b i j : ℕ)
    → b < 256
    → i < 8
    → j < 8
    → test_bit (raise_bit b i) j ≡ (if i == j then true else test_bit b j)
test-raise b i j hb hi hj = bool_eq_sound _ _ (table_sound _ b i j raise_table hb hi hj)

pub test-lower :
    (b i j : ℕ)
    → b < 256
    → i < 8
    → j < 8
    → test_bit (lower_bit b i) j ≡ (if i == j then false else test_bit b j)
test-lower b i j hb hi hj = bool_eq_sound _ _ (table_sound _ b i j lower_table hb hi hj)

pub raise-lt : (b i : ℕ) → raise_bit b i < 256
unfolding raise_bit
raise-lt b i = omega arith

pub lower-lt : (b i : ℕ) → lower_bit b i < 256
unfolding lower_bit
lower-lt b i = omega arith

-- A byte is 0xff exactly when each of its bits is set.
abbrev full : ℕ → Bool
full b = all_below 8 (test_bit b)

full_table : all_below 256 (λ b. bool_eq (b == 255) (full b)) ≡ true
unfolding all_below test_bit
full_table = refl

full_lem : (b : ℕ) → b < 256 → (b == 255) ≡ full b
full_lem b h = bool_eq_sound _ _ (all_below_sound 256 _ b full_table h)

pub test-full : (b i : ℕ) → b < 256 → b ≡ 255 → i < 8 → test_bit b i ≡ true
test-full b i h e hi = all_below_sound 8 (test_bit b) i (sym (full_lem b h) ∙ (==_iff b 255).1 e) hi
