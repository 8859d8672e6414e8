-- ===== src/Support/Text/Number.antt =====
-- What `string2int` reads.
use shmily.Base.{
  ℕ, zero, suc, ◌+◌, ◌-◌, ◌*◌, ◌/◌, ◌%◌, ◌^◌, ◌≤◌, ◌<◌, ◌≡◌, ap, ◌∙◌, List, some, arith, length,
  add32, sub32, mul32, minus_one, ==_ne, lt→ltb,
}
use shmily.Support.Text.{widen, weigh, string2int, IsString}
use shmily.Support.Text.Compare.{strlen-length}

-- The number that the first `n` digits from `p` on stand for.
abbrev pub decimal : (ℕ → ℕ) → ℕ → ℕ → ℕ
decimal m p zero = 0
decimal m p (suc n) = decimal m p n * 10 + (m (p + n) - 48)

abbrev pub IsDigit : ℕ → Type 0
IsDigit c = (48 ≤ c) × (c ≤ 57)

pub widen_digit : (c : ℕ) → IsDigit c → sub32 (widen c) 48 ≡ c - 48
widen_digit c h = ground arith

-- One round of the loop in numbers modulo 2 ^ 32.
pub weigh_step :
    (ret t d v : ℕ)
    → (add32 ret (mul32 d t) + mul32 t 10 * v) % 2 ^ 32 ≡ (ret + t * (v * 10 + d)) % 2 ^ 32
weigh_step ret t d v =
    let e : mul32 t 10 + 2 ^ 32 * ((t * 10) / 2 ^ 32) ≡ t * 10 = omega arith in
    let wrap = ap (λ (x : ℕ). x * v) e in omega (arith, wrap)

-- Every one of the first `n` characters is a digit.
abbrev pub AllDigits : (ℕ → ℕ) → ℕ → ℕ → Type 0
AllDigits m p n = (i : ℕ) → i < n → IsDigit (m (p + i))

pub weigh-decimal :
    (m : ℕ → ℕ) (p n t ret : ℕ)
    → AllDigits m p n
    → ret < 2 ^ 32
    → weigh m p n t ret ≡ (ret + t * decimal m p n) % 2 ^ 32
unfolding weigh
weigh-decimal m p zero t ret h lt = omega arith
weigh-decimal m p (suc n) t ret h lt =
    let d = widen_digit (m (p + n)) (h n (omega arith)) in
    rw d (
      weigh-decimal m p n (mul32 t 10) (add32 ret (mul32 (m (p + n) - 48) t))
        (λ i k. h i (omega arith)) (omega arith)
      ∙ weigh_step ret t (m (p + n) - 48) (decimal m p n))

-- With more rounds than bytes `string2int` returns, and it reads a text of fewer than 2 ^ 31
-- decimal digits as the number that it stands for, modulo 2 ^ 32.
pub string2int-decimal :
    (fuel : ℕ) (m : ℕ → ℕ) (p : ℕ) (cs : List ℕ)
    → IsString m p cs
    → length cs < fuel
    → length cs < 2 ^ 31
    → AllDigits m p (length cs)
    → string2int fuel m p ≡ some (decimal m p (length cs) % 2 ^ 32)
unfolding string2int
string2int-decimal fuel m p cs s f h d =
    rw
      (
        strlen-length fuel m p cs s f (omega arith),
        string2int,
        ==_ne (length cs) minus_one (omega arith),
        lt→ltb (length cs) (2 ^ 31) h,
      )
      (ap some
        (weigh-decimal m p (length cs) 1 0 d (omega arith) ∙ ap (λ t. t % 2 ^ 32) (omega arith)))
