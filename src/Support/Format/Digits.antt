-- ===== src/Support/Format/Digits.antt =====
-- The digits that `itoa` writes stand for the number.
use mathlib.Core.List.{append_assoc}
use native.Mathlib.Nat.{pow-suc, div-add-mod', mod-lt, div-mul-le_self}
use shmily.Base.{
  ℕ, zero, suc, ◌+◌, ◌-◌, ◌*◌, ◌/◌, ◌%◌, ◌^◌, ◌≤◌, ◌<◌, ◌≡◌, refl, sym, ap, ◌∙◌, ◌≢◌, List, [], ◌∷◌,
  ◌++◌, arith, ltb, if◌then◌else◌, ==_iff, ==_ne, ℕ_discrete, All, All-append, ◌⊎◌,
}
use shmily.Support.Format.{digit, itoa}

-- What a digit stands for, and what a row of digits does, after the number `acc`.
unfoldable pub digit_value : ℕ → ℕ
digit_value c = if ltb c b'A' then c - b'0' else c - b'A' + 10

unfoldable pub value : ℕ → ℕ → List ℕ → ℕ
value base acc [] = acc
value base acc (c ∷ cs) = value base (acc * base + digit_value c) cs

digit_value-digit : (r : ℕ) → r < 16 → digit_value (digit r) ≡ r
unfolding digit_value digit
digit_value-digit r h = ground arith

value-append :
    (base acc : ℕ) (cs ds : List ℕ) → value base acc (cs ++ ds) ≡ value base (value base acc cs) ds
unfolding value
value-append base acc [] ds = refl
value-append base acc (c ∷ cs) ds = value-append base (acc * base + digit_value c) cs ds

-- One of the characters 0 to 9 and A to F, for a number below `base`.
abbrev pub IsDigit : ℕ → ℕ → Type 0
IsDigit base c = (((b'0' ≤ c) × (c ≤ b'9')) ⊎ ((b'A' ≤ c) × (c ≤ b'F'))) × (digit_value c < base)

digit-IsDigit : (base r : ℕ) → r < base → base ≤ 16 → IsDigit base (digit r)
unfolding digit digit_value
digit-IsDigit base r h hb = ground arith

-- `cs` is the usual way to write `n`: its digits, with no zero in front of another digit.
pub record Writes (base n : ℕ) (cs : List ℕ) : Type 0 where
  pub digits : All (IsDigit base) cs
  pub meant : value base 0 cs ≡ n
  pub not_empty : cs ≢ []
  pub no_zero : (ds : List ℕ) → cs ≡ b'0' ∷ ds → ds ≡ []

abbrev pub Appended : ℕ → ℕ → List ℕ → List ℕ → Type 0
Appended base n buf out = (cs : List ℕ) × (out ≡ buf ++ cs) × Writes base n cs

one_digit : (base n : ℕ) → n < base → base ≤ 16 → Writes base n (digit n ∷ [])
unfolding value
one_digit base n h hb = record {
  digits = (digit-IsDigit base n h hb, tt);
  meant = omega (arith, digit_value-digit n (omega arith));
  not_empty = λ e. cc;
  no_zero = λ ds e. ground arith;
}

no_zero_front :
    (base n d : ℕ) (cs : List ℕ)
    → Writes base n cs
    → n ≢ 0
    → (ds : List ℕ) → cs ++ d ∷ [] ≡ b'0' ∷ ds
    → ds ≡ []
unfolding value digit_value
no_zero_front base n d [] w ne ds e = absurd (w.not_empty refl)
no_zero_front base n d (c ∷ cs) w ne ds e =
    let c0 : c ≡ b'0' = ground arith in
    let nil : cs ≡ [] = w.no_zero cs (ap (λ t. t ∷ cs) c0) in
    absurd (ne (sym w.meant ∙ rw (c0, nil) (omega arith)))

snoc-ne-nil : (cs : List ℕ) (d : ℕ) → cs ++ d ∷ [] ≢ []
snoc-ne-nil [] d e = cc
snoc-ne-nil (c ∷ cs) d e = cc

more_digits :
    (base n r : ℕ) (cs : List ℕ)
    → Writes base (n / base) cs
    → r ≡ n % base
    → 2 ≤ base
    → base ≤ 16
    → n / base ≢ 0
    → Writes base n (cs ++ digit r ∷ [])
unfolding value
more_digits base n r cs w e hb hl ne = record {
  digits =
      All-append (IsDigit base) cs (digit r ∷ []) w.digits
        (digit-IsDigit base r (omega (arith, e, mod-lt n {m = base} (omega arith))) hl, tt);
  meant =
      value-append base 0 cs (digit r ∷ [])
      ∙ rw (w.meant, digit_value-digit r (omega arith), e) (div-add-mod' n base);
  not_empty = snoc-ne-nil cs (digit r);
  no_zero = no_zero_front base (n / base) (digit r) cs w ne;
}

quotient_bound : (n base k : ℕ) → 2 ≤ base → n < 2 ^ suc k → n / base < 2 ^ k
quotient_bound n base k hb h =
    let twice : n / base * 2 ≤ n / base * base = grind arith in
    omega (arith, twice, div-mul-le_self n base, pow-suc 2 k)

rounds_left : (k x : ℕ) → x < 2 ^ k → x ≢ 0 → 0 < k
rounds_left zero x h ne = absurd (ne (omega arith))
rounds_left (suc k) x h ne = omega arith

-- With a base from 2 to 16, and as many rounds as the number has binary digits (one at least),
-- `itoa` appends the number's digits in that base.
pub itoa-Writes :
    (fuel n base : ℕ) (buf : List ℕ)
    → 2 ≤ base
    → base ≤ 16
    → 0 < fuel
    → n < 2 ^ fuel
    → Appended base n buf (itoa fuel n buf base)
unfolding itoa
itoa-Writes zero n base buf hb hl pos h = absurd (omega arith)
itoa-Writes (suc k) n base buf hb hl pos h = elim (ℕ_discrete (n / base) 0) [
  | yes z ↦
      let none_higher = ap (λ (x : ℕ). x * base) z in
      let e : n % base ≡ n = omega (arith, div-add-mod' n base, none_higher) in
      rw ((==_iff (n / base) 0).1 z) (
        digit (n % base) ∷ [],
        refl,
        rw e (one_digit base n (omega (arith, e, mod-lt n {m = base} (omega arith))) hl),
      )
  | no nz ↦
      let b = quotient_bound n base k hb h in
      let (cs, q, w) = itoa-Writes k (n / base) base buf hb hl (rounds_left k (n / base) b nz) b in
      rw (==_ne (n / base) 0 nz, q)
        (
          cs ++ digit (n % base) ∷ [],
          append_assoc buf cs (digit (n % base) ∷ []),
          more_digits base n (n % base) cs w refl hb hl nz,
        )
]
