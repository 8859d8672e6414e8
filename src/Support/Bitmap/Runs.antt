-- ===== src/Support/Bitmap/Runs.antt =====
-- What `bitmap_scan` finds when it is asked for several bits.
use shmily.Base.{
  ℕ, zero, suc, ◌+◌, ◌-◌, ◌*◌, ◌/◌, ◌^◌, ◌≤◌, ◌<◌, ◌≡◌, refl, ◌≢◌, ◌⊎◌, true, false, ◌==◌,
  if◌then◌else◌, arith, Bool-cases, inl, inr, minus_one, ==_iff, ==_ne, add32, mul32, sub32, ◌∙◌,
  add32-sub32_one, dec_lt, dec_le, ℕ_discrete,
}
use shmily.Support.Bitmap.{
  Bitmap, IsValid, bitmap_verify_bit, first_byte, first_bit, find_run, bitmap_scan,
}
use shmily.Support.Bitmap.Scan.{
  FirstByte, first_byte-FirstByte, first_bit-FirstBit, verify_bit_at, verify_bit_below,
  verify_bit-full,
}

-- The `cnt` bits from `s` on are clear.
abbrev pub Free : Bitmap → ℕ → ℕ → Type 0
Free m s cnt = (j : ℕ) → j < cnt → bitmap_verify_bit m (s + j) ≡ false

-- The lowest run of `cnt` clear bits below bit `n`, or -1 if there is none.
abbrev pub LowestRun : Bitmap → ℕ → ℕ → ℕ → Type 0
LowestRun m cnt n r =
    ((r ≡ minus_one) × ((s : ℕ) → s + cnt ≤ n → ¬ Free m s cnt))
    ⊎ ((r + cnt ≤ n) × Free m r cnt × ((s : ℕ) → s < r → ¬ Free m s cnt))

-- The loop before bit `next`, with `count` clear bits behind it.
record Search (m : Bitmap) (cnt next count : ℕ) : Type 0 where
  short : count < cnt
  behind : count ≤ next
  clear : (j : ℕ) → next ≤ j + count → j < next → bitmap_verify_bit m j ≡ false
  edge : count < next → bitmap_verify_bit m (next - count - 1) ≡ true
  none_yet : (s : ℕ) → s + cnt ≤ next → ¬ Free m s cnt

module _ (m : Bitmap) (cnt : ℕ) where
  -- A set bit within reach breaks a run.
  broken : (s p : ℕ) → bitmap_verify_bit m p ≡ true → s ≤ p → p < s + cnt → ¬ Free m s cnt
  broken s p used lo hi free =
      let e : s + (p - s) ≡ p = omega arith in
      let clear : bitmap_verify_bit m p ≡ false = rw e at (free (p - s) (omega arith)) in cc

  -- A run that ends at `next` cannot start before the clear bits behind it.
  no_longer :
      (next count s : ℕ)
      → Search m cnt next count
      → s + cnt ≤ next + 1
      → s + count < next
      → ¬ Free m s cnt
  no_longer next count s inv h far = elim (dec_le (s + cnt) next) [
    | yes le ↦ inv.none_yet s le
    | no gt ↦
        broken s (next - count - 1) (inv.edge (omega arith)) (omega arith)
          (omega (arith, inv.short))
  ]

  step_used :
      (next count : ℕ)
      → Search m cnt next count
      → bitmap_verify_bit m next ≡ true
      → Search m cnt (next + 1) 0
  step_used next count inv used = record {
    short = omega (arith, inv.short);
    behind = omega arith;
    clear = λ j lo hi. absurd (omega arith);
    edge = λ h. let e : next + 1 - 0 - 1 ≡ next = omega arith in rw e used;
    none_yet = λ s h. elim (dec_le (s + cnt) next) [
      | yes le ↦ inv.none_yet s le
      | no gt ↦ broken s next used (omega (arith, inv.short)) (omega arith)
    ];
  }

  clear_on :
      (next count : ℕ)
      → Search m cnt next count
      → bitmap_verify_bit m next ≡ false
      → (j : ℕ) → next ≤ j + count
      → j < next + 1
      → bitmap_verify_bit m j ≡ false
  clear_on next count inv free j lo hi = elim (dec_lt j next) [
    | yes lt ↦ inv.clear j lo lt
    | no ge ↦ let e : j ≡ next = omega arith in rw e free
  ]

  step_free :
      (next count : ℕ)
      → Search m cnt next count
      → bitmap_verify_bit m next ≡ false
      → cnt ≢ count + 1
      → Search m cnt (next + 1) (count + 1)
  step_free next count inv free ne = record {
    short = omega (arith, inv.short);
    behind = omega (arith, inv.behind);
    clear = λ j lo hi. clear_on next count inv free j (omega arith) hi;
    edge = λ h.
        let e : next + 1 - (count + 1) - 1 ≡ next - count - 1 = omega arith in
        rw e (inv.edge (omega arith));
    none_yet = λ s h. elim (dec_lt (s + count) next) [
      | yes far ↦ no_longer next count s inv h far
      | no near ↦ absurd (omega (arith, inv.short, inv.behind))
    ];
  }

  step_found :
      (next count n : ℕ)
      → Search m cnt next count
      → bitmap_verify_bit m next ≡ false
      → cnt ≡ count + 1
      → next < n
      → LowestRun m cnt n (next + 1 - cnt)
  step_found next count n inv free e h = inr (
    omega (arith, inv.behind),
    λ j lt.
        clear_on next count inv free (next + 1 - cnt + j) (omega (arith, inv.behind))
          (omega (arith, inv.behind)),
    λ s lt. no_longer next count s inv (omega (arith, inv.behind)) (omega (arith, inv.behind)),
  )

  find_run-LowestRun :
      (left next count n : ℕ)
      → Search m cnt next count
      → cnt < 2 ^ 31
      → n ≡ next + left
      → n < 2 ^ 32
      → LowestRun m cnt n (find_run left m cnt next count)
  unfolding find_run
  find_run-LowestRun zero next count n inv hc e hn = inl (refl, λ s h. inv.none_yet s (omega arith))
  find_run-LowestRun (suc left) next count n inv hc e hn =
      elim (Bool-cases (bitmap_verify_bit m next)) [
        | inl used ↦
            let more =
              find_run-LowestRun left (next + 1) 0 n (step_used next count inv used) hc
                (omega arith) hn in
            let e1 : add32 next 1 ≡ next + 1 = omega arith in
            rw (used, e1, ==_ne cnt 0 (omega (arith, inv.short))) more
        | inr free ↦
            let w : add32 count 1 ≡ count + 1 = omega (arith, inv.short) in
            let e1 : add32 next 1 ≡ next + 1 = omega arith in
            elim (ℕ_discrete cnt (count + 1)) [
              | yes hit ↦
                  let r : add32 (sub32 next cnt) 1 ≡ next + 1 - cnt =
                    add32-sub32_one next cnt (omega arith) (omega arith) (omega arith)
                      (omega (arith, inv.behind)) in
                  rw (free, w, (==_iff cnt (count + 1)).1 hit, r)
                    (step_found next count n inv free hit (omega arith))
              | no miss ↦
                  rw (free, w, e1, ==_ne cnt (count + 1) miss)
                    (find_run-LowestRun left (next + 1) (count + 1) n
                      (step_free next count inv free miss) hc (omega arith) hn)
            ]
      ]

  start :
      (r : ℕ)
      → 2 ≤ cnt
      → bitmap_verify_bit m r ≡ false
      → ((j : ℕ) → j < r → bitmap_verify_bit m j ≡ true)
      → Search m cnt (r + 1) 1
  start r hc free below = record {
    short = hc;
    behind = omega arith;
    clear = λ j lo hi. let e : j ≡ r = omega arith in rw e free;
    edge = λ h. below (r + 1 - 1 - 1) (omega arith);
    none_yet = λ s h. broken s s (below s (omega arith)) (omega arith) (omega arith);
  }

-- A scan for 2 to 2 ^ 31 - 1 bits gives the lowest run of clear bits that ends at bit
-- `8 * bytes_len` or below it, that is within the map or one bit past its end; it gives -1 exactly
-- if there is no such run.
pub scan_many-LowestRun :
    (m : Bitmap) (cnt : ℕ)
    → IsValid m
    → 2 ≤ cnt
    → cnt < 2 ^ 31
    → LowestRun m cnt (8 * m.bytes_len + 1) (bitmap_scan m cnt)
unfolding bitmap_scan
scan_many-LowestRun m cnt v hc hl =
    at_byte (first_byte (m.bytes_len + 1) m 0)
      (first_byte-FirstByte (m.bytes_len + 1) m 0 (omega arith) (omega arith))
  where
    at_byte :
        (r : ℕ)
        → FirstByte m 0 r
        → LowestRun m cnt (8 * m.bytes_len + 1) (
            if r == m.bytes_len
            then minus_one
            else let ret = add32 (mul32 r 8) (first_bit 9 (m.base r) 0) in
              if cnt == 1
              then ret
              else find_run (sub32 (mul32 m.bytes_len 8) ret) m cnt (add32 ret 1) 1)
    at_byte r fb = elim (dec_lt r m.bytes_len) [
      | no ge ↦ rw ((==_iff r m.bytes_len).1 (omega (arith, fb.upto))) (
          inl (
            refl,
            λ s h.
                broken m cnt s s
                  (verify_bit-full m s v (fb.before (s / 8) (omega arith) (omega (arith, fb.upto))))
                  (omega arith) (omega arith),
          ))
      | yes lt ↦
          let ft = first_bit-FirstBit (m.base r) (v.bytes r) (fb.stop lt) in
          let i : ℕ = first_bit 9 (m.base r) 0 in
          let e : add32 (mul32 r 8) i ≡ r * 8 + i = omega (arith, ft.in_byte, v.small) in
          let l : sub32 (mul32 m.bytes_len 8) (r * 8 + i) ≡ 8 * m.bytes_len - (r * 8 + i) =
            omega (arith, ft.in_byte, v.small) in
          let n : add32 (r * 8 + i) 1 ≡ r * 8 + i + 1 = omega (arith, ft.in_byte, v.small) in
          rw (==_ne r m.bytes_len (omega arith), e, ==_ne cnt 1 (omega arith), l, n)
            (find_run-LowestRun m cnt _ (r * 8 + i + 1) 1 (8 * m.bytes_len + 1)
              (start m cnt (r * 8 + i) hc (verify_bit_at m r i ft.in_byte ∙ ft.clear)
                (λ j h. verify_bit_below m r i j v fb ft h))
              hl (omega (arith, ft.in_byte)) (omega (arith, v.small)))
    ]
