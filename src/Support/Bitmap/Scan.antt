-- ===== src/Support/Bitmap/Scan.antt =====
-- What `bitmap_scan` finds.
use shmily.Base.{
  ℕ, zero, suc, ◌+◌, ◌*◌, ◌/◌, ◌%◌, ◌≤◌, ◌<◌, ◌≡◌, refl, ◌≢◌, ◌⊎◌, Bool, true, false, not, ◌&&◌,
  ◌||◌, ◌==◌, ltb, if◌then◌else◌, arith, Bool-cases, inl, inr, minus_one, ==_iff, ==_ne, add32,
  mul32, ◌∙◌, dec_lt,
}
use shmily.Base.Bytes.{test_bit, all_below, all_below_sound, test-full}
use shmily.Support.Bitmap.{Bitmap, IsValid, bitmap_verify_bit, first_byte, first_bit, bitmap_scan}

-- From byte `i` on, `r` is the first that is not 0xff, or the end of the map.
pub record FirstByte (m : Bitmap) (i r : ℕ) : Type 0 where
  pub from : i ≤ r
  pub upto : r ≤ m.bytes_len
  pub before : (j : ℕ) → i ≤ j → j < r → m.base j ≡ 255
  pub stop : r < m.bytes_len → m.base r ≢ 255

first_byte-step :
    (k : ℕ) (m : Bitmap) (i : ℕ)
    → m.base i ≡ 255
    → FirstByte m (i + 1) (first_byte k m (i + 1))
    → FirstByte m i (first_byte k m (i + 1))
first_byte-step k m i e h = record {
  from = omega (arith, h.from);
  upto = h.upto;
  before = λ j lo hi. ground (arith, h.before j);
  stop = h.stop;
}

pub first_byte-FirstByte :
    (k : ℕ) (m : Bitmap) (i : ℕ)
    → i ≤ m.bytes_len
    → m.bytes_len < i + k
    → FirstByte m i (first_byte k m i)
unfolding first_byte
first_byte-FirstByte zero m i h f = absurd (omega arith)
first_byte-FirstByte (suc k) m i h f = elim (Bool-cases ((m.base i == 255) && ltb i m.bytes_len)) [
  | inl e ↦ rw e (
      first_byte-step k m i (ground arith)
        (first_byte-FirstByte k m (i + 1) (ground arith) (omega arith)))
  | inr e ↦ rw e (record {
    from = omega arith;
    upto = h;
    before = λ j lo hi. absurd (omega arith);
    stop = λ lt. ground arith;
  })
]

-- In a byte that is not 0xff the inner loop stops at the first clear bit.
abbrev stops : ℕ → Bool
stops b =
    let i = first_bit 9 b 0 in
    (b == 255) || (ltb i 8 && (not (test_bit b i) && all_below i (test_bit b)))

stops_table : all_below 256 stops ≡ true
unfolding all_below test_bit first_bit
stops_table = refl

pub record FirstBit (b i : ℕ) : Type 0 where
  pub in_byte : i < 8
  pub clear : test_bit b i ≡ false
  pub below : all_below i (test_bit b) ≡ true

pub first_bit-FirstBit : (b : ℕ) → b < 256 → b ≢ 255 → FirstBit b (first_bit 9 b 0)
first_bit-FirstBit b h ne = ground (arith, all_below_sound 256 stops b stops_table h)

-- `r` is -1 and every bit is set, or `r` is the first clear bit.
abbrev pub FirstFree : Bitmap → ℕ → Type 0
FirstFree m r =
    ((r ≡ minus_one) × ((j : ℕ) → j < 8 * m.bytes_len → bitmap_verify_bit m j ≡ true))
    ⊎ ((r < 8 * m.bytes_len)
        × (bitmap_verify_bit m r ≡ false)
        × ((j : ℕ) → j < r → bitmap_verify_bit m j ≡ true))

pub verify_bit-full :
    (m : Bitmap) (j : ℕ) → IsValid m → m.base (j / 8) ≡ 255 → bitmap_verify_bit m j ≡ true
unfolding bitmap_verify_bit
verify_bit-full m j v e = test-full (m.base (j / 8)) (j % 8) (v.bytes (j / 8)) e (omega arith)

pub verify_bit_at :
    (m : Bitmap) (r i : ℕ) → i < 8 → bitmap_verify_bit m (r * 8 + i) ≡ test_bit (m.base r) i
unfolding bitmap_verify_bit
verify_bit_at m r i h =
    let q : (r * 8 + i) / 8 ≡ r = omega arith in
    let s : (r * 8 + i) % 8 ≡ i = omega arith in rw (q, s)

pub verify_bit_below :
    (m : Bitmap) (r i j : ℕ)
    → IsValid m
    → FirstByte m 0 r
    → FirstBit (m.base r) i
    → j < r * 8 + i
    → bitmap_verify_bit m j ≡ true
unfolding bitmap_verify_bit
verify_bit_below m r i j v fb ft h = elim (dec_lt (j / 8) r) [
  | yes lt ↦ verify_bit-full m j v (fb.before (j / 8) (omega arith) lt)
  | no ge ↦
      let e : j / 8 ≡ r = omega (arith, ft.in_byte) in
      rw e (all_below_sound i (test_bit (m.base r)) (j % 8) ft.below (omega arith))
]

-- A scan for one bit gives the first clear bit of the map; it gives -1 exactly if every bit of the
-- map is set.
pub scan_one-FirstFree : (m : Bitmap) → IsValid m → FirstFree m (bitmap_scan m 1)
unfolding bitmap_scan
scan_one-FirstFree m v =
    at_byte (first_byte (m.bytes_len + 1) m 0)
      (first_byte-FirstByte (m.bytes_len + 1) m 0 (omega arith) (omega arith))
  where
    at_byte :
        (r : ℕ)
        → FirstByte m 0 r
        → FirstFree m
            (if r == m.bytes_len then minus_one else add32 (mul32 r 8) (first_bit 9 (m.base r) 0))
    at_byte r fb = elim (dec_lt r m.bytes_len) [
      | no ge ↦ rw ((==_iff r m.bytes_len).1 (omega (arith, fb.upto))) (
          inl (
            refl,
            λ j h. verify_bit-full m j v (fb.before (j / 8) (omega arith) (omega (arith, fb.upto))),
          ))
      | yes lt ↦
          let ft = first_bit-FirstBit (m.base r) (v.bytes r) (fb.stop lt) in
          let e : add32 (mul32 r 8) (first_bit 9 (m.base r) 0) ≡ r * 8 + first_bit 9 (m.base r) 0 =
            omega (arith, ft.in_byte, v.small) in
          rw (==_ne r m.bytes_len (omega arith), e)
            (inr (
              omega (arith, ft.in_byte),
              verify_bit_at m r _ ft.in_byte ∙ ft.clear,
              λ j h. verify_bit_below m r _ j v fb ft h,
            ))
    ]
