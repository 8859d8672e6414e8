-- ===== src/Net/ByteOrder.antt =====
-- net/byte_order.cc: from the byte order of the processor to that of the network, and the bytes
-- of a word as they stand in memory (the lowest first).
mod Tests
use Prim.Native.Nat.{bit_or}
use shmily.Base.{ℕ, ◌+◌, ◌*◌, ◌/◌, ◌%◌, ◌^◌, ◌<◌, ◌≡◌, ◌∙◌, ap, List, [], ◌∷◌, arith}
use shmily.Base.Bits.{or_fields}

-- `((word & 0xff) << 8) | (word >> 8)`
unfoldable pub swap_word : ℕ → ℕ
swap_word word = bit_or (word % 256 * 2 ^ 8) (word / 256)

unfoldable pub swap_double_word : ℕ → ℕ
swap_double_word dw =
    bit_or
      (bit_or (bit_or (dw % 256 * 2 ^ 24) (dw / 256 % 256 * 256 * 2 ^ 8))
        (dw / 65536 % 256 * 65536 / 2 ^ 8))
      (dw / 16777216 % 256 * 16777216 / 2 ^ 24)

pub swap_word-arith : (w : ℕ) → w < 2 ^ 16 → swap_word w ≡ w % 256 * 256 + w / 256
unfolding swap_word
swap_word-arith w h = or_fields 8 (w % 256) (w / 256) (omega arith)

swapped : ℕ → ℕ → ℕ → ℕ → ℕ
swapped a b c d = bit_or (bit_or (bit_or (a * 2 ^ 24) (b * 2 ^ 16)) (c * 2 ^ 8)) d

swapped-arith :
    (a b c d : ℕ)
    → b < 256
    → c < 256
    → d < 256
    → swapped a b c d ≡ ((a * 256 + b) * 256 + c) * 256 + d
unfolding swapped
swapped-arith a b c d hb hc hd =
    let two : bit_or (a * 2 ^ 24) (b * 2 ^ 16) ≡ (a * 256 + b) * 2 ^ 16 =
      or_fields 24 a (b * 2 ^ 16) (omega arith) ∙ omega arith in
    let three : bit_or ((a * 256 + b) * 2 ^ 16) (c * 2 ^ 8) ≡ ((a * 256 + b) * 256 + c) * 2 ^ 8 =
      or_fields 16 (a * 256 + b) (c * 2 ^ 8) (omega arith) ∙ omega arith in
    rw (two, three) (or_fields 8 ((a * 256 + b) * 256 + c) d (omega arith))

pub swap_double_word-arith :
    (w : ℕ)
    → w < 2 ^ 32
    → swap_double_word w
      ≡ ((w % 256 * 256 + w / 256 % 256) * 256 + w / 65536 % 256) * 256 + w / 16777216
unfolding swap_double_word swapped
swap_double_word-arith w h =
    let b : w / 256 % 256 * 256 * 2 ^ 8 ≡ w / 256 % 256 * 2 ^ 16 = omega arith in
    let c : w / 65536 % 256 * 65536 / 2 ^ 8 ≡ w / 65536 % 256 * 2 ^ 8 = omega arith in
    let d : w / 16777216 % 256 * 16777216 / 2 ^ 24 ≡ w / 16777216 = omega arith in
    rw (b, c, d)
      (swapped-arith (w % 256) (w / 256 % 256) (w / 65536 % 256) (w / 16777216) (omega arith)
        (omega arith) (omega arith))

pub swap_word-lt : (w : ℕ) → w < 2 ^ 16 → swap_word w < 2 ^ 16
swap_word-lt w h = omega (arith, swap_word-arith w h)

pub swap_double_word-lt : (w : ℕ) → w < 2 ^ 32 → swap_double_word w < 2 ^ 32
swap_double_word-lt w h = omega (arith, swap_double_word-arith w h)

pub swap_word_twice : (w : ℕ) → w < 2 ^ 16 → swap_word (swap_word w) ≡ w
swap_word_twice w h =
    let e = swap_word-arith w h in
    let lt : w % 256 * 256 + w / 256 < 2 ^ 16 = omega arith in
    rw e (swap_word-arith (w % 256 * 256 + w / 256) lt ∙ omega arith)

pub swap_double_word_twice : (w : ℕ) → w < 2 ^ 32 → swap_double_word (swap_double_word w) ≡ w
swap_double_word_twice w h =
    let v : ℕ = ((w % 256 * 256 + w / 256 % 256) * 256 + w / 65536 % 256) * 256 + w / 16777216 in
    let lt : v < 2 ^ 32 = omega arith in
    rw (swap_double_word-arith w h) (swap_double_word-arith v lt ∙ omega arith)

-- Swapping the byte order twice gives the word back, for both widths, and the swapped word fits
-- its width again.
pub swap_twice :
    (w d : ℕ)
    → w < 2 ^ 16
    → d < 2 ^ 32
    → (swap_word (swap_word w) ≡ w)
      × (swap_double_word (swap_double_word d) ≡ d)
      × (swap_word w < 2 ^ 16)
      × (swap_double_word d < 2 ^ 32)
swap_twice w d hw hd =
    (swap_word_twice w hw, swap_double_word_twice d hd, swap_word-lt w hw, swap_double_word-lt d hd)
