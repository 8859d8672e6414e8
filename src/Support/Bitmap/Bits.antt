-- ===== src/Support/Bitmap/Bits.antt =====
-- Reading back single bits.
use shmily.Base.{ℕ, ◌/◌, ◌%◌, ◌≡◌, refl, not, ◌==◌, if◌then◌else◌, arith}
use shmily.Base.Bytes.{test-raise, test-lower, raise-lt, lower-lt}
use shmily.Support.Bitmap.{Bitmap, IsValid, bitmap_verify_bit, bitmap_set_bit}

-- After `bitmap_set_bit` the bit written has the value given, and every other bit the value it had.
pub verify_bit-set_bit :
    (m : Bitmap) (idx val j : ℕ)
    → IsValid m
    → bitmap_verify_bit (bitmap_set_bit m idx val) j
      ≡ (if idx == j then not (val == 0) else bitmap_verify_bit m j)
unfolding bitmap_verify_bit bitmap_set_bit
verify_bit-set_bit m idx val j v = ground (
  arith,
  v.bytes (idx / 8),
  test-raise (m.base (idx / 8)) (idx % 8) (j % 8),
  test-lower (m.base (idx / 8)) (idx % 8) (j % 8),
)

pub set_bit-IsValid : (m : Bitmap) (idx val : ℕ) → IsValid m → IsValid (bitmap_set_bit m idx val)
unfolding bitmap_set_bit
set_bit-IsValid m idx val v = record {
  bytes = λ i. ground (
    arith,
    v.bytes i,
    raise-lt (m.base (idx / 8)) (idx % 8),
    lower-lt (m.base (idx / 8)) (idx % 8),
  );
  small = v.small;
}

pub bytes_len-set_bit :
    (m : Bitmap) (idx val : ℕ) → (bitmap_set_bit m idx val).bytes_len ≡ m.bytes_len
unfolding bitmap_set_bit
bytes_len-set_bit m idx val = refl
