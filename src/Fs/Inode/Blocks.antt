-- ===== src/Fs/Inode/Blocks.antt =====
-- The allocation of blocks and inodes on the bit maps.
use shmily.Base.{
  ℕ, ◌*◌, ◌<◌, ◌≤◌, ◌≡◌, ◌≢◌, inl, inr, refl, sym, ◌∙◌, true, false, arith, minus_one, ==_refl,
  ==_ne, ◌==◌, if◌then◌else◌, ℕ_discrete,
}
use shmily.Support.Bitmap.{Bitmap, IsValid, bitmap_verify_bit, bitmap_set_bit, bitmap_scan}
use shmily.Support.Bitmap.Scan.{scan_one-FirstFree}
use shmily.Support.Bitmap.Bits.{verify_bit-set_bit, set_bit-IsValid}
use shmily.Fs.Volume.{Volume}
use shmily.Fs.Inode.{allocate_block, free_block, allocate_inode_no}

-- One bit of the map stands for each block: set if the block is taken.
abbrev pub IsTaken : Bitmap → ℕ → Type 0
IsTaken m b = bitmap_verify_bit m b ≡ true

-- `b` is the lowest free bit of `m` and is taken in `m'`, where all else is as in `m`.
abbrev pub Lowest : Bitmap → ℕ → Bitmap → Type 0
Lowest m b m' =
    (bitmap_verify_bit m b ≡ false)
    × ((j : ℕ) → j < b → IsTaken m j)
    × IsTaken m' b
    × ((j : ℕ) → j ≢ b → bitmap_verify_bit m' j ≡ bitmap_verify_bit m j)
    × IsValid m'

-- `b` is what the scan found, or `u` if it found nothing.
abbrev found : Bitmap → ℕ → ℕ
found m u = if bitmap_scan m 1 == minus_one then u else bitmap_scan m 1

found-within :
    (m : Bitmap) (u : ℕ)
    → IsValid m
    → bitmap_scan m 1 < 8 * m.bytes_len
    → found m u ≡ bitmap_scan m 1
found-within m u v within =
    rw (==_ne (bitmap_scan m 1) minus_one (λ e. absurd (omega (arith, v.small))))

lowest :
    (m : Bitmap) (u : ℕ)
    → IsValid m
    → ((j : ℕ) × (j < 8 * m.bytes_len) × (bitmap_verify_bit m j ≡ false))
    → (found m u ≡ bitmap_scan m 1)
      × Lowest m (bitmap_scan m 1) (bitmap_set_bit m (bitmap_scan m 1) 1)
lowest m u v (j, inside, free) = elim (scan_one-FirstFree m v) [
  | inl full ↦ absurd (cc (full.1 j inside))
  | inr (within, clear, before) ↦ (
    found-within m u v within,
    (
      clear,
      before,
      verify_bit-set_bit m (bitmap_scan m 1) 1 (bitmap_scan m 1) v ∙ rw ==_refl,
      λ k ne.
          verify_bit-set_bit m (bitmap_scan m 1) 1 k v
          ∙ rw (==_ne (bitmap_scan m 1) k (λ e. ne (sym e))),
      set_bit-IsValid m (bitmap_scan m 1) 1 v,
    ),
  )
]

-- While the map has a free bit, `allocate_block` gives the lowest free block and marks it as taken,
-- and `allocate_inode_no` does the same for inodes; no other bit changes, and neither touches the
-- other's map, the disk or the open files.
pub allocate-Lowest :
    (v : Volume)
    → IsValid v.block_bmap
    → IsValid v.inode_bmap
    → (j : ℕ) × (j < 8 * v.block_bmap.bytes_len) × (bitmap_verify_bit v.block_bmap j ≡ false)
    → (j : ℕ) × (j < 8 * v.inode_bmap.bytes_len) × (bitmap_verify_bit v.inode_bmap j ≡ false)
    → let (block, v') = allocate_block v in
      let (ino, w) = allocate_inode_no v in
      Lowest v.block_bmap block v'.block_bmap
      × (v' ≡ record v { block_bmap = v'.block_bmap })
      × Lowest v.inode_bmap ino w.inode_bmap
      × (w ≡ record v { inode_bmap = w.inode_bmap })
unfolding allocate_block allocate_inode_no
allocate-Lowest v vb vi fb fi =
    let (block, lowest_block) = lowest v.block_bmap v.unreturned vb fb in
    let (ino, lowest_ino) = lowest v.inode_bmap v.unreturned vi fi in
    (rw block lowest_block, refl, rw ino lowest_ino, refl)

-- A block that is freed after it was allocated leaves every bit as it was: the pair changes nothing
-- that can be read of the map.
pub free_block-allocate_block :
    (v : Volume)
    → IsValid v.block_bmap
    → (j : ℕ) × (j < 8 * v.block_bmap.bytes_len) × (bitmap_verify_bit v.block_bmap j ≡ false)
    → (k : ℕ)
    → let (block, v') = allocate_block v in
      bitmap_verify_bit (free_block v' block).block_bmap k ≡ bitmap_verify_bit v.block_bmap k
unfolding allocate_block free_block
free_block-allocate_block v valid free k =
    let b = bitmap_scan v.block_bmap 1 in
    let (given, taken) = lowest v.block_bmap v.unreturned valid free in
    rw given (elim (ℕ_discrete b k) [
      | yes e ↦
          verify_bit-set_bit (bitmap_set_bit v.block_bmap b 1) b 0 k taken.4
          ∙ rw (← e) (rw ==_refl (sym taken.0))
      | no ne ↦
          verify_bit-set_bit (bitmap_set_bit v.block_bmap b 1) b 0 k taken.4
          ∙ rw (==_ne b k ne) (taken.3 k (λ e. ne (sym e)))
    ])

-- The lookups in a map after the bit of -1 was set.
abbrev pub OnlyPast : Bitmap → Bitmap → Type 0
OnlyPast m m' =
    (8 * m.bytes_len ≤ minus_one)
    × IsTaken m' minus_one
    × ((j : ℕ) → j ≢ minus_one → bitmap_verify_bit m' j ≡ bitmap_verify_bit m j)

full-OnlyPast :
    (m : Bitmap) (u : ℕ)
    → IsValid m
    → ((j : ℕ) → j < 8 * m.bytes_len → IsTaken m j)
    → (found m u ≡ u) × OnlyPast m (bitmap_set_bit m (bitmap_scan m 1) 1)
full-OnlyPast m u valid full = elim (scan_one-FirstFree m valid) [
  | inr (within, clear, before) ↦ absurd (cc (full (bitmap_scan m 1) within))
  | inl (none, all) ↦ (
    rw none refl,
    (
      omega (arith, valid.small),
      rw none (verify_bit-set_bit m minus_one 1 minus_one valid),
      λ j ne.
          rw none
            (verify_bit-set_bit m minus_one 1 j valid ∙ rw (==_ne minus_one j (λ e. ne (sym e)))),
    ),
  )
]

-- On a full map `allocate_block` and `allocate_inode_no` do not fail: they end without a return, so
-- that the caller goes on with whatever it finds in place of a number, and they set a bit in memory
-- that lies 2 ^ 32 - 1 bits behind the start of the map, outside it. No other bit changes, and
-- neither touches the other's map, the disk or the open files.
pub allocate_block-full :
    (v : Volume)
    → IsValid v.block_bmap
    → IsValid v.inode_bmap
    → ((j : ℕ) → j < 8 * v.block_bmap.bytes_len → IsTaken v.block_bmap j)
    → ((j : ℕ) → j < 8 * v.inode_bmap.bytes_len → IsTaken v.inode_bmap j)
    → let (block, v') = allocate_block v in
      let (ino, w) = allocate_inode_no v in
      (block ≡ v.unreturned)
      × OnlyPast v.block_bmap v'.block_bmap
      × (v' ≡ record v { block_bmap = v'.block_bmap })
      × (ino ≡ v.unreturned)
      × OnlyPast v.inode_bmap w.inode_bmap
      × (w ≡ record v { inode_bmap = w.inode_bmap })
unfolding allocate_block allocate_inode_no
allocate_block-full v vb vi fb fi =
    let (block, past_blocks) = full-OnlyPast v.block_bmap v.unreturned vb fb in
    let (ino, past_inodes) = full-OnlyPast v.inode_bmap v.unreturned vi fi in
    (block, past_blocks, refl, ino, past_inodes, refl)
