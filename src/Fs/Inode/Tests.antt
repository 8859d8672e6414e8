-- ===== src/Fs/Inode/Tests.antt =====
-- Tests of fs/inode.cc.
use shmily.Base.{ℕ, ◌<◌, ◌≡◌, ◌≢◌, refl, false, arith}
use shmily.Base.Bytes.{all_below, all_below_sound, test_bit, raise_bit, lower_bit}
use shmily.Support.Bitmap.{IsValid, bitmap_verify_bit, bitmap_scan, bitmap_set_bit}
use shmily.Fs.Inode.{
  inode_words, sync_inode, ino2inode, allocate_block, create_inode, free_inode, allocate_inode_no,
}
use shmily.Fs.Volume.{Volume}
use shmily.Fs.Inode.Table.{Fits, ino2inode-sync_inode}
use shmily.Fs.Inode.Blocks.{IsTaken, OnlyPast, allocate_block-full}
use shmily.Fs.Sample.{bits, letter, volume}

letter-Fits : Fits letter
unfolding inode_words
letter-Fits = omega arith

ino2inode-sync_inode_example :
    (ino2inode (sync_inode (volume 0 3) letter) 1 ≡ letter)
    × ((ino : ℕ)
        → ino ≢ 1
        → ino2inode (sync_inode (volume 0 3) letter) ino ≡ ino2inode (volume 0 3) ino)
ino2inode-sync_inode_example = ino2inode-sync_inode (volume 0 3) letter letter-Fits

bits-IsValid : (byte : ℕ) → byte < 256 → IsValid (bits byte)
bits-IsValid byte h = record { bytes = λ i. ground arith; small = omega arith }

all_set : (j : ℕ) → j < 8 → IsTaken (bits 255) j
unfolding all_below bitmap_verify_bit test_bit
all_set j h = all_below_sound 8 (bitmap_verify_bit (bits 255)) j refl h

abbrev full_volume : Volume
full_volume = record (volume 0 255) { inode_bmap = bits 255 }

allocate_block-full_example :
    let v = full_volume in
    ((allocate_block v).0 ≡ 5)
    × OnlyPast v.block_bmap (allocate_block v).1.block_bmap
    × ((allocate_block v).1 ≡ record v { block_bmap = (allocate_block v).1.block_bmap })
    × ((allocate_inode_no v).0 ≡ 5)
    × OnlyPast v.inode_bmap (allocate_inode_no v).1.inode_bmap
    × ((allocate_inode_no v).1 ≡ record v { inode_bmap = (allocate_inode_no v).1.inode_bmap })
unfolding volume
allocate_block-full_example =
    allocate_block-full full_volume (bits-IsValid 255 (omega arith))
      (bits-IsValid 255 (omega arith)) all_set all_set

-- The two free maps start at bit 2.
first_free : (allocate_block (volume 0 3)).0 ≡ 2
unfolding allocate_block volume bitmap_scan
first_free = refl

-- A new inode belongs to the user, and gives its number back.
new_number : (create_inode (volume 7 3) 1 0).0.inode_no ≡ 2
unfolding create_inode volume bitmap_scan
new_number = refl

given_back : bitmap_verify_bit (free_inode (create_inode (volume 7 3) 1 0).1 2).inode_bmap 2 ≡ false
unfolding create_inode free_inode volume bitmap_scan bitmap_set_bit bitmap_verify_bit test_bit
    raise_bit lower_bit
given_back = refl
