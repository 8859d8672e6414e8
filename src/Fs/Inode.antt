-- ===== src/Fs/Inode.antt =====
-- fs/inode.cc: inodes in the table on the disk, and the bit maps of inodes and blocks. An inode is
-- 64 bytes, eight to a sector.
pub mod Table
pub mod Blocks
mod Tests
use shmily.Base.{
  add32, ℕ, zero, suc, ◌+◌, ◌-◌, ◌*◌, ◌/◌, ◌%◌, ◌^◌, List, [], ◌∷◌, ◌++◌, replicate, get_or, update,
  ◌==◌, if◌then◌else◌, minus_one,
}
use shmily.Base.Store.{write_words, read_words}
use shmily.Support.Bitmap.{Bitmap, bitmap_scan, bitmap_set_bit}
use shmily.Fs.Volume.{Inode, Volume, sector_size, write_sector, write_sectors}

abbrev pub default_privilege : ℕ
default_privilege = 0x3d

-- `struct inode` in memory, as sixteen words.
unfoldable pub inode_words : Inode → List ℕ
inode_words inode =
    inode.inode_no
    ∷ inode.size
    ∷ inode.time_low
    ∷ inode.time_high
    ∷ inode.link_cnt
    ∷ (inode.owner + inode.gid * 2 ^ 16)
    ∷ inode.mode
    ∷ inode.sectors

-- The words from the `n`-th on.
abbrev pub skip : ℕ → List ℕ → List ℕ
skip zero ws = ws
skip (suc n) [] = []
skip (suc n) (w ∷ ws) = skip n ws

unfoldable pub inode_of_words : List ℕ → Inode
inode_of_words ws = record {
  inode_no = get_or ws 0 0;
  size = get_or ws 1 0;
  time_low = get_or ws 2 0;
  time_high = get_or ws 3 0;
  link_cnt = get_or ws 4 0;
  owner = get_or ws 5 0 % 2 ^ 16;
  gid = get_or ws 5 0 / 2 ^ 16;
  mode = get_or ws 6 0;
  sectors = skip 7 ws;
}

abbrev pub inodes_per_sector : ℕ
inodes_per_sector = 8

unfoldable pub sync_inode : Volume → Inode → Volume
unfolding inode_words write_words
sync_inode v inode =
    let lba = v.inode_table_lba + inode.inode_no / inodes_per_sector in
    write_sector v lba
      (write_words (v.disk lba) (64 * (inode.inode_no % inodes_per_sector)) (inode_words inode))

unfoldable pub ino2inode : Volume → ℕ → Inode
unfolding inode_of_words read_words
ino2inode v ino = inode_of_words (
    read_words (v.disk (v.inode_table_lba + ino / inodes_per_sector))
      (64 * (ino % inodes_per_sector)) 16)

-- The first free inode. If there is none, the bit of -1 is set and no result is returned.
unfoldable pub allocate_inode_no : Volume → ℕ × Volume
allocate_inode_no v =
    let slot = bitmap_scan v.inode_bmap 1 in
    (
      if slot == minus_one then v.unreturned else slot,
      record v { inode_bmap = bitmap_set_bit v.inode_bmap slot 1 },
    )

-- The time comes from `get_current_time`.
unfoldable pub create_inode : Volume → ℕ → ℕ → Inode × Volume
unfolding allocate_inode_no
create_inode v time_low time_high =
    let (ino, v') = allocate_inode_no v in
    (
      record {
        inode_no = ino;
        size = 0;
        time_low = time_low;
        time_high = time_high;
        link_cnt = 0;
        owner = v.uid % 2 ^ 16;
        gid = 0;
        mode = default_privilege;
        sectors = replicate 9 0;
      },
      v',
    )

unfoldable pub free_inode : Volume → ℕ → Volume
free_inode v ino = record v { inode_bmap = bitmap_set_bit v.inode_bmap ino 0 }

unfoldable pub allocate_block : Volume → ℕ × Volume
allocate_block v =
    let slot = bitmap_scan v.block_bmap 1 in
    (
      if slot == minus_one then v.unreturned else slot,
      record v { block_bmap = bitmap_set_bit v.block_bmap slot 1 },
    )

unfoldable pub free_block : Volume → ℕ → Volume
free_block v block_no = record v { block_bmap = bitmap_set_bit v.block_bmap block_no 0 }

unfoldable pub sync_block : Volume → ℕ → (ℕ → ℕ) → Volume
sync_block v block_no buf = write_sector v (add32 v.data_start block_no) buf

unfoldable pub read_block : Volume → ℕ → ℕ → ℕ
read_block v block_no = v.disk (add32 v.data_start block_no)

unfoldable pub sync_inode_bitmap : Volume → Volume
sync_inode_bitmap v = write_sectors v v.inode_bitmap_lba v.inode_bitmap_sectors v.inode_bmap.base

unfoldable pub sync_block_bitmap : Volume → Volume
sync_block_bitmap v = write_sectors v v.block_bitmap_lba v.block_bitmap_sectors v.block_bmap.base
