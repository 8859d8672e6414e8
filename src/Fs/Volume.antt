-- ===== src/Fs/Volume.antt =====
-- fs/fs.h, fs/inode.h, fs/super_block.h and fs/file.h: the mounted partition and the globals of the
-- file system. The disk is a function from sectors to bytes, of which the first 512 of a sector
-- count; `malloc` succeeds, and what is printed is left out.
use shmily.Base.{ℕ, ◌+◌, ◌-◌, ◌*◌, ◌&&◌, Option, List, ltb, leb, if◌then◌else◌, update}
use shmily.Support.Bitmap.{Bitmap}

abbrev pub sector_size : ℕ
sector_size = 512

-- `sectors` are nine sector numbers, 0 for none.
pub record Inode : Type 0 where
  pub inode_no : ℕ
  pub size : ℕ
  pub time_low : ℕ  -- `last_modify_time`, 64 bits
  pub time_high : ℕ
  pub link_cnt : ℕ
  pub owner : ℕ  -- `uid`, 16 bits
  pub gid : ℕ
  pub mode : ℕ
  pub sectors : List ℕ

-- `struct file` with the inode that it points to, which is its own.
pub record File : Type 0 where
  pub offset : ℕ
  pub inode : Inode

-- The fields of the super block that are used after the mount, the two bit maps of the partition,
-- the user, the table of open files and the current directory. `unreturned` is what a caller finds in
-- place of the result of a function that ends without a return.
pub record Volume : Type 0 where
  pub disk : ℕ → ℕ → ℕ
  pub block_bitmap_lba : ℕ
  pub block_bitmap_sectors : ℕ
  pub inode_bitmap_lba : ℕ
  pub inode_bitmap_sectors : ℕ
  pub inode_table_lba : ℕ
  pub data_start : ℕ
  pub root_inode_no : ℕ
  pub block_bmap : Bitmap
  pub inode_bmap : Bitmap
  pub uid : ℕ
  pub file_desc_tbl : ℕ → Option File
  pub cur_dir : List ℕ
  pub unreturned : ℕ

-- `write_disk` of one sector.
abbrev pub write_sector : Volume → ℕ → (ℕ → ℕ) → Volume
write_sector v lba buf = record v { disk = update v.disk lba buf }

-- `write_disk` of several sectors from a block of memory.
abbrev pub write_sectors : Volume → ℕ → ℕ → (ℕ → ℕ) → Volume
write_sectors v lba cnt buf = record v {
  disk = λ s.
      if leb lba s && ltb s (lba + cnt) then (λ i. buf ((s - lba) * sector_size + i)) else v.disk s;
}
