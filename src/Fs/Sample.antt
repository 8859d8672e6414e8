-- ===== src/Fs/Sample.antt =====
-- A small volume for the tests: eight blocks and eight inodes, of which the first are taken; the
-- root directory has sector 20, and the file of descriptor 0 has sector 21.
use shmily.Base.{ℕ, ◌==◌, if◌then◌else◌, none, some, [], ◌∷◌, update, replicate}
use shmily.Base.Store.{write_words}
use shmily.Support.Bitmap.{Bitmap}
use shmily.Fs.Volume.{Inode, Volume}
use shmily.Fs.Inode.{inode_words}

abbrev pub bits : ℕ → Bitmap
bits byte = record { bytes_len = 1; base = λ i. if i == 0 then byte else 0 }

abbrev pub root : Inode
root = record {
  inode_no = 0;
  size = 144;
  time_low = 0;
  time_high = 0;
  link_cnt = 0;
  owner = 0;
  gid = 0;
  mode = 0x3d;
  sectors = 20 ∷ replicate 8 0;
}

abbrev pub letter : Inode
letter = record root { inode_no = 1; size = 3; owner = 7; sectors = 21 ∷ replicate 8 0 }

unfoldable pub volume : ℕ → ℕ → Volume
unfolding write_words inode_words
volume uid taken = record {
  disk = update (λ s i. 0) 10 (write_words (λ i. 0) 0 (inode_words root));
  block_bitmap_lba = 2;
  block_bitmap_sectors = 1;
  inode_bitmap_lba = 3;
  inode_bitmap_sectors = 1;
  inode_table_lba = 10;
  data_start = 20;
  root_inode_no = 0;
  block_bmap = bits taken;
  inode_bmap = bits 3;
  unreturned = 5;
  uid = uid;
  file_desc_tbl = λ fd. if fd == 0 then some (record { offset = 0; inode = letter }) else none;
  cur_dir = 47 ∷ [];
}
