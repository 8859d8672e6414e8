-- ===== src/Fs/File/Kept.antt =====
-- What the writes of the maps and the inode in fs/file.cc leave as it is.
use shmily.Base.{
  ℕ, zero, suc, ◌+◌, ◌/◌, ◌<◌, ◌≡◌, ◌≢◌, refl, ◌∙◌, Bool, true, false, ◌&&◌, ◌==◌, some, List,
  get_or, set, get_or-set_ne, arith, update_self, update_ne, inl, inr, ltb, leb, if◌then◌else◌,
  Bool-cases,
}
use shmily.Fs.Volume.{Inode, File, Volume}
use shmily.Fs.Inode.{sync_inode, sync_block_bitmap, free_block}
use shmily.Fs.File.{put_file, free_rest}

-- Sector `s` holds neither the inode nor a part of the map of blocks.
pub record Apart (v : Volume) (ino s : ℕ) : Type 0 where
  pub used : s ≢ 0
  pub table : s ≢ v.inode_table_lba + ino / 8
  pub bitmap :
      (leb v.block_bitmap_lba s && ltb s (v.block_bitmap_lba + v.block_bitmap_sectors)) ≡ false

-- What stays the same when the maps and the inode are written.
pub record Kept (v w : Volume) (ino s : ℕ) : Type 0 where
  pub sector : w.disk s ≡ v.disk s
  pub user : w.uid ≡ v.uid
  pub apart : Apart w ino s

pub Apart-Kept : (v : Volume) (ino s : ℕ) → Apart v ino s → Kept v v ino s
Apart-Kept v ino s a = record { sector = refl; user = refl; apart = a }

pub sync_inode-Kept :
    (v w : Volume) (inode : Inode) (s : ℕ)
    → Kept v w inode.inode_no s
    → Kept v (sync_inode w inode) inode.inode_no s
unfolding sync_inode
sync_inode-Kept v w inode s k = record {
  sector = update_ne w.disk (w.inode_table_lba + inode.inode_no / 8) s _ k.apart.table ∙ k.sector;
  user = k.user;
  apart = record { used = k.apart.used; table = k.apart.table; bitmap = k.apart.bitmap };
}

pub sync_bitmap-Kept :
    (v w : Volume) (ino s : ℕ) → Kept v w ino s → Kept v (sync_block_bitmap w) ino s
unfolding sync_block_bitmap
sync_bitmap-Kept v w ino s k = record {
  sector = rw k.apart.bitmap k.sector;
  user = k.user;
  apart = record { used = k.apart.used; table = k.apart.table; bitmap = k.apart.bitmap };
}

free_block-Kept : (v w : Volume) (b ino s : ℕ) → Kept v w ino s → Kept v (free_block w b) ino s
unfolding free_block
free_block-Kept v w b ino s k = record {
  sector = k.sector;
  user = k.user;
  apart = record { used = k.apart.used; table = k.apart.table; bitmap = k.apart.bitmap };
}

-- The loop that gives sectors back leaves the disk and the sectors before.
pub free_rest-Kept :
    (v w : Volume) (sectors : List ℕ) (i rounds : ℕ) (has_surplus : Bool) (ino s : ℕ)
    → Kept v w ino s
    → 0 < i
    → Kept v (free_rest w sectors i rounds has_surplus).0 ino s
      × (get_or (free_rest w sectors i rounds has_surplus).1.0 0 0 ≡ get_or sectors 0 0)
unfolding free_rest
free_rest-Kept v w sectors i zero has_surplus ino s k pos = (k, refl)
free_rest-Kept v w sectors i (suc rounds) has_surplus ino s k pos =
    elim (Bool-cases (0 == get_or sectors i 0)) [
      | inl e ↦ rw e (free_rest-Kept v w sectors (i + 1) rounds has_surplus ino s k (omega arith))
      | inr e ↦
          let ih =
            free_rest-Kept v (free_block w _) (set sectors i 0) (i + 1) rounds true ino s
              (free_block-Kept v w _ ino s k) (omega arith) in
          rw e (ih.0, ih.1 ∙ get_or-set_ne sectors 0 0 (λ q. omega (arith, q)))
    ]

pub maybe_sync-Kept :
    (v w : Volume) (ino s : ℕ) (has_surplus : Bool)
    → Kept v w ino s
    → Kept v (if has_surplus then sync_block_bitmap w else w) ino s
maybe_sync-Kept v w ino s true k = sync_bitmap-Kept v w ino s k
maybe_sync-Kept v w ino s false k = k

pub put_file-found :
    (v : Volume) (fd : ℕ) (file : File) → (put_file v fd file).file_desc_tbl fd ≡ some file
put_file-found v fd file = update_self v.file_desc_tbl fd (some file)
