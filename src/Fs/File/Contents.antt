-- ===== src/Fs/File/Contents.antt =====
-- What a short file holds after it was written, and what is read of it.
use shmily.Base.{
  ℕ, ◌+◌, ◌/◌, ◌%◌, ◌≤◌, ◌<◌, ◌≡◌, ◌≢◌, refl, sym, ◌∙◌, ap, true, false, some, List, get_or, arith,
  update_self, ltb-false, ltb, if◌then◌else◌, ==_ne, add32,
}
use mathlib.Core.Path.{subst}
use shmily.Base.Store.{write_bytes, write_bytes_in}
use shmily.Support.Text.{strlen}
use shmily.Fs.Volume.{Inode, File, Volume}
use shmily.Fs.Inode.{sync_inode, sync_block_bitmap}
use shmily.Fs.Protect.{check_inode_permission, read_access, write_access}
use shmily.Fs.File.Kept.{
  Apart, Apart-Kept, sync_inode-Kept, sync_bitmap-Kept, free_rest-Kept, maybe_sync-Kept,
  put_file-found,
}
use shmily.Fs.File.{
  put_file, allocate_sectors, free_rest, shrink, fill_sectors, write_content, write_file,
  read_content, read_file, append_mode,
}

-- A file of one sector after `write_file`: its contents, size and place.
pub record Written (w : Volume) (fd : ℕ) (file : File) (m : ℕ → ℕ) (str count s user : ℕ)
    : Type 0 where
  pub user_is : w.uid ≡ user
  pub after : File
  pub open_still : w.file_desc_tbl fd ≡ some after
  pub same_offset : after.offset ≡ file.offset
  pub size_is : after.inode.size ≡ count
  pub mode_is : after.inode.mode ≡ file.inode.mode
  pub owner_is : after.inode.owner ≡ file.inode.owner
  pub place : get_or after.inode.sectors 0 0 ≡ s
  pub bytes : (i : ℕ) → i < count → w.disk s i ≡ m (str + i)

shrink-Written :
    (v : Volume) (fd : ℕ) (file : File) (sectors : List ℕ) (m : ℕ → ℕ) (str count s : ℕ)
    → Apart v file.inode.inode_no s
    → get_or sectors 0 0 ≡ s
    → ((i : ℕ) → i < count → v.disk s i ≡ m (str + i))
    → Written (shrink v fd file sectors 0 count) fd file m str count s v.uid
unfolding shrink
shrink-Written v fd file sectors m str count s apart first holds =
    let rest = free_rest v sectors 1 8 false in
    let inode : Inode = record file.inode { sectors = rest.1.0; size = count } in
    let (kept, front) =
      free_rest-Kept v v sectors 1 8 false file.inode.inode_no s
        (Apart-Kept v file.inode.inode_no s apart) (omega arith) in
    let synced = sync_inode-Kept v rest.0 inode s kept in
    let last = maybe_sync-Kept v (sync_inode rest.0 inode) file.inode.inode_no s rest.1.1 synced in
    record {
      user_is = last.user;
      after = record file { inode = inode };
      open_still =
          put_file-found
            (if rest.1.1
              then sync_block_bitmap (sync_inode rest.0 inode)
              else sync_inode rest.0 inode)
            fd (record file { inode = inode });
      same_offset = refl;
      size_is = refl;
      mode_is = refl;
      owner_is = refl;
      place = front ∙ first;
      bytes = λ i lt. ap (λ (sector : ℕ → ℕ). sector i) last.sector ∙ holds i lt;
    }

-- The file already has its first sector.
allocate_first :
    (v : Volume) (sectors : List ℕ)
    → get_or sectors 0 0 ≢ 0
    → allocate_sectors v sectors 0 1 ≡ (v, sectors)
unfolding allocate_sectors
allocate_first v sectors h = rw (==_ne 0 (get_or sectors 0 0) (λ e. h (sym e)))

fill_first :
    (v : Volume) (sectors : List ℕ) (m : ℕ → ℕ) (str count last s i : ℕ)
    → get_or sectors 0 0 ≡ s
    → count < 512
    → i < count
    → (fill_sectors v sectors m str count 0 0 0 last).disk s i ≡ m (str + i)
unfolding fill_sectors
fill_first v sectors m str count last s i first small lt =
    let short : ltb 512 count ≡ false = ltb-false 512 count (omega arith) in
    rw (short, fill_sectors)
      (rw first (
        ap (λ (sector : ℕ → ℕ). sector i) (update_self v.disk s _)
        ∙ ap (write_bytes (v.disk s) 0 count (λ j. m (str + j))) (omega arith)
        ∙ write_bytes_in (v.disk s) 0 count (λ j. m (str + j)) i lt))

fill_sectors-Apart :
    (v : Volume) (sectors : List ℕ) (m : ℕ → ℕ) (str count last ino s : ℕ)
    → count < 512
    → Apart v ino s
    → Apart (fill_sectors v sectors m str count 0 0 0 last) ino s
unfolding fill_sectors
fill_sectors-Apart v sectors m str count last ino s small apart =
    rw (ltb-false 512 count (omega arith), fill_sectors)
      (record { used = apart.used; table = apart.table; bitmap = apart.bitmap })

fill_sectors-uid :
    (v : Volume) (sectors : List ℕ) (m : ℕ → ℕ) (str count last : ℕ)
    → count < 512
    → (fill_sectors v sectors m str count 0 0 0 last).uid ≡ v.uid
unfolding fill_sectors
fill_sectors-uid v sectors m str count last small =
    rw (ltb-false 512 count (omega arith), fill_sectors)

write_content-Written :
    (v : Volume) (fd : ℕ) (file : File) (m : ℕ → ℕ) (str count last s : ℕ)
    → Apart v file.inode.inode_no s
    → get_or file.inode.sectors 0 0 ≡ s
    → count < 512
    → Written (write_content v fd file m str count 0 0 0 last count) fd file m str count s v.uid
unfolding write_content
write_content-Written v fd file m str count last s apart first small =
    let sectors = file.inode.sectors in
    let synced = sync_block_bitmap (sync_inode v file.inode) in
    let kept =
      sync_bitmap-Kept v (sync_inode v file.inode) file.inode.inode_no s
        (sync_inode-Kept v v file.inode s (Apart-Kept v file.inode.inode_no s apart)) in
    rw (allocate_first v sectors (λ e. apart.used (sym first ∙ e)), write_content)
      (subst
        (λ u.
          Written
            (shrink (fill_sectors synced sectors m str count 0 0 0 last) fd file sectors 0 count) fd
            file m str count s u)
        (fill_sectors-uid synced sectors m str count last small ∙ kept.user)
        (shrink-Written (fill_sectors synced sectors m str count 0 0 0 last) fd file sectors m str
          count s
          (fill_sectors-Apart synced sectors m str count last file.inode.inode_no s small
            kept.apart)
          first (λ i lt. fill_first synced sectors m str count last s i first small lt)))

pub read_content-short :
    (w : Volume) (file : File) (m : ℕ → ℕ) (buf count i : ℕ)
    → count < 512
    → i < count
    → read_content w file m buf count (buf + i)
      ≡ w.disk (get_or file.inode.sectors (file.offset / 512) 0) (file.offset % 512 + i)
unfolding read_content
read_content-short w file m buf count i small lt =
    rw (ltb-false 512 count (omega arith), read_content)
      (write_bytes_in m buf count
        (λ j. w.disk (get_or file.inode.sectors (file.offset / 512) 0) (file.offset % 512 + j)) i
        lt)

pub read_file-reads :
    (w : Volume) (fd : ℕ) (file : File) (m : ℕ → ℕ) (buf count : ℕ)
    → w.file_desc_tbl fd ≡ some file
    → check_inode_permission w file.inode read_access ≡ true
    → count ≤ file.inode.size
    → read_file w fd m buf count ≡ (
      some count,
      (
        put_file w fd (record file { offset = add32 file.offset count }),
        read_content w file m buf count,
      ),
    )
unfolding read_file
read_file-reads w fd file m buf count there may fits =
    let cut : (if ltb file.inode.size count then file.inode.size else count) ≡ count =
      ground arith in
    rw (there, read_file)
      (rw (may, read_file)
        (ap
          (λ c. (
            some c,
            (
              put_file w fd (record file { offset = add32 file.offset c }),
              read_content w file m buf c,
            ),
          ))
          cut))

allowed_still :
    (v w : Volume) (inode after : Inode)
    → w.uid ≡ v.uid
    → after.mode ≡ inode.mode
    → after.owner ≡ inode.owner
    → check_inode_permission w after read_access ≡ check_inode_permission v inode read_access
unfolding check_inode_permission
allowed_still v w inode after u md o = rw (u, md, o)

write_file-writes :
    (v : Volume) (rounds fd : ℕ) (file : File) (m : ℕ → ℕ) (str count len mode : ℕ)
    → v.file_desc_tbl fd ≡ some file
    → check_inode_permission v file.inode write_access ≡ true
    → strlen rounds m str ≡ some len
    → count ≤ len
    → count < 512
    → mode ≢ append_mode
    → write_file v rounds fd m str count mode
      ≡ some (write_content v fd file m str count 0 0 0 count count)
unfolding write_file
write_file-writes v rounds fd file m str count len mode there may text enough small ne =
    let cut : (if ltb len count then add32 len 1 else count) ≡ count = ground arith in
    let whole : count / 512 ≡ 0 = omega arith in
    let part : count % 512 ≡ count = omega arith in
    rw (there, write_file)
      (rw (text, write_file)
        (rw (may, write_file)
          (rw (==_ne mode append_mode ne, write_file)
            (ap (λ c. some (write_content v fd file m str c 0 0 (c / 512) (c % 512) c)) cut
              ∙ ap (λ q. some (write_content v fd file m str count 0 0 q (count % 512) count)) whole
              ∙ ap (λ r. some (write_content v fd file m str count 0 0 0 r count)) part))))

-- A text of at least `count` bytes, `count` below 512, is written over a file whose first sector
-- holds neither its inode nor a part of the map of blocks; the file is then read from its start
-- into other memory, by a user who may read it. The read gives `count` bytes, exactly those that
-- were written, and leaves the offset behind them.
pub read_file-write_file :
    (v : Volume) (rounds fd : ℕ) (file : File) (m m' : ℕ → ℕ) (str count len mode buf : ℕ)
    → v.file_desc_tbl fd ≡ some file
    → check_inode_permission v file.inode write_access ≡ true
    → check_inode_permission v file.inode read_access ≡ true
    → strlen rounds m str ≡ some len
    → count ≤ len
    → count < 512
    → mode ≢ append_mode
    → file.offset ≡ 0
    → Apart v file.inode.inode_no (get_or file.inode.sectors 0 0)
    → (w : Volume) × (w' : Volume) × (read : ℕ → ℕ) × (after : File) × (write_file v rounds fd m str
          count mode
        ≡ some w)
      × (read_file w fd m' buf count ≡ (some count, (w', read)))
      × ((i : ℕ) → i < count → read (buf + i) ≡ m (str + i))
      × (w'.file_desc_tbl fd ≡ some after)
      × (after.offset ≡ count)
      × (after.inode.size ≡ count)
unfolding write_file
read_file-write_file v rounds fd file m m' str count len mode buf there may_write may_read text
      enough small ne start apart =
    let s = get_or file.inode.sectors 0 0 in
    let w = write_content v fd file m str count 0 0 0 count count in
    let written = write_content-Written v fd file m str count count s apart refl small in
    let f = written.after in
    let offset : f.offset ≡ 0 = written.same_offset ∙ start in
    let after : File = record f { offset = add32 f.offset count } in
    (
      w,
      put_file w fd after,
      read_content w f m' buf count,
      after,
      write_file-writes v rounds fd file m str count len mode there may_write text enough small ne,
      read_file-reads w fd f m' buf count written.open_still
          (allowed_still v w file.inode f.inode written.user_is written.mode_is written.owner_is
            ∙ may_read)
          (omega (arith, written.size_is)),
      λ i lt.
          read_content-short w f m' buf count i small lt
          ∙ ap (λ o. w.disk (get_or f.inode.sectors (o / 512) 0) (o % 512 + i)) offset
          ∙ ap (w.disk (get_or f.inode.sectors 0 0)) (omega arith)
          ∙ ap (λ l. w.disk l i) written.place
          ∙ written.bytes i lt,
      put_file-found w fd after,
      ap (λ o. add32 o count) offset ∙ omega arith,
      written.size_is,
    )

-- A count that fits the size is read in full though the offset may leave less: in a file of at most
-- 511 bytes whose offset is not beyond its size, a read of more bytes than remain still answers the
-- whole count, and puts the offset beyond the size.
pub read_file-overshoots :
    (v : Volume) (fd : ℕ) (file : File) (m : ℕ → ℕ) (buf count : ℕ)
    → v.file_desc_tbl fd ≡ some file
    → check_inode_permission v file.inode read_access ≡ true
    → file.inode.size < 512
    → file.offset ≤ file.inode.size
    → file.inode.size < file.offset + count
    → count ≤ file.inode.size
    → (w : Volume) × (read : ℕ → ℕ) × (after : File) × (read_file v fd m buf count
        ≡ (some count, (w, read)))
      × (w.file_desc_tbl fd ≡ some after)
      × (file.inode.size < after.offset)
read_file-overshoots v fd file m buf count there may small in_file beyond fits =
    let after : File = record file { offset = add32 file.offset count } in
    (
      put_file v fd after,
      read_content v file m buf count,
      after,
      read_file-reads v fd file m buf count there may fits,
      put_file-found v fd after,
      omega arith,
    )
