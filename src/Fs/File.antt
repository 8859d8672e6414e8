-- ===== src/Fs/File.antt =====
-- fs/file.h and fs/file.cc: open files, and reading and writing them. The caller's memory is a
-- function from addresses to bytes; a result -1 is `none`.
pub mod Table
pub mod Kept
pub mod Contents
pub mod Whole
mod Tests
use shmily.Base.{
  ℕ, zero, suc, ◌+◌, ◌-◌, ◌*◌, ◌/◌, ◌%◌, Bool, true, false, ◌||◌, ◌==◌, ltb, if◌then◌else◌, Option,
  none, some, List, [], ◌∷◌, get_or, set, update, add32, sub32,
}
use shmily.Base.Store.{write_bytes}
use shmily.Support.Text.{strlen}
use shmily.Fs.Volume.{Inode, File, Volume, sector_size, write_sector}
use shmily.Fs.Inode.{ino2inode, sync_inode, allocate_block, free_block, sync_block_bitmap}
use shmily.Fs.Protect.{check_inode_permission, read_access, write_access}
use shmily.Fs.Dir.Tree.{dir_is_exists}

-- The loop of `get_fdt_free_slot` from slot `i` on, with the rounds left.
unfoldable pub free_slot_from : (ℕ → Option File) → ℕ → ℕ → Option ℕ
free_slot_from table i zero = none
free_slot_from table i (suc rounds) =
    let rest = free_slot_from table (i + 1) rounds in
    elim (table i) [ none ↦ some i | some file ↦ rest ]

unfoldable pub get_fdt_free_slot : Volume → Option ℕ
unfolding free_slot_from
get_fdt_free_slot v = free_slot_from v.file_desc_tbl 0 64

unfoldable pub free_fdt_slot : Volume → ℕ → Volume
free_fdt_slot v slot =
    if ltb 63 slot then v else record v { file_desc_tbl = update v.file_desc_tbl slot none }

abbrev pub put_file : Volume → ℕ → File → Volume
put_file v fd file = record v { file_desc_tbl = update v.file_desc_tbl fd (some file) }

unfoldable pub open_file : Volume → List ℕ → Option ℕ × Volume
unfolding dir_is_exists ino2inode check_inode_permission get_fdt_free_slot
open_file v path = elim (dir_is_exists v path) [
  | none ↦ (none, v)
  | some ino ↦
      let inode = ino2inode v ino in
      let opened : Option ℕ × Volume = elim (get_fdt_free_slot v) [
        | none ↦ (none, v)
        | some slot ↦ (some slot, put_file v slot (record { offset = 0; inode = inode }))
      ] in
      if check_inode_permission v inode read_access then opened else (none, v)
]

unfoldable pub close_file : Volume → ℕ → Volume
unfolding free_fdt_slot
close_file v fd = elim (v.file_desc_tbl fd) [ none ↦ v | some file ↦ free_fdt_slot v fd ]

-- A descriptor that is not open is a fault at NULL, `none`.
unfoldable pub lseek_file : Volume → ℕ → ℕ → Option Volume
lseek_file v fd offset = elim (v.file_desc_tbl fd) [
  | none ↦ none
  | some file ↦ some (
      put_file v fd
        (record file { offset = if ltb file.inode.size offset then file.inode.size else offset }))
]

unfoldable pub is_eof : Volume → ℕ → Option Bool
is_eof v fd = elim (v.file_desc_tbl fd) [
  | none ↦ none
  | some file ↦ some (if ltb file.offset file.inode.size then false else true)
]

-- `read_disk` of the sectors from index `i` on into memory, 512 bytes each.
unfoldable pub read_middle : Volume → List ℕ → ℕ → ℕ → ℕ → (ℕ → ℕ) → ℕ → ℕ
read_middle v sectors buf i zero m = m
read_middle v sectors buf i (suc rounds) m =
    read_middle v sectors buf (i + 1) rounds
      (write_bytes m (buf + i * 512) 512 (v.disk (get_or sectors i 0)))

-- What `read_file` puts into memory, for a count that is already cut to the size.
unfoldable pub read_content : Volume → File → (ℕ → ℕ) → ℕ → ℕ → ℕ → ℕ
unfolding read_middle
read_content v file m buf count =
    let sectors = file.inode.sectors in
    let start_sector = file.offset / sector_size in
    let start_offset_first = file.offset % sector_size in
    let bytes_first_sector = if ltb 512 count then sub32 sector_size file.offset else count in
    let left = sub32 count bytes_first_sector in
    let sector_cnts = if ltb 512 count then left / sector_size else 0 in
    let last_sector_bytes = left % sector_size in
    let first =
      write_bytes m buf bytes_first_sector
        (λ j. v.disk (get_or sectors start_sector 0) (start_offset_first + j)) in
    let buf' = buf + bytes_first_sector in
    let rounds = sector_cnts - (start_sector + 1) in
    let i = start_sector + 1 + rounds in
    let middle = read_middle v sectors buf' (start_sector + 1) rounds first in
    if ltb 512 count
    then write_bytes middle (buf' + i * 512) last_sector_bytes (v.disk (get_or sectors i 0))
    else first

unfoldable pub read_file : Volume → ℕ → (ℕ → ℕ) → ℕ → ℕ → Option ℕ × (Volume × (ℕ → ℕ))
unfolding check_inode_permission read_content
read_file v fd m buf count = elim (v.file_desc_tbl fd) [
  | none ↦ (none, (v, m))
  | some file ↦
      let count' = if ltb file.inode.size count then file.inode.size else count in
      if check_inode_permission v file.inode read_access
      then (
        some count',
        (
          put_file v fd (record file { offset = add32 file.offset count' }),
          read_content v file m buf count',
        ),
      )
      else (none, (v, m))
]

-- `inode->sectors[i]` and the disk, from index `i` on: each that is 0 is given a block.
unfoldable pub allocate_sectors : Volume → List ℕ → ℕ → ℕ → Volume × List ℕ
allocate_sectors v sectors i zero = (v, sectors)
allocate_sectors v sectors i (suc rounds) =
    let (block_no, w) = allocate_block v in
    let grown = allocate_sectors w (set sectors i (add32 w.data_start block_no)) (i + 1) rounds in
    let kept = allocate_sectors v sectors (i + 1) rounds in
    if 0 == get_or sectors i 0 then grown else kept

-- The sectors in the middle, from index `i` on.
unfoldable pub write_middle : Volume → List ℕ → (ℕ → ℕ) → ℕ → ℕ → ℕ → Volume
write_middle v sectors m str i zero = v
write_middle v sectors m str i (suc rounds) =
    write_middle (write_sector v (get_or sectors i 0) (λ j. m (str + i * 512 + j))) sectors m str
      (i + 1) rounds

-- The sectors from index `i` on are given back; the last part tells whether there were any.
unfoldable pub free_rest : Volume → List ℕ → ℕ → ℕ → Bool → Volume × (List ℕ × Bool)
free_rest v sectors i zero has_surplus = (v, (sectors, has_surplus))
free_rest v sectors i (suc rounds) has_surplus =
    let freed =
      free_rest (free_block v (sub32 (get_or sectors i 0) v.data_start)) (set sectors i 0) (i + 1)
        rounds true in
    let kept = free_rest v sectors (i + 1) rounds has_surplus in
    if 0 == get_or sectors i 0 then kept else freed

abbrev pub append_mode : ℕ
append_mode = 0

-- The end of `write_file`: what the file no longer needs is given back, and the inode is written.
unfoldable pub shrink : Volume → ℕ → File → List ℕ → ℕ → ℕ → Volume
unfolding free_rest sync_inode sync_block_bitmap
shrink v fd file sectors sector_cnts size =
    let (w, (sectors', has_surplus)) =
      free_rest v sectors (sector_cnts + 1) (9 - (sector_cnts + 1)) false in
    let inode' : Inode = record file.inode { sectors = sectors'; size = size } in
    let w' = sync_inode w inode' in
    put_file (if has_surplus then sync_block_bitmap w' else w') fd (record file { inode = inode' })

-- The sectors are written: the first, those in the middle, and the last.
unfoldable pub fill_sectors : Volume → List ℕ → (ℕ → ℕ) → ℕ → ℕ → ℕ → ℕ → ℕ → ℕ → Volume
unfolding write_middle
fill_sectors v sectors m str count start pos sector_cnts last =
    let surplus = sector_size - pos in
    let first = if ltb surplus count then surplus else count in
    let lba = get_or sectors start 0 in
    let begun = write_sector v lba (write_bytes (v.disk lba) pos first (λ j. m (str + j))) in
    let str' = str + first in
    let rounds = sector_cnts - 1 - (start + 1) in
    let i = start + 1 + rounds in
    let further = write_middle begun sectors m str' (start + 1) rounds in
    if ltb surplus count
    then write_sector further (get_or sectors i 0)
        (write_bytes (λ j. 0) 0 last (λ j. m (str' + i * 512 + j)))
    else further

-- `write_file` behind its tests: `start` is the first sector, `pos` the place in it, `sector_cnts`
-- and `last` are as the code computes them, and `size` is the new size.
unfoldable pub write_content : Volume → ℕ → File → (ℕ → ℕ) → ℕ → ℕ → ℕ → ℕ → ℕ → ℕ → ℕ → Volume
unfolding allocate_sectors fill_sectors shrink
write_content v fd file m str count start pos sector_cnts last size =
    let (w, sectors) = allocate_sectors v file.inode.sectors start (sector_cnts + 1 - start) in
    let synced = sync_block_bitmap (sync_inode w (record file.inode { sectors = sectors })) in
    shrink (fill_sectors synced sectors m str count start pos sector_cnts last) fd file sectors
      sector_cnts size

-- `none` if `strlen` needs more rounds.
unfoldable pub write_file : Volume → ℕ → ℕ → (ℕ → ℕ) → ℕ → ℕ → ℕ → Option Volume
unfolding write_content check_inode_permission
write_file v rounds fd m str count mode = elim (v.file_desc_tbl fd) [
  | none ↦ some v
  | some file ↦ elim (strlen rounds m str) [
    | none ↦ none
    | some len ↦
        let count' = if ltb len count then add32 len 1 else count in
        let size = file.inode.size in
        let all_bytes = add32 size count' in
        some (
          if check_inode_permission v file.inode write_access
          then if mode == append_mode
            then write_content v fd file m str count' (size / sector_size) (size % sector_size)
                (all_bytes / sector_size - size / sector_size) (all_bytes % sector_size) all_bytes
            else write_content v fd file m str count' 0 0 (count' / sector_size)
                (count' % sector_size) count'
          else v)
  ]
]
