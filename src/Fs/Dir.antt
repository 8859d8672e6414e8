-- ===== src/Fs/Dir.antt =====
-- fs/dir.h and fs/dir.cc: directories. A directory is an inode whose sectors hold seven entries
-- each: a name of 64 bytes, the inode's number and the kind. A path or a name is the list of its
-- bytes, none of them 0; a result -1 or NULL is `none`.
pub mod Path
pub mod Entry
pub mod Tree
mod Tests
use shmily.Base.{
  add32, ℕ, zero, suc, ◌+◌, ◌-◌, ◌*◌, Bool, true, false, not, ◌&&◌, ◌==◌, if◌then◌else◌, Option,
  none, some, List, [], ◌∷◌, get_or, set, length, update, sub32,
}
use shmily.Base.Store.{read_word, write_bytes, write_words}
use shmily.Fs.Volume.{Inode, Volume, write_sector}
use shmily.Fs.Inode.{
  sync_inode, allocate_block, free_block, read_block, sync_block, sync_block_bitmap,
}

abbrev pub slash : ℕ
slash = 47

abbrev pub entries_per_sector : ℕ
entries_per_sector = 7

-- `strcmp` of the text at `p` with a name.
unfoldable pub same_name : (ℕ → ℕ) → ℕ → List ℕ → Bool
same_name m p [] = m p == 0
same_name m p (c ∷ name) = (m p == c) && same_name m (p + 1) name

-- The loop over the entries of a sector, from entry `j` on.
unfoldable pub find_in_sector : (ℕ → ℕ) → List ℕ → ℕ → ℕ → Option ℕ
find_in_sector m child j zero = none
find_in_sector m child j (suc rounds) =
    let rest = find_in_sector m child (j + 1) rounds in
    if 0 == m (72 * j)
    then rest
    else if same_name m (72 * j) child
    then some (read_word m (72 * j + 64))
    else rest

unfoldable pub find_in_sectors : Volume → List ℕ → List ℕ → Option ℕ
unfolding find_in_sector
find_in_sectors v child [] = none
find_in_sectors v child (s ∷ sectors) =
    let rest = find_in_sectors v child sectors in
    if 0 == s then rest else elim (find_in_sector (v.disk s) child 0 entries_per_sector) [
      | none ↦ rest
      | some ino ↦ some ino
    ]

unfoldable pub find_dir_entry : Volume → Inode → List ℕ → Option ℕ
unfolding find_in_sectors
find_dir_entry v inode child = find_in_sectors v child inode.sectors

pub record DirEntry : Type 0 where
  pub name : List ℕ
  pub entry_ino : ℕ
  pub kind : ℕ  -- 0 for a directory, 1 for a file

-- `p[j] = child` in a sector; the name is padded with 0.
unfoldable pub put_entry : (ℕ → ℕ) → ℕ → DirEntry → ℕ → ℕ
put_entry m j child =
    write_words (write_bytes m (72 * j) 64 (λ i. get_or child.name i 0)) (72 * j + 64)
      (child.entry_ino ∷ child.kind ∷ [])

-- The search of a sector for a free slot, with the one found before: `none` if the name is there.
unfoldable pub scan_entries : (ℕ → ℕ) → ℕ → List ℕ → ℕ → ℕ → ℕ × ℕ → Option (ℕ × ℕ)
scan_entries m s name j zero slot = some slot
scan_entries m s name j (suc rounds) (free_sector, free_offset) =
    let is_first = (0 == m (72 * j)) && ((0 == free_offset) && (0 == free_sector)) in
    let found = scan_entries m s name (j + 1) rounds (s, j) in
    let next = scan_entries m s name (j + 1) rounds (free_sector, free_offset) in
    if is_first then found else if same_name m (72 * j) name then none else next

unfoldable pub scan_sectors : Volume → List ℕ → List ℕ → ℕ × ℕ → Option (ℕ × ℕ)
scan_sectors v name [] slot = some slot
scan_sectors v name (s ∷ sectors) slot =
    let skipped = scan_sectors v name sectors slot in
    let scanned : Option (ℕ × ℕ) = elim (scan_entries (v.disk s) s name 0 entries_per_sector slot) [
      | none ↦ none
      | some slot' ↦ scan_sectors v name sectors slot'
    ] in
    if 0 == s then skipped else scanned

-- The index of the first sector number that is 0, from index `i` on.
unfoldable pub first_unused : ℕ → List ℕ → Option ℕ
first_unused i [] = none
first_unused i (s ∷ sectors) =
    let rest = first_unused (i + 1) sectors in if 0 == s then some i else rest

-- A new sector for the directory, with the entry in front of what stood there.
unfoldable pub grow_dir : Volume → Inode → DirEntry → ℕ → Volume
unfolding put_entry
grow_dir v inode child i =
    let (block_no, w) = allocate_block v in
    let w' = sync_block w block_no (put_entry (read_block w block_no) 0 child) in
    sync_block_bitmap
      (sync_inode w' (record inode { sectors = set inode.sectors i (add32 w.data_start block_no) }))

unfoldable pub create_dir_entry : Volume → Inode → DirEntry → Volume
unfolding scan_sectors put_entry grow_dir first_unused
create_dir_entry v inode child = elim (scan_sectors v child.name inode.sectors (0, 0)) [
  | none ↦ v
  | some slot ↦
      let grown : Volume = elim (first_unused 0 inode.sectors) [
        | none ↦ v
        | some i ↦ grow_dir v inode child i
      ] in
      if not (slot.0 == 0)
      then write_sector v slot.0 (put_entry (v.disk slot.0) slot.1 child)
      else grown
]

-- The loop over the entries of a sector: what the sector has become, whether the name was found,
-- and how many entries are empty. Every entry with the name goes.
unfoldable pub clear_entries : (ℕ → ℕ) → List ℕ → ℕ → ℕ → Bool × ℕ → (ℕ → ℕ) × (Bool × ℕ)
clear_entries m name j zero counts = (m, counts)
clear_entries m name j (suc rounds) (is_found, empty_cnts) =
    let removed = clear_entries (update m (72 * j) 0) name (j + 1) rounds (true, empty_cnts + 1) in
    let empty = clear_entries m name (j + 1) rounds (is_found, empty_cnts + 1) in
    let other = clear_entries m name (j + 1) rounds (is_found, empty_cnts) in
    if same_name m (72 * j) name then removed else if 0 == m (72 * j) then empty else other

-- The loop over the sectors, from index `i` on. A sector that got empty is given back.
unfoldable pub clear_sectors : Volume → Inode → List ℕ → ℕ → List ℕ → Bool → Volume
unfolding clear_entries
clear_sectors v inode name i [] is_found = v
clear_sectors v inode name i (s ∷ sectors) is_found =
    let (m, (found, empty_cnts)) =
      clear_entries (v.disk s) name 0 entries_per_sector (is_found, 0) in
    let written = write_sector v s m in
    let freed = sync_block_bitmap (free_block written (sub32 s v.data_start)) in
    let recycled = sync_inode freed (record inode { sectors = set inode.sectors i 0 }) in
    let skipped = clear_sectors v inode name (i + 1) sectors is_found in
    let cleared = clear_sectors written inode name (i + 1) sectors found in
    if 0 == s
    then skipped
    else if found && (empty_cnts == entries_per_sector)
    then recycled
    else cleared

unfoldable pub remove_dir_entry : Volume → Inode → List ℕ → Volume
unfolding clear_sectors
remove_dir_entry v inode name = clear_sectors v inode name 0 inode.sectors false
