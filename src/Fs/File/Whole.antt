-- ===== src/Fs/File/Whole.antt =====
-- fs/file.cc, the calls on whole files: they are made, removed, shown, copied and moved.
use shmily.Base.{
  ℕ, zero, suc, ◌+◌, ◌-◌, ◌/◌, ◌==◌, if◌then◌else◌, Option, none, some, List, [], ◌∷◌, get_or, set,
  add32, sub32, minus_one,
}
use shmily.Fs.Volume.{Inode, Volume, sector_size, write_sector}
use shmily.Fs.Inode.{
  ino2inode, sync_inode, sync_inode_bitmap, free_inode, allocate_block, free_block,
  sync_block_bitmap,
}
use shmily.Fs.Protect.{check_inode_permission, read_access, write_access}
use shmily.Fs.Dir.{create_dir_entry, remove_dir_entry}
use shmily.Fs.Dir.Path.{split_path_2parts}
use shmily.Fs.Dir.Tree.{dir_is_exists, new_inode}

-- The number that -1 is read as where it is not tested.
abbrev pub or_minus_one : Option ℕ → ℕ
or_minus_one none = minus_one
or_minus_one (some ino) = ino

unfoldable pub sys_mkfile : Volume → ℕ × ℕ → List ℕ → Volume
unfolding dir_is_exists check_inode_permission new_inode create_dir_entry split_path_2parts
sys_mkfile v now path =
    let (parent, file_name) = split_path_2parts path in
    elim file_name [
      | none ↦ v
      | some name ↦ elim (dir_is_exists v parent) [
        | none ↦ v
        | some parent_ino ↦
            let parent_inode = ino2inode v parent_ino in
            let (ino, w) = new_inode v now in
            if check_inode_permission v parent_inode write_access
            then create_dir_entry w parent_inode (record { name = name; entry_ino = ino; kind = 1 })
            else v
      ]
    ]

-- The blocks of the sectors that are used.
unfoldable pub free_blocks : Volume → List ℕ → Volume
free_blocks v [] = v
free_blocks v (s ∷ sectors) =
    free_blocks (if 0 == s then v else free_block v (sub32 s v.data_start)) sectors

unfoldable pub free_inode_sectors : Volume → Inode → Volume
unfolding free_blocks sync_block_bitmap
free_inode_sectors v inode = sync_block_bitmap (free_blocks v inode.sectors)

-- The parent is not tested: a file that exists has one.
unfoldable pub sys_rmfile : Volume → List ℕ → Volume
unfolding dir_is_exists check_inode_permission remove_dir_entry free_inode_sectors split_path_2parts
sys_rmfile v path =
    let (parent, file_del) = split_path_2parts path in
    let inode_parent = ino2inode v (or_minus_one (dir_is_exists v parent)) in
    elim (dir_is_exists v path) [
      | none ↦ v
      | some file_del_ino ↦
          let name : List ℕ = elim file_del [ none ↦ [] | some n ↦ n ] in
          let removed = remove_dir_entry v inode_parent name in
          let freed = free_inode_sectors removed (ino2inode v file_del_ino) in
          if check_inode_permission v inode_parent write_access
          then sync_inode_bitmap (free_inode freed file_del_ino)
          else v
    ]

-- The contents of the sectors from index `i` on.
abbrev shown : Volume → List ℕ → ℕ → ℕ → List (ℕ → ℕ)
shown v sectors i zero = []
shown v sectors i (suc rounds) = v.disk (get_or sectors i 0) ∷ shown v sectors (i + 1) rounds

-- The sectors that `sys_cat` prints, one text each; `none` if it prints none.
unfoldable pub sys_cat : Volume → List ℕ → Option (List (ℕ → ℕ))
unfolding dir_is_exists check_inode_permission
sys_cat v filename = elim (dir_is_exists v filename) [
  | none ↦ none
  | some ino ↦
      let inode = ino2inode v ino in
      let sectors_cnt = add32 inode.size (sector_size - 1) / sector_size in
      if check_inode_permission v inode read_access
      then some (shown v inode.sectors 0 sectors_cnt)
      else none
]

-- The loop of `copy_file` from sector index `i` on: the disk with the copies, and the sectors of
-- the copy.
unfoldable pub copy_sectors : Volume → List ℕ → List ℕ → ℕ → ℕ → Volume × List ℕ
copy_sectors v src dst i zero = (v, dst)
copy_sectors v src dst i (suc rounds) =
    let (block_no, w) = allocate_block v in
    let lba = add32 w.data_start block_no in
    let skipped = copy_sectors v src dst (i + 1) rounds in
    let copied =
      copy_sectors (write_sector w lba (w.disk (get_or src i 0))) src (set dst i lba) (i + 1)
        rounds in
    if 0 == get_or src i 0 then skipped else copied

-- The new file stays if the source may not be read.
unfoldable pub copy_file : Volume → ℕ × ℕ → List ℕ → List ℕ → Volume
unfolding sys_mkfile dir_is_exists check_inode_permission copy_sectors sync_inode sync_block_bitmap
copy_file v now src dst =
    let made = sys_mkfile v now dst in
    let src_inode = ino2inode made (or_minus_one (dir_is_exists made src)) in
    let dst_inode = ino2inode made (or_minus_one (dir_is_exists made dst)) in
    let (w, sectors) = copy_sectors made src_inode.sectors dst_inode.sectors 0 9 in
    let inode : Inode = record dst_inode { sectors = sectors; size = src_inode.size } in
    if check_inode_permission made src_inode read_access
    then sync_block_bitmap (sync_inode w inode)
    else made

unfoldable pub move_file : Volume → ℕ × ℕ → List ℕ → List ℕ → Volume
unfolding sys_mkfile dir_is_exists check_inode_permission remove_dir_entry sync_inode free_inode
    sync_inode_bitmap
move_file v now src dst =
    let made = sys_mkfile v now dst in
    let (src_parent, src_filename) = split_path_2parts src in
    let src_parent_inode = ino2inode made (or_minus_one (dir_is_exists made src_parent)) in
    let src_ino = or_minus_one (dir_is_exists made src) in
    let src_inode = ino2inode made src_ino in
    let dst_inode = ino2inode made (or_minus_one (dir_is_exists made dst)) in
    let name : List ℕ = elim src_filename [ none ↦ [] | some n ↦ n ] in
    let removed = remove_dir_entry made src_parent_inode name in
    let inode : Inode = record dst_inode { sectors = src_inode.sectors; size = src_inode.size } in
    if check_inode_permission made src_inode write_access
    then sync_inode_bitmap (sync_inode (free_inode removed src_ino) inode)
    else made
