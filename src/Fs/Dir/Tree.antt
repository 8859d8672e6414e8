-- ===== src/Fs/Dir/Tree.antt =====
-- fs/dir.cc, the calls: a path is looked up from the root, directories are made and removed, and
-- the current directory is set. `now` is the time from `get_current_time`.
pub mod Walk
use shmily.Base.{
  add32, ℕ, zero, suc, ◌+◌, ◌-◌, ◌*◌, Bool, true, false, not, ◌&&◌, ◌==◌, if◌then◌else◌, Option,
  none, some, List, [], ◌∷◌, length, get_or, set, update,
}
use shmily.Base.Store.{write_word}
use shmily.Fs.Volume.{Inode, Volume, write_sector}
use shmily.Fs.Inode.{
  ino2inode, create_inode, sync_inode, sync_inode_bitmap, free_inode, allocate_block,
  sync_block_bitmap,
}
use shmily.Fs.Protect.{check_inode_permission, write_access, exec_access}
use shmily.Fs.Dir.{
  slash, entries_per_sector, find_dir_entry, DirEntry, create_dir_entry, remove_dir_entry,
}
use shmily.Fs.Dir.Path.{split_path, split_path_2parts}

-- `strcmp("/", part)`
abbrev pub is_root : List ℕ → Bool
is_root [] = false
is_root (c ∷ []) = slash == c
is_root (c ∷ d ∷ part) = false

-- What is behind a part: the walk goes on, or ends with the inode found last.
abbrev pub go_on {ℓ} : {A : Type ℓ} → Option (List ℕ) → A → (List ℕ → A) → A
go_on none found further = found
go_on (some path) found further = further path

-- The loop of `dir_is_exists`, with the rounds that it may take; `some none` is its -1.
unfoldable pub walk : Volume → ℕ → Inode → ℕ → List ℕ → Option (Option ℕ)
unfolding split_path find_dir_entry ino2inode
walk v zero inode ino next_path = none
walk v (suc rounds) inode ino next_path =
    let (part, rest) = split_path next_path in
    let onward = go_on rest (some (some ino)) (walk v rounds inode ino) in
    elim (is_root part) [
      | true ↦ onward
      | false ↦ elim (find_dir_entry v inode part) [
        | none ↦ some none
        | some child ↦ go_on rest (some (some child)) (walk v rounds (ino2inode v child) child)
      ]
    ]

-- The inode of a path; the root is inode 0.
unfoldable pub dir_is_exists : Volume → List ℕ → Option ℕ
unfolding walk
dir_is_exists v [] = none
dir_is_exists v (c ∷ []) = if slash == c then some 0 else none
dir_is_exists v (c ∷ d ∷ path) =
    let found : Option ℕ =
      elim (walk v (length (c ∷ d ∷ path) + 1) (ino2inode v v.root_inode_no) v.root_inode_no
        (c ∷ d ∷ path)) [ none ↦ none | some r ↦ r ] in
    if slash == c then found else none

-- The entries `.` and `..` are written into a block from `malloc`, of which `heap` is what it held:
-- one and two bytes of the names, and the numbers.
abbrev first_entries : (ℕ → ℕ) → ℕ → ℕ → ℕ → ℕ
first_entries heap parent_ino ino =
    let own = write_word (update heap 0 46) 64 ino in
    write_word (update (update own 72 46) 73 46) 136 parent_ino

unfoldable pub init_child_dir : Volume → (ℕ → ℕ) → ℕ → ℕ → Volume
unfolding allocate_block sync_inode sync_block_bitmap ino2inode
init_child_dir v heap parent_ino ino =
    let inode = ino2inode v ino in
    let (block_no, w) = allocate_block v in
    let lba = add32 w.data_start block_no in
    let written = write_sector w lba (first_entries heap parent_ino ino) in
    sync_block_bitmap (sync_inode written (record inode { sectors = set inode.sectors 0 lba }))

-- A new inode, written to the table; the bit map is written too.
unfoldable pub new_inode : Volume → ℕ × ℕ → ℕ × Volume
unfolding create_inode sync_inode sync_inode_bitmap
new_inode v now =
    let (child, w) = create_inode v now.0 now.1 in
    (child.inode_no, sync_inode_bitmap (sync_inode w child))

unfoldable pub sys_mkdir : Volume → (ℕ → ℕ) → ℕ × ℕ → List ℕ → Volume
unfolding dir_is_exists check_inode_permission new_inode create_dir_entry init_child_dir
    split_path_2parts
sys_mkdir v heap now path =
    let (parent, child_name) = split_path_2parts path in
    elim child_name [
      | none ↦ v
      | some name ↦ elim (dir_is_exists v parent) [
        | none ↦ v
        | some parent_ino ↦
            let inode = ino2inode v parent_ino in
            let (ino, w) = new_inode v now in
            let w' = create_dir_entry w inode (record { name = name; entry_ino = ino; kind = 0 }) in
            if check_inode_permission v inode write_access
            then init_child_dir w' heap parent_ino ino
            else v
      ]
    ]

-- The names of the entries from `j` on are all empty.
abbrev no_entries : (ℕ → ℕ) → ℕ → ℕ → Bool
no_entries m j zero = true
no_entries m j (suc rounds) = (0 == m (72 * j)) && no_entries m (j + 1) rounds

abbrev all_unused : List ℕ → Bool
all_unused [] = true
all_unused (s ∷ sectors) = (0 == s) && all_unused sectors

-- The sectors behind the first.
abbrev behind_first : List ℕ → List ℕ
behind_first [] = []
behind_first (s ∷ sectors) = sectors

-- A path that does not exist is looked up as the inode of number -1.
unfoldable pub dir_is_empty : Volume → List ℕ → Bool
unfolding dir_is_exists ino2inode
dir_is_empty v path =
    let ino : ℕ = elim (dir_is_exists v path) [ none ↦ 4294967295 | some i ↦ i ] in
    let inode = ino2inode v ino in
    no_entries (v.disk (get_or inode.sectors 0 0)) 2 (entries_per_sector - 2)
    && all_unused (behind_first inode.sectors)

-- The block with the entries `.` and `..` is not given back.
unfoldable pub sys_rmdir : Volume → List ℕ → Volume
unfolding dir_is_empty dir_is_exists check_inode_permission remove_dir_entry free_inode
    sync_inode_bitmap split_path_2parts
sys_rmdir v path =
    let (parent, path_del) = split_path_2parts path in
    let child_ino : ℕ = elim (dir_is_exists v path) [ none ↦ 4294967295 | some i ↦ i ] in
    if dir_is_empty v path
    then elim path_del [
      | none ↦ v
      | some name ↦ elim (dir_is_exists v parent) [
        | none ↦ v
        | some parent_ino ↦
            let inode_parent = ino2inode v parent_ino in
            let removed = remove_dir_entry v inode_parent name in
            if check_inode_permission v inode_parent write_access
            then sync_inode_bitmap (free_inode removed child_ino)
            else v
      ]
    ]
    else v

unfoldable pub cd : Volume → List ℕ → Bool × Volume
unfolding dir_is_exists check_inode_permission
cd v path = elim (dir_is_exists v path) [
  | none ↦ (false, v)
  | some ino ↦
      if check_inode_permission v (ino2inode v ino) exec_access
      then (true, record v { cur_dir = path })
      else (false, v)
]
