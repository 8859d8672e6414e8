-- ===== src/Fs/Dir/Tests.antt =====
-- Tests of fs/dir.cc: "/bin/sh" and the root of a small volume.
use shmily.Base.{ℕ, ◌≡◌, refl, Option, none, some, List, [], ◌∷◌, ◌++◌, arith}
use shmily.Base.Store.{write_words}
use shmily.Fs.Inode.{inode_words, sync_inode, sync_block_bitmap, free_block}
use shmily.Fs.Dir.{
  slash, DirEntry, scan_sectors, scan_entries, find_dir_entry, create_dir_entry, remove_dir_entry,
  same_name, put_entry,
}
use shmily.Fs.Dir.Path.{split_path_2parts, split_path}
use shmily.Fs.Dir.Path.Join.{split_path_2parts-join}
use shmily.Fs.Dir.Entry.Found.{find_dir_entry-create_dir_entry}
use shmily.Fs.Dir.Tree.{walk}
use shmily.Fs.Dir.Tree.Walk.{walk-ends}
use shmily.Fs.Sample.{root, volume}

abbrev sh : List ℕ
sh = 115 ∷ 104 ∷ []

abbrev bin : List ℕ
bin = 98 ∷ 105 ∷ 110 ∷ []

split_path_2parts-join_example :
    (split_path_2parts ((slash ∷ (98 ∷ 105 ∷ []) ++ 110 ∷ []) ++ slash ∷ sh)
      ≡ (slash ∷ bin, some sh))
    × (split_path_2parts (slash ∷ sh) ≡ (slash ∷ [], some sh))
split_path_2parts-join_example =
    split_path_2parts-join (98 ∷ 105 ∷ []) 110 sh (λ e. absurd (omega (arith, e)))
      (λ e. absurd (omega (arith, e)), (λ e. absurd (omega (arith, e)), tt))

walk-ends_example : (r : Option ℕ) × (walk (volume 0 3) 4 root 0 (slash ∷ sh) ≡ some r)
walk-ends_example = walk-ends (volume 0 3) root 0 (slash ∷ sh)

abbrev entry : DirEntry
entry = record { name = sh; entry_ino = 5; kind = 1 }

find_dir_entry-create_dir_entry_example :
    find_dir_entry (create_dir_entry (volume 0 3) root entry) root sh ≡ some 5
unfolding scan_sectors scan_entries same_name volume
find_dir_entry-create_dir_entry_example =
    find_dir_entry-create_dir_entry (volume 0 3) root entry 20 0 refl (omega arith)
      (record { starts = omega arith; fits = omega arith }) (omega arith) (omega arith)

-- An entry that is removed is no longer found.
removed :
    find_dir_entry (remove_dir_entry (create_dir_entry (volume 0 3) root entry) root sh) root sh
    ≡ none
unfolding scan_entries same_name volume create_dir_entry remove_dir_entry find_dir_entry put_entry
    write_words inode_words sync_inode sync_block_bitmap free_block
removed = refl

-- A trailing slash is a last name that is empty.
trailing : split_path (sh ++ slash ∷ []) ≡ (sh, some [])
unfolding split_path
trailing = refl
