-- ===== src/Fs/File/Tests.antt =====
-- Tests of fs/file.cc on a small volume.
use shmily.Base.{ℕ, ◌+◌, ◌<◌, ◌≡◌, refl, true, false, none, some, [], ◌∷◌, arith, get_or}
use shmily.Base.Store.{read_words, write_words}
use shmily.Support.Text.{strlen}
use shmily.Fs.Volume.{Volume, File}
use shmily.Fs.Inode.{ino2inode, inode_words}
use shmily.Fs.Protect.{check_inode_permission, read_access}
use shmily.Fs.Dir.Tree.{dir_is_exists}
use shmily.Fs.File.{open_file, close_file, read_file, write_file}
use shmily.Fs.File.Table.{Opened, open_file-Opened}
use shmily.Fs.File.Contents.{read_file-write_file, read_file-overshoots}
use shmily.Fs.Sample.{letter, volume}

abbrev v : Volume
v = volume 0 3

open_file-Opened_example :
    ((ino : ℕ)
      → dir_is_exists v (47 ∷ []) ≡ some ino
      → (check_inode_permission v (ino2inode v ino) read_access ≡ true
          → Opened v ino (open_file v (47 ∷ [])))
        × (check_inode_permission v (ino2inode v ino) read_access ≡ false
            → open_file v (47 ∷ []) ≡ (none, v)))
    × (dir_is_exists v (47 ∷ []) ≡ none → open_file v (47 ∷ []) ≡ (none, v))
open_file-Opened_example = open_file-Opened v (47 ∷ [])

abbrev opened : File
opened = record { offset = 0; inode = letter }

abbrev text : ℕ → ℕ
text a = get_or (104 ∷ 105 ∷ 33 ∷ []) a 0

read_file-write_file_example :
    (w : Volume) × (w' : Volume) × (read : ℕ → ℕ) × (after : File) × (write_file v 9 0 text 0 2 1
      ≡ some w)
    × (read_file w 0 (λ a. 0) 100 2 ≡ (some 2, (w', read)))
    × ((i : ℕ) → i < 2 → read (100 + i) ≡ text (0 + i))
    × (w'.file_desc_tbl 0 ≡ some after)
    × (after.offset ≡ 2)
    × (after.inode.size ≡ 2)
unfolding volume check_inode_permission strlen
read_file-write_file_example =
    read_file-write_file v 9 0 opened text (λ a. 0) 0 2 3 1 100 refl refl refl refl (omega arith)
      (omega arith) (λ e. absurd (omega (arith, e))) refl
      (record {
        used = λ e. absurd (omega (arith, e));
        table = λ e. absurd (omega (arith, e));
        bitmap = refl;
      })

-- One byte is left of three, and two are asked for.
abbrev near_end : Volume
near_end = record v { file_desc_tbl = λ fd. some (record { offset = 2; inode = letter }) }

read_file-overshoots_example :
    (w : Volume) × (read : ℕ → ℕ) × (after : File) × (read_file near_end 0 (λ a. 0) 100 2
      ≡ (some 2, (w, read)))
    × (w.file_desc_tbl 0 ≡ some after)
    × (3 < after.offset)
unfolding volume check_inode_permission
read_file-overshoots_example =
    read_file-overshoots near_end 0 (record { offset = 2; inode = letter }) (λ a. 0) 100 2 refl refl
      (omega arith) (omega arith) (omega arith) (omega arith)

-- A closed descriptor is given again.
given_again : (open_file (close_file v 0) (47 ∷ [])).0 ≡ some 0
unfolding open_file close_file volume dir_is_exists check_inode_permission ino2inode inode_words
    read_words write_words
given_again = refl
