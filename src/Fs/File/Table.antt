-- ===== src/Fs/File/Table.antt =====
-- The table of open files of fs/file.cc.
use shmily.Base.{
  ℕ, zero, suc, ◌+◌, ◌≤◌, ◌<◌, ◌≡◌, ◌≢◌, refl, true, false, Option, none, some, List, arith,
  update_self, update_ne, Option-cases, inl, inr, ℕ_discrete, ltb-false, ltb, if◌then◌else◌,
}
use shmily.Fs.Volume.{File, Volume}
use shmily.Fs.Inode.{ino2inode}
use shmily.Fs.Protect.{check_inode_permission, read_access}
use shmily.Fs.Dir.Tree.{dir_is_exists}
use shmily.Fs.File.{
  free_slot_from, get_fdt_free_slot, open_file, close_file, free_fdt_slot, lseek_file, is_eof,
  put_file,
}

-- `r` is the first free slot from `i` on below `i + n`, or all these are taken.
abbrev pub FreeSlot : (ℕ → Option File) → ℕ → ℕ → Option ℕ → Type 0
FreeSlot table i n none = (p : ℕ) → i ≤ p → p < i + n → table p ≢ none
FreeSlot table i n (some r) =
    (i ≤ r) × (r < i + n) × (table r ≡ none) × ((p : ℕ) → i ≤ p → p < r → table p ≢ none)

later :
    (table : ℕ → Option File) (i p : ℕ)
    → table i ≢ none
    → i ≤ p
    → (i + 1 ≤ p → table p ≢ none)
    → table p ≢ none
later table i p taken lo after = elim (ℕ_discrete p i) [
  | yes e ↦ rw e taken
  | no ne ↦ after (omega arith)
]

next_slot :
    (table : ℕ → Option File) (i n : ℕ) (r : Option ℕ)
    → table i ≢ none
    → FreeSlot table (i + 1) n r
    → FreeSlot table i (suc n) r
next_slot table i n none taken h =
    λ p lo hi. later table i p taken lo (λ after. h p after (omega arith))
next_slot table i n (some r) taken h = (
  omega (arith, h.0),
  omega (arith, h.1),
  h.2,
  λ p lo hi. later table i p taken lo (λ after. h.3 p after hi),
)

free_slot_from-FreeSlot :
    (table : ℕ → Option File) (i n : ℕ) → FreeSlot table i n (free_slot_from table i n)
unfolding free_slot_from
free_slot_from-FreeSlot table i zero = λ p lo hi. absurd (omega arith)
free_slot_from-FreeSlot table i (suc n) = elim (Option-cases (table i)) [
  | inl e ↦ rw (e, free_slot_from) (omega arith, omega arith, e, λ p lo hi. absurd (omega arith))
  | inr (file, e) ↦
      rw (e, free_slot_from)
        (next_slot table i n _ (λ q. cc) (free_slot_from-FreeSlot table (i + 1) n))
]

-- What `open_file` did: the lowest free slot holds the inode of the path at offset 0 and no other
-- slot changed; or all 64 slots are taken, the answer is -1 and nothing changed.
abbrev pub Opened : Volume → ℕ → Option ℕ × Volume → Type 0
Opened v ino (none, v') = (v' ≡ v) × ((p : ℕ) → p < 64 → v.file_desc_tbl p ≢ none)
Opened v ino (some fd, v') =
    (fd < 64)
    × (v.file_desc_tbl fd ≡ none)
    × ((p : ℕ) → p < fd → v.file_desc_tbl p ≢ none)
    × (v'.file_desc_tbl fd ≡ some (record { offset = 0; inode = ino2inode v ino }))
    × ((p : ℕ) → p ≢ fd → v'.file_desc_tbl p ≡ v.file_desc_tbl p)

filled :
    (v : Volume) (ino : ℕ) (r : Option ℕ)
    → FreeSlot v.file_desc_tbl 0 64 r
    → Opened v ino (elim r [
      | none ↦ (none, v)
      | some slot ↦ (some slot, put_file v slot (record { offset = 0; inode = ino2inode v ino }))
    ])
filled v ino none full = (refl, λ p hi. full p (omega arith) hi)
filled v ino (some slot) h = (
  h.1,
  h.2,
  λ p hi. h.3 p (omega arith) hi,
  update_self v.file_desc_tbl slot _,
  λ p ne. update_ne v.file_desc_tbl slot p _ ne,
)

-- Opening a path that exists and may be read takes the lowest free descriptor and starts at
-- offset 0; if all 64 are taken it fails and changes nothing. A path that does not exist, or may
-- not be read, fails and changes nothing.
pub open_file-Opened :
    (v : Volume) (path : List ℕ)
    → ((ino : ℕ)
        → dir_is_exists v path ≡ some ino
        → (check_inode_permission v (ino2inode v ino) read_access ≡ true
            → Opened v ino (open_file v path))
          × (check_inode_permission v (ino2inode v ino) read_access ≡ false
              → open_file v path ≡ (none, v)))
      × (dir_is_exists v path ≡ none → open_file v path ≡ (none, v))
unfolding open_file get_fdt_free_slot
open_file-Opened v path = (
  λ ino there. (
    λ may.
        rw (there, open_file)
          (rw (may, open_file)
            (filled v ino (free_slot_from v.file_desc_tbl 0 64)
              (free_slot_from-FreeSlot v.file_desc_tbl 0 64))),
    λ not. rw (there, open_file) (rw (not, open_file)),
  ),
  λ missing. rw (missing, open_file),
)

-- Closing an open descriptor below 64 frees its slot and no other; after that the slot can be
-- found free again. Closing one that is not open changes nothing.
pub close_file-freed :
    (v : Volume) (fd : ℕ)
    → fd < 64
    → ((close_file v fd).file_desc_tbl fd ≡ none)
      × ((p : ℕ) → p ≢ fd → (close_file v fd).file_desc_tbl p ≡ v.file_desc_tbl p)
      × (v.file_desc_tbl fd ≡ none → close_file v fd ≡ v)
unfolding close_file free_fdt_slot
close_file-freed v fd h = elim (Option-cases (v.file_desc_tbl fd)) [
  | inl e ↦ rw (e, close_file) (e, λ p ne. refl, λ q. refl)
  | inr (file, e) ↦
      rw (e, close_file)
        (
          rw (ltb-false 63 fd (omega arith)) (update_self v.file_desc_tbl fd none),
          λ p ne. rw (ltb-false 63 fd (omega arith)) (update_ne v.file_desc_tbl fd p none ne),
          λ q. absurd (cc),
        )
]

-- Seeking in an open file sets the offset to the one asked for or to the size, whichever is
-- smaller, and the file is at its end afterwards exactly if the size or more was asked for.
pub lseek_file-bounded :
    (v : Volume) (fd offset : ℕ) (file : File)
    → v.file_desc_tbl fd ≡ some file
    → (w : Volume) × (after : File) × (lseek_file v fd offset ≡ some w)
      × (w.file_desc_tbl fd ≡ some after)
      × (after.inode ≡ file.inode)
      × (after.offset ≤ file.inode.size)
      × (offset ≤ file.inode.size → after.offset ≡ offset)
      × (is_eof w fd ≡ some (if ltb offset file.inode.size then false else true))
unfolding lseek_file is_eof
lseek_file-bounded v fd offset file there =
    let at : ℕ = if ltb file.inode.size offset then file.inode.size else offset in
    let after : File = record file { offset = at } in
    let found = update_self v.file_desc_tbl fd (some after) in
    (
      put_file v fd after,
      after,
      rw (there, lseek_file),
      found,
      refl,
      ground arith,
      λ h. ground arith,
      rw (found, is_eof) (ground arith),
    )
