-- ===== src/Fs/Dir/Entry/Found.antt =====
-- `create_dir_entry` and `find_dir_entry` of fs/dir.cc agree.
use shmily.Base.{
  ℕ, ◌*◌, ◌^◌, ◌<◌, ◌≡◌, ◌≢◌, inl, inr, sym, ◌∙◌, ap, true, false, ◌==◌, Option, none, some, List,
  [], ◌∷◌, arith, ==_ne, ℕ_discrete, update_self, update_ne,
}
use shmily.Fs.Volume.{Inode, Volume, write_sector}
use shmily.Fs.Dir.{
  same_name, find_in_sector, find_in_sectors, find_dir_entry, DirEntry, put_entry, scan_sectors,
  create_dir_entry,
}
use shmily.Fs.Dir.Entry.Scan.{scan_entries-Scanned, first_sector, scan_cases}
use shmily.Fs.Dir.Entry.{IsEntryName, CleanBut, find_in_sector-Clean, find_in_sector-put_entry}

-- One sector of the lookup.
module _ (v : Volume) (name : List ℕ) (s : ℕ) (sectors : List ℕ) where
  find_skip :
      (0 == s) ≡ true → find_in_sectors v name (s ∷ sectors) ≡ find_in_sectors v name sectors
  unfolding find_in_sectors
  find_skip e = rw (e, find_in_sectors)

  find_pass :
      (0 == s) ≡ false
      → find_in_sector (v.disk s) name 0 7 ≡ none
      → find_in_sectors v name (s ∷ sectors) ≡ find_in_sectors v name sectors
  unfolding find_in_sectors
  find_pass e missing = rw (e, find_in_sectors) (rw (missing, find_in_sectors))

  find_hit :
      (ino : ℕ)
      → (0 == s) ≡ false
      → find_in_sector (v.disk s) name 0 7 ≡ some ino
      → find_in_sectors v name (s ∷ sectors) ≡ some ino
  unfolding find_in_sectors
  find_hit ino e there = rw (e, find_in_sectors) (rw (there, find_in_sectors))

module _ (v : Volume) (child : DirEntry) (t o : ℕ) (named : IsEntryName child.name)
    (hi : child.entry_ino < 2 ^ 32) (hk : child.kind < 2 ^ 32) (used : t ≢ 0) where
  -- The slot lies in its sector.
  slot_inside : (sectors : List ℕ) → scan_sectors v child.name sectors (0, 0) ≡ some (t, o) → o < 7
  unfolding scan_sectors
  slot_inside [] h =
      let z : 0 ≡ t = ap (λ (r : Option (ℕ × ℕ)). elim r [ none ↦ 0 | some p ↦ p.0 ]) h in
      absurd (used (sym z))
  slot_inside (s ∷ sectors) h = elim (scan_cases v child.name s sectors (0, 0) (t, o) h) [
    | inl (e, rest) ↦ slot_inside sectors rest
    | inr (slot', e, found, rest) ↦
        let ne : s ≢ 0 = λ z. ground (arith, e) in
        elim (first_sector v child.name s sectors t o slot' ne
          (scan_entries-Scanned (v.disk s) s child.name 0 7 slot' ne found) rest) [
            | inl (clean, onward) ↦ slot_inside sectors onward
            | inr (at, inside, clean) ↦ inside
          ]
  ]

  found_in_sectors :
      (sectors : List ℕ)
      → o < 7
      → scan_sectors v child.name sectors (0, 0) ≡ some (t, o)
      → find_in_sectors (write_sector v t (put_entry (v.disk t) o child)) child.name sectors
        ≡ some child.entry_ino
  unfolding scan_sectors
  found_in_sectors [] inside h =
      let z : 0 ≡ t = ap (λ (r : Option (ℕ × ℕ)). elim r [ none ↦ 0 | some p ↦ p.0 ]) h in
      absurd (used (sym z))
  found_in_sectors (s ∷ sectors) inside h =
      elim (scan_cases v child.name s sectors (0, 0) (t, o) h) [
        | inl (e, rest) ↦ find_skip w child.name s sectors e ∙ found_in_sectors sectors inside rest
        | inr (slot', e, found, rest) ↦
            let ne : s ≢ 0 = λ z. ground (arith, e) in
            elim (first_sector v child.name s sectors t o slot' ne
              (scan_entries-Scanned (v.disk s) s child.name 0 7 slot' ne found) rest) [
                | inl (clean, onward) ↦ elim (ℕ_discrete s t) [
                  | yes q ↦
                      find_hit w child.name s sectors child.entry_ino e
                        (here s q (λ k lo up ne'. clean k lo up))
                  | no far ↦
                      find_pass w child.name s sectors e (
                        ap (λ (m : ℕ → ℕ). find_in_sector m child.name 0 7)
                          (update_ne v.disk t s (put_entry (v.disk t) o child) far)
                        ∙ find_in_sector-Clean (v.disk s) child.name 0 7 clean)
                      ∙ found_in_sectors sectors inside onward
                ]
                | inr (at, in_sector, clean) ↦
                    find_hit w child.name s sectors child.entry_ino e (here s (sym at) clean)
              ]
      ]
    where
      w : Volume
      w = write_sector v t (put_entry (v.disk t) o child)

      here :
          (s : ℕ)
          → s ≡ t
          → CleanBut (v.disk s) child.name o 0 7
          → find_in_sector (w.disk s) child.name 0 7 ≡ some child.entry_ino
      here s q clean =
          ap (λ l. find_in_sector (w.disk l) child.name 0 7) q
          ∙ ap (λ (m : ℕ → ℕ). find_in_sector m child.name 0 7)
              (update_self v.disk t (put_entry (v.disk t) o child))
          ∙ find_in_sector-put_entry (v.disk t) o child inside named hi hk (λ k lo up ne.
            ap (λ l. same_name (v.disk l) (72 * k) child.name) (sym q) ∙ clean k lo up ne)

-- A directory whose search for the name finds a free slot, and does not find the name: after
-- `create_dir_entry` the name is found, with the number of the new entry. The name is not empty and
-- shorter than 64 bytes.
pub find_dir_entry-create_dir_entry :
    (v : Volume) (inode : Inode) (child : DirEntry) (t o : ℕ)
    → scan_sectors v child.name inode.sectors (0, 0) ≡ some (t, o)
    → t ≢ 0
    → IsEntryName child.name
    → child.entry_ino < 2 ^ 32
    → child.kind < 2 ^ 32
    → find_dir_entry (create_dir_entry v inode child) inode child.name ≡ some child.entry_ino
unfolding find_dir_entry create_dir_entry
find_dir_entry-create_dir_entry v inode child t o free used named hi hk =
    rw (free, create_dir_entry)
      (rw (==_ne t 0 used, create_dir_entry)
        (found_in_sectors v child t o named hi hk used inode.sectors
          (slot_inside v child t o named hi hk used inode.sectors free) free))

-- A name that the search meets is refused: nothing changes.
pub create_dir_entry-exists :
    (v : Volume) (inode : Inode) (child : DirEntry)
    → scan_sectors v child.name inode.sectors (0, 0) ≡ none
    → create_dir_entry v inode child ≡ v
unfolding create_dir_entry
create_dir_entry-exists v inode child there = rw (there, create_dir_entry)
