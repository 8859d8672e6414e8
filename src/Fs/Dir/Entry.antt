-- ===== src/Fs/Dir/Entry.antt =====
-- An entry that was made is found.
pub mod Scan
pub mod Found
use shmily.Base.{
  ℕ, zero, suc, ◌+◌, ◌*◌, ◌^◌, ◌≤◌, ◌<◌, ◌≡◌, ◌≢◌, ◌⊎◌, inl, inr, refl, sym, ◌∙◌, ap, Bool, true,
  false, not, ◌&&◌, ◌==◌, if◌then◌else◌, Option, none, some, List, [], ◌∷◌, get_or, length, arith,
  Bool-cases, Option-cases, ==_iff, ==_ne, ℕ_discrete, dec_lt, update_self, update_ne,
}
use shmily.Base.Store.{
  read_word, read_words, write_bytes, write_words, write_bytes_in, write_words_before,
  write_words_after, write_bytes_before, write_bytes_after, read_words-write_words,
}
use shmily.Fs.Volume.{Inode, Volume, write_sector}
use shmily.Fs.Dir.{same_name, find_in_sector, DirEntry, put_entry}

-- The comparison reads the bytes of the name and one more.
same_name_local :
    (m w : ℕ → ℕ) (p : ℕ) (name : List ℕ)
    → ((a : ℕ) → p ≤ a → a ≤ p + length name → m a ≡ w a)
    → same_name m p name ≡ same_name w p name
unfolding same_name
same_name_local m w p [] h = ap (λ b. b == 0) (h p (omega arith) (omega arith))
same_name_local m w p (c ∷ name) h = rw (
  h p (omega arith) (omega arith),
  same_name_local m w (p + 1) name (λ a lo hi. h a (omega arith) (omega arith)),
)

same_name_there :
    (m : ℕ → ℕ) (p : ℕ) (name : List ℕ)
    → ((i : ℕ) → i ≤ length name → m (p + i) ≡ get_or name i 0)
    → same_name m p name ≡ true
unfolding same_name
same_name_there m p [] h = let z : m p ≡ 0 = ap m (omega arith) ∙ h 0 (omega arith) in rw z
same_name_there m p (c ∷ name) h =
    let first : m p ≡ c = ap m (omega arith) ∙ h 0 (omega arith) in
    rw ((==_iff (m p) c).1 first)
      (same_name_there m (p + 1) name (λ i le. ap m (omega arith) ∙ h (suc i) (omega arith)))

-- What `put_entry` writes.
put_entry_other :
    (m : ℕ → ℕ) (o k : ℕ) (child : DirEntry) (name : List ℕ)
    → k ≢ o
    → length name < 64
    → same_name (put_entry m o child) (72 * k) name ≡ same_name m (72 * k) name
unfolding put_entry
put_entry_other m o k child name ne short =
    same_name_local (put_entry m o child) m (72 * k) name (λ a lo hi. elim (dec_lt k o) [
      | yes before ↦
          write_words_before _ (72 * o + 64) (child.entry_ino ∷ child.kind ∷ []) a (omega arith)
          ∙ write_bytes_before m (72 * o) 64 (λ i. get_or child.name i 0) a (omega arith)
      | no after ↦
          write_words_after _ (72 * o + 64) (child.entry_ino ∷ child.kind ∷ []) a (omega arith)
          ∙ write_bytes_after m (72 * o) 64 (λ i. get_or child.name i 0) a (omega arith)
    ])

put_entry_byte :
    (m : ℕ → ℕ) (o : ℕ) (child : DirEntry) (i : ℕ)
    → i < 64
    → put_entry m o child (72 * o + i) ≡ get_or child.name i 0
unfolding put_entry
put_entry_byte m o child i lt =
    write_words_before _ (72 * o + 64) (child.entry_ino ∷ child.kind ∷ []) (72 * o + i)
      (omega arith)
    ∙ write_bytes_in m (72 * o) 64 (λ j. get_or child.name j 0) i lt

put_entry_ino :
    (m : ℕ → ℕ) (o : ℕ) (child : DirEntry)
    → child.entry_ino < 2 ^ 32
    → child.kind < 2 ^ 32
    → read_word (put_entry m o child) (72 * o + 64) ≡ child.entry_ino
unfolding put_entry read_words
put_entry_ino m o child hi hk =
    ap (λ ws. get_or ws 0 0)
      (read_words-write_words (write_bytes m (72 * o) 64 (λ i. get_or child.name i 0)) (72 * o + 64)
        (child.entry_ino ∷ child.kind ∷ []) (hi, (hk, tt)))

-- A name for an entry: not empty, and it fits with its end.
pub record IsEntryName (name : List ℕ) : Type 0 where
  pub starts : get_or name 0 0 ≢ 0
  pub fits : length name < 64

-- No entry from `j` on has the name, but for the one at `o`.
abbrev pub CleanBut : (ℕ → ℕ) → List ℕ → ℕ → ℕ → ℕ → Type 0
CleanBut m name o j n = (k : ℕ) → j ≤ k → k < j + n → k ≢ o → same_name m (72 * k) name ≡ false

abbrev pub Clean : (ℕ → ℕ) → List ℕ → ℕ → ℕ → Type 0
Clean m name j n = (k : ℕ) → j ≤ k → k < j + n → same_name m (72 * k) name ≡ false

pub find_in_sector-Clean :
    (m : ℕ → ℕ) (name : List ℕ) (j n : ℕ) → Clean m name j n → find_in_sector m name j n ≡ none
unfolding find_in_sector
find_in_sector-Clean m name j zero clean = refl
find_in_sector-Clean m name j (suc n) clean =
    let rest =
      find_in_sector-Clean m name (j + 1) n (λ k lo hi. clean k (omega arith) (omega arith)) in
    rw (clean j (omega arith) (omega arith), rest) (same_if (0 == m (72 * j)))
  where
    same_if : (b : Bool) → ◌≡◌ {A = Option ℕ} (if b then none else none) none
    same_if true = refl
    same_if false = refl

found_from :
    (m : ℕ → ℕ) (name : List ℕ) (o j n : ℕ)
    → j ≤ o
    → o < j + n
    → CleanBut m name o j n
    → m (72 * o) ≢ 0
    → same_name m (72 * o) name ≡ true
    → find_in_sector m name j n ≡ some (read_word m (72 * o + 64))
unfolding find_in_sector
found_from m name o j zero lo hi clean full there = absurd (omega arith)
found_from m name o j (suc n) lo hi clean full there = elim (ℕ_discrete j o) [
  | yes e ↦
      rw (e, find_in_sector)
        (rw (==_ne 0 (m (72 * o)) (λ q. full (sym q)), find_in_sector) (rw (there, find_in_sector)))
  | no ne ↦
      let rest =
        found_from m name o (j + 1) n (omega arith) (omega arith)
          (λ k l h. clean k (omega arith) (omega arith)) full there in
      rw (clean j (omega arith) (omega arith) ne, rest)
        (same_if (0 == m (72 * j)) (read_word m (72 * o + 64)))
]
  where
    same_if : (b : Bool) (r : ℕ) → ◌≡◌ {A = Option ℕ} (if b then some r else some r) (some r)
    same_if true r = refl
    same_if false r = refl

-- In a sector without the name, an entry that is put at `o` is found by its name.
pub find_in_sector-put_entry :
    (m : ℕ → ℕ) (o : ℕ) (child : DirEntry)
    → o < 7
    → IsEntryName child.name
    → child.entry_ino < 2 ^ 32
    → child.kind < 2 ^ 32
    → CleanBut m child.name o 0 7
    → find_in_sector (put_entry m o child) child.name 0 7 ≡ some child.entry_ino
find_in_sector-put_entry m o child ho name hi hk clean =
    found_from (put_entry m o child) child.name o 0 7 (omega arith) (omega arith)
      (λ k lo hi ne. put_entry_other m o k child child.name ne name.fits ∙ clean k lo hi ne)
      (λ z. name.starts (
        sym (ap (put_entry m o child) (omega arith) ∙ put_entry_byte m o child 0 (omega arith))
        ∙ z))
      (same_name_there (put_entry m o child) (72 * o) child.name
        (λ i le. put_entry_byte m o child i (omega (arith, name.fits))))
    ∙ ap some (put_entry_ino m o child hi hk)
