-- ===== src/Fs/Inode/Table.antt =====
-- The inode table on the disk.
use shmily.Base.{
  ℕ, ◌+◌, ◌*◌, ◌/◌, ◌%◌, ◌^◌, ◌<◌, ◌≡◌, ◌≢◌, sym, ◌∙◌, ap, arith, All, length, update, update_self,
  update_ne, ℕ_discrete, dec_lt,
}
use shmily.Base.Store.{
  write_words, read_words, read_words-write_words, read_words_same, write_words_before,
  write_words_after,
}
use shmily.Fs.Volume.{Inode, Volume}
use shmily.Fs.Inode.{inode_words, inode_of_words, sync_inode, ino2inode}

-- The fields fit their widths.
pub record Fits (inode : Inode) : Type 0 where
  pub words : All (λ w. w < 2 ^ 32) (inode_words inode)
  pub owner_fits : inode.owner < 2 ^ 16
  pub nine : length inode.sectors ≡ 9

inode_of_words-inode_words :
    (inode : Inode) → inode.owner < 2 ^ 16 → inode_of_words (inode_words inode) ≡ inode
unfolding inode_of_words inode_words
inode_of_words-inode_words inode h = ground arith

inode_words-length : (inode : Inode) → Fits inode → length (inode_words inode) ≡ 16
unfolding inode_words
inode_words-length inode fits = omega (arith, fits.nine)

reads_back :
    (m : ℕ → ℕ) (p : ℕ) (inode : Inode)
    → Fits inode
    → inode_of_words (read_words (write_words m p (inode_words inode)) p 16) ≡ inode
reads_back m p inode fits =
    ap (λ n. inode_of_words (read_words (write_words m p (inode_words inode)) p n))
      (sym (inode_words-length inode fits))
    ∙ ap inode_of_words (read_words-write_words m p (inode_words inode) fits.words)
    ∙ inode_of_words-inode_words inode fits.owner_fits

-- Another place of the same sector.
reads_other :
    (m : ℕ → ℕ) (j k : ℕ) (inode : Inode)
    → Fits inode
    → j ≢ k
    → read_words (write_words m (64 * j) (inode_words inode)) (64 * k) 16 ≡ read_words m (64 * k) 16
reads_other m j k inode fits ne =
    read_words_same (write_words m (64 * j) (inode_words inode)) m (64 * k) 16 (λ a lo hi.
      elim (dec_lt a (64 * j)) [
        | yes below ↦ write_words_before m (64 * j) (inode_words inode) a below
        | no above ↦
            write_words_after m (64 * j) (inode_words inode) a
              (omega (arith, inode_words-length inode fits))
      ])

-- An inode that was written to the table is read again as it was, and every other inode of the
-- table reads as before.
pub ino2inode-sync_inode :
    (v : Volume) (inode : Inode)
    → Fits inode
    → (ino2inode (sync_inode v inode) inode.inode_no ≡ inode)
      × ((ino : ℕ) → ino ≢ inode.inode_no → ino2inode (sync_inode v inode) ino ≡ ino2inode v ino)
unfolding ino2inode sync_inode
ino2inode-sync_inode v inode fits = (
  ap (λ (s : ℕ → ℕ). inode_of_words (read_words s p 16)) (update_self v.disk lba written)
      ∙ reads_back (v.disk lba) p inode fits,
  λ ino ne. elim (ℕ_discrete (v.inode_table_lba + ino / 8) lba) [
    | no far ↦
        ap (λ (s : ℕ → ℕ). inode_of_words (read_words s (64 * (ino % 8)) 16))
          (update_ne v.disk lba (v.inode_table_lba + ino / 8) written far)
    | yes near ↦
        ap (λ l. inode_of_words (read_words (update v.disk lba written l) (64 * (ino % 8)) 16)) near
        ∙ ap (λ (s : ℕ → ℕ). inode_of_words (read_words s (64 * (ino % 8)) 16))
            (update_self v.disk lba written)
        ∙ ap inode_of_words (
            reads_other (v.disk lba) (inode.inode_no % 8) (ino % 8) inode fits
              (λ e. ne (omega arith)))
        ∙ ap (λ l. inode_of_words (read_words (v.disk l) (64 * (ino % 8)) 16)) (sym near)
  ],
)
  where
    lba : ℕ
    lba = v.inode_table_lba + inode.inode_no / 8

    p : ℕ
    p = 64 * (inode.inode_no % 8)

    written : ℕ → ℕ
    written = write_words (v.disk lba) p (inode_words inode)
