-- ===== src/Fs/Protect/Change.antt =====
-- fs/protect.cc, `sys_chmod` and `sys_chown`.
use shmily.Base.{
  ℕ, ◌%◌, ◌^◌, ◌<◌, ◌≡◌, ◌≢◌, refl, sym, ◌∙◌, ap, Bool, true, false, if◌then◌else◌, none, some,
  List, arith,
}
use shmily.Fs.Volume.{Inode, Volume}
use shmily.Fs.Inode.{ino2inode, sync_inode, inode_words}
use shmily.Fs.Inode.Table.{Fits, ino2inode-sync_inode}
use shmily.Fs.Dir.Tree.{dir_is_exists}
use shmily.Fs.Protect.{may_change}

-- `new_mode` is an `unsigned char`.
unfoldable pub sys_chmod : Volume → List ℕ → ℕ → Volume
unfolding may_change dir_is_exists ino2inode sync_inode
sys_chmod v path new_mode = elim (dir_is_exists v path) [
  | none ↦ v
  | some ino ↦
      let inode = ino2inode v ino in
      sync_inode v (if may_change v inode then record inode { mode = new_mode } else inode)
]

-- The owner has 16 bits.
unfoldable pub sys_chown : Volume → List ℕ → ℕ → Volume
unfolding may_change dir_is_exists ino2inode sync_inode
sys_chown v path new_uid = elim (dir_is_exists v path) [
  | none ↦ v
  | some ino ↦
      let inode = ino2inode v ino in
      sync_inode v (if may_change v inode then record inode { owner = new_uid % 2 ^ 16 } else inode)
]

-- What is on the disk after an inode was changed, or not.
changed :
    (v : Volume) (ino : ℕ) (old new : Inode) (b : Bool)
    → ino2inode v ino ≡ old
    → old.inode_no ≡ ino
    → new.inode_no ≡ ino
    → Fits old
    → Fits new
    → (ino2inode (sync_inode v (if b then new else old)) ino ≡ (if b then new else old))
      × ((other : ℕ)
          → other ≢ ino
          → ino2inode (sync_inode v (if b then new else old)) other ≡ ino2inode v other)
changed v ino old new true e on nn fo fn =
    let (own, others) = ino2inode-sync_inode v new fn in
    (ap (ino2inode (sync_inode v new)) (sym nn) ∙ own, λ other ne. others other (λ q. ne (q ∙ nn)))
changed v ino old new false e on nn fo fn =
    let (own, others) = ino2inode-sync_inode v old fo in
    (ap (ino2inode (sync_inode v old)) (sym on) ∙ own, λ other ne. others other (λ q. ne (q ∙ on)))

Fits-mode :
    (inode : Inode) (mode : ℕ) → Fits inode → mode < 256 → Fits (record inode { mode = mode })
unfolding inode_words
Fits-mode inode mode f h =
    let w = f.words in
    record {
      words = (
        w.0,
        (
          w.1.0,
          (w.1.1.0, (w.1.1.1.0, (w.1.1.1.1.0, (w.1.1.1.1.1.0, (omega arith, w.1.1.1.1.1.1.1))))),
        ),
      );
      owner_fits = f.owner_fits;
      nine = f.nine;
    }

Fits-owner :
    (inode : Inode) (owner : ℕ) → Fits inode → Fits (record inode { owner = owner % 2 ^ 16 })
unfolding inode_words
Fits-owner inode owner f =
    let w = f.words in
    record {
      words = (
        w.0,
        (
          w.1.0,
          (
            w.1.1.0,
            (w.1.1.1.0, (w.1.1.1.1.0, (omega (arith, w.1.1.1.1.1.0, f.owner_fits), w.1.1.1.1.1.1))),
          ),
        ),
      );
      owner_fits = omega arith;
      nine = f.nine;
    }

-- Changing the mode or the owner of a path, whose inode on the disk has its own number and fields
-- that fit: root and the owner change the field, anybody else changes nothing on the inode, and no
-- other inode changes. The new owner is cut to 16 bits.
pub sys_chmod-sys_chown :
    (v : Volume) (path : List ℕ) (ino new_mode new_uid : ℕ)
    → dir_is_exists v path ≡ some ino
    → (ino2inode v ino).inode_no ≡ ino
    → Fits (ino2inode v ino)
    → new_mode < 256
    → let old = ino2inode v ino in
      (ino2inode (sys_chmod v path new_mode) ino
        ≡ (if may_change v old then record old { mode = new_mode } else old))
      × ((other : ℕ)
          → other ≢ ino
          → ino2inode (sys_chmod v path new_mode) other ≡ ino2inode v other)
      × (ino2inode (sys_chown v path new_uid) ino
          ≡ (if may_change v old then record old { owner = new_uid % 2 ^ 16 } else old))
      × ((other : ℕ) → other ≢ ino → ino2inode (sys_chown v path new_uid) other ≡ ino2inode v other)
unfolding sys_chmod sys_chown
sys_chmod-sys_chown v path ino new_mode new_uid there own fits small =
    let old = ino2inode v ino in
    let b = may_change v old in
    let mode =
      changed v ino old (record old { mode = new_mode }) b refl own own fits
        (Fits-mode old new_mode fits small) in
    let owner =
      changed v ino old (record old { owner = new_uid % 2 ^ 16 }) b refl own own fits
        (Fits-owner old new_uid fits) in
    (
      rw (there, sys_chmod) mode.0,
      λ other ne. rw (there, sys_chmod) (mode.1 other ne),
      rw (there, sys_chown) owner.0,
      λ other ne. rw (there, sys_chown) (owner.1 other ne),
    )
