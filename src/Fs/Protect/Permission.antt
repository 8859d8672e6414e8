-- ===== src/Fs/Protect/Permission.antt =====
-- Who may read, write and execute.
use Prim.Native.Nat.{bit_and}
use shmily.Base.{
  ℕ, ◌+◌, ◌*◌, ◌/◌, ◌%◌, ◌^◌, ◌<◌, ◌≡◌, ◌≢◌, refl, Bool, true, false, not, ◌&&◌, ◌==◌, arith,
  ==_iff, ==_ne,
}
use shmily.Base.Bytes.{all_below, all_below_sound}
use shmily.Fs.Volume.{Inode, Volume}
use shmily.Fs.Protect.{check_inode_permission}

-- The bit `k` of a mode.
abbrev pub mode_bit : ℕ → ℕ → Bool
mode_bit mode k = (mode / 2 ^ k) % 2 == 1

abbrev same : Bool → Bool → Bool
same true b = b
same false b = not b

same_lem : (a b : Bool) → same a b ≡ true → a ≡ b
same_lem a b h = ground arith

-- For others the bit of the access itself counts, for the owner the bit three places higher.
abbrev reads_bits : ℕ → Bool
reads_bits mode = all_below 3 (λ k.
    same (not (bit_and mode (2 ^ k) == 0)) (mode_bit mode k)
    && same (not (bit_and mode (2 ^ k * 8 % 256) == 0)) (mode_bit mode (k + 3)))

bits_table : all_below 256 reads_bits ≡ true
unfolding all_below
bits_table = refl

both : (a b : Bool) → (a && b) ≡ true → (a ≡ true) × (b ≡ true)
both a b h = ground arith

-- The access with bit `k`, 0 for execution, 1 for writing and 2 for reading, is granted to root
-- always, to the owner exactly if bit `k + 3` of the mode is set, and to others exactly if bit `k`
-- is. The mode is a byte.
pub check_inode_permission-bits :
    (v : Volume) (inode : Inode) (k : ℕ)
    → inode.mode < 256
    → k < 3
    → (v.uid ≡ 0 → check_inode_permission v inode (2 ^ k) ≡ true)
      × (v.uid ≢ 0
          → v.uid ≡ inode.owner
          → check_inode_permission v inode (2 ^ k) ≡ mode_bit inode.mode (k + 3))
      × (v.uid ≢ 0
          → v.uid ≢ inode.owner
          → check_inode_permission v inode (2 ^ k) ≡ mode_bit inode.mode k)
unfolding check_inode_permission
check_inode_permission-bits v inode k hm hk =
    let row : reads_bits inode.mode ≡ true =
      all_below_sound 256 reads_bits inode.mode bits_table hm in
    let (other, owner) = both _ _ (all_below_sound 3 _ k row hk) in
    (
      λ root. rw root,
      λ user own.
          rw (==_ne v.uid 0 user, check_inode_permission)
            (rw ((==_iff v.uid inode.owner).1 own, check_inode_permission) (same_lem _ _ owner)),
      λ user stranger.
          rw (==_ne v.uid 0 user, check_inode_permission)
            (rw (==_ne v.uid inode.owner stranger, check_inode_permission) (same_lem _ _ other)),
    )
