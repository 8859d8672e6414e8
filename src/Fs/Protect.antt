-- ===== src/Fs/Protect.antt =====
-- fs/protect.cc: who may do what with an inode.
pub mod Permission
pub mod Change
mod Tests
use Prim.Native.Nat.{bit_and}
use shmily.Base.{ℕ, ◌*◌, ◌%◌, Bool, true, not, ◌==◌, ◌||◌, if◌then◌else◌}
use shmily.Fs.Volume.{Inode, Volume}

abbrev pub read_access : ℕ
read_access = 4

abbrev pub write_access : ℕ
write_access = 2

abbrev pub exec_access : ℕ
exec_access = 1

-- `op` is an `unsigned char`, and shifted by three for the owner.
unfoldable pub check_inode_permission : Volume → Inode → ℕ → Bool
check_inode_permission v inode op =
    let op' = if v.uid == inode.owner then op * 8 % 256 else op in
    if v.uid == 0 then true else not (bit_and inode.mode op' == 0)

-- Who may change the mode and the owner.
unfoldable pub may_change : Volume → Inode → Bool
may_change v inode = (0 == v.uid) || (v.uid == inode.owner)
