-- ===== src/Fs/Protect/Tests.antt =====
-- Tests of fs/protect.cc.
use shmily.Base.{◌+◌, ◌^◌, ◌≡◌, ◌≢◌, refl, true, false, arith}
use shmily.Base.Store.{read_words}
use shmily.Fs.Inode.{ino2inode, inode_words}
use shmily.Fs.Protect.{check_inode_permission, read_access, write_access}
use shmily.Fs.Protect.Permission.{mode_bit, check_inode_permission-bits}
use shmily.Fs.Sample.{root, letter, volume}

check_inode_permission-bits_example :
    ((volume 7 3).uid ≡ 0 → check_inode_permission (volume 7 3) letter (2 ^ 1) ≡ true)
    × ((volume 7 3).uid ≢ 0
        → (volume 7 3).uid ≡ letter.owner
        → check_inode_permission (volume 7 3) letter (2 ^ 1) ≡ mode_bit letter.mode (1 + 3))
    × ((volume 7 3).uid ≢ 0
        → (volume 7 3).uid ≢ letter.owner
        → check_inode_permission (volume 7 3) letter (2 ^ 1) ≡ mode_bit letter.mode 1)
unfolding volume
check_inode_permission-bits_example =
    check_inode_permission-bits (volume 7 3) letter 1 (omega arith) (omega arith)

-- By the mode of a new file the owner may write and others may only read.
owner_writes : check_inode_permission (volume 7 3) letter write_access ≡ true
unfolding check_inode_permission volume
owner_writes = refl

others_read : check_inode_permission (volume 8 3) letter read_access ≡ true
unfolding check_inode_permission volume
others_read = refl

others_do_not_write : check_inode_permission (volume 8 3) letter write_access ≡ false
unfolding check_inode_permission volume
others_do_not_write = refl

root_inode : ino2inode (volume 0 3) 0 ≡ root
unfolding ino2inode volume inode_words read_words
root_inode = refl
