-- ===== src/Net/Ip/Tests.antt =====
-- Tests of the IP header and the checksum of net/ip.cc.
use shmily.Base.{◌≡◌, refl, [], ◌∷◌}
use shmily.Net.Ip.{generate_checksum}

-- Of an odd length, the byte behind the packet changes the checksum.
odd_length : generate_checksum 1 (5 ∷ []) ≡ 0xfefa
unfolding generate_checksum
odd_length = refl
