-- ===== src/Net/Icmp/Echo.antt =====
-- The echo packets that are built pass the receiver's test.
use shmily.Base.{ℕ, ◌<◌, ◌≡◌, [], ◌∷◌, ◌++◌, arith, replicate}
use shmily.Net.Ip.{generate_checksum}
use shmily.Net.Ip.Checksum.{generate_checksum-verifies}
use shmily.Net.Icmp.{icmp_bytes, format_icmp, counting}

-- An echo packet of either kind has the checksum 0, whatever byte was left at its end.
pub format_icmp-verifies :
    (left kind : ℕ)
    → left < 256
    → kind < 256
    → generate_checksum 0 (icmp_bytes (format_icmp left kind)) ≡ 0
unfolding format_icmp icmp_bytes
format_icmp-verifies left kind hl hk =
    generate_checksum-verifies 0 (kind ∷ 0 ∷ [])
      (replicate 12 0 ++ 0x33 ∷ 0x2b ∷ 0x04 ∷ 0 ∷ 0 ∷ 0 ∷ 0 ∷ 0 ∷ (counting 0x10 0x27 ++ left ∷ []))
      tt tt (omega arith)
