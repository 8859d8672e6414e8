-- ===== src/Net/Udp/Header.antt =====
-- The UDP header that is built passes a test of its bytes.
use shmily.Base.{ℕ, ◌/◌, ◌%◌, ◌^◌, ◌<◌, ◌≡◌, List, [], ◌∷◌, ◌++◌, arith}
use shmily.Net.ByteOrder.{swap_word, swap_word-lt}
use shmily.Net.Ip.{generate_checksum}
use shmily.Net.Ip.Checksum.{weight, IsEven, generate_checksum-verifies}
use shmily.Net.Udp.{udp_bytes, allocate_port, init_udp_header}

-- The UDP header that `init_udp_header` builds, together with an even number of bytes behind it,
-- has the checksum 0. The bytes are assumed to sum to less than 2 ^ 30, and port and length to fit
-- 16 bits.
pub init_udp_header-verifies :
    (port behind dst_port size : ℕ) (rest : List ℕ)
    → dst_port < 2 ^ 16
    → size < 2 ^ 16
    → IsEven rest
    → weight rest < 2 ^ 30
    → generate_checksum behind
        (udp_bytes (init_udp_header port behind dst_port size rest).0 ++ rest)
      ≡ 0
unfolding init_udp_header udp_bytes
init_udp_header-verifies port behind dst_port size rest hd hs even small =
    let p : ℕ = swap_word (allocate_port port) in
    let d : ℕ = swap_word dst_port in
    let l : ℕ = swap_word size in
    generate_checksum-verifies behind
      (p % 256 ∷ (p / 256) ∷ (d % 256) ∷ (d / 256) ∷ (l % 256) ∷ (l / 256) ∷ []) rest tt even
      (omega (
        arith,
        swap_word-lt (allocate_port port) (omega arith),
        swap_word-lt dst_port hd,
        swap_word-lt size hs,
      ))
