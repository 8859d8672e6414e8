-- ===== src/Net/Ip/Headers.antt =====
-- The IP header that is built passes the receiver's test.
use shmily.Base.{ℕ, ◌/◌, ◌%◌, ◌^◌, ◌<◌, ◌≡◌, List, [], ◌∷◌, arith}
use shmily.Net.ByteOrder.{swap_word, swap_word-lt}
use shmily.Net.Ip.{generate_checksum, header_bytes, format_ip, no_fragment}
use shmily.Net.Ip.Checksum.{generate_checksum-verifies}

-- An address of four bytes.
pub data IsIpAddr : List ℕ → Type 0 where
  four : {a b c d : ℕ} → a < 256 → b < 256 → c < 256 → d < 256 → IsIpAddr (a ∷ b ∷ c ∷ d ∷ [])

-- The header that `format_packet` builds for two IP addresses, a protocol number and a length
-- that fit their fields has the checksum 0 when it is received.
pub format_ip-verifies :
    (ident next_proto total_len : ℕ) {ip_addr target_ip : List ℕ}
    → IsIpAddr ip_addr
    → IsIpAddr target_ip
    → next_proto < 256
    → total_len < 2 ^ 16
    → generate_checksum 0 (header_bytes (format_ip ip_addr target_ip ident next_proto total_len))
      ≡ 0
unfolding format_ip header_bytes
format_ip-verifies ident next_proto total_len (four {a = a} {b = b} {c = c} {d = d} ha hb hc hd)
      (four {a = a'} {b = b'} {c = c'} {d = d'} ha' hb' hc' hd') hp ht =
    let l : ℕ = swap_word total_len in
    let i : ℕ = swap_word 0x4455 in
    let f : ℕ = swap_word no_fragment in
    generate_checksum-verifies 0
      (69
        ∷ 0
        ∷ (l % 256)
        ∷ (l / 256)
        ∷ (i % 256)
        ∷ (i / 256)
        ∷ (f % 256)
        ∷ (f / 256)
        ∷ 64
        ∷ next_proto
        ∷ [])
      (a ∷ b ∷ c ∷ d ∷ a' ∷ b' ∷ c' ∷ d' ∷ []) tt tt
      (omega (
        arith,
        swap_word-lt total_len ht,
        swap_word-lt 0x4455 (omega arith),
        swap_word-lt no_fragment (omega arith),
      ))
