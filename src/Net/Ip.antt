-- ===== src/Net/Ip.antt =====
-- net/ip.h and net/ip.cc: the header of an IP packet and the checksum that IP, TCP, UDP and ICMP
-- share. The words that are summed are read from the bytes of the packet.
pub mod Checksum
pub mod Headers
mod Tests
use shmily.Base.{ℕ, ◌+◌, ◌*◌, ◌/◌, ◌%◌, ◌^◌, List, [], ◌∷◌, ◌++◌, add32, not32}
use shmily.Net.ByteOrder.{swap_word}
use shmily.Base.Store.{word_bytes}

-- The loop of `generate_checksum`. Of an odd length the last word is read with the byte `behind`
-- that stands after the packet.
unfoldable pub sum_words : ℕ → ℕ → List ℕ → ℕ
sum_words behind checksum [] = checksum
sum_words behind checksum (low ∷ []) = add32 checksum (low + behind * 256)
sum_words behind checksum (low ∷ high ∷ pkt) =
    sum_words behind (add32 checksum (low + high * 256)) pkt

-- `(checksum >> 16) + (checksum & 0xffff)`, `checksum += (checksum >> 16)`, `~checksum`
unfoldable pub fold_sum : ℕ → ℕ
fold_sum checksum =
    let once = add32 (checksum / 2 ^ 16) (checksum % 2 ^ 16) in
    not32 (add32 once (once / 2 ^ 16)) % 2 ^ 16

unfoldable pub generate_checksum : ℕ → List ℕ → ℕ
unfolding sum_words fold_sum
generate_checksum behind pkt = fold_sum (sum_words behind 0 pkt)

pub record IpPacket : Type 0 where
  pub version : ℕ
  pub header_len : ℕ
  pub diff_services : ℕ
  pub total_len : ℕ
  pub identification : ℕ
  pub flags : ℕ
  pub ttl : ℕ
  pub next_protocol : ℕ
  pub header_checksum : ℕ
  pub src_ip : List ℕ
  pub dst_ip : List ℕ

-- The header in memory; `header_len` is the low half of its first byte.
unfoldable pub header_bytes : IpPacket → List ℕ
header_bytes p =
    (p.version * 16 + p.header_len)
    ∷ p.diff_services
    ∷ (word_bytes p.total_len
        ++ (word_bytes p.identification
            ++ (word_bytes p.flags
                ++ p.ttl
                  ∷ p.next_protocol
                  ∷ (word_bytes p.header_checksum ++ (p.src_ip ++ p.dst_ip)))))

abbrev pub no_fragment : ℕ
no_fragment = 0x4000

-- `ident` is not used. The static `identifier` is counted up and never read.
unfoldable pub format_ip : List ℕ → List ℕ → ℕ → ℕ → ℕ → IpPacket
unfolding generate_checksum header_bytes swap_word
format_ip ip_addr target_ip ident next_proto total_len =
    let pkt : IpPacket = record {
      version = 4;
      header_len = 5;
      diff_services = 0;
      total_len = swap_word total_len;
      identification = swap_word 0x4455;
      flags = swap_word no_fragment;
      ttl = 64;
      next_protocol = next_proto;
      header_checksum = 0;
      src_ip = ip_addr;
      dst_ip = target_ip;
    } in
    record pkt { header_checksum = generate_checksum 0 (header_bytes pkt) }
