-- ===== src/Net/Icmp.antt =====
-- net/icmp.h and net/icmp.cc: echo requests and replies. A packet is the list of its bytes.
pub mod Echo
mod Tests
use shmily.Base.{
  ℕ, zero, suc, ◌+◌, ◌%◌, ◌^◌, Bool, true, List, [], ◌∷◌, ◌++◌, ◌==◌, if◌then◌else◌, replicate,
}
use shmily.Base.Store.{word_bytes}
use shmily.Net.Frame.{format_frame, frame_bytes, next_is_ip}
use shmily.Net.Ip.{generate_checksum, format_ip, header_bytes}

abbrev pub icmp_request : ℕ
icmp_request = 8

abbrev pub icmp_reply : ℕ
icmp_reply = 0

pub record IcmpPacket : Type 0 where
  pub kind : ℕ  -- `type`
  pub code : ℕ
  pub checksum : ℕ
  pub identifier : ℕ
  pub sequence_num : ℕ
  pub timestamp : List ℕ
  pub content : List ℕ  -- `data`

unfoldable pub icmp_bytes : IcmpPacket → List ℕ
icmp_bytes p =
    p.kind
    ∷ p.code
    ∷ (word_bytes p.checksum
        ++ (word_bytes p.identifier ++ (word_bytes p.sequence_num ++ (p.timestamp ++ p.content))))

-- `i`, `i + 1`, and so on: what the loop from 0x10 to 0x36 writes.
abbrev pub counting : ℕ → ℕ → List ℕ
counting i zero = []
counting i (suc n) = i ∷ counting (i + 1) n

-- The last of the 48 bytes of `data` is not written: `left` is what stands there.
unfoldable pub format_icmp : ℕ → ℕ → IcmpPacket
unfolding generate_checksum icmp_bytes
format_icmp left kind =
    let pkt : IcmpPacket = record {
      kind = kind;
      code = 0;
      checksum = 0;
      identifier = 0;
      sequence_num = 0;
      timestamp = replicate 8 0;
      content = 0x33 ∷ 0x2b ∷ 0x04 ∷ 0 ∷ 0 ∷ 0 ∷ 0 ∷ 0 ∷ (counting 0x10 0x27 ++ left ∷ []);
    } in
    record pkt { checksum = generate_checksum 0 (icmp_bytes pkt) }

-- What is printed for a packet.
pub data IcmpLine : Type 0 where
  a_request : IcmpLine
  a_reply : IcmpLine
  reply_seq : ℕ → IcmpLine

unfoldable pub resolve_icmp : Bool → IcmpPacket → List IcmpLine
resolve_icmp need_output pkt =
    if icmp_request == pkt.kind
    then a_request ∷ []
    else a_reply ∷ (if need_output then reply_seq pkt.sequence_num ∷ [] else [])

-- The packet that is handed to `send_packet`, of 64 bytes behind the IP header.
unfoldable pub icmp_send : ℕ → ℕ → List ℕ → List ℕ → List ℕ → List ℕ → List ℕ
unfolding format_frame frame_bytes format_ip format_icmp
icmp_send left kind mac_addr ip_addr target_ip target_mac_addr =
    frame_bytes (format_frame mac_addr target_mac_addr next_is_ip)
    ++ (header_bytes (format_ip ip_addr target_ip 0 1 (20 + 64))
        ++ icmp_bytes (format_icmp left kind))

-- A request also sets `need_output`.
unfoldable pub icmp_request_send : ℕ → List ℕ → List ℕ → List ℕ → List ℕ → List ℕ × Bool
unfolding icmp_send
icmp_request_send left mac_addr ip_addr target_ip target_mac_addr =
    (icmp_send left icmp_request mac_addr ip_addr target_ip target_mac_addr, true)

unfoldable pub icmp_reply_send : ℕ → List ℕ → List ℕ → List ℕ → List ℕ → List ℕ
unfolding icmp_send
icmp_reply_send left mac_addr ip_addr target_ip target_mac_addr =
    icmp_send left icmp_reply mac_addr ip_addr target_ip target_mac_addr
