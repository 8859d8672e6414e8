-- ===== src/Net/Frame.antt =====
-- net/ethernet.h and net/ethernet.cc: the header of an Ethernet frame, as its 14 bytes. An address
-- is the list of its bytes.
use shmily.Base.{ℕ, List, ◌++◌}
use shmily.Net.ByteOrder.{swap_word}
use shmily.Base.Store.{word_bytes}

pub record EthPacket : Type 0 where
  pub dst_mac_addr : List ℕ
  pub src_mac_addr : List ℕ
  pub next_protocol : ℕ

abbrev pub next_is_arp : ℕ
next_is_arp = 0x0806

abbrev pub next_is_ip : ℕ
next_is_ip = 0x0800

unfoldable pub format_frame : List ℕ → List ℕ → ℕ → EthPacket
format_frame mac_addr target_mac_addr next_proto = record {
  dst_mac_addr = target_mac_addr;
  src_mac_addr = mac_addr;
  next_protocol = swap_word next_proto;
}

-- The frame in memory.
unfoldable pub frame_bytes : EthPacket → List ℕ
frame_bytes p = p.dst_mac_addr ++ (p.src_mac_addr ++ word_bytes p.next_protocol)
