-- ===== src/Net/Arp.antt =====
-- net/arp.h and net/arp.cc, the class `ArpFactory`: requests for a hardware address and replies.
use shmily.Base.{ℕ, List, replicate}
use shmily.Net.ByteOrder.{swap_word}
use shmily.Net.Frame.{EthPacket, format_frame, next_is_arp}

pub record ArpPacket : Type 0 where
  pub hw_type : ℕ
  pub req_protocol : ℕ
  pub hw_addr_size : ℕ
  pub protocol_size : ℕ
  pub opcode : ℕ
  pub src_mac_addr : List ℕ
  pub src_ip_addr : List ℕ
  pub dst_mac_addr : List ℕ
  pub target_ip : List ℕ

abbrev pub req_opcode : ℕ
req_opcode = 1

abbrev pub rsp_opcode : ℕ
rsp_opcode = 2

abbrev pub mac_broadcast : List ℕ
mac_broadcast = replicate 6 0xff

unfoldable pub format_request_packet : List ℕ → List ℕ → List ℕ → ArpPacket
format_request_packet mac_addr ip_addr target_ip = record {
  hw_type = swap_word 1;
  req_protocol = swap_word 0x0800;
  hw_addr_size = 6;
  protocol_size = 4;
  opcode = swap_word req_opcode;
  src_mac_addr = mac_addr;
  src_ip_addr = ip_addr;
  dst_mac_addr = replicate 6 0;
  target_ip = target_ip;
}

unfoldable pub format_reply_packet : List ℕ → List ℕ → List ℕ → List ℕ → ArpPacket
format_reply_packet mac_addr ip_addr res_mac_addr req_ip = record {
  hw_type = swap_word 1;
  req_protocol = swap_word 0x0800;
  hw_addr_size = 6;
  protocol_size = 4;
  opcode = swap_word rsp_opcode;
  src_mac_addr = mac_addr;
  src_ip_addr = ip_addr;
  dst_mac_addr = res_mac_addr;
  target_ip = req_ip;
}

-- What is handed to `send_packet`: the frame's header and the packet.
unfoldable pub arp_request : List ℕ → List ℕ → List ℕ → EthPacket × ArpPacket
unfolding format_frame format_request_packet
arp_request mac_addr ip_addr target_ip = (
  format_frame mac_addr mac_broadcast next_is_arp,
  format_request_packet mac_addr ip_addr target_ip,
)

unfoldable pub arp_reply : List ℕ → List ℕ → List ℕ → List ℕ → List ℕ → EthPacket × ArpPacket
unfolding format_frame format_reply_packet
arp_reply mac_addr ip_addr src_mac_addr res_mac_addr req_ip = (
  format_frame mac_addr src_mac_addr next_is_arp,
  format_reply_packet mac_addr ip_addr res_mac_addr req_ip,
)
