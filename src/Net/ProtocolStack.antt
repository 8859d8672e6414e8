-- ===== src/Net/ProtocolStack.antt =====
-- net/protocol_stack.cc: a frame goes to the ARP cache, to ICMP or to TCP. The interface that the
-- stack keeps is the one of its TCP factory.
pub mod Arrivals
mod Tests
use shmily.Base.{
  ℕ, ◌+◌, ◌-◌, ◌%◌, ◌^◌, Bool, ◌==◌, if◌then◌else◌, Option, none, some, List, [], ◌∷◌, ◌++◌,
}
use shmily.Net.ByteOrder.{swap_word}
use shmily.Net.Frame.{EthPacket, next_is_arp, next_is_ip}
use shmily.Net.Arp.{ArpPacket, req_opcode, arp_reply}
use shmily.Net.ArpCache.{get_mac_addr, append}
use shmily.Net.Interface.{NetworkInterface}
use shmily.Net.Icmp.{IcmpPacket, IcmpLine, resolve_icmp}
use shmily.Net.Ip.{IpPacket}
use shmily.Net.Tcp.{TcpPacket, TcpFactory}
use shmily.Net.Tcp.Receive.{resolve_packet}

-- A frame in memory, by the structures that the code lays over it: only those are read that the
-- frame's kind asks for. `tcp_data` is the memory from the TCP header on.
pub record Arrived : Type 0 where
  pub eth : EthPacket
  pub arp : ArpPacket
  pub ip : IpPacket
  pub icmp : IcmpPacket
  pub tcp : TcpPacket
  pub tcp_data : ℕ → ℕ

-- The ARP replies that were sent are recorded, the latest first, and the lines printed in order.
pub record ProtocolStack : Type 0 where
  pub tcp_protocol : TcpFactory
  pub arp_sent : List (EthPacket × ArpPacket)
  pub printed : List IcmpLine
  pub need_output : Bool

abbrev pub icmp_protocol : ℕ
icmp_protocol = 1

abbrev pub tcp_number : ℕ
tcp_number = 6

-- `cur_net_if->get_arp_table()` set to `items`.
abbrev pub with_items : TcpFactory → NetworkInterface → TcpFactory
with_items f net_if = record f { net_if = net_if }

unfoldable pub on_arp : ProtocolStack → ArpPacket → ProtocolStack
on_arp stk pkt =
    let net_if = stk.tcp_protocol.net_if in
    let (res_mac_addr, items) = get_mac_addr pkt.target_ip net_if.arp_tbl in
    let looked_up = with_items stk.tcp_protocol (record net_if { arp_tbl = items }) in
    let learned =
      with_items stk.tcp_protocol
        (record net_if { arp_tbl = append pkt.src_mac_addr pkt.src_ip_addr net_if.arp_tbl }) in
    let reply =
      arp_reply net_if.mac_addr net_if.ip_addr pkt.src_mac_addr pkt.src_mac_addr pkt.src_ip_addr in
    if req_opcode == swap_word pkt.opcode
    then elim res_mac_addr [
      | none ↦ record stk { tcp_protocol = looked_up }
      | some mac ↦ record stk { tcp_protocol = looked_up; arp_sent = reply ∷ stk.arp_sent }
    ]
    else record stk { tcp_protocol = learned }

-- `len` is an `unsigned short`.
unfoldable pub on_ip : ProtocolStack → Arrived → ℕ → ProtocolStack
on_ip stk pkt len =
    let payload_len = (len + 2 ^ 16 - 14 - 20) % 2 ^ 16 in
    if icmp_protocol == pkt.ip.next_protocol
    then record stk { printed = stk.printed ++ resolve_icmp stk.need_output pkt.icmp }
    else if tcp_number == pkt.ip.next_protocol
    then record stk {
      tcp_protocol = resolve_packet stk.tcp_protocol pkt.tcp pkt.tcp_data pkt.ip.src_ip payload_len;
    }
    else stk

unfoldable pub handle_packet : ProtocolStack → Arrived → ℕ → ProtocolStack
unfolding on_arp on_ip
handle_packet stk pkt len =
    let next = swap_word pkt.eth.next_protocol in
    if next == next_is_arp
    then on_arp stk pkt.arp
    else if next == next_is_ip
    then on_ip stk pkt len
    else stk
