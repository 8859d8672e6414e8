-- ===== src/Net/ProtocolStack/Tests.antt =====
-- Tests of net/protocol_stack.cc: a host at 172.17.0.3 and packets from 172.17.0.2.
use shmily.Base.{◌≡◌, refl, false, [], ◌∷◌}
use shmily.Net.ByteOrder.{swap_word}
use shmily.Net.Frame.{format_frame, next_is_arp}
use shmily.Net.Arp.{ArpPacket, arp_request, arp_reply, format_request_packet}
use shmily.Net.ArpCache.{get_mac_addr, is_same_addr, set_item}
use shmily.Net.Interface.{new_interface}
use shmily.Net.Icmp.{format_icmp, icmp_request}
use shmily.Net.Ip.{format_ip}
use shmily.Net.Tcp.{TcpPacket}
use shmily.Net.Tcp.Sample.{host, host_ip, host_mac}
use shmily.Net.ProtocolStack.{ProtocolStack, Arrived, handle_packet}

abbrev stack : ProtocolStack
stack = record { tcp_protocol = host 3; arp_sent = []; printed = []; need_output = false }

abbrev no_segment : TcpPacket
no_segment = record {
  src_port = 0;
  dst_port = 0;
  seq_num = 0;
  ack_num = 0;
  reserved = 0;
  head_size = 0;
  flags = 0;
  window_size = 0;
  check_sum = 0;
  urgent_pointer = 0;
  options = 0;
}

abbrev arp_frame : ArpPacket → Arrived
arp_frame pkt = record {
  eth = format_frame (host_mac 2) (host_mac 3) next_is_arp;
  arp = pkt;
  ip = format_ip (host_ip 2) (host_ip 3) 0 0 0;
  icmp = format_icmp 0 icmp_request;
  tcp = no_segment;
  tcp_data = λ i. 0;
}

abbrev asks : Arrived
asks = arp_frame (format_request_packet (host_mac 2) (host_ip 2) (host_ip 3))

-- The first reply of the host is the one that answers the request.
answered :
    (handle_packet stack asks 60).arp_sent
    ≡ arp_reply (host_mac 3) (host_ip 3) (host_mac 2) (host_mac 2) (host_ip 2) ∷ []
unfolding handle_packet new_interface set_item get_mac_addr is_same_addr format_frame
    format_request_packet swap_word
answered = refl

-- A request goes to every host.
broadcast :
    (arp_request (host_mac 2) (host_ip 2) (host_ip 3)).0.dst_mac_addr
    ≡ 255 ∷ 255 ∷ 255 ∷ 255 ∷ 255 ∷ 255 ∷ []
unfolding arp_request
broadcast = refl
