-- ===== src/Net/ProtocolStack/Arrivals.antt =====
-- What a frame does, by its kind.
use shmily.Base.{ℕ, ◌≡◌, ◌≢◌, refl, sym, none, some, [], ==_ne, length}
use shmily.Net.ByteOrder.{swap_word}
use shmily.Net.Frame.{next_is_arp}
use shmily.Net.Arp.{req_opcode}
use shmily.Net.ArpCache.{get_ip_addr, locate_mac_addr}
use shmily.Net.ArpCache.Lookup.{get_ip_addr-append}
use shmily.Net.ProtocolStack.{ProtocolStack, Arrived, on_arp, handle_packet}

-- Any other ARP packet from a hardware address that the cache does not hold is learned: the cache,
-- as long as before, then gives the sender's IP address, and nothing is sent.
pub handle_packet-learned :
    (stk : ProtocolStack) (pkt : Arrived) (len : ℕ)
    → swap_word pkt.eth.next_protocol ≡ next_is_arp
    → swap_word pkt.arp.opcode ≢ req_opcode
    → stk.tcp_protocol.net_if.arp_tbl ≢ []
    → locate_mac_addr pkt.arp.src_mac_addr stk.tcp_protocol.net_if.arp_tbl ≡ none
    → let stk' = handle_packet stk pkt len in
      ((get_ip_addr pkt.arp.src_mac_addr stk'.tcp_protocol.net_if.arp_tbl).0
        ≡ some pkt.arp.src_ip_addr)
      × (length stk'.tcp_protocol.net_if.arp_tbl ≡ length stk.tcp_protocol.net_if.arp_tbl)
      × (stk'.arp_sent ≡ stk.arp_sent)
unfolding handle_packet on_arp
handle_packet-learned stk pkt len arp_frame other has absent =
    let (known, same) =
      get_ip_addr-append pkt.arp.src_mac_addr pkt.arp.src_ip_addr stk.tcp_protocol.net_if.arp_tbl
        has absent in
    rw (arp_frame, handle_packet)
      (rw (==_ne req_opcode (swap_word pkt.arp.opcode) (λ e. other (sym e)), on_arp)
        (known, same, refl))
