-- ===== src/Net/Tcp/Tests.antt =====
-- Tests of net/tcp.cc on two hosts.
use shmily.Base.{
  ℕ, ◌-◌, ◌≡◌, refl, none, some, List, [], ◌∷◌, ◌++◌, arith, length, get_or, true, inl,
}
use shmily.Net.ByteOrder.{swap_word}
use shmily.Net.Ip.{generate_checksum}
use shmily.Net.Ip.Headers.{four}
use shmily.Net.Tcp.{
  TcpSocket, TcpFactory, TcpPacket, established, close_wait, listening, syn_received, packet_of,
  format_tcp, pseudo_bytes, tcp_bytes, plain_header,
}
use shmily.Net.Tcp.Receive.{resolve_packet, put_socket, kind_of, ack}
use shmily.Net.Tcp.Sockets.{listen, connect, get_free_port, socket_accept, close_socket}
use shmily.Net.Tcp.Header.{format_tcp-verifies}
use shmily.Net.Tcp.Decode.{Decoded, packet_of-Decoded}
use shmily.Net.Tcp.Diagram.{Stepped, resolve_packet-Stepped}
use shmily.Net.Tcp.Ports.{FirstFree, get_free_port-FirstFree}
use shmily.Net.Tcp.Handshake.{Endpoint, receive_latest, handshake-established}
use shmily.Net.Tcp.OutOfOrder.{
  Arrival, IsStray, Unmoved, state_after_all, told_all, resolve_all, resolve_all-out_of_order,
}
use shmily.Net.Tcp.Closing.{close_socket-peer_waits}
use shmily.Net.Tcp.Sample.{host, host_ip, block, buffers, linked}

-- A server that listens at port 80, with the process 99 bound to it.
abbrev server : TcpSocket
server = record block { own_port = 80; own_ip = host_ip 3; state = listening; bind_proc = 99 }

abbrev server_side : TcpFactory
server_side = put_socket (host 3) 80 server

abbrev nothing : ℕ → ℕ
nothing i = 0

listen_accept : (socket_accept (listen (host 3) (some block) buffers 80).1 80 99).0 ≡ true
unfolding listen socket_accept
listen_accept = refl

get_free_port-FirstFree_example : FirstFree server_side.sockets 12 116 (get_free_port server_side)
get_free_port-FirstFree_example = get_free_port-FirstFree server_side

handshake-established_example :
    let client_asks = (connect (host 2) (some block) (host_ip 3) 80).1 in
    let server_answers = receive_latest server_side client_asks.sent nothing (host_ip 2) 24 in
    let confirmed = receive_latest client_asks server_answers.sent nothing (host_ip 3) 24 in
    Endpoint confirmed 12 80 established 1 1 0 []
    × Endpoint
        (receive_latest server_answers confirmed.sent nothing (host_ip 2) 24)
        80
        12
        established
        1
        1
        99
        ((99, 12) ∷ [])
unfolding get_free_port
handshake-established_example =
    handshake-established (host 2) server_side block server nothing (host_ip 3) (host_ip 2) 12 80 24
      refl (omega arith) (omega arith) refl refl refl

-- A sender at port 12 and a receiver at port 80.
abbrev sending : TcpFactory
sending = put_socket (host 2) 12 (linked 12 80)

abbrev receiving : TcpFactory
receiving = put_socket (host 3) 80 (linked 80 12)

abbrev text : List ℕ
text = 104 ∷ 105 ∷ []

abbrev carrying : ℕ → ℕ
carrying i = get_or text (i - 24) 0

-- A packet with another number than the one expected.
abbrev early : TcpSocket
early = record (linked 12 80) { next_seq = 9 }

-- A server whose answer to a SYN is not confirmed yet.
abbrev half_open : TcpSocket
half_open = record (linked 80 12) { state = syn_received; bind_proc = 99 }

abbrev arrival : Arrival
arrival = record {
  header = (packet_of sending early text 0x18).tcp;
  packet = carrying;
  remote_ip = host_ip 2;
  payload_len = 26;
}

early-Decoded : Decoded arrival.header 12 80 9 7 ack
unfolding kind_of
early-Decoded = packet_of-Decoded sending early text 0x18 (omega arith)

arrival-IsStray : IsStray 80 half_open.next_ack arrival
arrival-IsStray = record {
  for_port = early-Decoded.dst_is;
  plain = inl early-Decoded.kind_is;
  number = λ e. absurd (omega (arith, early-Decoded.seq_is, e));
}

resolve_all-out_of_order_example :
    let arrivals = arrival ∷ arrival ∷ [] in
    Unmoved
      (put_socket receiving 80 half_open)
      80
      half_open
      (state_after_all syn_received arrivals)
      (told_all 99 syn_received arrivals receiving.notices)
      (resolve_all (put_socket receiving 80 half_open) arrivals)
resolve_all-out_of_order_example =
    resolve_all-out_of_order (arrival ∷ arrival ∷ []) (put_socket receiving 80 half_open) 80
      half_open refl (arrival-IsStray, (arrival-IsStray, tt))

-- The first of the two confirms the connection.
confirmed_once : state_after_all syn_received (arrival ∷ arrival ∷ []) ≡ established
unfolding packet_of format_tcp plain_header kind_of
confirmed_once = refl

resolve_packet-Stepped_example :
    let h = (packet_of sending early text 0x18).tcp in
    Stepped
      (kind_of h.flags)
      receiving
      (swap_word h.dst_port)
      80
      established
      (resolve_packet receiving h carrying (host_ip 2) 26)
unfolding packet_of format_tcp plain_header
resolve_packet-Stepped_example =
    resolve_packet-Stepped receiving (packet_of sending early text 0x18).tcp carrying (host_ip 2) 26
      (linked 80 12) refl

abbrev addressed : TcpSocket
addressed = record (linked 12 80) { own_ip = host_ip 2 }

format_tcp-verifies_example :
    generate_checksum 0 (
      pseudo_bytes addressed (length text)
      ++ (tcp_bytes (format_tcp 0 addressed text 0x18).0 ++ text))
    ≡ 0
format_tcp-verifies_example =
    format_tcp-verifies 0 addressed text 0x18
      (record {
        own = four (omega arith) (omega arith) (omega arith) (omega arith);
        peer = four (omega arith) (omega arith) (omega arith) (omega arith);
        own_port_fits = omega arith;
        peer_port_fits = omega arith;
        seq_fits = omega arith;
        ack_fits = omega arith;
      })
      (omega arith) tt (omega arith)

close_socket-peer_waits_example :
    (f' : TcpFactory) × (close_socket sending 12 ≡ some f')
    × (f'.sockets 12 ≡ none)
    × ((after : TcpSocket) × ((receive_latest receiving f'.sent nothing (host_ip 2) 24).sockets 80
          ≡ some after)
        × (after.state ≡ close_wait)
        × (after.next_ack ≡ 8))
    × ((h : TcpPacket) (bytes : ℕ → ℕ) (ip : List ℕ) (size : ℕ)
        → swap_word h.dst_port ≡ 12
        → resolve_packet f' h bytes ip size ≡ f')
close_socket-peer_waits_example =
    close_socket-peer_waits sending receiving (linked 12 80) (linked 80 12) nothing (host_ip 2) 12
      80 24 refl (omega arith) refl refl refl
