-- ===== src/Net/Tcp/Decode.antt =====
-- What the receiver reads in a packet that `send` of net/tcp.cc built.
use shmily.Base.{ℕ, ◌%◌, ◌^◌, ◌<◌, ◌≡◌, refl, ◌∙◌, some, List}
use shmily.Net.ByteOrder.{swap_word, swap_double_word, swap_word_twice, swap_double_word_twice}
use shmily.Net.Tcp.{TcpPacket, TcpSocket, TcpFactory, format_tcp, plain_header, packet_of}
use shmily.Net.Tcp.Receive.{Kind, kind_of, dispatch, resolve_packet}

-- The ports, the numbers and the kind of a header, as the receiver reads them.
pub record Decoded (h : TcpPacket) (src dst seq ack : ℕ) (k : Kind) : Type 0 where
  pub src_is : swap_word h.src_port ≡ src
  pub dst_is : swap_word h.dst_port ≡ dst
  pub seq_is : swap_double_word h.seq_num ≡ seq
  pub ack_is : swap_double_word h.ack_num ≡ ack
  pub kind_is : kind_of h.flags ≡ k

-- Ports and numbers fit their widths.
pub record Numbers (socket : TcpSocket) : Type 0 where
  pub own_port_fits : socket.own_port < 2 ^ 16
  pub peer_port_fits : socket.peer_port < 2 ^ 16
  pub seq_fits : socket.next_seq < 2 ^ 32
  pub ack_fits : socket.next_ack < 2 ^ 32

-- The receiver reads the ports and the numbers of the socket that sent the packet.
pub packet_of-Decoded :
    (f : TcpFactory) (socket : TcpSocket) (payload : List ℕ) (flags : ℕ)
    → Numbers socket
    → Decoded
        (packet_of f socket payload flags).tcp
        socket.own_port
        socket.peer_port
        socket.next_seq
        socket.next_ack
        (kind_of (flags % 256))
unfolding packet_of format_tcp plain_header
packet_of-Decoded f socket payload flags fits = record {
  src_is = swap_word_twice socket.own_port fits.own_port_fits;
  dst_is = swap_word_twice socket.peer_port fits.peer_port_fits;
  seq_is = swap_double_word_twice socket.next_seq fits.seq_fits;
  ack_is = swap_double_word_twice socket.next_ack fits.ack_fits;
  kind_is = refl;
}

-- A packet for a port with a socket is dispatched on what was read.
pub resolve-dispatch :
    (f : TcpFactory) (socket : TcpSocket) (packet : ℕ → ℕ) (remote_ip : List ℕ)
    (payload_len src dst seq ack : ℕ) (k : Kind) (h : TcpPacket)
    → Decoded h src dst seq ack k
    → f.sockets dst ≡ some socket
    → resolve_packet f h packet remote_ip payload_len
      ≡ dispatch k f dst socket h packet remote_ip payload_len
unfolding resolve_packet
resolve-dispatch f socket packet remote_ip payload_len src dst seq ack k h d here =
    rw (d.dst_is, resolve_packet) (rw (here, resolve_packet) (rw (d.kind_is, d.dst_is)))

pub Decoded-cast :
    (h : TcpPacket) {src dst seq ack src' dst' seq' ack' : ℕ} {k k' : Kind}
    → Decoded h src dst seq ack k
    → src ≡ src'
    → dst ≡ dst'
    → seq ≡ seq'
    → ack ≡ ack'
    → k ≡ k'
    → Decoded h src' dst' seq' ack' k'
Decoded-cast h d a b c e f = record {
  src_is = d.src_is ∙ a;
  dst_is = d.dst_is ∙ b;
  seq_is = d.seq_is ∙ c;
  ack_is = d.ack_is ∙ e;
  kind_is = d.kind_is ∙ f;
}
