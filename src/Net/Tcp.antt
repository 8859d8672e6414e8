-- ===== src/Net/Tcp.antt =====
-- net/tcp.h and net/tcp.cc: sockets, the factory that holds them, and the packets that they send.
-- What `send_packet` is handed is recorded, the latest first.
pub mod Receive
pub mod Sockets
pub mod Header
pub mod Decode
pub mod Diagram
pub mod Ports
pub mod Handshake
pub mod Transfer
pub mod OutOfOrder
pub mod Closing
pub mod Sample
mod Tests
use Prim.Native.Nat.{bit_and}
use shmily.Base.{
  ℕ, ◌+◌, ◌*◌, ◌/◌, ◌%◌, ◌^◌, Bool, ◌==◌, if◌then◌else◌, Option, none, some, List, [], ◌∷◌, ◌++◌,
  length, add32,
}
use shmily.Support.IndirectRingBuffer.{IndirectRingBuffer}
use shmily.Net.ByteOrder.{swap_word, swap_double_word}
use shmily.Base.Store.{word_bytes, double_word_bytes}
use shmily.Net.Frame.{EthPacket, format_frame, next_is_ip}
use shmily.Net.Ip.{IpPacket, format_ip, generate_checksum}
use shmily.Net.Interface.{NetworkInterface, get_default_gateway_mac}

pub data State : Type 0 where
  closed listening syn_sent syn_received established fin_wait1 fin_wait2 closing : State
  time_wait close_wait last_ack accept : State

-- The flags are bits of a byte.
abbrev pub fin_flag : ℕ
fin_flag = 0x1

abbrev pub syn_flag : ℕ
syn_flag = 0x2

abbrev pub psh_flag : ℕ
psh_flag = 0x8

abbrev pub ack_flag : ℕ
ack_flag = 0x10

-- The ports, the numbers and the window are in the network's byte order.
pub record TcpPacket : Type 0 where
  pub src_port : ℕ
  pub dst_port : ℕ
  pub seq_num : ℕ
  pub ack_num : ℕ
  pub reserved : ℕ
  pub head_size : ℕ
  pub flags : ℕ
  pub window_size : ℕ
  pub check_sum : ℕ
  pub urgent_pointer : ℕ
  pub options : ℕ

-- The header in memory, 24 bytes; `reserved` is the low half of its byte.
unfoldable pub tcp_bytes : TcpPacket → List ℕ
tcp_bytes p =
    word_bytes p.src_port
    ++ (word_bytes p.dst_port
        ++ (double_word_bytes p.seq_num
            ++ (double_word_bytes p.ack_num
                ++ (p.head_size * 16 + p.reserved)
                  ∷ p.flags
                  ∷ (word_bytes p.window_size
                      ++ (word_bytes p.check_sum
                          ++ (word_bytes p.urgent_pointer ++ double_word_bytes p.options))))))

-- `send_buffer` is not used by the code. `tcp_factory` and `bind_proc` are addresses.
pub record TcpSocket : Type 0 where
  pub own_port : ℕ  -- `src_port`
  pub own_ip : List ℕ  -- `src_ip`
  pub peer_port : ℕ  -- `dst_port`
  pub peer_ip : List ℕ  -- `dst_ip`
  pub next_seq : ℕ  -- `seq_num`
  pub next_ack : ℕ  -- `ack_num`
  pub state : State
  pub recv_buffer : IndirectRingBuffer
  pub bind_proc : ℕ
  pub tcp_factory : ℕ

-- A packet handed to `send_packet`.
pub record Sent : Type 0 where
  pub eth : EthPacket
  pub ip : IpPacket
  pub tcp : TcpPacket
  pub payload : List ℕ

-- `sockets` are the 128 pointers and what stands behind them, by the port. `memory` holds the
-- buffers for received data. `notices` are the messages for processes that wait for a connection,
-- the latest first: the process and the first word. `behind` is the byte after the block that the
-- checksum is generated from, and `at_null` are the six bytes at address 0.
pub record TcpFactory : Type 0 where
  pub sockets : ℕ → Option TcpSocket
  pub net_if : NetworkInterface
  pub self : ℕ
  pub memory : ℕ → ℕ
  pub sent : List Sent
  pub notices : List (ℕ × ℕ)
  pub behind : ℕ
  pub at_null : List ℕ

-- The pseudo header: the addresses, the protocol and the length of header and payload.
unfoldable pub pseudo_bytes : TcpSocket → ℕ → List ℕ
pseudo_bytes socket payload_data_size =
    socket.own_ip
    ++ (socket.peer_ip
        ++ (word_bytes 0x0600 ++ word_bytes (swap_word ((24 + payload_data_size) % 2 ^ 16))))

-- The header before its checksum.
unfoldable pub plain_header : TcpSocket → ℕ → TcpPacket
plain_header socket flags = record {
  src_port = swap_word socket.own_port;
  dst_port = swap_word socket.peer_port;
  seq_num = swap_double_word socket.next_seq;
  ack_num = swap_double_word socket.next_ack;
  reserved = 0;
  head_size = 24 / 4;
  flags = flags;
  window_size = 0xffff;
  check_sum = 0;
  urgent_pointer = 0;
  options = if bit_and flags syn_flag == 0 then 0 else 0xb4050402;
}

-- The header, and the socket with its number counted up.
unfoldable pub format_tcp : ℕ → TcpSocket → List ℕ → ℕ → TcpPacket × TcpSocket
unfolding plain_header pseudo_bytes tcp_bytes generate_checksum
format_tcp behind socket payload flags =
    let header = plain_header socket flags in
    (
      record header {
        check_sum =
            generate_checksum behind
              (pseudo_bytes socket (length payload) ++ (tcp_bytes header ++ payload));
      },
      record socket { next_seq = add32 socket.next_seq (length payload) },
    )

-- The gateway's hardware address is read through NULL where it is not known.
abbrev pub gateway_mac : TcpFactory → List ℕ
gateway_mac f = elim (get_default_gateway_mac f.net_if).0 [ none ↦ f.at_null | some mac ↦ mac ]

-- The packet that `send` hands to `send_packet`.
unfoldable pub packet_of : TcpFactory → TcpSocket → List ℕ → ℕ → Sent
unfolding format_tcp get_default_gateway_mac format_frame format_ip
packet_of f socket payload flags = record {
  eth = format_frame f.net_if.mac_addr (gateway_mac f) next_is_ip;
  ip = format_ip f.net_if.ip_addr socket.peer_ip 0 6 ((20 + 24 + length payload) % 2 ^ 16);
  tcp = (format_tcp f.behind socket payload (flags % 256)).0;
  payload = payload;
}

-- `TcpFactory::send`. The socket is returned: the caller puts it back where it found it.
unfoldable pub send : TcpFactory → TcpSocket → List ℕ → ℕ → TcpFactory × TcpSocket
unfolding packet_of format_tcp get_default_gateway_mac
send f socket payload flags = (
  record f {
    net_if = (get_default_gateway_mac f.net_if).1;
    sent = packet_of f socket payload flags ∷ f.sent;
  },
  (format_tcp f.behind socket payload (flags % 256)).1,
)
