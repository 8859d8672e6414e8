-- ===== src/Net/Udp.antt =====
-- net/udp.h and net/udp.cc: UDP headers, sockets and packets. A packet is the list of its bytes.
pub mod Header
mod Tests
use shmily.Base.{ℕ, ◌+◌, ◌*◌, ◌%◌, ◌^◌, List, [], ◌∷◌, ◌++◌, length}
use shmily.Net.ByteOrder.{swap_word}
use shmily.Base.Store.{word_bytes}
use shmily.Net.Frame.{format_frame, frame_bytes, next_is_ip}
use shmily.Net.Ip.{generate_checksum, format_ip, header_bytes}

pub record UdpHeader : Type 0 where
  pub src_port : ℕ
  pub dst_port : ℕ
  pub length_field : ℕ
  pub checksum : ℕ

unfoldable pub udp_bytes : UdpHeader → List ℕ
udp_bytes p =
    word_bytes p.src_port
    ++ (word_bytes p.dst_port ++ (word_bytes p.length_field ++ word_bytes p.checksum))

-- The static `port`, which the caller keeps.
unfoldable pub allocate_port : ℕ → ℕ
allocate_port port = (port + 1) % 2 ^ 16

-- `rest` is what stands behind the header up to `size`, and `behind` is the byte after that. The
-- result is the header and the new static port.
unfoldable pub init_udp_header : ℕ → ℕ → ℕ → ℕ → List ℕ → UdpHeader × ℕ
unfolding allocate_port udp_bytes generate_checksum swap_word
init_udp_header port behind dst_port size rest =
    let port' = allocate_port port in
    let pkt : UdpHeader = record {
      src_port = swap_word port';
      dst_port = swap_word dst_port;
      length_field = swap_word size;
      checksum = 0;
    } in
    (record pkt { checksum = generate_checksum behind (udp_bytes pkt ++ rest) }, port')

-- The packet that `send_udp` hands to `send_packet`. It has the header alone, and `rest` is what
-- stands behind the block in memory.
unfoldable pub send_udp : ℕ → ℕ → List ℕ → List ℕ → ℕ → ℕ → List ℕ → List ℕ → List ℕ → List ℕ × ℕ
unfolding init_udp_header format_frame frame_bytes format_ip
send_udp port behind mac_addr ip_addr dst_port size target_mac_addr target_ip rest =
    let (pkt, port') = init_udp_header port behind dst_port size rest in
    (
      frame_bytes (format_frame mac_addr target_mac_addr next_is_ip)
          ++ (header_bytes (format_ip ip_addr target_ip 0 0x11 (20 + 8)) ++ udp_bytes pkt),
      port',
    )

pub record UdpSocket : Type 0 where
  pub src_port : ℕ
  pub src_ip : List ℕ
  pub dst_port : ℕ
  pub dst_ip : List ℕ

-- `UdpFactory::connect`; its `malloc` succeeds. Every socket has the same port.
unfoldable pub udp_connect : List ℕ → List ℕ → ℕ → UdpSocket
udp_connect ip_addr target_ip target_port = record {
  src_port = 0x7970;
  src_ip = ip_addr;
  dst_port = target_port;
  dst_ip = target_ip;
}

-- `UdpFactory::format_packet`: the checksum stays 0, since what was prepared for it is not used.
unfoldable pub format_udp : UdpSocket → List ℕ → List ℕ
unfolding udp_bytes swap_word
format_udp socket payload =
    udp_bytes (record {
      src_port = swap_word socket.src_port;
      dst_port = swap_word socket.dst_port;
      length_field = swap_word ((8 + length payload) % 2 ^ 16);
      checksum = 0;
    })
    ++ payload

-- The packet that `UdpFactory::send` hands to `send_packet`.
unfoldable pub udp_send : List ℕ → List ℕ → List ℕ → UdpSocket → List ℕ → List ℕ
unfolding format_udp format_frame frame_bytes format_ip
udp_send mac_addr ip_addr gateway_mac_addr socket payload =
    frame_bytes (format_frame mac_addr gateway_mac_addr next_is_ip)
    ++ (header_bytes (format_ip ip_addr socket.dst_ip 0 0x11 ((20 + 8 + length payload) % 2 ^ 16))
        ++ format_udp socket payload)
