-- ===== src/Net/Tcp/Header.antt =====
-- The checksum of the packets that `send` of net/tcp.cc builds.
use Prim.Native.Nat.{bit_and}
use shmily.Base.{
  ℕ, Bool, true, false, if◌then◌else◌, ◌==◌, ◌+◌, ◌*◌, ◌%◌, ◌^◌, ◌<◌, ◌≡◌, List, ◌∷◌, ◌++◌, arith,
  length,
}
use shmily.Net.ByteOrder.{swap_word, swap_word-lt, swap_double_word-lt}
use shmily.Base.Store.{word_bytes, double_word_bytes}
use shmily.Net.Ip.{generate_checksum}
use shmily.Net.Ip.Checksum.{weight, IsEven, generate_checksum-verifies}
use shmily.Net.Ip.Headers.{IsIpAddr, four}
use shmily.Net.Tcp.{
  TcpSocket, TcpPacket, tcp_bytes, pseudo_bytes, plain_header, format_tcp, syn_flag,
}

-- The fields of a socket fit their widths.
pub record Fits (socket : TcpSocket) : Type 0 where
  pub own : IsIpAddr socket.own_ip
  pub peer : IsIpAddr socket.peer_ip
  pub own_port_fits : socket.own_port < 2 ^ 16
  pub peer_port_fits : socket.peer_port < 2 ^ 16
  pub seq_fits : socket.next_seq < 2 ^ 32
  pub ack_fits : socket.next_ack < 2 ^ 32

-- The bytes that the checksum is taken of, with `c` in the checksum's place.
abbrev covered : List ℕ → List ℕ → ℕ → TcpPacket → List ℕ → ℕ → List ℕ
covered src dst size h payload c =
    (src ++ (dst ++ (word_bytes 0x0600 ++ word_bytes size)))
    ++ (tcp_bytes (record h { check_sum = c }) ++ payload)

record HeaderFits (h : TcpPacket) : Type 0 where
  src_port_fits : h.src_port < 2 ^ 16
  dst_port_fits : h.dst_port < 2 ^ 16
  seq_num_fits : h.seq_num < 2 ^ 32
  ack_num_fits : h.ack_num < 2 ^ 32
  size_fits : h.head_size * 16 + h.reserved < 256
  flags_fit : h.flags < 256
  window_fits : h.window_size < 2 ^ 16
  urgent_fits : h.urgent_pointer < 2 ^ 16
  options_fit : h.options < 2 ^ 32

covered-verifies :
    (behind size : ℕ) (payload : List ℕ) (h : TcpPacket) {src dst : List ℕ}
    → IsIpAddr src
    → IsIpAddr dst
    → size < 2 ^ 16
    → HeaderFits h
    → IsEven payload
    → weight payload < 2 ^ 30
    → generate_checksum behind (
        covered src dst size h payload
          (generate_checksum behind (covered src dst size h payload 0)))
      ≡ 0
unfolding tcp_bytes
covered-verifies behind size payload h (four {a = a} {b = b} {c = c} {d = d} ha hb hc hd)
      (four {a = a'} {b = b'} {c = c'} {d = d'} ha' hb' hc' hd') hs fits even small =
    let front : List ℕ =
      a
      ∷ b
      ∷ c
      ∷ d
      ∷ a'
      ∷ b'
      ∷ c'
      ∷ d'
      ∷ (word_bytes 0x0600
          ++ (word_bytes size
              ++ (word_bytes h.src_port
                  ++ (word_bytes h.dst_port
                      ++ (double_word_bytes h.seq_num
                          ++ (double_word_bytes h.ack_num
                              ++ (h.head_size * 16 + h.reserved)
                                ∷ h.flags
                                ∷ word_bytes h.window_size)))))) in
    let options : List ℕ = word_bytes h.urgent_pointer ++ double_word_bytes h.options in
    generate_checksum-verifies behind front (options ++ payload) tt even
      (omega (arith, hs, fits, small))

plain_header-HeaderFits :
    (socket : TcpSocket) (flags : ℕ)
    → Fits socket
    → flags < 256
    → HeaderFits (plain_header socket flags)
unfolding plain_header
plain_header-HeaderFits socket flags fits h = record {
  src_port_fits = swap_word-lt _ fits.own_port_fits;
  dst_port_fits = swap_word-lt _ fits.peer_port_fits;
  seq_num_fits = swap_double_word-lt _ fits.seq_fits;
  ack_num_fits = swap_double_word-lt _ fits.ack_fits;
  size_fits = omega arith;
  flags_fit = h;
  window_fits = omega arith;
  urgent_fits = omega arith;
  options_fit = options_fit (bit_and flags syn_flag == 0);
}
  where
    options_fit : (b : Bool) → (if b then 0 else 0xb4050402) < 2 ^ 32
    options_fit true = omega arith
    options_fit false = omega arith

-- The header that is sent for a socket whose fields fit their widths has, with the pseudo header
-- in front and a payload of an even number of bytes behind, the checksum 0. The payload is assumed
-- to sum to less than 2 ^ 30.
pub format_tcp-verifies :
    (behind : ℕ) (socket : TcpSocket) (payload : List ℕ) (flags : ℕ)
    → Fits socket
    → flags < 256
    → IsEven payload
    → weight payload < 2 ^ 30
    → generate_checksum behind (
        pseudo_bytes socket (length payload)
        ++ (tcp_bytes (format_tcp behind socket payload flags).0 ++ payload))
      ≡ 0
unfolding format_tcp pseudo_bytes plain_header
format_tcp-verifies behind socket payload flags fits small even light =
    covered-verifies behind (swap_word ((24 + length payload) % 2 ^ 16)) payload
      (plain_header socket flags) fits.own fits.peer (swap_word-lt _ (omega arith))
      (plain_header-HeaderFits socket flags fits small) even light
