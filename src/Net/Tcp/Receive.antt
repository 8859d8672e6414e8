-- ===== src/Net/Tcp/Receive.antt =====
-- net/tcp.cc, `TcpFactory::resolve_packet`: what a packet does to the socket of its port. The
-- socket is changed in place; here it is put back at the port where it was found.
use Prim.Native.Nat.{bit_and}
use shmily.Base.{
  ℕ, zero, suc, ◌+◌, ◌-◌, ◌*◌, ◌%◌, ◌^◌, ◌==◌, if◌then◌else◌, none, some, List, [], ◌∷◌, add32,
  update,
}
use shmily.Support.IndirectRingBuffer.{get_first_free_buffer}
use shmily.Net.ByteOrder.{swap_word, swap_double_word}
use shmily.Base.Store.{write_bytes, write_word}
use shmily.Net.Tcp.{
  State, closed, listening, syn_sent, syn_received, established, fin_wait1, fin_wait2, close_wait,
  fin_flag, syn_flag, ack_flag, TcpPacket, TcpSocket, TcpFactory, send,
}

-- The cases of `switch (flags & (SYN | ACK | FIN))`.
pub data Kind : Type 0 where
  syn syn_ack fin ack other : Kind

unfoldable pub kind_of : ℕ → Kind
kind_of flags =
    let masked = bit_and flags 0x13 in
    if masked == syn_flag
    then syn
    else if masked == 0x12
    then syn_ack
    else if masked == fin_flag
    then fin
    else if masked == 0x11
    then fin
    else if masked == ack_flag
    then ack
    else other

abbrev pub put_socket : TcpFactory → ℕ → TcpSocket → TcpFactory
put_socket f port socket = record f { sockets = update f.sockets port (some socket) }

-- `send(socket, 0, 0, flags)` for a socket that stays at its port.
abbrev pub send_from : TcpFactory → ℕ → TcpSocket → ℕ → TcpFactory
send_from f port socket flags =
    let (f', socket') = send f socket [] flags in put_socket f' port socket'

-- The socket of a server that was asked, and that of a client that was answered.
abbrev pub asked : TcpSocket → TcpPacket → List ℕ → TcpSocket
asked socket header remote_ip = record socket {
  state = syn_received;
  peer_port = swap_word header.src_port;
  peer_ip = remote_ip;
  next_ack = add32 (swap_double_word header.seq_num) 1;
  next_seq = 0;
}

abbrev pub answered : TcpSocket → TcpPacket → TcpSocket
answered socket header = record socket {
  state = established;
  next_seq = add32 socket.next_seq 1;
  next_ack = add32 (swap_double_word header.seq_num) 1;
}

unfoldable pub on_syn : State → TcpFactory → ℕ → TcpSocket → TcpPacket → List ℕ → TcpFactory
on_syn listening f port socket header remote_ip =
    let (f', sent) = send f (asked socket header remote_ip) [] 0x12 in
    put_socket f' port (record sent { next_seq = add32 sent.next_seq 1 })
on_syn _ f port socket header remote_ip = f

unfoldable pub on_syn_ack : State → TcpFactory → ℕ → TcpSocket → TcpPacket → TcpFactory
on_syn_ack syn_sent f port socket header = send_from f port (answered socket header) ack_flag
on_syn_ack _ f port socket header = f

unfoldable pub on_fin : State → TcpFactory → ℕ → TcpSocket → TcpFactory
on_fin established f port socket =
    let (f', acked) =
      send f (record socket { state = close_wait; next_ack = add32 socket.next_ack 1 }) []
        ack_flag in
    send_from f' port acked 0x11
on_fin close_wait f port socket = put_socket f port (record socket { state = closed })
on_fin fin_wait1 f port socket =
    send_from f port (record socket { state = closed; next_ack = add32 socket.next_ack 1 }) ack_flag
on_fin fin_wait2 f port socket =
    send_from f port (record socket { state = closed; next_ack = add32 socket.next_ack 1 }) ack_flag
on_fin _ f port socket = f

-- How many of the `n` bytes from `start` on are not 0.
unfoldable pub count_nonzero : (ℕ → ℕ) → ℕ → ℕ → ℕ
count_nonzero m start zero = 0
count_nonzero m start (suc n) = (if 0 == m start then 0 else 1) + count_nonzero m (start + 1) n

-- The length and the content in a buffer.
abbrev pub fill_buffer : (ℕ → ℕ) → ℕ → ℕ → (ℕ → ℕ) → ℕ → ℕ
fill_buffer m p real_len content = write_bytes (write_word m p real_len) (p + 4) real_len content

-- Data that was expected goes to the next buffer and is acknowledged. `packet` is the packet in
-- memory, from its header on; a full queue of buffers gives the address 0.
unfoldable pub take_data : TcpFactory → ℕ → TcpSocket → (ℕ → ℕ) → ℕ → ℕ → TcpFactory
take_data f port socket packet start real_len =
    let (data_buf, recv_buffer') = get_first_free_buffer socket.recv_buffer in
    send_from
      (record f { memory = fill_buffer f.memory data_buf real_len (λ i. packet (start + i)) }) port
      (record socket { recv_buffer = recv_buffer'; next_ack = add32 socket.next_ack real_len })
      ack_flag

-- The case `default`. Zero bytes are not counted.
unfoldable pub deliver_data : TcpFactory → ℕ → TcpSocket → TcpPacket → (ℕ → ℕ) → ℕ → TcpFactory
unfolding count_nonzero take_data
deliver_data f port socket header packet payload_len =
    let start = header.head_size * 4 in
    let real_len = count_nonzero packet start (payload_len - start) % 2 ^ 32 in
    if swap_double_word header.seq_num == socket.next_ack
    then take_data f port socket packet start real_len
    else f

-- The other states go on to the case `default`.
unfoldable pub on_ack : State → TcpFactory → ℕ → TcpSocket → TcpPacket → (ℕ → ℕ) → ℕ → TcpFactory
on_ack syn_received f port socket header packet payload_len =
    put_socket (record f { notices = (socket.bind_proc, swap_word header.src_port) ∷ f.notices })
      port (record socket { state = established })
on_ack fin_wait1 f port socket header packet payload_len =
    put_socket f port (record socket { state = fin_wait2 })
on_ack close_wait f port socket header packet payload_len =
    put_socket f port (record socket { state = closed })
on_ack _ f port socket header packet payload_len =
    deliver_data f port socket header packet payload_len

unfoldable pub dispatch :
    Kind → TcpFactory → ℕ → TcpSocket → TcpPacket → (ℕ → ℕ) → List ℕ → ℕ → TcpFactory
dispatch syn f port socket header packet remote_ip payload_len =
    on_syn socket.state f port socket header remote_ip
dispatch syn_ack f port socket header packet remote_ip payload_len =
    on_syn_ack socket.state f port socket header
dispatch fin f port socket header packet remote_ip payload_len = on_fin socket.state f port socket
dispatch ack f port socket header packet remote_ip payload_len =
    on_ack socket.state f port socket header packet payload_len
dispatch other f port socket header packet remote_ip payload_len =
    deliver_data f port socket header packet payload_len

unfoldable pub resolve_packet : TcpFactory → TcpPacket → (ℕ → ℕ) → List ℕ → ℕ → TcpFactory
unfolding dispatch kind_of
resolve_packet f header packet remote_ip payload_len =
    let port = swap_word header.dst_port in
    elim (f.sockets port) [
      | none ↦ f
      | some socket ↦
          dispatch (kind_of header.flags) f port socket header packet remote_ip payload_len
    ]
