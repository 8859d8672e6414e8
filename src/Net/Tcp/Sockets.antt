-- ===== src/Net/Tcp/Sockets.antt =====
-- net/tcp.cc, the calls of the processes. A block that `malloc` returns is a socket with the
-- contents that the block had, and `none` is NULL; a result `none` is a fault at NULL.
use shmily.Base.{
  ℕ, zero, suc, ◌+◌, ◌-◌, Bool, true, false, ◌==◌, ltb, if◌then◌else◌, Option, none, some, List, [],
  add32, update,
}
use shmily.Base.Store.{read_word, read_bytes}
use shmily.Support.IndirectRingBuffer.{initialize, get_first_used_buffer}
use shmily.Net.Interface.{NetworkInterface}
use shmily.Net.Tcp.{
  State, listening, syn_sent, fin_wait1, syn_flag, ack_flag, TcpSocket, TcpFactory, send,
}
use shmily.Net.Tcp.Receive.{put_socket}

-- The constructor: 128 sockets that are NULL, with `f` what stood there before.
unfoldable pub new_factory : TcpFactory → NetworkInterface → TcpFactory
new_factory f net_if = record f {
  sockets = λ i. if ltb i 128 then none else f.sockets i;
  net_if = net_if;
}

-- `buffers` are the ten blocks for received data.
unfoldable pub listen : TcpFactory → Option TcpSocket → (ℕ → ℕ) → ℕ → Option TcpSocket × TcpFactory
unfolding initialize
listen f block buffers port = elim (f.sockets port) [
  | some socket ↦ (none, f)
  | none ↦ elim block [
    | none ↦ (none, f)
    | some fresh ↦
        let socket : TcpSocket = record fresh {
          own_ip = f.net_if.ip_addr;
          own_port = port;
          state = listening;
          recv_buffer = initialize fresh.recv_buffer buffers;
          bind_proc = 0;
        } in
        (some socket, put_socket f port socket)
  ]
]

-- The loop of `get_free_port` from port `i` on, with the rounds left.
unfoldable pub free_port_from : (ℕ → Option TcpSocket) → ℕ → ℕ → Option ℕ
free_port_from sockets i zero = none
free_port_from sockets i (suc rounds) =
    let rest = free_port_from sockets (i + 1) rounds in
    elim (sockets i) [ none ↦ some i | some socket ↦ rest ]

-- -1 is `none`.
unfoldable pub get_free_port : TcpFactory → Option ℕ
unfolding free_port_from
get_free_port f = free_port_from f.sockets 12 (128 - 12)

-- The socket that `connect` sets up in its block.
abbrev pub asking : TcpFactory → TcpSocket → List ℕ → ℕ → ℕ → TcpSocket
asking f fresh dst_ip dst_port src_port = record fresh {
  tcp_factory = f.self;
  own_ip = f.net_if.ip_addr;
  own_port = src_port;
  peer_ip = dst_ip;
  peer_port = dst_port;
  state = syn_sent;
  next_seq = 0;
  next_ack = 0;
}

-- The socket's queue of buffers is not initialised. The code writes `tcp_factory` before it tests
-- the block for NULL.
unfoldable pub connect : TcpFactory → Option TcpSocket → List ℕ → ℕ → Option TcpSocket × TcpFactory
unfolding get_free_port
connect f block dst_ip dst_port = elim block [
  | none ↦ (none, f)
  | some fresh ↦ elim (get_free_port f) [
    | none ↦ (none, f)
    | some src_port ↦
        let (f', socket') = send f (asking f fresh dst_ip dst_port src_port) [] syn_flag in
        (some socket', put_socket f' src_port socket')
  ]
]

unfoldable pub disconnect : TcpFactory → ℕ → TcpSocket → TcpFactory
disconnect f port socket =
    let (f', sent) = send f (record socket { state = fin_wait1 }) [] 0x11 in
    put_socket f' port (record sent { next_seq = add32 sent.next_seq 1 })

-- `TcpSocket::send`, for a socket at its port.
unfoldable pub socket_send : TcpFactory → ℕ → TcpSocket → List ℕ → TcpFactory
socket_send f port socket payload =
    let (f', sent) = send f socket payload ack_flag in
    if socket.tcp_factory == 0 then f else put_socket f' port sent

abbrev is_listening : State → Bool
is_listening listening = true
is_listening _ = false

unfoldable pub socket_accept : TcpFactory → ℕ → ℕ → Bool × TcpFactory
socket_accept f port bind_proc = elim (f.sockets port) [
  | none ↦ (false, f)
  | some socket ↦
      if is_listening socket.state
      then (true, put_socket f port (record socket { bind_proc = bind_proc }))
      else (false, f)
]

-- What is copied to the caller's buffer.
unfoldable pub recv : TcpFactory → ℕ → ℕ → Option (List ℕ × TcpFactory)
recv f port len = elim (f.sockets port) [
  | none ↦ none
  | some socket ↦
      let (data_buf, recv_buffer') = get_first_used_buffer socket.recv_buffer in
      let content_len = read_word f.memory data_buf in
      some (
        read_bytes f.memory (data_buf + 4) (if ltb content_len len then content_len else len),
        put_socket f port (record socket { recv_buffer = recv_buffer' }),
      )
]

unfoldable pub send_socket : TcpFactory → ℕ → List ℕ → TcpFactory
send_socket f port payload = elim (f.sockets port) [
  | none ↦ f
  | some socket ↦ let (f', sent) = send f socket payload 0x18 in put_socket f' port sent
]

-- `this->sockets[port] = nullptr`
abbrev pub forget : TcpFactory → ℕ → TcpFactory
forget f port = record f { sockets = update f.sockets port none }

-- The socket is freed as soon as its FIN is sent.
unfoldable pub close_socket : TcpFactory → ℕ → Option TcpFactory
unfolding disconnect
close_socket f port = elim (f.sockets port) [
  | none ↦ none
  | some socket ↦ some (forget (disconnect f port socket) port)
]
