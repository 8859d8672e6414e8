-- ===== src/Net/Tcp/Diagram.antt =====
-- The transition diagram that `resolve_packet` of net/tcp.cc follows.
use shmily.Base.{
  ℕ, ◌≡◌, ◌≢◌, refl, none, some, List, arith, update_self, Bool, true, false, if◌then◌else◌,
}
use shmily.Net.ByteOrder.{swap_word}
use shmily.Net.Tcp.{
  State, closed, listening, syn_sent, syn_received, established, fin_wait1, fin_wait2, close_wait,
  TcpPacket, TcpSocket, TcpFactory, send, format_tcp,
}
use shmily.Net.Tcp.Receive.{
  Kind, syn, syn_ack, fin, ack, other, kind_of, put_socket, on_syn, on_syn_ack, on_fin, on_ack,
  deliver_data, dispatch, resolve_packet,
}

-- Which packet takes a socket from which state to which.
pub data Edge : Kind → State → State → Type 0 where
  ask : Edge syn listening syn_received
  answer : Edge syn_ack syn_sent established
  confirm : Edge ack syn_received established
  peer_closes : Edge fin established close_wait
  both_closed : Edge fin close_wait closed
  close_first : Edge fin fin_wait1 closed
  close_second : Edge fin fin_wait2 closed
  half_closed : Edge ack fin_wait1 fin_wait2
  close_acked : Edge ack close_wait closed
  stay : {k : Kind} {s : State} → Edge k s s

-- From `f` to `f'` the socket at `port` moves along an edge that starts at `from`, it keeps its
-- port, `own`, and no other socket changes.
pub record Stepped (k : Kind) (f : TcpFactory) (port own : ℕ) (from : State) (f' : TcpFactory)
    : Type 0 where
  pub after : TcpSocket
  pub found : f'.sockets port ≡ some after
  pub edge : Edge k from after.state
  pub same_port : after.own_port ≡ own
  pub others : (p : ℕ) → p ≢ port → f'.sockets p ≡ f.sockets p

module _ (k : Kind) (f : TcpFactory) (port own : ℕ) (from : State) where
  -- A socket that is put back at its port.
  put_socket-Stepped :
      (g : TcpFactory) (after : TcpSocket)
      → ((p : ℕ) → g.sockets p ≡ f.sockets p)
      → Edge k from after.state
      → after.own_port ≡ own
      → Stepped k f port own from (put_socket g port after)
  put_socket-Stepped g after same e q = record {
    after = after;
    found = update_self g.sockets port (some after);
    edge = e;
    same_port = q;
    others = λ p ne. ground (arith, same p);
  }

  if-Stepped :
      (b : Bool) {g h : TcpFactory}
      → Stepped k f port own from g
      → Stepped k f port own from h
      → Stepped k f port own from (if b then g else h)
  if-Stepped true g h = g
  if-Stepped false g h = h

module _ (f : TcpFactory) (port : ℕ) (socket : TcpSocket)
    (here : f.sockets port ≡ some socket) where
  idle-Stepped : (k : Kind) {s : State} → s ≡ socket.state → Stepped k f port socket.own_port s f
  idle-Stepped k {s} e = record {
    after = socket;
    found = here;
    edge = rw e stay;
    same_port = refl;
    others = λ p ne. refl;
  }

  deliver_data-Stepped :
      (k : Kind) (header : TcpPacket) (packet : ℕ → ℕ) (payload_len : ℕ) {s : State}
      → s ≡ socket.state
      → Stepped k f port socket.own_port s (deliver_data f port socket header packet payload_len)
  unfolding deliver_data send format_tcp
  deliver_data-Stepped k header packet payload_len e =
      if-Stepped k f port socket.own_port _ _
        (put_socket-Stepped k f port socket.own_port _ _ _ (λ p. refl) (rw e stay) refl)
        (idle-Stepped k e)

  on_syn-Stepped :
      (s : State) (header : TcpPacket) (remote_ip : List ℕ)
      → s ≡ socket.state
      → Stepped syn f port socket.own_port s (on_syn s f port socket header remote_ip)
  unfolding on_syn send format_tcp
  on_syn-Stepped listening header remote_ip e =
      put_socket-Stepped syn f port socket.own_port _ _ _ (λ p. refl) ask refl
  on_syn-Stepped _ header remote_ip e = idle-Stepped syn e

  on_syn_ack-Stepped :
      (s : State) (header : TcpPacket)
      → s ≡ socket.state
      → Stepped syn_ack f port socket.own_port s (on_syn_ack s f port socket header)
  unfolding on_syn_ack send format_tcp
  on_syn_ack-Stepped syn_sent header e =
      put_socket-Stepped syn_ack f port socket.own_port _ _ _ (λ p. refl) answer refl
  on_syn_ack-Stepped _ header e = idle-Stepped syn_ack e

  on_fin-Stepped :
      (s : State) → s ≡ socket.state → Stepped fin f port socket.own_port s (on_fin s f port socket)
  unfolding on_fin send format_tcp
  on_fin-Stepped established e =
      put_socket-Stepped fin f port socket.own_port _ _ _ (λ p. refl) peer_closes refl
  on_fin-Stepped close_wait e =
      put_socket-Stepped fin f port socket.own_port _ _ _ (λ p. refl) both_closed refl
  on_fin-Stepped fin_wait1 e =
      put_socket-Stepped fin f port socket.own_port _ _ _ (λ p. refl) close_first refl
  on_fin-Stepped fin_wait2 e =
      put_socket-Stepped fin f port socket.own_port _ _ _ (λ p. refl) close_second refl
  on_fin-Stepped _ e = idle-Stepped fin e

  on_ack-Stepped :
      (s : State) (header : TcpPacket) (packet : ℕ → ℕ) (payload_len : ℕ)
      → s ≡ socket.state
      → Stepped ack f port socket.own_port s (on_ack s f port socket header packet payload_len)
  unfolding on_ack
  on_ack-Stepped syn_received header packet payload_len e =
      put_socket-Stepped ack f port socket.own_port _ _ _ (λ p. refl) confirm refl
  on_ack-Stepped fin_wait1 header packet payload_len e =
      put_socket-Stepped ack f port socket.own_port _ _ _ (λ p. refl) half_closed refl
  on_ack-Stepped close_wait header packet payload_len e =
      put_socket-Stepped ack f port socket.own_port _ _ _ (λ p. refl) close_acked refl
  on_ack-Stepped _ header packet payload_len e =
      deliver_data-Stepped ack header packet payload_len e

  dispatch-Stepped :
      (k : Kind) (header : TcpPacket) (packet : ℕ → ℕ) (remote_ip : List ℕ) (payload_len : ℕ)
      → Stepped k f port socket.own_port socket.state
          (dispatch k f port socket header packet remote_ip payload_len)
  unfolding dispatch
  dispatch-Stepped syn header packet remote_ip payload_len =
      on_syn-Stepped socket.state header remote_ip refl
  dispatch-Stepped syn_ack header packet remote_ip payload_len =
      on_syn_ack-Stepped socket.state header refl
  dispatch-Stepped fin header packet remote_ip payload_len = on_fin-Stepped socket.state refl
  dispatch-Stepped ack header packet remote_ip payload_len =
      on_ack-Stepped socket.state header packet payload_len refl
  dispatch-Stepped other header packet remote_ip payload_len =
      deliver_data-Stepped other header packet payload_len refl

-- A packet for a port with a socket moves this socket along an edge of the diagram that belongs to
-- the packet's flags, or leaves it in its state; the socket stays at its port, and every other
-- socket stays as it is.
pub resolve_packet-Stepped :
    (f : TcpFactory) (header : TcpPacket) (packet : ℕ → ℕ) (remote_ip : List ℕ) (payload_len : ℕ)
    (socket : TcpSocket)
    → f.sockets (swap_word header.dst_port) ≡ some socket
    → Stepped
        (kind_of header.flags)
        f
        (swap_word header.dst_port)
        socket.own_port
        socket.state
        (resolve_packet f header packet remote_ip payload_len)
unfolding resolve_packet
resolve_packet-Stepped f header packet remote_ip payload_len socket here =
    rw (here, resolve_packet)
      (dispatch-Stepped f (swap_word header.dst_port) socket here (kind_of header.flags) header
        packet remote_ip payload_len)

-- A packet for a port without a socket changes nothing and is not answered.
pub resolve_packet-no_socket :
    (f : TcpFactory) (header : TcpPacket) (packet : ℕ → ℕ) (remote_ip : List ℕ) (payload_len : ℕ)
    → f.sockets (swap_word header.dst_port) ≡ none
    → resolve_packet f header packet remote_ip payload_len ≡ f
unfolding resolve_packet
resolve_packet-no_socket f header packet remote_ip payload_len none_there =
    rw (none_there, resolve_packet)
