-- ===== src/Net/Tcp/Closing.antt =====
-- What `close_socket` of net/tcp.cc does to the two sides.
use shmily.Base.{ℕ, ◌≡◌, refl, ◌∙◌, ap, none, some, List, [], update_self, add32}
use shmily.Net.ByteOrder.{swap_word}
use shmily.Net.Tcp.{
  established, close_wait, fin_wait1, TcpPacket, TcpSocket, TcpFactory, packet_of, send, format_tcp,
}
use shmily.Net.Tcp.Receive.{fin, on_fin, dispatch, resolve_packet, kind_of}
use shmily.Net.Tcp.Sockets.{close_socket, disconnect, forget}
use shmily.Net.Tcp.Decode.{Numbers, packet_of-Decoded}
use shmily.Net.Tcp.Diagram.{resolve_packet-no_socket}
use shmily.Net.Tcp.Handshake.{Latest, receive_latest, receive_latest-dispatch}

close_socket-Latest :
    (f : TcpFactory) (port : ℕ) (socket : TcpSocket)
    → f.sockets port ≡ some socket
    → Numbers socket
    → (f' : TcpFactory) × (close_socket f port ≡ some f')
      × (f'.sockets port ≡ none)
      × Latest f'.sent socket.own_port socket.peer_port socket.next_seq socket.next_ack fin
unfolding close_socket disconnect send format_tcp packet_of kind_of
close_socket-Latest f port socket here fits = (
  forget (disconnect f port socket) port,
  rw (here, close_socket),
  update_self (disconnect f port socket).sockets port none,
  record {
    last = packet_of f (record socket { state = fin_wait1 }) [] 0x11;
    before = f.sent;
    first = refl;
    reads =
        packet_of-Decoded f (record socket { state = fin_wait1 }) [] 0x11
          (record {
            own_port_fits = fits.own_port_fits;
            peer_port_fits = fits.peer_port_fits;
            seq_fits = fits.seq_fits;
            ack_fits = fits.ack_fits;
          });
  },
)

-- An established socket that gets a FIN waits for the close, and answers.
on_fin-established :
    (g : TcpFactory) (port : ℕ) (socket : TcpSocket)
    → (after : TcpSocket) × ((on_fin established g port socket).sockets port ≡ some after)
      × (after.state ≡ close_wait)
      × (after.next_ack ≡ add32 socket.next_ack 1)
unfolding on_fin send format_tcp
on_fin-established g port socket = (_, update_self g.sockets port _, refl, refl)

-- A process closes its socket while the other side is established. The socket is gone at once,
-- though a FIN was sent; the other side, when it gets the FIN, is in CLOSE_WAIT, and counts the FIN;
-- but whatever it sends to the closed socket's port from then on changes nothing and is not
-- answered, so that its own FIN is never acknowledged.
pub close_socket-peer_waits :
    (f g : TcpFactory) (closing peer : TcpSocket) (packet : ℕ → ℕ) (remote_ip : List ℕ)
    (from port payload_len : ℕ)
    → f.sockets from ≡ some closing
    → Numbers closing
    → closing.peer_port ≡ port
    → g.sockets port ≡ some peer
    → peer.state ≡ established
    → (f' : TcpFactory) × (close_socket f from ≡ some f')
      × (f'.sockets from ≡ none)
      × ((after : TcpSocket) × ((receive_latest g f'.sent packet remote_ip payload_len).sockets port
            ≡ some after)
          × (after.state ≡ close_wait)
          × (after.next_ack ≡ add32 peer.next_ack 1))
      × ((h : TcpPacket) (bytes : ℕ → ℕ) (ip : List ℕ) (size : ℕ)
          → swap_word h.dst_port ≡ from
          → resolve_packet f' h bytes ip size ≡ f')
unfolding dispatch
close_socket-peer_waits f g closing peer packet remote_ip from port payload_len there fits to here
      state =
    let (f', closed, gone, l) = close_socket-Latest f from closing there fits in
    let at_port : g.sockets closing.peer_port ≡ some peer = ap g.sockets to ∙ here in
    let arrived : receive_latest g f'.sent packet remote_ip payload_len
        ≡ on_fin established g port peer =
      receive_latest-dispatch g f'.sent packet remote_ip payload_len closing.own_port
        closing.peer_port closing.next_seq closing.next_ack fin peer l at_port
      ∙ ap (λ s. on_fin s g closing.peer_port peer) state
      ∙ ap (λ p. on_fin established g p peer) to in
    let (after, found, waits, counted) = on_fin-established g port peer in
    (
      f',
      closed,
      gone,
      (after, ap (λ (t : TcpFactory). t.sockets port) arrived ∙ found, waits, counted),
      λ h bytes ip size e. resolve_packet-no_socket f' h bytes ip size (ap f'.sockets e ∙ gone),
    )
