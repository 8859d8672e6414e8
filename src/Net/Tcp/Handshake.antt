-- ===== src/Net/Tcp/Handshake.antt =====
-- The three packets of net/tcp.cc that open a connection.
use shmily.Base.{
  ℕ, ◌^◌, ◌<◌, ◌≡◌, refl, sym, ◌∙◌, ap, some, List, [], ◌∷◌, arith, update_self, add32,
}
use mathlib.Core.Path.{subst}
use shmily.Net.ByteOrder.{swap_word}
use shmily.Net.Tcp.{
  State, listening, syn_sent, syn_received, established, TcpPacket, TcpSocket, TcpFactory, Sent,
  syn_flag, ack_flag, send, format_tcp,
}
use shmily.Net.Tcp.Receive.{
  Kind, syn, syn_ack, ack, on_syn, on_syn_ack, on_ack, asked, answered, dispatch, resolve_packet,
  kind_of,
}
use shmily.Net.Tcp.Sockets.{connect, get_free_port, asking}
use shmily.Net.Tcp.Decode.{Decoded, Decoded-cast, packet_of-Decoded, resolve-dispatch}

-- `g` receives the packet that `f` sent last.
pub receive_latest : TcpFactory → List Sent → (ℕ → ℕ) → List ℕ → ℕ → TcpFactory
receive_latest g [] packet remote_ip payload_len = g
receive_latest g (x ∷ rest) packet remote_ip payload_len =
    resolve_packet g x.tcp packet remote_ip payload_len

-- At `port` of `f` is a socket in state `s` with these numbers, bound to `proc`, and these messages
-- went to processes.
pub record Endpoint (f : TcpFactory) (port peer : ℕ) (s : State) (seq next proc : ℕ)
    (notes : List (ℕ × ℕ)) : Type 0 where
  pub socket : TcpSocket
  pub found : f.sockets port ≡ some socket
  pub in_state : socket.state ≡ s
  pub at_port : socket.own_port ≡ port
  pub to_peer : socket.peer_port ≡ peer
  pub seq_is : socket.next_seq ≡ seq
  pub ack_is : socket.next_ack ≡ next
  pub bound : socket.bind_proc ≡ proc
  pub noted : f.notices ≡ notes

-- The packet that was sent last reads as given.
pub record Latest (sent : List Sent) (src dst seq next : ℕ) (k : Kind) : Type 0 where
  pub last : Sent
  pub before : List Sent
  pub first : sent ≡ last ∷ before
  pub reads : Decoded last.tcp src dst seq next k

-- The client asks.
connect-syn :
    (c : TcpFactory) (fresh : TcpSocket) (dst_ip : List ℕ) (p port : ℕ)
    → get_free_port c ≡ some p
    → p < 2 ^ 16
    → port < 2 ^ 16
    → let c' = (connect c (some fresh) dst_ip port).1 in
      Endpoint c' p port syn_sent 0 0 fresh.bind_proc c.notices × Latest c'.sent p port 0 0 syn
unfolding connect send format_tcp kind_of
connect-syn c fresh dst_ip p port free hp hport =
    rw (free, connect)
      (
        record {
          socket = _;
          found = update_self c.sockets p _;
          in_state = refl;
          at_port = refl;
          to_peer = refl;
          seq_is = refl;
          ack_is = refl;
          bound = refl;
          noted = refl;
        },
        record {
          last = _;
          before = _;
          first = refl;
          reads = packet_of-Decoded c (asking c fresh dst_ip port p) [] syn_flag (record {
            own_port_fits = hp;
            peer_port_fits = hport;
            seq_fits = omega arith;
            ack_fits = omega arith;
          });
        },
      )

-- A packet for a socket is dispatched on what it reads as.
pub receive_latest-dispatch :
    (g : TcpFactory) (sent : List Sent) (packet : ℕ → ℕ) (remote_ip : List ℕ)
    (payload_len src dst seq next : ℕ) (k : Kind) (socket : TcpSocket)
    (l : Latest sent src dst seq next k)
    → g.sockets dst ≡ some socket
    → receive_latest g sent packet remote_ip payload_len
      ≡ dispatch k g dst socket l.last.tcp packet remote_ip payload_len
unfolding receive_latest
receive_latest-dispatch g sent packet remote_ip payload_len src dst seq next k socket l here =
    rw l.first (
      resolve-dispatch g socket packet remote_ip payload_len src dst seq next k l.last.tcp l.reads
        here)

-- The server answers.
listening-syn :
    (g : TcpFactory) (sent : List Sent) (packet : ℕ → ℕ) (remote_ip : List ℕ)
    (payload_len p port seq next : ℕ) (socket : TcpSocket)
    → g.sockets port ≡ some socket
    → socket.state ≡ listening
    → socket.own_port ≡ port
    → p < 2 ^ 16
    → port < 2 ^ 16
    → Latest sent p port seq next syn
    → let g' = receive_latest g sent packet remote_ip payload_len in
      Endpoint g' port p syn_received 1 (add32 seq 1) socket.bind_proc g.notices
      × Latest g'.sent port p 0 (add32 seq 1) syn_ack
unfolding dispatch on_syn send format_tcp kind_of
listening-syn g sent packet remote_ip payload_len p port seq next socket here state own hp hport l =
    subst
      (λ (f : TcpFactory).
        Endpoint f port p syn_received 1 (add32 seq 1) socket.bind_proc g.notices
        × Latest f.sent port p 0 (add32 seq 1) syn_ack)
      (sym (
        receive_latest-dispatch g sent packet remote_ip payload_len p port seq next syn socket l
          here
        ∙ ap (λ s. on_syn s g port socket l.last.tcp remote_ip) state))
      (reply l.last.tcp l.reads)
  where
    reply :
        (h : TcpPacket)
        → Decoded h p port seq next syn
        → Endpoint
            (on_syn listening g port socket h remote_ip)
            port
            p
            syn_received
            1
            (add32 seq 1)
            socket.bind_proc
            g.notices
          × Latest (on_syn listening g port socket h remote_ip).sent port p 0 (add32 seq 1) syn_ack
    reply h d = (
      record {
        socket = _;
        found = update_self g.sockets port _;
        in_state = refl;
        at_port = own;
        to_peer = d.src_is;
        seq_is = refl;
        ack_is = ap (λ t. add32 t 1) d.seq_is;
        bound = refl;
        noted = refl;
      },
      record {
        last = _;
        before = _;
        first = refl;
        reads =
            Decoded-cast _
              (packet_of-Decoded g (asked socket h remote_ip) [] 0x12 (record {
                own_port_fits = omega arith;
                peer_port_fits = omega (arith, d.src_is);
                seq_fits = omega arith;
                ack_fits = omega arith;
              }))
              own d.src_is refl (ap (λ t. add32 t 1) d.seq_is) refl;
      },
    )

-- The client confirms.
syn_sent-syn_ack :
    (g : TcpFactory) (sent : List Sent) (packet : ℕ → ℕ) (remote_ip : List ℕ)
    (payload_len p port seq next proc : ℕ) (notes : List (ℕ × ℕ))
    → Endpoint g p port syn_sent 0 0 proc notes
    → p < 2 ^ 16
    → port < 2 ^ 16
    → Latest sent port p seq next syn_ack
    → let g' = receive_latest g sent packet remote_ip payload_len in
      Endpoint g' p port established 1 (add32 seq 1) proc notes
      × Latest g'.sent p port 1 (add32 seq 1) ack
unfolding dispatch on_syn_ack send format_tcp kind_of
syn_sent-syn_ack g sent packet remote_ip payload_len p port seq next proc notes e hp hport l =
    subst
      (λ (f : TcpFactory).
        Endpoint f p port established 1 (add32 seq 1) proc notes
        × Latest f.sent p port 1 (add32 seq 1) ack)
      (sym (
        receive_latest-dispatch g sent packet remote_ip payload_len port p seq next syn_ack e.socket
          l e.found
        ∙ ap (λ s. on_syn_ack s g p e.socket l.last.tcp) e.in_state))
      (confirm l.last.tcp l.reads)
  where
    one : add32 e.socket.next_seq 1 ≡ 1
    one = ap (λ t. add32 t 1) e.seq_is

    confirm :
        (h : TcpPacket)
        → Decoded h port p seq next syn_ack
        → Endpoint
            (on_syn_ack syn_sent g p e.socket h)
            p
            port
            established
            1
            (add32 seq 1)
            proc
            notes
          × Latest (on_syn_ack syn_sent g p e.socket h).sent p port 1 (add32 seq 1) ack
    confirm h d = (
      record {
        socket = _;
        found = update_self g.sockets p _;
        in_state = refl;
        at_port = e.at_port;
        to_peer = e.to_peer;
        seq_is = omega (arith, e.seq_is);
        ack_is = ap (λ t. add32 t 1) d.seq_is;
        bound = e.bound;
        noted = e.noted;
      },
      record {
        last = _;
        before = _;
        first = refl;
        reads =
            Decoded-cast _
              (packet_of-Decoded g (answered e.socket h) [] ack_flag (record {
                own_port_fits = omega (arith, e.at_port);
                peer_port_fits = omega (arith, e.to_peer);
                seq_fits = omega arith;
                ack_fits = omega arith;
              }))
              e.at_port e.to_peer one (ap (λ t. add32 t 1) d.seq_is) refl;
      },
    )

-- The server's process is told.
syn_received-ack :
    (g : TcpFactory) (sent : List Sent) (packet : ℕ → ℕ) (remote_ip : List ℕ)
    (payload_len p port seq next sn an proc : ℕ) (notes : List (ℕ × ℕ))
    → Endpoint g port p syn_received sn an proc notes
    → Latest sent p port seq next ack
    → let g' = receive_latest g sent packet remote_ip payload_len in
      Endpoint g' port p established sn an proc ((proc, p) ∷ notes)
unfolding dispatch on_ack
syn_received-ack g sent packet remote_ip payload_len p port seq next sn an proc notes e l =
    subst (λ (f : TcpFactory). Endpoint f port p established sn an proc ((proc, p) ∷ notes))
      (sym (
        receive_latest-dispatch g sent packet remote_ip payload_len p port seq next ack e.socket l
          e.found
        ∙ ap (λ s. on_ack s g port e.socket l.last.tcp packet payload_len) e.in_state))
      (record {
        socket = _;
        found = update_self g.sockets port _;
        in_state = refl;
        at_port = e.at_port;
        to_peer = e.to_peer;
        seq_is = e.seq_is;
        ack_is = e.ack_is;
        bound = e.bound;
        noted = noted (l.reads.src_is);
      })
  where
    noted :
        swap_word l.last.tcp.src_port ≡ p
        → ◌≡◌ {A = List (ℕ × ℕ)}
            ((e.socket.bind_proc, swap_word l.last.tcp.src_port) ∷ g.notices)
            ((proc, p) ∷ notes)
    noted q = rw (e.bound, q, e.noted)

-- A server that listens at `port`, a client that connects to this port, and the three packets
-- delivered in turn: at the end both sockets are established, each expects the number that the
-- other sends next, the server's socket has the client's port as its peer, and the process bound
-- to the server's socket is told of the client's port.
pub handshake-established :
    (c g : TcpFactory) (fresh server : TcpSocket) (packet : ℕ → ℕ) (server_ip client_ip : List ℕ)
    (p port payload_len : ℕ)
    → get_free_port c ≡ some p
    → p < 2 ^ 16
    → port < 2 ^ 16
    → g.sockets port ≡ some server
    → server.state ≡ listening
    → server.own_port ≡ port
    → let client_asks = (connect c (some fresh) server_ip port).1 in
      let server_answers = receive_latest g client_asks.sent packet client_ip payload_len in
      let confirmed = receive_latest client_asks server_answers.sent packet server_ip payload_len in
      Endpoint confirmed p port established 1 1 fresh.bind_proc c.notices
      × Endpoint
          (receive_latest server_answers confirmed.sent packet client_ip payload_len)
          port
          p
          established
          1
          1
          server.bind_proc
          ((server.bind_proc, p) ∷ g.notices)
handshake-established c g fresh server packet server_ip client_ip p port payload_len free hp hport
      here state own =
    let one = connect-syn c fresh server_ip p port free hp hport in
    let two =
      listening-syn g (connect c (some fresh) server_ip port).1.sent packet client_ip payload_len p
        port 0 0 server here state own hp hport one.1 in
    let three =
      syn_sent-syn_ack (connect c (some fresh) server_ip port).1 _ packet server_ip payload_len p
        port 0 1 fresh.bind_proc c.notices one.0 hp hport two.1 in
    (
      three.0,
      syn_received-ack _ _ packet client_ip payload_len p port 1 1 1 1 server.bind_proc g.notices
          two.0 three.1,
    )
