-- ===== src/Net/Tcp/OutOfOrder.antt =====
-- Packets of net/tcp.cc whose number is not the one that the socket expects.
use mathlib.Core.Path.{subst}
use shmily.Base.{
  ℕ, ◌≡◌, ◌≢◌, ◌⊎◌, inl, inr, refl, ap, ◌∙◌, some, List, [], ◌∷◌, All, update_self, update_ne,
  ==_ne,
}
use shmily.Net.ByteOrder.{swap_word, swap_double_word}
use shmily.Net.Tcp.{
  State, closed, listening, syn_sent, syn_received, established, fin_wait1, fin_wait2, closing,
  time_wait, close_wait, last_ack, accept, TcpPacket, TcpSocket, TcpFactory,
}
use shmily.Net.Tcp.Receive.{
  Kind, ack, other, kind_of, on_ack, dispatch, deliver_data, resolve_packet, put_socket,
}
use shmily.Net.Tcp.Decode.{resolve-dispatch}

-- A packet that arrives: its header, its bytes, the sender's address and the length.
pub record Arrival : Type 0 where
  pub header : TcpPacket
  pub packet : ℕ → ℕ
  pub remote_ip : List ℕ
  pub payload_len : ℕ

-- Packets that arrive one after the other.
unfoldable pub resolve_all : TcpFactory → List Arrival → TcpFactory
resolve_all g [] = g
resolve_all g (a ∷ later) =
    resolve_all (resolve_packet g a.header a.packet a.remote_ip a.payload_len) later

-- A packet for `port` with neither SYN nor FIN and another number than `expected`.
pub record IsStray (port expected : ℕ) (a : Arrival) : Type 0 where
  pub for_port : swap_word a.header.dst_port ≡ port
  pub plain : (kind_of a.header.flags ≡ ack) ⊎ (kind_of a.header.flags ≡ other)
  pub number : swap_double_word a.header.seq_num ≢ expected

-- What an ACK confirms: an answer to a SYN, or a FIN.
abbrev pub confirmed : State → State
confirmed syn_received = established
confirmed fin_wait1 = fin_wait2
confirmed close_wait = closed
confirmed s = s

abbrev pub state_after : Kind → State → State
state_after ack s = confirmed s
state_after _ s = s

-- A process is told only that the SYN's answer was confirmed.
abbrev pub told : Kind → State → ℕ × ℕ → List (ℕ × ℕ) → List (ℕ × ℕ)
told ack syn_received notice notices = notice ∷ notices
told _ _ notice notices = notices

abbrev pub state_after_all : State → List Arrival → State
state_after_all s [] = s
state_after_all s (a ∷ later) = state_after_all (state_after (kind_of a.header.flags) s) later

abbrev pub told_all : ℕ → State → List Arrival → List (ℕ × ℕ) → List (ℕ × ℕ)
told_all bind_proc s [] notices = notices
told_all bind_proc s (a ∷ later) notices =
    told_all bind_proc (state_after (kind_of a.header.flags) s) later
      (told (kind_of a.header.flags) s (bind_proc, swap_word a.header.src_port) notices)

-- The socket at `port` is `socket` in the state `s`; `notices` were sent to processes, and all else
-- is as in `g`.
pub record Unmoved (g : TcpFactory) (port : ℕ) (socket : TcpSocket) (s : State)
    (notices : List (ℕ × ℕ)) (g' : TcpFactory) : Type 0 where
  pub here : g'.sockets port ≡ some (record socket { state = s })
  pub others : (p : ℕ) → p ≢ port → g'.sockets p ≡ g.sockets p
  pub memory : g'.memory ≡ g.memory
  pub sent : g'.sent ≡ g.sent
  pub notices_are : g'.notices ≡ notices

module _ (g : TcpFactory) (port : ℕ) (socket : TcpSocket) (h : TcpPacket) (packet : ℕ → ℕ)
    (remote_ip : List ℕ) (len : ℕ) (here : g.sockets port ≡ some socket)
    (ne : swap_double_word h.seq_num ≢ socket.next_ack) where
  same : (s : State) → s ≡ socket.state → Unmoved g port socket s g.notices g
  same s e = record {
    here = rw e here;
    others = λ p far. refl;
    memory = refl;
    sent = refl;
    notices_are = refl;
  }

  deliver_data-Unmoved :
      Unmoved g port socket socket.state g.notices (deliver_data g port socket h packet len)
  unfolding deliver_data
  deliver_data-Unmoved = rw (==_ne _ _ ne) (same socket.state refl)

  stays :
      (s : State)
      → socket.state ≡ s
      → Unmoved g port socket s g.notices (deliver_data g port socket h packet len)
  stays s e =
      subst (λ s. Unmoved g port socket s g.notices (deliver_data g port socket h packet len)) e
        deliver_data-Unmoved

  moved :
      (s : State) (notices : List (ℕ × ℕ))
      → Unmoved g port socket s notices
          (put_socket (record g { notices = notices }) port (record socket { state = s }))
  moved s notices = record {
    here = update_self g.sockets port _;
    others = λ p far. update_ne g.sockets port p _ far;
    memory = refl;
    sent = refl;
    notices_are = refl;
  }

  on_ack-Unmoved :
      (s : State)
      → socket.state ≡ s
      → Unmoved g port socket
          (confirmed s)
          (told ack s (socket.bind_proc, swap_word h.src_port) g.notices)
          (on_ack s g port socket h packet len)
  unfolding on_ack
  on_ack-Unmoved syn_received e = moved established _
  on_ack-Unmoved fin_wait1 e = moved fin_wait2 _
  on_ack-Unmoved close_wait e = moved closed _
  on_ack-Unmoved closed e = stays closed e
  on_ack-Unmoved listening e = stays listening e
  on_ack-Unmoved syn_sent e = stays syn_sent e
  on_ack-Unmoved established e = stays established e
  on_ack-Unmoved fin_wait2 e = stays fin_wait2 e
  on_ack-Unmoved closing e = stays closing e
  on_ack-Unmoved time_wait e = stays time_wait e
  on_ack-Unmoved last_ack e = stays last_ack e
  on_ack-Unmoved accept e = stays accept e

  resolve_packet-Unmoved :
      swap_word h.dst_port ≡ port
      → (kind_of h.flags ≡ ack) ⊎ (kind_of h.flags ≡ other)
      → Unmoved g port socket
          (state_after (kind_of h.flags) socket.state)
          (told (kind_of h.flags) socket.state (socket.bind_proc, swap_word h.src_port) g.notices)
          (resolve_packet g h packet remote_ip len)
  unfolding dispatch
  resolve_packet-Unmoved to plain =
      let step = λ (k : Kind) (e : kind_of h.flags ≡ k).
        resolve-dispatch g socket packet remote_ip len (swap_word h.src_port) port
          (swap_double_word h.seq_num) (swap_double_word h.ack_num) k h
          (record { src_is = refl; dst_is = to; seq_is = refl; ack_is = refl; kind_is = e }) here in
      elim plain [
        | inl e ↦ rw (step ack e, e) (on_ack-Unmoved socket.state refl)
        | inr e ↦ rw (step other e, e) deliver_data-Unmoved
      ]

-- Packets with neither SYN nor FIN whose number is not the one that the socket expects, any number
-- of them, in any of its states: no received data is stored and no answer is sent, the socket keeps
-- its numbers, its peer and its queue of buffers, so that it still expects the same number, and no
-- other socket changes. Only its state may: whatever its number, an ACK confirms the SYN that was
-- answered, of which the bound process is told, or a FIN.
pub resolve_all-out_of_order :
    (arrivals : List Arrival) (g : TcpFactory) (port : ℕ) (socket : TcpSocket)
    → g.sockets port ≡ some socket
    → All (IsStray port socket.next_ack) arrivals
    → Unmoved g port socket
        (state_after_all socket.state arrivals)
        (told_all socket.bind_proc socket.state arrivals g.notices)
        (resolve_all g arrivals)
unfolding resolve_all
resolve_all-out_of_order [] g port socket here stray = record {
  here = here;
  others = λ p far. refl;
  memory = refl;
  sent = refl;
  notices_are = refl;
}
resolve_all-out_of_order (a ∷ later) g port socket here (stray, strays) =
    let once =
      resolve_packet-Unmoved g port socket a.header a.packet a.remote_ip a.payload_len here
        stray.number stray.for_port stray.plain in
    let next : TcpSocket = record socket {
      state = state_after (kind_of a.header.flags) socket.state;
    } in
    let g' = resolve_packet g a.header a.packet a.remote_ip a.payload_len in
    let rest = resolve_all-out_of_order later g' port next once.here strays in
    record {
      here = rest.here;
      others = λ p far. rest.others p far ∙ once.others p far;
      memory = rest.memory ∙ once.memory;
      sent = rest.sent ∙ once.sent;
      notices_are =
          rest.notices_are ∙ ap (told_all socket.bind_proc next.state later) once.notices_are;
    }
