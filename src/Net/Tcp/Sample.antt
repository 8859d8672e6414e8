-- ===== src/Net/Tcp/Sample.antt =====
-- Two hosts of net/tcp.cc for the tests: what their memory held before is 0.
use shmily.Base.{ℕ, ◌+◌, ◌*◌, none, List, [], ◌∷◌, replicate}
use shmily.Net.Interface.{new_interface}
use shmily.Net.Tcp.{TcpSocket, TcpFactory, closed, established}

abbrev pub host_ip : ℕ → List ℕ
host_ip n = 172 ∷ 17 ∷ 0 ∷ n ∷ []

abbrev pub host_mac : ℕ → List ℕ
host_mac n = 82 ∷ 84 ∷ 0 ∷ 18 ∷ 52 ∷ n ∷ []

abbrev pub host : ℕ → TcpFactory
host n = record {
  sockets = λ i. none;
  net_if = new_interface (host_mac n) (host_ip n);
  self = 4096;
  memory = λ a. 0;
  sent = [];
  notices = [];
  behind = 0;
  at_null = replicate 6 0;
}

-- A block from `malloc`.
abbrev pub block : TcpSocket
block = record {
  own_port = 0;
  own_ip = replicate 4 0;
  peer_port = 0;
  peer_ip = replicate 4 0;
  next_seq = 0;
  next_ack = 0;
  state = closed;
  recv_buffer = record { buf = λ i. 0; head = 0; tail = 0 };
  bind_proc = 0;
  tcp_factory = 0;
}

-- Ten buffers of 1600 bytes.
abbrev pub buffers : ℕ → ℕ
buffers i = 8192 + 1600 * i

-- An established socket at `own` with a peer at `peer`.
abbrev pub linked : ℕ → ℕ → TcpSocket
linked own peer = record block {
  own_port = own;
  peer_port = peer;
  peer_ip = host_ip 3;
  next_seq = 7;
  next_ack = 7;
  state = established;
  recv_buffer = record { buf = buffers; head = 0; tail = 0 };
}
