-- ===== src/Net/Tcp/Transfer.antt =====
-- Data from `send_socket` on one side to `recv` on the other, net/tcp.cc.
use shmily.Base.{ℕ, ◌<◌, ◌≡◌, add32}
use shmily.Support.IndirectRingBuffer.{
  IndirectRingBuffer, get_first_free_buffer, get_first_used_buffer,
}
use shmily.Net.Tcp.{TcpSocket}

-- The queue of buffers is empty, and at the buffer that comes next.
pub record IsIdle (rb : IndirectRingBuffer) : Type 0 where
  pub head_in : rb.head < 10
  pub empty : rb.tail ≡ rb.head

-- The socket after the consumer took a buffer.
abbrev pub consumed : TcpSocket → TcpSocket
consumed socket = record socket { recv_buffer = (get_first_used_buffer socket.recv_buffer).1 }

-- The socket that `take_data` leaves.
abbrev pub received : TcpSocket → ℕ → TcpSocket
received socket n = record socket {
  recv_buffer = (get_first_free_buffer socket.recv_buffer).1;
  next_ack = add32 socket.next_ack n;
  next_seq = add32 socket.next_seq 0;
}
