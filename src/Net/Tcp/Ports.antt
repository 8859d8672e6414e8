-- ===== src/Net/Tcp/Ports.antt =====
-- The ports that `get_free_port` of net/tcp.cc gives to clients.
use shmily.Base.{
  ℕ, zero, suc, ◌+◌, ◌≤◌, ◌<◌, ◌≡◌, ◌≢◌, inl, inr, Option, none, some, arith, Option-cases,
  ℕ_discrete,
}
use shmily.Net.Tcp.{TcpSocket, TcpFactory}
use shmily.Net.Tcp.Sockets.{free_port_from, get_free_port}

-- `r` is the first free port from `i` on below `i + n`, or all these are taken.
abbrev pub FirstFree : (ℕ → Option TcpSocket) → ℕ → ℕ → Option ℕ → Type 0
FirstFree sockets i n none = (p : ℕ) → i ≤ p → p < i + n → sockets p ≢ none
FirstFree sockets i n (some r) =
    (i ≤ r) × (r < i + n) × (sockets r ≡ none) × ((p : ℕ) → i ≤ p → p < r → sockets p ≢ none)

taken_from :
    (sockets : ℕ → Option TcpSocket) (i p : ℕ)
    → sockets i ≢ none
    → i ≤ p
    → (i + 1 ≤ p → sockets p ≢ none)
    → sockets p ≢ none
taken_from sockets i p taken lo later = elim (ℕ_discrete p i) [
  | yes e ↦ rw e taken
  | no ne ↦ later (omega arith)
]

skip :
    (sockets : ℕ → Option TcpSocket) (i n : ℕ) (r : Option ℕ)
    → sockets i ≢ none
    → FirstFree sockets (i + 1) n r
    → FirstFree sockets i (suc n) r
skip sockets i n none taken h =
    λ p lo hi. taken_from sockets i p taken lo (λ after. h p after (omega arith))
skip sockets i n (some r) taken h = (
  omega (arith, h.0),
  omega (arith, h.1),
  h.2,
  λ p lo hi. taken_from sockets i p taken lo (λ after. h.3 p after hi),
)

free_port_from-FirstFree :
    (sockets : ℕ → Option TcpSocket) (i n : ℕ) → FirstFree sockets i n (free_port_from sockets i n)
unfolding free_port_from
free_port_from-FirstFree sockets i zero = λ p lo hi. absurd (omega arith)
free_port_from-FirstFree sockets i (suc n) = elim (Option-cases (sockets i)) [
  | inl e ↦ rw (e, free_port_from) (omega arith, omega arith, e, λ p lo hi. absurd (omega arith))
  | inr (socket, e) ↦
      rw (e, free_port_from)
        (skip sockets i n _ (λ q. cc) (free_port_from-FirstFree sockets (i + 1) n))
]

-- `get_free_port` gives the lowest port from 12 to 127 without a socket, and -1 only if all of
-- these have one.
pub get_free_port-FirstFree : (f : TcpFactory) → FirstFree f.sockets 12 116 (get_free_port f)
unfolding get_free_port
get_free_port-FirstFree f = free_port_from-FirstFree f.sockets 12 116
