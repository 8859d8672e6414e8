-- ===== src/Net/Icmp/Tests.antt =====
-- Tests of the echo packets of net/icmp.cc.
use shmily.Base.{ℕ, ◌+◌, ◌≡◌, refl, true, List, [], ◌∷◌, length}
use shmily.Net.Icmp.{
  format_icmp, resolve_icmp, icmp_request, icmp_reply, icmp_request_send, icmp_reply_send,
  a_request, a_reply, reply_seq,
}

request_line : resolve_icmp true (format_icmp 0 icmp_request) ≡ a_request ∷ []
unfolding resolve_icmp format_icmp
request_line = refl

reply_lines : resolve_icmp true (format_icmp 0 icmp_reply) ≡ a_reply ∷ reply_seq 0 ∷ []
unfolding resolve_icmp format_icmp
reply_lines = refl

abbrev ip : List ℕ
ip = 10 ∷ 0 ∷ 2 ∷ 15 ∷ []

abbrev mac : List ℕ
mac = 82 ∷ 84 ∷ 0 ∷ 18 ∷ 52 ∷ 86 ∷ []

sizes :
    length (icmp_request_send 0 mac ip ip mac).0 + length (icmp_reply_send 0 mac ip ip mac)
    ≡ 98 + 98
unfolding icmp_request_send icmp_reply_send
sizes = refl

needs_output : (icmp_request_send 0 mac ip ip mac).1 ≡ true
unfolding icmp_request_send
needs_output = refl
