-- ===== src/Net/Udp/Tests.antt =====
-- Tests of the UDP packets of net/udp.cc.
use shmily.Base.{ℕ, ◌+◌, ◌≡◌, refl, List, [], ◌∷◌, length}
use shmily.Net.Udp.{allocate_port, udp_connect, format_udp, send_udp, udp_send}

abbrev own_ip : List ℕ
own_ip = 172 ∷ 17 ∷ 0 ∷ 2 ∷ []

abbrev name_server : List ℕ
name_server = 8 ∷ 8 ∷ 8 ∷ 8 ∷ []

abbrev hardware : List ℕ
hardware = 1 ∷ 2 ∷ 3 ∷ 4 ∷ 5 ∷ 6 ∷ []

-- The ports wrap around into those of the well-known services.
port_wraps : allocate_port 65535 ≡ 0
unfolding allocate_port
port_wraps = refl

-- A socket's packet has no checksum.
no_checksum :
    format_udp (udp_connect own_ip name_server 53) (104 ∷ [])
    ≡ 0x79 ∷ 0x70 ∷ 0 ∷ 53 ∷ 0 ∷ 9 ∷ 0 ∷ 0 ∷ 104 ∷ []
unfolding format_udp udp_connect
no_checksum = refl

sizes :
    length (send_udp 49151 0 hardware own_ip 53 8 hardware name_server []).0
      + length (udp_send hardware own_ip hardware (udp_connect own_ip name_server 53) (104 ∷ []))
    ≡ 42 + 43
unfolding send_udp udp_send udp_connect
sizes = refl
