-- ===== src/Net/ArpCache/Tests.antt =====
-- Tests of the ARP cache of net/arp.cc.
use shmily.Base.{ℕ, ◌≡◌, refl, List, [], ◌∷◌, some}
use shmily.Net.ArpCache.{
  new_table, is_same_addr, is_zero, get_ip_addr, get_free_slot, is_exists, set_item, append,
}

abbrev mac : List ℕ
mac = 82 ∷ 84 ∷ 0 ∷ 18 ∷ 52 ∷ 86 ∷ []

abbrev ip : List ℕ
ip = 10 ∷ 0 ∷ 2 ∷ 15 ∷ []

abbrev new_ip : List ℕ
new_ip = 10 ∷ 0 ∷ 2 ∷ 16 ∷ []

-- A host that changes its IP address is still found under the old one.
old_address : (get_ip_addr mac (append mac new_ip (append mac ip new_table))).0 ≡ some ip
unfolding append is_exists set_item get_free_slot get_ip_addr is_same_addr is_zero
old_address = refl
