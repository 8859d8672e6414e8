-- ===== src/Net/Interface.antt =====
-- net/network_interface.cc and net/route_table.cc: an interface with its addresses, the ARP cache
-- and the default gateway.
use shmily.Base.{ℕ, ◌/◌, ◌%◌, ◌^◌, List, [], ◌∷◌, Option}
use shmily.Net.ArpCache.{Item, new_table, get_mac_addr, set_item}

pub record RouteItem : Type 0 where
  pub destination : List ℕ
  pub gateway : List ℕ
  pub mask : List ℕ

abbrev no_address : List ℕ
no_address = 0 ∷ 0 ∷ 0 ∷ 0 ∷ []

-- The first item, the default gateway; the other three are never written.
unfoldable pub new_route_table : RouteItem
new_route_table = record { destination = no_address; gateway = no_address; mask = no_address }

unfoldable pub get_default_gateway : RouteItem → List ℕ
get_default_gateway item = item.gateway

unfoldable pub set_default_gateway : RouteItem → List ℕ → RouteItem
set_default_gateway item default_gateway = record item { gateway = default_gateway }

pub record NetworkInterface : Type 0 where
  pub mac_addr : List ℕ
  pub ip_addr : List ℕ
  pub arp_tbl : List Item
  pub route_tbl : RouteItem

-- The constructor with two addresses.
unfoldable pub new_interface : List ℕ → List ℕ → NetworkInterface
unfolding set_item set_default_gateway new_route_table
new_interface mac_addr ip_addr = record {
  mac_addr = mac_addr;
  ip_addr = ip_addr;
  arp_tbl = set_item 0 mac_addr ip_addr new_table;
  route_tbl = set_default_gateway new_route_table (172 ∷ 17 ∷ 0 ∷ 1 ∷ []);
}

unfoldable pub set_mac_addr : NetworkInterface → List ℕ → NetworkInterface
set_mac_addr net_if mac_addr = record net_if { mac_addr = mac_addr }

unfoldable pub set_ip_addr : NetworkInterface → List ℕ → NetworkInterface
set_ip_addr net_if ip_addr = record net_if { ip_addr = ip_addr }

unfoldable pub get_default_gateway_ip : NetworkInterface → List ℕ
unfolding get_default_gateway
get_default_gateway_ip net_if = get_default_gateway net_if.route_tbl

-- NULL is `none`. The lookup counts a use of the item.
unfoldable pub get_default_gateway_mac : NetworkInterface → Option (List ℕ) × NetworkInterface
unfolding get_default_gateway_ip get_mac_addr
get_default_gateway_mac net_if =
    let (mac, items) = get_mac_addr (get_default_gateway_ip net_if) net_if.arp_tbl in
    (mac, record net_if { arp_tbl = items })

-- The address comes as a number whose first byte is the highest; the gateway is not used.
unfoldable pub config_iface : NetworkInterface → ℕ → ℕ → NetworkInterface
unfolding set_ip_addr
config_iface net_if ip_uint gateway_uint = set_ip_addr net_if (
    ip_uint / 2 ^ 24 % 256
    ∷ (ip_uint / 2 ^ 16 % 256)
    ∷ (ip_uint / 2 ^ 8 % 256)
    ∷ (ip_uint % 256)
    ∷ [])
