-- ===== src/Net.antt =====
-- The network server: byte order and frames, IP headers, the ARP cache, and TCP.
pub mod ByteOrder
pub mod Frame
pub mod Ip
pub mod Udp
pub mod Icmp
pub mod Arp
pub mod ArpCache
pub mod Interface
pub mod Tcp
pub mod ProtocolStack
