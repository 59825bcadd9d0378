-- ===== src/NetShield.antt =====
-- packages/net-shield: the packet filter, the DNS filter and the rule sets that they consult.
pub mod Utf8
pub mod Sni
pub mod Udp
pub mod Dns
pub mod Radix
pub mod Cidr
pub mod Keyword
pub mod Blocklist
pub mod Lru
pub mod Worker
pub mod DnsShield
pub mod Tun
