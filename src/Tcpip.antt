-- ===== src/Tcpip.antt =====
-- tcpip: a small network stack in user space.
pub mod Links
pub mod Checksum
pub mod Route
pub mod Net
pub mod Eth
pub mod ArpCache
pub mod Arp
pub mod Ip
pub mod Device
mod Tests
