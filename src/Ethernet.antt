-- ===== src/Ethernet.antt =====
-- socket/EthernetUtils.h and socket/EthernetUtils.cpp, one module for each group of functions.
pub mod Mac
pub mod Multicast
pub mod Iface
pub mod Frames
pub mod Ip
pub mod CheckData
pub mod Checksum
pub mod Reference
mod Tests
