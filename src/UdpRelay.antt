-- ===== src/UdpRelay.antt =====
-- relay/udprelay/: the packets of the UDP relay.
pub mod CryptoIo
pub mod Datagrams
