-- ===== src/Socks5.antt =====
-- relay/socks5.rs: the SOCKS5 protocol (RFC 1928).
pub mod Consts
pub mod Command
pub mod Reply
pub mod Error
pub mod Address
pub mod TcpRequest
pub mod TcpResponse
pub mod HandshakeReq
pub mod HandshakeResp
pub mod UdpAssociate
pub mod Tests
