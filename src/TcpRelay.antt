-- ===== src/TcpRelay.antt =====
-- relay/tcprelay/: the encrypted TCP streams, and the services that are made of them.
pub mod Polling
pub mod AeadReader
pub mod AeadWriter
pub mod StreamReader
pub mod Draining
pub mod StreamWriter
pub mod CryptoStream
pub mod Session
pub mod Client
pub mod ProxyStream
pub mod Socks5Local
pub mod Forwarding
pub mod Server
mod Tests
