-- ===== src/Lib.antt =====
-- A verification library of shadowsocks-rust: models of the program's pure core and its state
-- machines, translated from the Rust sources, and the theorems that make them correct. Paths
-- below are from the repository's root.
--
-- Socks5 gives the addresses that the other modules use; Context asks Acl; TcpRelay and
-- UdpRelay encrypt by the interfaces of Crypto and ask Replay whether a nonce is new; UdpRelay
-- and the server of TcpRelay ask Context where they may connect and send, and DnsRelay leaves
-- the names for that in a cache; Manager makes keys by Crypto and counts by Flow. The modules,
-- each with the source that it models:
--
-- - Common: shared names, tests on numbers, lists, bytes and words, and Outcome, the way a call
--   ends (a value, an error or a panic).
-- - Io: the byte streams of tokio and the buffers of the bytes crate as lists of bytes,
--   io::Error, String::from_utf8.
-- - Socks5: src/relay/socks5.rs. Addresses, request and response headers, the handshake and the
--   UDP header: reading, writing, measuring.
-- - Acl: src/acl/mod.rs. The loader of access control lists (Acl/Loading), with its modes in
--   Acl/Loading/Modes, and the checks (Acl), with what they decide by the lines of a file in
--   Acl/Verdicts.
-- - Context: src/context.rs, the questions to the access control list, and
--   src/relay/dns_resolver/mod.rs, the loops over the addresses of a host.
-- - DnsRelay: src/relay/dnsrelay/mod.rs. DnsRelay/Streams is the lookup through the SOCKS5
--   server, DnsRelay/Answering the choice of the answer and the loop of the relay.
-- - Config: src/config.rs. The configuration and what each program needs of it; Config/Loading
--   makes it from the fields of a file, Config/Printing makes the fields from it,
--   Config/Restored and Config/RoundTrip compare the two; Config/Addresses has the texts of
--   addresses, those of src/relay/socks5.rs too.
-- - Replay: src/context.rs, the two Bloom filters that detect a nonce that was used before.
-- - Crypto: src/crypto/aead.rs and src/crypto/stream.rs, the interfaces of the ciphers to the
--   relays. Crypto/CipherType, Crypto/Names and Crypto/Sizes: src/crypto/cipher.rs, the cipher
--   types, their names and sizes, and the key of a password. Crypto/Keystream: what the stream
--   ciphers of a connection do beyond the trait.
-- - TcpRelay: src/relay/tcprelay/aead.rs as the state machines AeadReader and AeadWriter,
--   src/relay/tcprelay/stream.rs as StreamReader and StreamWriter, whose loop is Draining, all
--   over the polled sources and sinks of Polling; src/relay/tcprelay/crypto_io.rs as
--   CryptoStream, which joins them, CryptoStream/Shaking its handshake, CryptoStream/Pipe what
--   its reader gets. Session is one connection as its handler sees it; ProxyStream is
--   src/relay/tcprelay/proxy_stream.rs, Socks5Local socks5_local.rs, Client client.rs,
--   Forwarding tunnel_local.rs and redir_local.rs, Server server.rs, all beside it.
-- - Balancer: src/relay/loadbalancing/server.rs, the recent probes of a server and the choice
--   of the best one.
-- - Flow: src/relay/flow.rs, the counters of the relayed bytes.
-- - Manager: src/relay/manager.rs, the map of servers and the commands that change it, with
--   what it uses of src/config.rs.
-- - UdpRelay: src/relay/udprelay/crypto_io.rs as CryptoIo, the encryption of packets and the
--   check of their nonces; src/relay/udprelay/association.rs, client.rs and server.rs as
--   Datagrams, what client and server send and do with a packet.
--
-- Loops are structural, but for those that run on fuel and are proved to end before it is used
-- up: poll_read_exact and fill_iv (one more round than bytes are missing), the read_loop of
-- AeadReader (two rounds for each byte ahead and three more) and of StreamReader (one for each
-- byte ahead and three more), write_loop and write_rest (one more round than the buffer has
-- bytes), and ignore_loop (one more round than bytes are left). A port has at most five digits.
--
-- Numbers are natural numbers; a byte or a 16-bit word has its bound as a hypothesis. A stream
-- is the list of the bytes that are still to come, and its end; a writer takes all bytes. A
-- host name is the list of its UTF-8 bytes. A source of polls is the list of what each of them
-- will find, a sink the list of how much each of them will take, so a schedule is any such
-- list. Crates whose code is not in the repository (ipnet, iprange, regex, bloomfilter,
-- openssl, ring, serde_json, json5, trust-dns-proto, lru_time_cache, the AEAD implementations)
-- are records of operations with their documented laws.
--
-- Not modelled: tasks, channels and sockets, the copies between two connections, and the map of
-- UDP associations; the resolvers, the HTTP proxy, URLs of servers, and the wrappers of the
-- cipher libraries.
pub mod Common
pub mod Config
pub mod Context
pub mod DnsRelay
pub mod Io
pub mod Socks5
pub mod Acl
pub mod Replay
pub mod Crypto
pub mod TcpRelay
pub mod UdpRelay
pub mod Flow
pub mod Manager
pub mod Balancer
