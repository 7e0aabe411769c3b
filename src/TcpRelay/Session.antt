-- ===== src/TcpRelay/Session.antt =====
-- relay/tcprelay/: one connection as its handler sees it: what it reads, writes and dials, and the
-- chains of its calls.
use shadowsocks_rust.Common.{ℕ, suc, List, ◌++◌, Option, some}
use shadowsocks_rust.Common.Outcome.{Outcome, ok, err, panic}
use shadowsocks_rust.Io.{IoError}
use shadowsocks_rust.Socks5.Address.{SocketAddr}
use shadowsocks_rust.Context.{Stepped}
use shadowsocks_rust.TcpRelay.ProxyStream.{ProxyStream, Dialled}

-- What the client is still to send; what was written to it; the addresses that were dialled; the
-- connection that it is joined to; and the failures that were reported against its server.
pub record Session : Type 0 where
  pub input : List ℕ
  pub output : List ℕ
  pub dialled : Dialled
  pub relayed : Option ProxyStream
  pub failures : ℕ

-- The client's socket: its peer's address, and whether it takes some bytes after those before them.
pub record Socket : Type 0 where
  pub peer_addr : Outcome IoError SocketAddr
  pub write_all : List ℕ → List ℕ → Outcome IoError (Unit {0})

abbrev pub Handler : Type 0 → Type 0
Handler A = Session → Stepped Session A

abbrev pub next : {A B : Type 0} → Stepped Session A → (A → Handler B) → Stepped Session B
next (ok a, s) f = f a s
next (err e, s) f = (err e, s)
next (panic, s) f = (panic, s)

infixl 5 ◌>>=◌
abbrev pub ◌>>=◌ : {A B : Type 0} → Handler A → (A → Handler B) → Handler B
m >>= f = λ s. next (m s) f

-- A call that leaves the session as it is.
abbrev pub lift : {A : Type 0} → Outcome IoError A → Handler A
lift o = λ s. (o, s)

-- A reader of the input; what one that fails has taken of it is not read again.
abbrev pub taken : {A : Type 0} → Session → Outcome IoError (A × List ℕ) → Stepped Session A
taken s (ok (a, rest)) = (ok a, record s { input = rest })
taken s (err e) = (err e, s)
taken s panic = (panic, s)

abbrev pub read : {A : Type 0} → (List ℕ → Outcome IoError (A × List ℕ)) → Handler A
read f = λ s. taken s (f s.input)

-- `write_all`.
unfoldable pub send : Socket → List ℕ → Handler (Unit {0})
send sock bytes = λ s. (sock.write_all s.output bytes, record s { output = s.output ++ bytes })

abbrev pub report_failure : Handler (Unit {0})
report_failure = λ s. (ok tt, record s { failures = suc s.failures })

-- The two copies between the client and the connection, whose end is only logged.
abbrev pub join : ProxyStream → Handler (Unit {0})
join stream = λ s. (ok tt, record s { relayed = some stream })
