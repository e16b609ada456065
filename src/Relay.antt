-- ===== src/Relay.antt =====
-- What the handlers of src/server.rs and src/http_proxy.rs share once a client is let in: actions on
-- the client's connection together with the trace of what was done to the network, and the copying
-- between two connections. The sockets' addresses and the copying are parameters; of the copying
-- the model keeps the numbers of bytes.
use rust_socksd.Prelude.{ℕ, Bool, Bytes, lit, Result, ok, err}
use rust_socksd.Text.{contains}
use rust_socksd.Net.{SocketAddr}
use rust_socksd.Metrics.{fetch_add}
use rust_socksd.Stream.{Conn}
use rust_socksd.Upstream.Connect.{Trace}

-- The addresses of sockets, the copying, and how much a `BufReader` holds beyond what was read.
pub record Sockets : Type 0 where
  pub read_ahead : ℕ
  pub local_addr : Conn → Result SocketAddr
  pub copy_bidirectional : Conn → Conn → Result (ℕ × ℕ)

-- The connection and the trace.
abbrev pub Wire : Type 0
Wire = Conn × Trace

abbrev pub Session : Type 0
Session = Wire → Result (Unit {0}) × Wire

-- An action on the connection alone, and what follows when it succeeds.
abbrev pub proceed {ℓ} :
    {A : Type ℓ} → Result A × Conn → Trace → (A → Session) → Result (Unit {0}) × Wire
proceed (ok a, c) trace next = next a (c, trace)
proceed (err e, c) trace next = (err e, (c, trace))

abbrev pub count_bytes : ℕ → ℕ → Conn → Conn
count_bytes tx rx c = record c {
  metrics = record (c.metrics) {
    bytes_tx = fetch_add c.metrics.bytes_tx tx;
    bytes_rx = fetch_add c.metrics.bytes_rx rx;
  };
}

-- What is counted once both directions are closed; an error of the copying is no error.
abbrev pub count_copied : Result (ℕ × ℕ) → Conn → Conn
count_copied (ok (tx, rx)) c = count_bytes tx rx c
count_copied (err e) c = c

-- `e.to_string().contains("blocked by security policy")`
abbrev pub is_policy_error : Bytes → Bool
is_policy_error e = contains (lit "blocked by security policy") e
