-- ===== src/Lib.antt =====
-- rust-socksd: a SOCKS5 and HTTP proxy server with authentication, rate limits, policies on clients
-- and targets, and upstream proxies.
--
-- A client's address is first checked against `allowed_networks` and the rate limiter. A SOCKS5
-- session is a handshake, a request and a response (src/socks5.rs); the target of the request then
-- passes the policies, is resolved once, and is dialed directly or through an upstream proxy
-- (src/upstream.rs). A request to the HTTP proxy (src/http_proxy.rs) shows its credentials with
-- every connection and then takes the same way. The server (src/server.rs) runs both under one
-- number of permits; the admin interface (src/admin.rs) hands out tokens and replaces the
-- configuration and the backend of the running server; the command line (src/main.rs) decides on
-- the configuration at the start and edits the user file.
--
-- Files:
--   Prelude      shared types, Boolean tests on ℕ, lists, results and membership
--   Text         what the program uses of `str`: bytes in UTF-8, case, space, splitting, decimal
--   Net          `IpAddr` as octets, and the standard library's parser and printer of addresses
--   Map          a `HashMap` as an association list, with its laws
--   Stream       a connection as an explicit state: the bytes still to read, the bytes written, how
--                many writes the peer takes, and the counters. An action fails with its message
--   Metrics      src/metrics.rs
--   Auth         the trait of src/auth/mod.rs
--   Config       the records of src/config.rs and their defaults; Validate has `Config::validate`,
--                Bind the addresses to listen on
--   Users        src/config/user_config.rs and src/auth/simple.rs
--   Files        files, and the loading and saving of both configurations
--   Ldap         src/auth/ldap.rs: `escape_filter_value`; Login has `authenticate`
--   Sql, Pam     src/auth/sql.rs and src/auth/pam.rs
--   Backend      `create_authenticator`, which src/admin.rs and src/server.rs have alike
--   RateLimit    src/ratelimit.rs; Bound counts what an address is granted, Alone takes one address
--                apart from the others
--   Socks5       src/socks5.rs; Protocol has the messages, Admission whom the handshake lets in
--   Upstream     src/upstream.rs: Cidr (`match_cidr`), Policy (the lists), Route (`parse_proxy_url`,
--                `resolve_upstream`), Handshake (`socks5_connect_handshake`), HttpConnect
--                (`http_connect_handshake`), Connect (`connect_to_target`)
--   HttpProxy    src/http_proxy.rs: Limits has the bound on what is read, Fuel the loop over the
--                headers, Secrets the credentials, Forward `handle_connect` and
--                `handle_regular_proxy`
--   Relay        the connection with the trace of the network, and what relaying counts
--   Server       src/server.rs: Session is one SOCKS5 connection, Web one HTTP connection, Slots the
--                accept loops and their connections as steps
--   Admin        src/admin.rs: requests and responses; Tokens has `TokenStore`, Endpoints what each
--                endpoint does, Routes `handle_admin_connection`, Mask `get_masked_config`
--   Cli          src/main.rs: where the configuration comes from; Accounts has the `user` commands
--
-- A byte is a ℕ below 256 and text is its UTF-8 bytes. Octets, ports and lengths that a theorem
-- needs in range are hypotheses. Conversions `as u8` are `% 256`, counters wrap at 64 bits, and the
-- mask of a network is computed modulo 2 ^ 32 or 2 ^ 128.
--
-- The rate limiter computes with `f64`; the model has 60 * 10 ^ 9 parts to a token and time in
-- nanoseconds, in which the refill is exact. `check` reads the time before it takes the lock, so that
-- two requests that come at once may be served in the other order; that a request with an earlier time
-- adds nothing is as in the source, but the theorems on many requests take them in order.
--
-- Parameters stand for what is not the program's: the case tables of Unicode outside ASCII, the
-- authentication backend, the password hashes, the environment, the resolvers and connections
-- (whose answers may depend on all that was done before), Base64, YAML and JSON, the LDAP directory,
-- the pools of the databases, the PAM library, the characters that are drawn for a token, and how
-- much a `BufReader` holds when it is dropped. The arguments of the command line are a record.
--
-- A step of the server is one event: a client is accepted, a permit is taken, a counter is changed, a
-- connection is over, its permit is given back, the configuration is replaced. Any order of events is
-- a run. The time that a connection may take is not modelled: it may be over at any point. Nor is a
-- handler that panics, whose task would give the permit back and leave the counter as it is.
--
-- A file has its content and what may be done with it; a write may break off for lack of room. The last
-- `Instant` is that of Linux, 2 ^ 63 seconds; a token that would live longer is a panic, which poisons
-- the token store.
--
-- Three loops run on fuel. Each turn of `skip_headers` takes a byte of the input or is the last, so the
-- length of the input and one more is enough; each turn of `read_headers` takes a byte of the limit or
-- is the last, so the limit and one more is enough, here and for the headers of the admin interface.
--
-- Not modelled: the binding of the listeners and the spawning of tasks (`start`), the bytes that are
-- relayed beyond their number, `Address::resolve`, the parsing of arguments, the layers of logging,
-- what commands print on the way, and `--generate-config`.
pub mod Prelude
pub mod Text
pub mod Net
pub mod Map
pub mod Metrics
pub mod Stream
pub mod Auth
pub mod Config
pub mod RateLimit
pub mod Users
pub mod Files
pub mod Ldap
pub mod Sql
pub mod Pam
pub mod Backend
pub mod Socks5
pub mod Upstream
pub mod Relay
pub mod HttpProxy
pub mod Server
pub mod Admin
pub mod Cli
