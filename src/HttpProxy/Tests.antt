-- ===== src/HttpProxy/Tests.antt =====
-- A request at the HTTP side, its limit and its credentials.
use rust_socksd.Prelude.{
  arith, ◌≡◌, ◌≤◌, refl, true, ◌&&◌, [], ◌∷◌, ◌++◌, some, Bytes, lit, ok, eq_bytes, length,
  is_empty,
}
use rust_socksd.Text.{
  Unicode, from_utf8, split_once, split_whitespace, trim, to_lowercase, to_uppercase, split,
  split_first, parse_uint, strip_prefix, starts_with,
}
use rust_socksd.Map.{lookup, insert, remove, bytes_key}
use rust_socksd.Metrics.{create}
use rust_socksd.Auth.{Authenticator}
use rust_socksd.Config.{Config, default_config}
use rust_socksd.Stream.{Conn, conn}
use rust_socksd.HttpProxy.{
  HttpRequest, handle_request, add_header, read_headers, get_host_port, credentials, validate_auth,
  request_data,
}
use rust_socksd.HttpProxy.Fuel.{Settled, read_headers_enough}
use rust_socksd.HttpProxy.Limits.{handle_request_bounded}
use rust_socksd.HttpProxy.Secrets.{request_data_secret}

instance abbrev unicode : Unicode
unicode = record { lower = λ s. s; upper = λ s. s }

abbrev config : Config
config = record default_config { auth = record (default_config.auth) { enabled = true } }

abbrev input : Bytes
input = lit "GET http://a.b:81/x HTTP/1.1\r\nProxy-Authorization: Basic u:p\r\nVia: v\r\n\r\nbody"

abbrev client : Conn
client = conn input [] 0 create

abbrev request : HttpRequest
request = record {
  method = lit "GET";
  uri = lit "http://a.b:81/x";
  version = lit "HTTP/1.1";
  headers = (lit "proxy-authorization", lit "Basic u:p") ∷ (lit "via", lit "v") ∷ [];
}

reads : handle_request config client ≡ (ok request, conn (lit "body") [] 0 create)
unfolding handle_request from_utf8 split_whitespace trim to_lowercase split_once insert eq_bytes
    is_empty add_header
reads = refl

names : get_host_port request ≡ ok (lit "a.b", 81)
unfolding get_host_port to_uppercase eq_bytes split split_first parse_uint strip_prefix starts_with
names = refl

sends : request_data request ≡ lit "GET http://a.b:81/x HTTP/1.1\r\nvia: v\r\n\r\n"
unfolding request_data eq_bytes
sends = refl

abbrev backend : Authenticator
backend = record { authenticate = λ u p. ok (eq_bytes u (lit "u") && eq_bytes p (lit "p")) }

lets_in : (validate_auth (λ s. some s) config (some backend) true request client).0 ≡ true
unfolding validate_auth credentials lookup eq_bytes strip_prefix from_utf8 split_once
lets_in = refl

handle_request_bounded_example :
    (taken : Bytes) × (client.input ≡ taken ++ (handle_request config client).1.input)
    × (length taken ≤ config.security.max_request_size)
handle_request_bounded_example = handle_request_bounded config client

request_data_secret_example :
    request_data request
    ≡ request_data (record request { headers = remove (lit "proxy-authorization") request.headers })
request_data_secret_example = request_data_secret request

read_headers_enough_example : Settled [] (30, client) (read_headers 31 [] (30, client))
read_headers_enough_example = read_headers_enough 31 [] (30, client) (omega arith)
