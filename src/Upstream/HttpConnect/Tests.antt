-- ===== src/Upstream/HttpConnect/Tests.antt =====
-- A CONNECT at a concrete answer.
use rust_socksd.Prelude.{◌≡◌, refl, List, [], ◌∷◌, ◌++◌, none, Bytes, ok, lit, is_empty}
use rust_socksd.Text.{from_utf8, trim, contains_byte, starts_with, split_whitespace, parse_uint}
use rust_socksd.Metrics.{create}
use rust_socksd.Stream.{conn}
use rust_socksd.Upstream.HttpConnect.{http_connect_handshake, connect_message, drop_bytes}
use rust_socksd.Upstream.HttpConnect.Answer.{Accepts, AreHeaders, lines_onto, connect_accepted}

abbrev headers : List Bytes
headers = lit "Via: 1.1 proxy\r" ∷ []

headers-AreHeaders : AreHeaders headers
unfolding from_utf8 trim contains_byte is_empty
headers-AreHeaders = (record { one_line = refl; text = refl; not_blank = refl }, tt)

abbrev status_line : Bytes
status_line = lit "HTTP/1.1 200 Connection Established\r"

status_line-Accepts : Accepts status_line
unfolding contains_byte from_utf8 trim is_empty starts_with split_whitespace parse_uint
status_line-Accepts = record {
  readable = record { one_line = refl; text = refl; not_blank = refl };
  http = refl;
  version = lit "HTTP/1.1";
  code = lit "200";
  reason = lit "Connection" ∷ lit "Established" ∷ [];
  words = refl;
  status = refl;
}

-- Two bytes that the proxy sent early are lost.
connect_accepted_example :
    http_connect_handshake
      (λ s. s)
      2
      (lit "a.b")
      443
      none
      none
      (conn (status_line ++ 0x0A ∷ lines_onto headers (0x0D ∷ 0x0A ∷ lit "hello")) [] 1 create)
    ≡ (
      ok tt,
      conn (drop_bytes 2 (lit "hello")) (connect_message (λ s. s) (lit "a.b") 443 none) 0 create,
    )
connect_accepted_example =
    connect_accepted (λ s. s) 2 (lit "a.b") 443 none none status_line headers (lit "hello") [] 0
      create status_line-Accepts headers-AreHeaders
