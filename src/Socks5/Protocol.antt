-- ===== src/Socks5/Protocol.antt =====
-- The messages of the protocol: methods, commands, addresses, requests and responses.
use rust_socksd.Prelude.{
  ℕ, ◌%◌, Bool, true, false, List, [], ◌∷◌, ◌++◌, ◌==◌, if◌then◌else◌, Bytes, length, any,
}
use rust_socksd.Net.{IpAddr, v4, v6, SocketAddr, to_be_bytes}

pub data AuthMethod : Type 0 where
  no_auth user_pass no_acceptable : AuthMethod

-- `AuthMethod::from`
abbrev pub auth_method : ℕ → AuthMethod
auth_method value =
    if value == 0x00 then no_auth else if value == 0x02 then user_pass else no_acceptable

-- `method as u8`
abbrev pub method_code : AuthMethod → ℕ
method_code no_auth = 0x00
method_code user_pass = 0x02
method_code no_acceptable = 0xFF

-- `methods.contains(&AuthMethod::..)`
abbrev pub is_no_auth : AuthMethod → Bool
is_no_auth no_auth = true
is_no_auth m = false

abbrev pub is_user_pass : AuthMethod → Bool
is_user_pass user_pass = true
is_user_pass m = false

-- The choice of the method from those that the client offers.
unfoldable pub select_method : Bool → List AuthMethod → AuthMethod
unfolding any
select_method true methods = if any is_user_pass methods then user_pass else no_acceptable
select_method false methods = if any is_no_auth methods then no_auth else no_acceptable

pub data Command : Type 0 where
  connect bind udp_associate : Command

-- `Command::from`
abbrev pub command : ℕ → Command
command value =
    if value == 0x01
    then connect
    else if value == 0x02
    then bind
    else if value == 0x03
    then udp_associate
    else connect

pub data AddressType : Type 0 where
  ipv4_type domain_name_type ipv6_type : AddressType

-- `AddressType::from`
abbrev pub address_type : ℕ → AddressType
address_type value =
    if value == 0x01
    then ipv4_type
    else if value == 0x03
    then domain_name_type
    else if value == 0x04
    then ipv6_type
    else domain_name_type

pub data Address : Type 0 where
  ipv4 ipv6 domain_name : Bytes → Address

pub record Socks5Request : Type 0 where
  pub command : Command
  pub address : Address
  pub port : ℕ

pub record Socks5Response : Type 0 where
  pub reply : ℕ
  pub address : Address
  pub port : ℕ

abbrev pub ip_address : IpAddr → Address
ip_address (v4 octets) = ipv4 octets
ip_address (v6 octets) = ipv6 octets

-- `Socks5Response::new_success`
unfoldable pub new_success : SocketAddr → Socks5Response
new_success bind_addr = record {
  reply = 0x00;
  address = ip_address bind_addr.ip;
  port = bind_addr.port;
}

-- `Socks5Response::new_error`
unfoldable pub new_error : ℕ → Socks5Response
new_error reply_code = record { reply = reply_code; address = ipv4 (0 ∷ 0 ∷ 0 ∷ 0 ∷ []); port = 0 }

unfoldable pub encode_address : Address → Bytes
encode_address (ipv4 octets) = 0x01 ∷ octets
encode_address (ipv6 octets) = 0x04 ∷ octets
encode_address (domain_name domain) = 0x03 ∷ (length domain % 256) ∷ domain

-- The message that `send_response` writes.
unfoldable pub encode_response : Socks5Response → Bytes
unfolding encode_address to_be_bytes
encode_response r = 0x05 ∷ r.reply ∷ 0x00 ∷ (encode_address r.address ++ to_be_bytes 2 r.port)
