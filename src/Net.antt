-- ===== src/Net.antt =====
-- `std::net`: addresses as their octets, `parse::<IpAddr>()`, `parse::<SocketAddr>()` and `Display`.
mod Addr
mod Parse
mod Display
mod Tests
unfoldable pub use Addr.{from_be_bytes, to_be_bytes, eq_ip}
pub use Addr.{IpAddr, v4, v6, SocketAddr, eq_ip_iff, AreBytes, Octets, from_be-lt, are_bytes}
unfoldable pub use Parse.{parse_ip}
unfoldable pub use Parse.Socket.{parse_socket_addr}
pub use Parse.Extends.{parse_socket_addr-v4}
unfoldable pub use Display.{display_ip}
