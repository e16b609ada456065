-- ===== src/Text.antt =====
-- The operations of `str` and of the integers' `FromStr` and `Display` that the program uses. A
-- `String` is its bytes, which are valid UTF-8 in the program.
mod Case
mod Space
mod Split
mod Decimal
mod Utf8
pub mod Pieces
pub mod Affix
pub mod Within
pub use Case.{Unicode}
unfoldable pub use Case.{is_ascii, lower_byte, to_lowercase, to_uppercase}
unfoldable pub use Space.{space_at, trim_start, trim_end, trim, split_whitespace}
unfoldable pub use Split.{
  split_once, rsplit_once, split, split_on, strip_prefix, starts_with, ends_with, contains,
  contains_byte, trim_start_matches, split_first,
}
unfoldable pub use Decimal.{digits, parse_digits, parse_uint, decimal, decimal_onto, digit_value}
unfoldable pub use Utf8.{from_utf8, utf8_next, utf8_run}
