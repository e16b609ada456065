-- ===== src/Net/Tests.antt =====
-- Addresses read and shown at concrete texts.
use rust_socksd.Prelude.{◌≡◌, refl, [], ◌∷◌, some, none, lit, List, ℕ}
use rust_socksd.Net.Addr.{v4, v6}
use rust_socksd.Net.Parse.{parse_ip}
use rust_socksd.Net.Display.{display_ip}
use rust_socksd.Text.{decimal, strip_prefix}

abbrev documentation : List ℕ
documentation = 0x20 ∷ 0x01 ∷ 0x0d ∷ 0xb8 ∷ 0 ∷ 0 ∷ 0 ∷ 0 ∷ 0 ∷ 0 ∷ 0 ∷ 0 ∷ 0 ∷ 0 ∷ 0 ∷ 1 ∷ []

parse_texts :
    (parse_ip (lit "192.168.1.5") ≡ some (v4 (192 ∷ 168 ∷ 1 ∷ 5 ∷ [])))
    × (parse_ip (lit "2001:db8::1") ≡ some (v6 documentation))
    × (parse_ip (lit "2001:db8:0:0:0::0.0.0.1") ≡ some (v6 documentation))
    × (parse_ip (lit "1.2.3.256") ≡ none)
    × (parse_ip (lit "1.2.3.04") ≡ none)
    × (parse_ip (lit "example.com") ≡ none)
    × (parse_ip (lit "") ≡ none)
unfolding parse_ip
parse_texts = (refl, refl, refl, refl, refl, refl, refl)

display_texts :
    (display_ip (v4 (10 ∷ 0 ∷ 200 ∷ 7 ∷ [])) ≡ lit "10.0.200.7")
    × (display_ip (v6 documentation) ≡ lit "2001:db8::1")
unfolding display_ip decimal strip_prefix
display_texts = (refl, refl)
