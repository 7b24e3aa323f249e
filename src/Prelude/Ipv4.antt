-- ===== src/Prelude/Ipv4.antt =====
-- IPv4 addresses and networks, as the standard library reads them: an address is its number.
use portscanner.Prelude.{
  ℕ, ◌+◌, ◌-◌, ◌*◌, ◌/◌, ◌^◌, Bool, true, ◌&&◌, not, Option, none, some, List, [], ◌∷◌, leb, ◌==◌,
  if◌then◌else◌, length, all,
}
use portscanner.Prelude.Text.{Text, split_on, number, is_digit}

-- An octet: one to three digits with no leading zero, 255 at most.
abbrev pub no_leading_zero : Text → Bool
no_leading_zero (c ∷ d ∷ cs) = not (c == b'0')
no_leading_zero _ = true

pub octet : Text → Option ℕ
octet s =
    if leb 1 (length s)
      && (leb (length s) 3 && (all is_digit s && (no_leading_zero s && leb (number s) 255)))
    then some (number s)
    else none

join_octets : Option ℕ → Option ℕ → Option ℕ → Option ℕ → Option ℕ
join_octets (some a) (some b) (some c) (some d) = some (((a * 256 + b) * 256 + c) * 256 + d)
join_octets _ _ _ _ = none

address_of : List Text → Option ℕ
unfolding join_octets octet
address_of (a ∷ b ∷ c ∷ d ∷ []) = join_octets (octet a) (octet b) (octet c) (octet d)
address_of _ = none

-- `IPv4Address(text)`.
unfoldable pub ipv4_address : Text → Option ℕ
unfolding address_of octet join_octets
ipv4_address s = address_of (split_on b'.' s)

pub record Network : Type 0 where
  pub base : ℕ
  pub prefix_length : ℕ

-- `address in network`.
abbrev pub in_network : ℕ → Network → Bool
in_network address n = address / 2 ^ (32 - n.prefix_length) == n.base / 2 ^ (32 - n.prefix_length)
