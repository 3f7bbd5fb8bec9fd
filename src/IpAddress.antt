-- ===== src/IpAddress.antt =====
-- The parts of Go's net.IP and net.IPNet that the program uses: an address is a slice of 4 or 16
-- bytes, and an IPv4 address may stand inside an IPv6 one.
use Prim.Native.Nat.{bit_and}
use wispurr.Base.{
  ℕ, List, [], ◌∷◌, Bool, true, false, ◌&&◌, ◌||◌, Option, none, some, ◌==◌, if◌then◌else◌, length,
}

abbrev pub Ip : Type 0
Ip = List ℕ

-- bytes.Equal
abbrev pub same_bytes : List ℕ → List ℕ → Bool
same_bytes [] [] = true
same_bytes [] (y ∷ ys) = false
same_bytes (x ∷ xs) [] = false
same_bytes (x ∷ xs) (y ∷ ys) = x == y && same_bytes xs ys

-- The 16-byte form of an IPv4 address.
abbrev pub mapped : ℕ → ℕ → ℕ → ℕ → Ip
mapped a b c d = 0 ∷ 0 ∷ 0 ∷ 0 ∷ 0 ∷ 0 ∷ 0 ∷ 0 ∷ 0 ∷ 0 ∷ 0xff ∷ 0xff ∷ a ∷ b ∷ c ∷ d ∷ []

unfoldable pub to_4 : Ip → Option Ip
to_4 (a ∷ b ∷ c ∷ d ∷ []) = some (a ∷ b ∷ c ∷ d ∷ [])
to_4 (b0 ∷ b1 ∷ b2 ∷ b3 ∷ b4 ∷ b5 ∷ b6 ∷ b7 ∷ b8 ∷ b9 ∷ b10 ∷ b11 ∷ a ∷ b ∷ c ∷ d ∷ []) =
    if same_bytes (b0 ∷ b1 ∷ b2 ∷ b3 ∷ b4 ∷ b5 ∷ b6 ∷ b7 ∷ b8 ∷ b9 ∷ b10 ∷ b11 ∷ [])
      (0 ∷ 0 ∷ 0 ∷ 0 ∷ 0 ∷ 0 ∷ 0 ∷ 0 ∷ 0 ∷ 0 ∷ 0xff ∷ 0xff ∷ [])
    then some (a ∷ b ∷ c ∷ d ∷ [])
    else none
to_4 ip = none

-- The address in its shortest form, as the code writes it: `if v4 := ip.To4(); v4 != nil { ip = v4 }`.
unfoldable pub normal : Ip → Ip
unfolding to_4
normal ip = elim (to_4 ip) [ none ↦ ip | some v4 ↦ v4 ]

abbrev octet : ℕ → List ℕ → ℕ
octet i [] = 0
octet ℕ.zero (x ∷ xs) = x
octet (ℕ.suc i) (x ∷ xs) = octet i xs

-- A test on the bytes of an IPv4 address, and another one on those of a 16-byte address.
by_family : (Ip → Bool) → (Ip → Bool) → Ip → Bool
unfolding to_4
by_family v4_test v6_test ip = elim (to_4 ip) [
  | none ↦ length ip == 16 && v6_test ip
  | some v4 ↦ v4_test v4
]

abbrev zeros_then : ℕ → Ip
zeros_then b = 0 ∷ 0 ∷ 0 ∷ 0 ∷ 0 ∷ 0 ∷ 0 ∷ 0 ∷ 0 ∷ 0 ∷ 0 ∷ 0 ∷ 0 ∷ 0 ∷ 0 ∷ b ∷ []

unfoldable pub is_unspecified : Ip → Bool
unfolding by_family
is_unspecified = by_family (same_bytes (0 ∷ 0 ∷ 0 ∷ 0 ∷ [])) (same_bytes (zeros_then 0))

unfoldable pub is_loopback : Ip → Bool
unfolding by_family
is_loopback = by_family (λ v4. octet 0 v4 == 127) (same_bytes (zeros_then 1))

unfoldable pub is_link_local_unicast : Ip → Bool
unfolding by_family
is_link_local_unicast =
    by_family (λ v4. octet 0 v4 == 169 && octet 1 v4 == 254)
      (λ ip. octet 0 ip == 0xfe && bit_and (octet 1 ip) 0xc0 == 0x80)

unfoldable pub is_link_local_multicast : Ip → Bool
unfolding by_family
is_link_local_multicast =
    by_family (λ v4. octet 0 v4 == 224 && octet 1 v4 == 0 && octet 2 v4 == 0)
      (λ ip. octet 0 ip == 0xff && bit_and (octet 1 ip) 0x0f == 0x02)

unfoldable pub is_private : Ip → Bool
unfolding by_family
is_private =
    by_family
      (λ v4.
        octet 0 v4 == 10
        || (octet 0 v4 == 172 && bit_and (octet 1 v4) 0xf0 == 16)
        || (octet 0 v4 == 192 && octet 1 v4 == 168))
      (λ ip. bit_and (octet 0 ip) 0xfe == 0xfc)

unfoldable pub is_multicast : Ip → Bool
unfolding by_family
is_multicast = by_family (λ v4. bit_and (octet 0 v4) 0xf0 == 0xe0) (λ ip. octet 0 ip == 0xff)

-- net.IPNet, with the number and the mask that networkNumberAndMask gives.
pub record IpNet : Type 0 where
  pub number : Ip
  pub mask : List ℕ

same_masked : List ℕ → Ip → Ip → Bool
same_masked (m ∷ ms) (x ∷ xs) (y ∷ ys) = bit_and x m == bit_and y m && same_masked ms xs ys
same_masked ms [] [] = true
same_masked ms xs ys = false

unfoldable pub net_contains : IpNet → Ip → Bool
unfolding normal same_masked
net_contains n ip = same_masked n.mask n.number (normal ip)

-- for _, n := range nets { if n.Contains(ip) { return true } }
abbrev pub any_contains : List IpNet → Ip → Bool
any_contains [] ip = false
any_contains (n ∷ ns) ip = net_contains n ip || any_contains ns ip
