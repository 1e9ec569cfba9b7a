-- ===== src/AnyConnect/Cidr/Prefix.antt =====
-- IPv4 addresses and prefixes as `net/netip` has them, and the pieces of internal/anyconnect/network.go
-- that cut one prefix out of another.
use snell_sh.Common.{
  ℕ, zero, suc, ◌+◌, ◌-◌, ◌*◌, ◌/◌, ◌%◌, ◌^◌, Bool, ◌&&◌, not, List, [], ◌∷◌, ◌++◌, leb, ◌==◌, any,
  if◌then◌else◌,
}

-- `netip.Prefix` of an IPv4 address: the address as `binary.BigEndian.Uint32` reads it, and the bits.
pub record Prefix : Type 0 where
  pub addr : ℕ
  pub bits : ℕ

-- The number of addresses, `uint64(1) << (32 - prefix.Bits())`.
unfoldable pub size : Prefix → ℕ
size p = 2 ^ (32 - p.bits)

-- `prefix.Contains(address)`: the leading bits agree.
unfoldable pub contains : Prefix → ℕ → Bool
contains p x = x / 2 ^ (32 - p.bits) == p.addr / 2 ^ (32 - p.bits)

-- `prefix.Masked()`
unfoldable pub masked : Prefix → Prefix
masked p = record p { addr = p.addr / 2 ^ (32 - p.bits) * 2 ^ (32 - p.bits) }

-- `subtractPrefix`. Each call that calls itself halves the prefix; the first argument is fuel, and
-- one more than the host bits is enough.
unfoldable pub subtract_within : ℕ → Prefix → Prefix → List Prefix
subtract_within zero prefix excluded = []
subtract_within (suc f) prefix excluded =
    let next_bits = prefix.bits + 1 in
    let left : Prefix = record { addr = prefix.addr; bits = next_bits } in
    let right : Prefix = record {
      addr = (prefix.addr + 2 ^ (32 - next_bits)) % 2 ^ 32;
      bits = next_bits;
    } in
    let halves = subtract_within f left excluded ++ subtract_within f right excluded in
    if not (contains prefix excluded.addr) && not (contains excluded prefix.addr)
    then prefix ∷ []
    else if leb excluded.bits prefix.bits && contains excluded prefix.addr
    then []
    else halves

unfoldable pub subtract_prefix : Prefix → Prefix → List Prefix
unfolding subtract_within
subtract_prefix prefix excluded = subtract_within (33 - prefix.bits) prefix excluded

-- Whether some prefix of a list holds an address.
unfoldable pub covers : List Prefix → ℕ → Bool
covers ps x = any (λ p. contains p x) ps

-- The address a.b.c.d.
abbrev pub ip : ℕ → ℕ → ℕ → ℕ → ℕ
ip a b c d = ((a * 256 + b) * 256 + c) * 256 + d

abbrev range : ℕ → ℕ → Prefix
range a n = record { addr = a; bits = n }

-- `nonPublicDownloadRanges`, the IPv4 ones, in their order.
unfoldable pub non_public_ranges : List Prefix
non_public_ranges =
    range (ip 0 0 0 0) 8
    ∷ range (ip 10 0 0 0) 8
    ∷ range (ip 100 64 0 0) 10
    ∷ range (ip 127 0 0 0) 8
    ∷ range (ip 169 254 0 0) 16
    ∷ range (ip 172 16 0 0) 12
    ∷ range (ip 192 0 0 0) 24
    ∷ range (ip 192 0 2 0) 24
    ∷ range (ip 192 88 99 0) 24
    ∷ range (ip 192 168 0 0) 16
    ∷ range (ip 198 18 0 0) 15
    ∷ range (ip 198 51 100 0) 24
    ∷ range (ip 203 0 113 0) 24
    ∷ range (ip 224 0 0 0) 4
    ∷ range (ip 240 0 0 0) 4
    ∷ []

-- The inner loop of `excludeSpecialUsePrefixes`.
unfoldable pub subtract_all : Prefix → List Prefix → List Prefix
unfolding subtract_prefix
subtract_all excluded [] = []
subtract_all excluded (p ∷ ps) = subtract_prefix p excluded ++ subtract_all excluded ps

-- Its outer loop, over the ranges that are left.
unfoldable pub exclude_all : List Prefix → List Prefix → List Prefix
unfolding subtract_all
exclude_all [] result = result
exclude_all (excluded ∷ more) result = exclude_all more (subtract_all excluded result)

unfoldable pub exclude_special_use : List Prefix → List Prefix
unfolding exclude_all non_public_ranges
exclude_special_use ps = exclude_all non_public_ranges ps
