-- ===== src/AnyConnect/Tests.antt =====
-- Runs on concrete input for internal/anyconnect.
use snell_sh.Common.{
  ℕ, zero, suc, ◌+◌, ◌*◌, ◌^◌, ◌≤◌, ◌<◌, ◌≡◌, refl, true, false, ◌&&◌, not, List, [], ◌∷◌, ◌⊎◌, inr,
  All, length, none, some, arith,
}
use snell_sh.Common.Sort.{Ascending, sort_by}
use snell_sh.AnyConnect.Cidr.Prefix.{
  Prefix, ip, contains, covers, subtract_prefix, non_public_ranges,
}
use snell_sh.AnyConnect.Cidr.Blocks.{IsBlock}
use snell_sh.AnyConnect.Cidr.Range.{range_to_prefixes}
use snell_sh.AnyConnect.Cidr.Cover.{Tiles, range_to_prefixes-Tiles}
use snell_sh.AnyConnect.Cidr.Routes.{china_routes, cidr, by_address, collapse}
use snell_sh.AnyConnect.Cidr.Subtract.{subtract_prefix-exact}
use snell_sh.AnyConnect.Cidr.Collapse.{collapse-exact}
use snell_sh.AnyConnect.Cidr.China.{china_routes_public}

-- `n` blocks of 131,072 addresses from 36.0.0.0 on, with one free block's space after each.
abbrev blocks : ℕ → ℕ → List Prefix
blocks zero a = []
blocks (suc n) a = record { addr = a * 2 ^ 17; bits = 15 } ∷ blocks n (a + 2)

abbrev hundred : List Prefix
hundred = blocks 100 (36 * 128)

subtracted :
    length (
      subtract_prefix
        (record { addr = ip 10 0 0 0; bits = 7 })
        (record { addr = ip 10 3 0 0; bits = 16 }))
    ≡ 9
unfolding subtract_prefix contains
subtracted = refl

hundred_accepted : china_routes cidr hundred ≡ inr hundred
unfolding china_routes contains sort_by
hundred_accepted = refl

blocks-IsBlock : (n a : ℕ) → a + 2 * n ≤ 2 ^ 15 → All IsBlock (blocks n a)
blocks-IsBlock zero a h = tt
blocks-IsBlock (suc n) a h = (
  record { bits_le = omega arith; index = a; aligned = refl; fits = omega arith },
  blocks-IsBlock n (a + 2) (omega arith),
)

hundred-IsBlock : All IsBlock hundred
hundred-IsBlock = blocks-IsBlock 100 (36 * 128) (omega arith)

-- 10.0.0.0/8 without 10.3.0.0/16.
abbrev ten : Prefix
ten = record { addr = ip 10 0 0 0; bits = 8 }

abbrev three : Prefix
three = record { addr = ip 10 3 0 0; bits = 16 }

ten-IsBlock : IsBlock ten
ten-IsBlock = record { bits_le = omega arith; index = 10; aligned = refl; fits = omega arith }

subtract_prefix-exact_example :
    covers (subtract_prefix ten three) (ip 10 3 4 5)
    ≡ (contains ten (ip 10 3 4 5) && not (contains three (ip 10 3 4 5)))
subtract_prefix-exact_example =
    subtract_prefix-exact ten three (ip 10 3 4 5) ten-IsBlock (omega arith)

-- 1,000 addresses from 1.0.0.9 on.
range_to_prefixes-Tiles_example :
    ((ps : List Prefix) × (range_to_prefixes (ip 1 0 0 9) 1000 ≡ some ps)
      × (ip 1 0 0 9 + 1000 ≤ 2 ^ 32)
      × Tiles (ip 1 0 0 9) 1000 ps)
    ⊎ ((range_to_prefixes (ip 1 0 0 9) 1000 ≡ none) × (2 ^ 32 < ip 1 0 0 9 + 1000))
range_to_prefixes-Tiles_example =
    range_to_prefixes-Tiles (ip 1 0 0 9) 1000 (omega arith) (omega arith)

collapse-exact_example :
    (covers (collapse hundred) (ip 36 1 0 0) ≡ covers hundred (ip 36 1 0 0))
    × Ascending by_address (collapse hundred)
collapse-exact_example = collapse-exact hundred (ip 36 1 0 0) hundred-IsBlock

covered : covers hundred (ip 36 1 0 0) ≡ true
unfolding covers contains
covered = refl

china_routes_public_example :
    (covers hundred (ip 36 1 0 0) ≡ true) × (covers non_public_ranges (ip 36 1 0 0) ≡ false)
china_routes_public_example =
    china_routes_public cidr hundred hundred (ip 36 1 0 0) hundred_accepted hundred-IsBlock covered
