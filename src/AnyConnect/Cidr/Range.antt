-- ===== src/AnyConnect/Cidr/Range.antt =====
-- `rangeToPrefixes` of internal/anyconnect/network.go: a range of addresses as blocks.
use snell_sh.Common.{
  ℕ, zero, suc, ◌+◌, ◌-◌, ◌*◌, ◌/◌, ◌%◌, ◌^◌, ◌&&◌, List, [], ◌∷◌, Option, none, some, ltb, leb,
  ◌==◌, if◌then◌else◌,
}
use snell_sh.AnyConnect.Cidr.Prefix.{Prefix, size}

-- The loop that doubles `block`. A block above 2^32 is never made, so 33 rounds are enough.
unfoldable pub block_within : ℕ → ℕ → ℕ → ℕ → ℕ
block_within zero current remaining block = block
block_within (suc f) current remaining block =
    let next = block_within f current remaining (block * 2) in
    if ltb block remaining
      && ltb block (2 ^ 32)
      && (current % (block * 2) == 0)
      && leb (block * 2) remaining
    then next
    else block

-- The loop `for value := block; value > 1; value >>= 1 { bits-- }`.
unfoldable pub bits_within : ℕ → ℕ → ℕ → ℕ
bits_within zero value bits = bits
bits_within (suc f) value bits =
    let rest = bits_within f (value / 2) (bits - 1) in if ltb 1 value then rest else bits

-- The prefix of one round.
unfoldable pub next_block : ℕ → ℕ → ℕ
unfolding block_within
next_block current remaining = block_within 33 current remaining 1

unfoldable pub block_prefix : ℕ → ℕ → Prefix
unfolding bits_within
block_prefix current block = record { addr = current % 2 ^ 32; bits = bits_within 33 block 32 }

-- The loop over `remaining`. Each block has an address, so the number of addresses is enough fuel.
unfoldable pub range_within : ℕ → ℕ → ℕ → List Prefix
unfolding next_block block_prefix
range_within zero current remaining = []
range_within (suc f) current zero = []
range_within (suc f) current (suc n) =
    let block = next_block current (suc n) in
    block_prefix current block ∷ range_within f (current + block) (suc n - block)

-- `current+count` wraps at 2^64.
unfoldable pub range_to_prefixes : ℕ → ℕ → Option (List Prefix)
unfolding range_within
range_to_prefixes start count =
    if ltb (2 ^ 32) ((start + count) % 2 ^ 64) then none else some (range_within count start count)

-- The addresses of a list of prefixes, counted once for each prefix.
unfoldable pub total : List Prefix → ℕ
unfolding size
total [] = 0
total (p ∷ ps) = size p + total ps
