-- ===== src/AnyConnect/Cidr/Routes.antt =====
-- `normalizePrefixes`, `collapsePrefixes`, `largestPrefixes` and what `ParseChinaCIDRs` does with the
-- parsed prefixes, in internal/anyconnect/network.go.
use snell_sh.Common.{
  ℕ, ◌+◌, ◌-◌, ◌%◌, ◌^◌, Bool, true, false, ◌&&◌, ◌||◌, not, List, [], ◌∷◌, ◌++◌, Option, none,
  some, ◌⊎◌, inl, inr, ltb, leb, ◌==◌, if◌then◌else◌, any, length, take,
}
use snell_sh.Common.Sort.{sort_by}
use snell_sh.AnyConnect.Cidr.Prefix.{
  Prefix, size, contains, masked, covers, non_public_ranges, exclude_special_use, ip,
}
use snell_sh.AnyConnect.Cidr.Range.{range_to_prefixes}

-- The keys of `seen` are the prefixes' texts, which are equal exactly for equal prefixes.
abbrev pub same : Prefix → Prefix → Bool
same p q = (p.addr == q.addr) && (p.bits == q.bits)

-- The loop of `normalizePrefixes`.
unfoldable pub distinct : List Prefix → List Prefix → List Prefix
unfolding masked
distinct seen [] = []
distinct seen (p ∷ ps) = elim (any (same (masked p)) seen) [
  | true ↦ distinct seen ps
  | false ↦ masked p ∷ distinct (masked p ∷ seen) ps
]

-- The two `less` functions.
abbrev pub by_address : Prefix → Prefix → Bool
by_address p q = if p.addr == q.addr then ltb p.bits q.bits else ltb p.addr q.addr

abbrev pub by_size : Prefix → Prefix → Bool
by_size p q = if p.bits == q.bits then ltb p.addr q.addr else ltb p.bits q.bits

unfoldable pub normalize : List Prefix → List Prefix
unfolding distinct
normalize ps = sort_by by_address (distinct [] ps)

pub record Interval : Type 0 where
  pub start : ℕ
  pub end : ℕ

abbrev pub interval : Prefix → Interval
interval p = record { start = p.addr; end = p.addr + size p }

-- The loop that appends to `intervals` or extends its last one, which is the first argument.
unfoldable pub joined_from : Interval → List Prefix → List Interval
joined_from last [] = last ∷ []
joined_from last (p ∷ ps) = elim ((interval p).start == last.end) [
  | true ↦ joined_from (record last { end = (interval p).end }) ps
  | false ↦ last ∷ joined_from (interval p) ps
]

unfoldable pub intervals : List Prefix → List Interval
unfolding joined_from
intervals [] = []
intervals (p ∷ ps) = joined_from (interval p) ps

-- The loop over `intervals`. A range that is an error adds nothing.
unfoldable pub interval_prefixes : List Interval → List Prefix
unfolding range_to_prefixes
interval_prefixes [] = []
interval_prefixes (i ∷ is) =
    (elim (range_to_prefixes i.start (i.end - i.start)) [ none ↦ [] | some ps ↦ ps ])
    ++ interval_prefixes is

unfoldable pub collapse : List Prefix → List Prefix
unfolding normalize intervals interval_prefixes
collapse ps = normalize (interval_prefixes (intervals (normalize ps)))

unfoldable pub largest : ℕ → List Prefix → List Prefix
unfolding normalize
largest limit ps = if leb (length ps) limit then ps else normalize (take limit (sort_by by_size ps))

-- What `IsGlobalUnicast` and the tests beside it leave out.
abbrev block : ℕ → ℕ → Prefix
block a n = record { addr = a; bits = n }

unfoldable pub local_ranges : List Prefix
local_ranges =
    block (ip 0 0 0 0) 32
    ∷ block (ip 255 255 255 255) 32
    ∷ block (ip 127 0 0 0) 8
    ∷ block (ip 224 0 0 0) 4
    ∷ block (ip 169 254 0 0) 16
    ∷ block (ip 10 0 0 0) 8
    ∷ block (ip 172 16 0 0) 12
    ∷ block (ip 192 168 0 0) 16
    ∷ []

-- `isPublicAddress` of an IPv4 address.
unfoldable pub is_public_address : ℕ → Bool
unfolding local_ranges covers non_public_ranges
is_public_address x = not (covers local_ranges x) && not (covers non_public_ranges x)

pub data Format : Type 0 where
  apnic : Format
  cidr : Format
  other : Format

pub data Refusal : Type 0 where
  unknown_format : Refusal
  too_wide : Prefix → Refusal
  too_few : Refusal
  special_use : Prefix → Refusal
  overlap : Prefix → Refusal
  amount : ℕ → Refusal
  too_many : Refusal

abbrev wide : Prefix → Bool
wide p = ltb p.bits 7 || not (is_public_address p.addr)

-- The loop before the special-use ranges are cut out.
unfoldable pub refuse_wide : List Prefix → Option Refusal
unfolding is_public_address
refuse_wide [] = none
refuse_wide (p ∷ ps) = let rest = refuse_wide ps in if wide p then some (too_wide p) else rest

abbrev meets : Prefix → Prefix → Bool
meets p blocked = contains p blocked.addr || contains blocked p.addr

-- `index > 0 && prefixes[index-1].Contains(prefix.Addr())`
abbrev follows : Option Prefix → Prefix → Bool
follows none p = false
follows (some q) p = contains q p.addr

-- The loop after it, with the prefix before and the number of addresses so far.
unfoldable pub count_addresses : Option Prefix → List Prefix → ℕ → Refusal ⊎ ℕ
unfolding is_public_address contains non_public_ranges size
count_addresses previous [] count = inr count
count_addresses previous (p ∷ ps) count =
    let rest = count_addresses (some p) ps ((count + size p) % 2 ^ 64) in
    if wide p
    then inl (too_wide p)
    else if any (meets p) non_public_ranges
    then inl (special_use p)
    else if follows previous p
    then inl (overlap p)
    else rest

-- `maxChinaCIDRRoutes`
abbrev pub max_routes : ℕ
max_routes = 1200

-- The number of routes: the ranges of APNIC are joined and limited, a list of prefixes is not.
unfoldable pub limited : Format → List Prefix → Refusal ⊎ List Prefix
unfolding collapse largest
limited apnic ps = inr (largest max_routes (collapse ps))
limited cidr ps = if ltb max_routes (length ps) then inl too_many else inr ps
limited other ps = if ltb max_routes (length ps) then inl too_many else inr ps

unfoldable pub checked : Format → List Prefix → Refusal ⊎ List Prefix
unfolding count_addresses limited
checked format ps = if ltb (length ps) 100 then inl too_few else elim (count_addresses none ps 0) [
  | inl e ↦ inl e
  | inr n ↦ if ltb n 10000000 || ltb 1000000000 n then inl (amount n) else limited format ps
]

-- `ParseChinaCIDRs` from the prefixes that `parseAPNIC` or `parseCIDRList` returned.
unfoldable pub china_routes : Format → List Prefix → Refusal ⊎ List Prefix
unfolding refuse_wide exclude_special_use normalize checked
china_routes other parsed = inl unknown_format
china_routes format parsed = elim (refuse_wide parsed) [
  | some e ↦ inl e
  | none ↦ checked format (normalize (exclude_special_use parsed))
]
