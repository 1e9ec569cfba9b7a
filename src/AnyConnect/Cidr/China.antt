-- ===== src/AnyConnect/Cidr/China.antt =====
-- `ParseChinaCIDRs` of internal/anyconnect/network.go: what holds of the routes that it accepts.
use mathlib.Core.Path.{subst}
use mathlib.Core.Sum.{inr-injective}
use snell_sh.Common.{
  ℕ, ◌≤◌, ◌≡◌, ◌≢◌, sym, ap, ◌∙◌, true, false, ◌&&◌, not, List, inr, arith, length, All,
}
use snell_sh.Common.Sort.{Ascending}
use snell_sh.AnyConnect.Cidr.Prefix.{Prefix, covers, exclude_special_use, non_public_ranges}
use snell_sh.AnyConnect.Cidr.Blocks.{IsBlock}
use snell_sh.AnyConnect.Cidr.Subtract.{exclude_special_use-exact}
use snell_sh.AnyConnect.Cidr.Routes.{
  collapse, normalize, largest, by_address, Format, apnic, cidr, other, china_routes, checked,
  limited, max_routes,
}
use snell_sh.AnyConnect.Cidr.Normal.{
  covers-normalize, normalize-IsBlock, normalize-Ascending, length-largest, covers-largest,
  largest-Ascending,
}
use snell_sh.AnyConnect.Cidr.Collapse.{collapse-exact, collapse-Ascending}

checked_inv :
    (f : Format) (ps routes : List Prefix) → checked f ps ≡ inr routes → limited f ps ≡ inr routes
unfolding checked
checked_inv f ps routes h = ground (arith, h)

-- Accepted routes passed the checks and are the limited ones of what the exclusion left.
accepted :
    (f : Format) (parsed routes : List Prefix)
    → china_routes f parsed ≡ inr routes
    → (f ≢ other) × (limited f (normalize (exclude_special_use parsed)) ≡ inr routes)
unfolding china_routes
accepted apnic parsed routes h =
    (λ e. ground (arith, e), checked_inv apnic _ routes (ground (arith, h)))
accepted cidr parsed routes h =
    (λ e. ground (arith, e), checked_inv cidr _ routes (ground (arith, h)))
accepted other parsed routes h = absurd (ground (arith, h))

-- The number of routes and their order.
limited_form :
    (f : Format) (ps routes : List Prefix)
    → limited f ps ≡ inr routes
    → Ascending by_address ps
    → (length routes ≤ max_routes) × Ascending by_address routes
unfolding limited
limited_form apnic ps routes h o =
    let same : largest max_routes (collapse ps) ≡ routes = inr-injective _ _ h in
    subst (λ (l : List Prefix). (length l ≤ max_routes) × Ascending by_address l) same
      (
        length-largest max_routes (collapse ps),
        largest-Ascending max_routes (collapse ps) (collapse-Ascending ps),
      )
limited_form cidr ps routes h o =
    let same : ps ≡ routes = ground (arith, h) in
    (ground (arith, h), subst (Ascending by_address) same o)
limited_form other ps routes h o =
    let same : ps ≡ routes = ground (arith, h) in
    (ground (arith, h), subst (Ascending by_address) same o)

covers-limited :
    (f : Format) (ps routes : List Prefix) (x : ℕ)
    → limited f ps ≡ inr routes
    → All IsBlock ps
    → covers routes x ≡ true
    → covers ps x ≡ true
unfolding limited
covers-limited apnic ps routes x h v c =
    let same : largest max_routes (collapse ps) ≡ routes = inr-injective _ _ h in
    sym (collapse-exact ps x v).0
    ∙ covers-largest max_routes (collapse ps) x (ap (λ (l : List Prefix). covers l x) same ∙ c)
covers-limited cidr ps routes x h v c = ground (arith, h)
covers-limited other ps routes x h v c = ground (arith, h)

-- Accepted routes are at most as many as the client takes, and each has a smaller address than the
-- next, or the same address and fewer bits.
pub china_routes_form :
    (f : Format) (parsed routes : List Prefix)
    → china_routes f parsed ≡ inr routes
    → (length routes ≤ max_routes) × Ascending by_address routes
china_routes_form f parsed routes h =
    limited_form f (normalize (exclude_special_use parsed)) routes (accepted f parsed routes h).1
      (normalize-Ascending (exclude_special_use parsed))

-- The addresses that are left before the limit.
kept :
    (parsed : List Prefix) (x : ℕ)
    → All IsBlock parsed
    → covers (normalize (exclude_special_use parsed)) x
      ≡ (covers parsed x && not (covers non_public_ranges x))
kept parsed x v =
    covers-normalize (exclude_special_use parsed) x ∙ (exclude_special_use-exact parsed x v).0

-- From parsed blocks of either format: an address that accepted routes cover is one of the parsed
-- blocks', and lies in no special-use range, so that no private or reserved network is taken out of
-- the tunnel.
pub china_routes_public :
    (f : Format) (parsed routes : List Prefix) (x : ℕ)
    → china_routes f parsed ≡ inr routes
    → All IsBlock parsed
    → covers routes x ≡ true
    → (covers parsed x ≡ true) × (covers non_public_ranges x ≡ false)
china_routes_public f parsed routes x h v c =
    let left : List Prefix = exclude_special_use parsed in
    let before : covers (normalize left) x ≡ true =
      covers-limited f (normalize left) routes x (accepted f parsed routes h).1
        (normalize-IsBlock left (exclude_special_use-exact parsed x v).1) c in
    ground (arith, kept parsed x v, before)

-- From a list of prefixes nothing else is dropped: accepted routes cover exactly the addresses of the
-- parsed blocks outside the special-use ranges.
pub china_routes-cidr :
    (parsed routes : List Prefix) (x : ℕ)
    → china_routes cidr parsed ≡ inr routes
    → All IsBlock parsed
    → covers routes x ≡ (covers parsed x && not (covers non_public_ranges x))
unfolding limited
china_routes-cidr parsed routes x h v =
    let same : normalize (exclude_special_use parsed) ≡ routes =
      ground (arith, (accepted cidr parsed routes h).1) in
    sym (ap (λ (l : List Prefix). covers l x) same) ∙ kept parsed x v
